-- ===== src/AccessPoint/Data.antt =====
-- src/ap/data.rs: data frames from the stations, and Ethernet frames towards them. The code panics
-- where a cipher refuses its input; here no frame is sent.
pub mod Replay
use oxwifid.Base.{
  ℕ, ◌+◌, ◌%◌, Bool, true, false, not, ◌&&◌, ◌||◌, Option, none, some, List, [], ◌∷◌, ◌++◌, Octets,
  length, take, drop, slice, get_or, set, leb, ltb, ◌==◌, if◌then◌else◌, bytes_eq, be_value,
  replicate,
}
use mathlib.Core.Option
use Prim.Native.Nat.{bit_or}
use oxwifid.Security.{DataCipher, key_len}
use DataCipher.{ccmp128}
use oxwifid.Security.EapolKey.{bit_set}
use oxwifid.Failures.{FailureKind}
use FailureKind.{ccmp_data}
use oxwifid.Frames.{fc_fromds}
use oxwifid.Frames.Dot11.{Dot11, is_amsdu, is_fragment, ccmp_key_id, ccmp_pn}
use oxwifid.Frames.Data.{build_protected_data_sec, decrypt_protected_data_sec}
use oxwifid.Frames.Management.{build_deauth, fc_protected, sec_or}
use oxwifid.Client.Uplink.{wmm_tid}
use oxwifid.AccessPoint.State.{Ap, Env, Outgoing, Station, next_station_pn, prepend_radiotap, tx}
use oxwifid.AccessPoint.State.Stations.{get_station}
use oxwifid.AccessPoint.Configuration.{ap_next_sc, next_group_pn}
use oxwifid.AccessPoint.Lifecycle.{change_station, is_associated, report_failure}
use oxwifid.AccessPoint.Mld.{mld_data_rx_sec_addrs, mld_data_tx_sec_addrs}

-- The window of a traffic identifier; 16 is for frames without QoS.
abbrev pub uplink_window : Option ℕ → ℕ
uplink_window none = 16
uplink_window (some q) = q % 16

abbrev pub advance_window : ℕ → ℕ → Station → Station
advance_window window pn s = record s { last_rx_pn = set s.last_rx_pn window pn }

-- On a guest network no frame goes to another station.
unfoldable pub forward : Octets → Ap × Outgoing → Ap × Outgoing
forward eth (ap, out) =
    if ap.guest && is_associated (take 6 eth) ap
    then (ap, out)
    else (ap, record out { to_network = out.to_network ++ (eth ∷ []) })

abbrev pub accept_uplink : Dot11 → ℕ → Option Octets → Ap × Outgoing → Ap × Outgoing
accept_uplink f pn none (ap, out) = (report_failure f.addr2 ccmp_data ap, out)
accept_uplink f pn (some eth) (ap, out) =
    if leb 12 (length eth) && bytes_eq (slice 6 6 eth) f.addr2
    then forward eth (change_station f.addr2 (advance_window (uplink_window f.qos) pn) ap, out)
    else (ap, out)

unfoldable pub open_uplink : Env → Dot11 → Station → Ap → Option Octets
open_uplink e f s ap =
    decrypt_protected_data_sec e.ciphers s.pairwise_cipher f
      (take (key_len s.pairwise_cipher) s.pairwise_tk) false (mld_data_rx_sec_addrs f.addr2 f ap)

abbrev pub uplink_with_pn : Env → Dot11 → Station → Option ℕ → Ap × Outgoing → Ap × Outgoing
uplink_with_pn e f s none st = st
uplink_with_pn e f s (some pn) (ap, out) =
    if leb pn (get_or s.last_rx_pn (uplink_window f.qos) 0)
    then (ap, out)
    else accept_uplink f pn (open_uplink e f s ap) (ap, out)

-- A station that is not known is told so.
abbrev pub uplink_from : Env → Dot11 → Option Station → Ap × Outgoing → Ap × Outgoing
uplink_from e f none (ap, out) = (ap, tx (build_deauth ap.mac f.addr2 7) out)
uplink_from e f (some s) (ap, out) =
    if s.associated then uplink_with_pn e f s (ccmp_pn f) (ap, out) else (ap, out)

unfoldable pub handle_data_uplink : Env → Dot11 → Ap × Outgoing → Ap × Outgoing
handle_data_uplink e f (ap, out) =
    if not (bytes_eq f.addr1 ap.mac)
    then (ap, out)
    else if is_amsdu f || is_fragment f
    then (ap, out)
    else if not (ccmp_key_id f == 0)
    then (ap, out)
    else uplink_from e f (get_station f.addr2 ap.stations) (ap, out)

-- What a frame to a station or to the group is sealed with.
pub record Sealing : Type 0 where
  pub cipher : DataCipher
  pub key_id : ℕ
  pub pn : ℕ
  pub tk : Octets
  pub qos_tid : Option ℕ
  pub sec_addrs : Option (Octets × Octets × Octets)

abbrev frames_of : Option Octets → List Octets
frames_of none = []
frames_of (some frame) = prepend_radiotap frame ∷ []

unfoldable pub send_sealed : Env → Octets → Sealing → Ap → Ap × List Octets
send_sealed e eth k ap =
    let (ap1, sc) = ap_next_sc ap in
    let dst = take 6 eth in
    let src = slice 6 6 eth in
    let (sec_a1, sec_a2, sec_a3) = sec_or k.sec_addrs dst ap1.mac src in
    (
      ap1,
      frames_of (
          build_protected_data_sec e.ciphers k.cipher dst ap1.mac src sec_a1 sec_a2 sec_a3
            (bit_or fc_fromds fc_protected) sc k.pn k.key_id (take (key_len k.cipher) k.tk)
            (be_value (slice 12 2 eth)) (drop 14 eth) k.qos_tid),
    )

-- The group key stands in an array of 32 octets.
abbrev group_sealing : ℕ → Ap → Sealing
group_sealing pn ap = record {
  cipher = ccmp128;
  key_id = ap.gtk_key_id;
  pn = pn;
  tk = ap.gtk ++ replicate 16 0;
  qos_tid = none;
  sec_addrs = none;
}

abbrev deliver_to_group : Env → Octets → Ap × Option ℕ → Ap × List Octets
deliver_to_group e eth (ap, none) = (ap, [])
deliver_to_group e eth (ap, some pn) = send_sealed e eth (group_sealing pn ap) ap

abbrev station_sealing : Octets → Station → ℕ → Ap → Sealing
station_sealing eth s pn ap = record {
  cipher = s.pairwise_cipher;
  key_id = 0;
  pn = pn;
  tk = s.pairwise_tk;
  qos_tid = if s.wmm then some (wmm_tid eth) else none;
  sec_addrs = mld_data_tx_sec_addrs (take 6 eth) (slice 6 6 eth) ap;
}

abbrev deliver_with_pn : Env → Octets → Station → Ap → Option ℕ → Ap × List Octets
deliver_with_pn e eth s ap none = (ap, [])
deliver_with_pn e eth s ap (some pn) = send_sealed e eth (station_sealing eth s pn ap) ap

abbrev deliver_to : Env → Octets → Ap → Option Station → Ap × List Octets
deliver_to e eth ap none = (ap, [])
deliver_to e eth ap (some s) =
    if s.associated
    then deliver_with_pn e eth s (change_station (take 6 eth) (λ t. (next_station_pn t).0) ap)
        (next_station_pn s).1
    else (ap, [])

abbrev is_group_address : Octets → Bool
is_group_address a = bit_set (get_or a 0 0) 0 || bytes_eq a (replicate 6 255)

unfoldable pub deliver_to_station : Env → Octets → Ap → Ap × List Octets
deliver_to_station e eth ap =
    if ltb (length eth) 14
    then (ap, [])
    else if ap.guest && is_associated (slice 6 6 eth) ap
    then (ap, [])
    else if is_group_address (take 6 eth)
    then deliver_to_group e eth (next_group_pn ap)
    else deliver_to e eth ap (get_station (take 6 eth) ap.stations)
