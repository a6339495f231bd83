-- ===== src/Client/Downlink.antt =====
-- src/client/receive.rs: protected data frames from the access point in `handle_incoming`, and
-- `ethernet_eapol_key` of src/client/session.rs.
pub mod Replay
use oxwifid.Base.{
  ℕ, ◌+◌, ◌%◌, Bool, true, false, not, ◌&&◌, ◌||◌, Option, none, some, List, [], ◌∷◌, ◌++◌, Octets,
  length, take, drop, slice, get_or, set, leb, ltb, ◌==◌, if◌then◌else◌, bytes_eq, be_bytes,
  be_value,
}
use mathlib.Core.Option
use oxwifid.Security.{DataCipher, key_len}
use DataCipher.{ccmp128}
use oxwifid.Security.EapolKey.{EapolKey, bit_set, parse}
use oxwifid.Frames.{type_data, ethertype_eapol}
use oxwifid.Frames.Dot11.{
  Dot11, frame_type, protected, from_ds, is_fragment, is_amsdu, ccmp_key_id, ccmp_pn,
}
use oxwifid.Frames.Data.{decrypt_protected_data_sec}
use oxwifid.Client.{Client, Env, note_ap_activity}
use oxwifid.Client.Dispatch.{handle_eapol_key}

-- The station, the frames queued for transmission, and the Ethernet frames for the network.
abbrev pub Received : Type 0
Received = (Client × List Octets) × List Octets

-- The EAPOL frame and its key body.
unfoldable pub ethernet_eapol_key : Octets → Option (Octets × EapolKey)
ethernet_eapol_key ethernet =
    let eapol = drop 14 ethernet in
    let end = 4 + be_value (slice 2 2 eapol) in
    if ltb (length ethernet) 18 || not (bytes_eq (slice 12 2 ethernet) (be_bytes 2 ethertype_eapol))
    then none
    else if not (get_or eapol 1 0 == 3)
    then none
    else if ltb (length eapol) end
    then none
    else Option.map (λ (k : EapolKey). (take end eapol, k)) (parse (drop 4 (take end eapol)))

-- Whether the frame is one of the last branch.
unfoldable pub is_protected_data : Client → Dot11 → Bool
is_protected_data c f =
    ltb 3 c.connected && (frame_type f == type_data && (protected f && from_ds f))

-- The key that the frame has to use: `some true` for the group key, `none` to drop it.
unfoldable pub data_key : Client → Dot11 → Option Bool
data_key c f =
    let key_id = ccmp_key_id f in
    let group_ra = bit_set (get_or f.addr1 0 0) 0 in
    let use_group = key_id == c.gtk_key_id && not (key_id == 0) in
    if is_fragment f || is_amsdu f
    then none
    else if not group_ra && not (bytes_eq f.addr1 c.mac)
    then none
    else if use_group && not group_ra
    then none
    else if not use_group && (group_ra || not (key_id == 0))
    then none
    else some use_group

-- Slot 16 is for frames without QoS.
abbrev pub qos_index : Option ℕ → ℕ
qos_index none = 16
qos_index (some q) = q % 16

unfoldable pub replay_index : Dot11 → ℕ
replay_index f = qos_index f.qos

unfoldable pub last_pn : Bool → Client → Dot11 → ℕ
last_pn true c f = get_or c.last_rx_gpn (replay_index f) 0
last_pn false c f = get_or c.last_rx_pn (replay_index f) 0

unfoldable pub advance : Bool → Dot11 → ℕ → Client → Client
advance true f pn c = record c { last_rx_gpn = set c.last_rx_gpn (replay_index f) pn }
advance false f pn c = record c { last_rx_pn = set c.last_rx_pn (replay_index f) pn }

-- The addresses of the nonce and the AAD, where they are not those of the header.
abbrev pub downlink_sec :
    Dot11 → Option Octets → Option Octets → Option Octets → Option (Octets × Octets × Octets)
downlink_sec f (some mld) (some ap_mld) (some bssid) =
    some (mld, ap_mld, (if bytes_eq f.addr3 bssid then ap_mld else f.addr3))
downlink_sec f _ _ _ = none

unfoldable pub open_data : Env → Bool → Client → Dot11 → Option Octets
open_data e true c f = decrypt_protected_data_sec e.ciphers ccmp128 f c.gtk true none
open_data e false c f =
    decrypt_protected_data_sec e.ciphers c.pairwise_cipher f
      (take (key_len c.pairwise_cipher) c.pairwise_tk) true
      (downlink_sec f c.mld_mac c.ap_mld_mac c.bssid)

abbrev pub handle_key : Env → Option (Octets × EapolKey) → Received → Received
handle_key e none s = s
handle_key e (some (eapol, ek)) (s, net) = (handle_eapol_key e eapol ek true s, net)

-- `eth.get(12..14) == Some(&ETHERTYPE_EAPOL.to_be_bytes())`.
unfoldable pub is_eapol_ethernet : Octets → Bool
is_eapol_ethernet eth = bytes_eq (slice 12 2 eth) (be_bytes 2 ethertype_eapol)

-- Key messages are handled under the pairwise key and never passed on.
unfoldable pub deliver : Env → Bool → Octets → Received → Received
deliver e use_group eth (s, net) =
    if is_eapol_ethernet eth
    then (if use_group then (s, net) else handle_key e (ethernet_eapol_key eth) (s, net))
    else (s, net ++ (eth ∷ []))

abbrev pub receive_opened : Env → Dot11 → Bool → ℕ → Option Octets → Received → Received
receive_opened e f use_group pn none s = s
receive_opened e f use_group pn (some eth) ((c, out), net) =
    deliver e use_group eth ((note_ap_activity e (advance use_group f pn c), out), net)

abbrev pub receive_pn : Env → Dot11 → Bool → Option ℕ → Received → Received
receive_pn e f use_group none s = s
receive_pn e f use_group (some pn) ((c, out), net) =
    if leb pn (last_pn use_group c f)
    then ((c, out), net)
    else receive_opened e f use_group pn (open_data e use_group c f) ((c, out), net)

abbrev pub receive_under : Env → Dot11 → Option Bool → Received → Received
receive_under e f none s = s
receive_under e f (some use_group) s = receive_pn e f use_group (ccmp_pn f) s

-- The last branch of `handle_incoming`.
unfoldable pub receive_data : Env → Dot11 → Received → Received
receive_data e f ((c, out), net) =
    if is_protected_data c f
    then receive_under e f (data_key c f) ((c, out), net)
    else ((c, out), net)
