-- ===== src/AccessPoint/GroupKeys.antt =====
-- src/ap/group_keys.rs: the rotation of the group keys, message 1 of the group-key handshake, and the
-- deauthentication of the group.
pub mod Rotation
use oxwifid.Base.{
  ℕ, ◌+◌, ◌*◌, ◌%◌, ◌^◌, Bool, true, false, Option, none, some, List, [], ◌∷◌, ◌++◌, Octets, take,
  ◌==◌, if◌then◌else◌, replicate,
}
use oxwifid.Eapol.Mld.{build_group_key_msg1_with_rsc, build_group_key_msg1_mld_with_rsc}
use oxwifid.GroupKeys.Bip.{build_group_deauth_bip}
use oxwifid.AccessPoint.State.{Ap, Env, Station, Stations, station_mic, prepend_radiotap}
use oxwifid.AccessPoint.State.Stations.{get_station, any_station}
use oxwifid.AccessPoint.Configuration.{ap_next_sc, next_eapol_replay, current_group_rsc}
use oxwifid.AccessPoint.Lifecycle.{change_station, arm_eapol_timer}
use oxwifid.AccessPoint.Mld.{station_mld_link_ids}

-- `inc_ipn_le` of src/ap/mod.rs: the carry goes up from the first octet.
unfoldable pub inc_ipn_le : Octets → Octets
inc_ipn_le [] = []
inc_ipn_le (b ∷ bs) =
    let rest = inc_ipn_le bs in if (b + 1) % 256 == 0 then 0 ∷ rest else ((b + 1) % 256) ∷ bs

abbrev pub toggle_gtk_id : ℕ → ℕ
toggle_gtk_id id = if id == 1 then 2 else 1

abbrev pub toggle_igtk_id : ℕ → ℕ
toggle_igtk_id id = if id == 4 then 5 else 4

-- The group key and the packet number that belongs to it are replaced together. `random` gives the
-- draws from the number on.
unfoldable pub rotate_igtk : Env → Ap → Ap
rotate_igtk e ap = record ap {
  igtk = e.random 1 16;
  igtk_key_id = toggle_igtk_id ap.igtk_key_id;
  igtk_ipn = replicate 6 0;
}

unfoldable pub rotate_gtk : Env → Ap → Ap
rotate_gtk e ap = record ap { gtk = take 16 (e.random 0 32); group_pn = 1 }

abbrev pub rekeyed : Env → Ap → Ap
rekeyed e ap = record ap {
  last_group_rekey = e.now;
  group_key_epoch = (ap.group_key_epoch + 1) % 2 ^ 64;
}

unfoldable pub rotate_shared : Env → Ap → Ap
rotate_shared e ap =
    rekeyed e
      (rotate_igtk e (record (rotate_gtk e ap) { gtk_key_id = toggle_gtk_id ap.gtk_key_id }))

-- The addresses of the associated stations.
unfoldable pub associated_macs : Stations → List Octets
associated_macs [] = []
associated_macs ((m, s) ∷ rest) =
    if s.associated then m ∷ associated_macs rest else associated_macs rest

-- The group keys that message 1 carries to a station.
pub record GroupKey : Type 0 where
  pub gtk : Octets
  pub gtk_key_id : ℕ
  pub igtk : Octets
  pub igtk_key_id : ℕ
  pub igtk_ipn : Octets

abbrev igtk_kde_of : Station → GroupKey → Option (ℕ × Octets × Octets)
igtk_kde_of s k = if s.pmf then some (k.igtk_key_id, k.igtk_ipn, k.igtk) else none

-- Message 1 for a station, in the form for its links.
unfoldable pub group_message_1 :
    Env → Octets → Station → GroupKey → ℕ → List ℕ → ℕ → ℕ → Ap → Octets
group_message_1 e sta s k rsc [] replay sc ap =
    build_group_key_msg1_with_rsc e.digests e.ciphers.aes ap.mac sta s.kck s.kek k.gtk_key_id k.gtk
      rsc (igtk_kde_of s k) replay sc (station_mic s)
group_message_1 e sta s k rsc (l ∷ ls) replay sc ap =
    build_group_key_msg1_mld_with_rsc e.digests e.ciphers.aes ap.mac sta s.kck s.kek (l ∷ ls)
      k.gtk_key_id k.gtk rsc (igtk_kde_of s k) none replay sc (station_mic s)

abbrev pub await_group_m2 : ℕ → Octets → Station → Station
await_group_m2 now frame s = record s {
  pending_eapol = some frame;
  eapol_tx = now;
  eapol_retries = 0;
  eapol_acked = false;
  group_rekeying = true;
}

abbrev pub with_replay : ℕ → Station → Station
with_replay replay s = record s { eapol_replay = replay }

-- Message 1 to one station; `replay` was drawn for it, and `s` is the station with its keys.
unfoldable pub send_group_m1 :
    Env → Octets → Station → GroupKey → ℕ → List ℕ → ℕ → Ap → Ap × List Octets
send_group_m1 e sta s k rsc links replay ap =
    let (ap1, sc) = ap_next_sc ap in
    let frame = prepend_radiotap (group_message_1 e sta s k rsc links replay sc ap1) in
    (arm_eapol_timer sta (change_station sta (await_group_m2 e.now frame) ap1), frame ∷ [])

abbrev pub shared_keys : Ap → GroupKey
shared_keys ap = record {
  gtk = ap.gtk;
  gtk_key_id = ap.gtk_key_id;
  igtk = ap.igtk;
  igtk_key_id = ap.igtk_key_id;
  igtk_ipn = ap.igtk_ipn;
}

-- A turn of the loop over the stations; the address comes from the table, so the station is there.
abbrev pub rekey_found :
    Env → Octets → GroupKey → ℕ → List ℕ → ℕ → Ap → Option Station → Ap × List Octets
rekey_found e sta k rsc links replay ap none = (ap, [])
rekey_found e sta k rsc links replay ap (some s) = send_group_m1 e sta s k rsc links replay ap

unfoldable pub rekey_station : Env → GroupKey → ℕ → Octets → Ap → Ap × List Octets
rekey_station e k rsc sta ap =
    let links = station_mld_link_ids sta ap in
    let (ap1, replay) = next_eapol_replay ap in
    let ap2 = change_station sta (with_replay replay) ap1 in
    rekey_found e sta k rsc links replay ap2 (get_station sta ap2.stations)

-- The keys of the private network of one station, which draws 2 * i and 2 * i + 1.
abbrev pub rotate_private : Env → ℕ → Station → Station
rotate_private e i s = record s {
  gtk = take 16 (e.random (2 * i) 32);
  gtk_key_id = toggle_gtk_id s.gtk_key_id;
  gtk_rsc = 0;
  igtk = e.random (2 * i + 1) 16;
  igtk_key_id = toggle_igtk_id s.igtk_key_id;
  igtk_ipn = replicate 6 0;
}

abbrev private_keys : Station → GroupKey
private_keys s = record {
  gtk = s.gtk;
  gtk_key_id = s.gtk_key_id;
  igtk = s.igtk;
  igtk_key_id = s.igtk_key_id;
  igtk_ipn = s.igtk_ipn;
}

abbrev pub rekey_private_found :
    Env → Octets → ℕ → List ℕ → ℕ → Ap → Option Station → Ap × List Octets
rekey_private_found e sta rsc links replay ap none = (ap, [])
rekey_private_found e sta rsc links replay ap (some s) =
    send_group_m1 e sta s (private_keys s) rsc links replay ap

unfoldable pub rekey_private : Env → ℕ → ℕ → Octets → Ap → Ap × List Octets
rekey_private e i rsc sta ap =
    let links = station_mld_link_ids sta ap in
    let (ap1, replay) = next_eapol_replay ap in
    let ap2 = change_station sta (λ s. with_replay replay (rotate_private e i s)) ap1 in
    rekey_private_found e sta rsc links replay ap2 (get_station sta ap2.stations)

-- The loop over the stations, which collects the frames.
unfoldable pub rekey_all : Env → GroupKey → ℕ → List Octets → Ap → Ap × List Octets
rekey_all e k rsc [] ap = (ap, [])
rekey_all e k rsc (sta ∷ rest) ap =
    let (ap1, frames) = rekey_station e k rsc sta ap in
    let (ap2, more) = rekey_all e k rsc rest ap1 in (ap2, frames ++ more)

unfoldable pub rekey_private_all : Env → ℕ → ℕ → List Octets → Ap → Ap × List Octets
rekey_private_all e i rsc [] ap = (ap, [])
rekey_private_all e i rsc (sta ∷ rest) ap =
    let (ap1, frames) = rekey_private e i rsc sta ap in
    let (ap2, more) = rekey_private_all e (i + 1) rsc rest ap1 in (ap2, frames ++ more)

abbrev pub is_rekeying : Station → Bool
is_rekeying s = s.group_rekeying

unfoldable pub rekey_gtk_per_sta : Env → Ap → Ap × List Octets
rekey_gtk_per_sta e ap =
    let ap1 = rekeyed e (rotate_gtk e (rotate_igtk e ap)) in
    rekey_private_all e 1 (current_group_rsc ap1) (associated_macs ap1.stations) ap1

unfoldable pub rekey_gtk : Env → Ap → Ap × List Octets
rekey_gtk e ap =
    let ap1 = rotate_shared e ap in
    if any_station is_rekeying ap.stations
    then (ap, [])
    else if ap.per_sta_vif
    then rekey_gtk_per_sta e ap
    else rekey_all e (shared_keys ap1) (current_group_rsc ap1) (associated_macs ap1.stations) ap1

-- The packet number is advanced before it is used.
unfoldable pub group_deauth : Env → ℕ → Ap → Ap × Octets
group_deauth e reason ap =
    let (ap1, sc) = ap_next_sc (record ap { igtk_ipn = inc_ipn_le ap.igtk_ipn }) in
    (
      ap1,
      prepend_radiotap (
          build_group_deauth_bip e.digests ap1.mac ap1.igtk ap1.igtk_key_id ap1.igtk_ipn reason sc),
    )
