-- ===== src/AccessPoint/Handshake.antt =====
-- src/ap/handshake.rs: the authenticator's side of the four-way handshake and of the group-key
-- handshake, with `key_info_matches` and its kin of src/ap/mod.rs.
pub mod Checks
pub mod Message3
pub mod Message2
pub mod Changes
pub mod Safety
pub mod Authorization
pub mod Bound
pub mod Message4
use oxwifid.Base.{
  ℕ, ◌+◌, ◌%◌, ◌^◌, Bool, true, false, not, ◌&&◌, ◌||◌, Option, none, some, List, [], ◌∷◌, ◌++◌,
  Octets, length, take, drop, leb, ltb, ◌==◌, if◌then◌else◌, ◌>>=◌, bytes_eq, replicate,
}
use mathlib.Core.Option
use oxwifid.Security.{Digests, KeyMic, compute, version, key_len}
use oxwifid.Security.EapolKey.{EapolKey, parse}
use oxwifid.Eapol.Mld.{parse_mac_addr_kde}
use oxwifid.Frames.Dot11.{Dot11, eapol_frame, eapol_key_body}
use oxwifid.AccessPoint.State.{
  Ap, ApEvent, Env, Outgoing, Station, PtkCandidate, PendingHandshake, station_mic,
}
use ApEvent.{connected}
use oxwifid.AccessPoint.State.Stations.{get_station}
use oxwifid.AccessPoint.Lifecycle.{change_station, mld_or}
use oxwifid.AccessPoint.Handshake.Checks.{key_info_matches, authentic, received_key, remove_pending}
use oxwifid.AccessPoint.Handshake.Message2.{accept_m2}

unfoldable pub is_group_m2 : Station → EapolKey → Bool
is_group_m2 s ek =
    key_info_matches ek.key_info (0x0300 + version (station_mic s))
    && (ek.key_length == 0 && (bytes_eq ek.key_nonce (replicate 32 0) && length ek.key_data == 0))

unfoldable pub is_m4 : Station → EapolKey → Bool
is_m4 s ek =
    key_info_matches ek.key_info (0x0308 + version (station_mic s))
    && (ek.key_length == 0 && bytes_eq ek.key_nonce (replicate 32 0))

abbrev pub group_done : ℕ → Station → Station
group_done now s = record s { group_rekeying = false; pending_eapol = none; last_activity = now }

unfoldable pub finish_group_rekey : Env → Octets → Station → Octets → EapolKey → Ap → Ap
finish_group_rekey e sta s frame ek ap =
    if is_group_m2 s ek && authentic e.digests (station_mic s) s.kck frame ek
    then change_station sta (group_done e.now) ap
    else ap

-- Whether message 4 names the MLD address that a multi-link station is known by.
abbrev pub names_mld : Option Octets → EapolKey → Bool
names_mld none ek = true
names_mld (some expected) ek = elim (parse_mac_addr_kde ek.key_data) [
  | none ↦ false
  | some mld ↦ bytes_eq mld expected
]

-- The first candidate of the message's replay counter whose key the message is authentic under.
unfoldable pub select_candidate :
    Digests → KeyMic → Option Octets → Octets → EapolKey → List PtkCandidate → Option PtkCandidate
select_candidate d mic expected_mld frame ek [] = none
select_candidate d mic expected_mld frame ek (c ∷ cs) =
    if c.m3_replay_counter == ek.key_replay_counter
      && (authentic d mic c.kck frame ek && names_mld expected_mld ek)
    then some c
    else select_candidate d mic expected_mld frame ek cs

unfoldable pub same_temporal_key : Station → PtkCandidate → Bool
same_temporal_key s c =
    let tk_len = key_len s.pairwise_cipher in
    s.associated && bytes_eq (take tk_len s.pairwise_tk) (take tk_len c.tk)

abbrev pub restart_counters : Station → Station
restart_counters s = record s { client_pn = 1; last_rx_pn = replicate 17 0; last_rx_mgmt_pn = 0 }

abbrev pub promoted : PtkCandidate → Station → Station
promoted c s = record s {
  kck = c.kck;
  kek = c.kek;
  tk = take 16 c.tk;
  pairwise_tk = c.tk;
  ptk_candidates = [];
  associated = true;
  awaiting_m4 = false;
  pending_eapol = none;
}

-- What message 4 does to its station.
unfoldable pub install_candidate : PtkCandidate → Station → Station
install_candidate c s =
    if same_temporal_key s c then promoted c s else restart_counters (promoted c s)

abbrev pub authorize : Octets → Station → Ap → Option PtkCandidate → Ap
authorize sta s ap none = ap
authorize sta s ap (some c) = record (change_station sta (install_candidate c) ap) {
  events = ap.events ++ (connected (mld_or s.client_mld_mac sta) ∷ []);
  key_ready_stations = ap.key_ready_stations ++ (sta ∷ []);
  pending_anonce = remove_pending sta ap.pending_anonce;
}

unfoldable pub finish_handshake : Env → Octets → Station → Octets → EapolKey → Ap → Ap
finish_handshake e sta s frame ek ap =
    let expected_mld = if ap.mld then s.client_mld_mac else none in
    authorize sta s ap
      (select_candidate e.digests (station_mic s) expected_mld frame ek s.ptk_candidates)

-- The three kinds of message, by the state of the station.
unfoldable pub handle_message :
    Env → Octets → Station → Octets → EapolKey → Ap × Outgoing → Ap × Outgoing
handle_message e sta s frame ek (ap, out) =
    if s.group_rekeying && ek.key_replay_counter == s.eapol_replay
    then (finish_group_rekey e sta s frame ek ap, out)
    else if s.awaiting_m4 && is_m4 s ek
    then (finish_handshake e sta s frame ek ap, out)
    else accept_m2 e sta s frame ek (ap, out)

abbrev pub handle_received :
    Env → Octets → Station → Option (Octets × EapolKey) → Ap × Outgoing → Ap × Outgoing
handle_received e sta s none st = st
handle_received e sta s (some (frame, ek)) st = handle_message e sta s frame ek st

abbrev pub handle_from : Env → Dot11 → Option Station → Ap × Outgoing → Ap × Outgoing
handle_from e f none st = st
handle_from e f (some s) st = handle_received e f.addr2 s (received_key f) st

unfoldable pub handle_eapol : Env → Dot11 → Ap × Outgoing → Ap × Outgoing
handle_eapol e f (ap, out) =
    if not (bytes_eq f.addr1 ap.mac)
    then (ap, out)
    else handle_from e f (get_station f.addr2 ap.stations) (ap, out)
