-- ===== src/AccessPoint/Authentication.antt =====
-- The open-system branch of `Ap::handle_auth_req` in src/ap/receive.rs, behind the request limit and
-- the branches for protected sessions and for SAE.
use oxwifid.Base.{
  ℕ, ◌-◌, Bool, false, not, ◌&&◌, ◌||◌, Option, none, some, [], ◌∷◌, ◌++◌, Octets, ltb, is_some,
  if◌then◌else◌, replicate,
}
use oxwifid.Frames.Management.{build_auth}
use oxwifid.AccessPoint.State.{Ap, ApEvent, Env, Outgoing, Station, Stations, new_station, tx}
use ApEvent.{disconnected}
use oxwifid.AccessPoint.State.Stations.{get_station, any_station}
use oxwifid.AccessPoint.Configuration.{ap_next_sc}
use oxwifid.AccessPoint.Lifecycle.{change_station, mld_or}

abbrev auth_backoff : ℕ
auth_backoff = 250

-- `entry(sta).or_insert_with(|| Station::new(sta))`, which draws the keys of a new station.
abbrev or_inserted : Env → Octets → Option Station → Stations → Stations
or_inserted e sta (some s) table = table
or_inserted e sta none table =
    table ++ ((sta, new_station e.now (e.random 0 16) (e.random 1 16)) ∷ [])

unfoldable pub entered : Env → Octets → Ap → Ap
entered e sta ap = record ap {
  stations = or_inserted e sta (get_station sta ap.stations) ap.stations;
}

abbrev within_backoff : ℕ → Option ℕ → Bool
within_backoff now none = false
within_backoff now (some t) = ltb (now - t) auth_backoff

unfoldable pub retransmitted_auth : ℕ → Station → Bool
retransmitted_auth now s = within_backoff now s.last_auth

-- Message 1 is out and message 2 has not been accepted.
unfoldable pub mid_handshake : Station → Bool
mid_handshake s = is_some s.anonce && (s.eapol_ready && not s.awaiting_m4)

-- The session that a new authentication starts; `gtk` was drawn for it.
unfoldable pub restarted : ℕ → Octets → Station → Station
restarted now gtk s = record s {
  last_auth = some now;
  anonce = none;
  eapol_ready = false;
  awaiting_m4 = false;
  associated = false;
  eapol_replay = 0;
  m1_replay = 0;
  ptk_candidates = [];
  last_rx_pn = replicate 17 0;
  last_rx_mgmt_pn = 0;
  sa_query = none;
  sha256 = false;
  owe = false;
  psk_sha256 = false;
  pmf = false;
  sae_h2e = false;
  kck = replicate 16 0;
  kek = replicate 16 0;
  tk = replicate 16 0;
  pairwise_tk = replicate 32 0;
  gtk = gtk;
  group_rekeying = false;
  pending_eapol = none;
  pmk = none;
}

abbrev pub renewed : Env → Station → Station
renewed e s =
    if retransmitted_auth e.now s
    then s
    else if mid_handshake s
    then record s { last_auth = some e.now }
    else restarted e.now (e.random 2 16) s

-- The address of a session that the authentication ends.
abbrev ended_session : ℕ → Octets → Option Station → Option Octets
ended_session now sta none = none
ended_session now sta (some s) =
    if not (retransmitted_auth now s || mid_handshake s) && s.associated
    then some (mld_or s.client_mld_mac sta)
    else none

abbrev is_authorized : Station → Bool
is_authorized s = s.associated

abbrev note_ended : Option Octets → Ap → Ap
note_ended none ap = ap
note_ended (some mac) ap = record ap {
  events = ap.events ++ (disconnected mac 0 ∷ []);
  group_rekey_due =
      ap.group_rekey_due || (ap.strict_rekey && any_station is_authorized ap.stations);
}

-- The sequence counter starts again: 4095 stands for the `-1` of the code.
unfoldable pub open_auth : Env → Octets → Ap × Outgoing → Ap × Outgoing
open_auth e sta (ap, out) =
    let ap1 = entered e sta ap in
    let ap2 =
      note_ended (ended_session e.now sta (get_station sta ap1.stations))
        (change_station sta (renewed e) ap1) in
    let (ap3, sc) = ap_next_sc (record ap2 { sc = 4095 }) in
    (ap3, tx (build_auth ap3.mac sta sc) out)
