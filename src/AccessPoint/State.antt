-- ===== src/AccessPoint/State.antt =====
-- src/ap/station.rs, state.rs, runtime.rs and output.rs: the state of the access point. The maps from
-- addresses to stations and to other things are lists of pairs, in which the first entry of an address
-- counts. Times are milliseconds.
pub mod Stations
pub mod Steps
use oxwifid.Base.{
  ℕ, ◌+◌, ◌-◌, ◌*◌, ◌%◌, ◌^◌, Bool, true, false, not, Option, none, some, List, [], ◌∷◌, ◌++◌,
  Octets, ltb, ◌==◌, if◌then◌else◌, bytes_eq, replicate, is_some,
}
use mathlib.Core.Option
use oxwifid.Security.{DataCipher, KeyMic, Digests}
use DataCipher.{ccmp128, ccmp256}
use KeyMic.{hmac_sha1, hmac_sha256, aes_cmac, aes_cmac_v3}
use oxwifid.Frames.{radiotap_tx}
use oxwifid.Frames.Data.{Ciphers}
use oxwifid.Rsn.Tails.{SecurityMode, security_tail_for_ciphers}
use SecurityMode.{wpa2, wpa2_psk_sha256, wpa3_sae, transition, owe}
use oxwifid.AccessPoint.Requests.{Rates}
use oxwifid.Failures.{FailureLog, FailureKind}

pub record PtkCandidate : Type 0 where
  pub m3_replay_counter : ℕ
  pub kck : Octets
  pub kek : Octets
  pub tk : Octets

-- `sae_active` is `sae.is_some()`.
pub record Station : Type 0 where
  pub associated : Bool
  pub eapol_ready : Bool
  pub awaiting_m4 : Bool
  pub anonce : Option Octets
  pub kck : Octets
  pub kek : Octets
  pub tk : Octets
  pub pairwise_tk : Octets
  pub pairwise_cipher : DataCipher
  pub client_pn : ℕ
  pub last_rx_pn : List ℕ
  pub last_rx_mgmt_pn : ℕ
  pub eapol_replay : ℕ
  pub m1_replay : ℕ
  pub ptk_candidates : List PtkCandidate
  pub last_auth : Option ℕ
  pub last_assoc : Option ℕ
  pub sae_active : Bool
  pub pmk : Option Octets
  pub sae_confirmed : Bool
  pub sae_h2e : Bool
  pub sha256 : Bool
  pub owe : Bool
  pub psk_sha256 : Bool
  pub pmf : Bool
  pub last_activity : ℕ
  pub gtk : Octets
  pub gtk_key_id : ℕ
  pub gtk_rsc : ℕ
  pub igtk : Octets
  pub igtk_key_id : ℕ
  pub igtk_ipn : Octets
  pub vlan_group_initialized : Bool
  pub traits : ℕ
  pub wmm : Bool
  pub assoc_ies : Octets
  pub capability : ℕ
  pub pending_eapol : Option Octets
  pub eapol_tx : ℕ
  pub eapol_retries : ℕ
  pub eapol_acked : Bool
  pub eapol_timer_generation : ℕ
  pub group_rekeying : Bool
  pub client_mld_mac : Option Octets
  pub client_mld_links : List (ℕ × Octets)
  pub assoc_link_id : Option ℕ
  pub sa_query : Option (ℕ × ℕ)

-- `Station::new` at a time, with the two keys it draws.
unfoldable pub new_station : ℕ → Octets → Octets → Station
new_station now gtk igtk = record {
  associated = false;
  eapol_ready = false;
  awaiting_m4 = false;
  anonce = none;
  kck = replicate 16 0;
  kek = replicate 16 0;
  tk = replicate 16 0;
  pairwise_tk = replicate 32 0;
  pairwise_cipher = ccmp128;
  client_pn = 1;
  last_rx_pn = replicate 17 0;
  last_rx_mgmt_pn = 0;
  eapol_replay = 0;
  m1_replay = 0;
  ptk_candidates = [];
  last_auth = none;
  last_assoc = none;
  sae_active = false;
  pmk = none;
  sae_confirmed = false;
  sae_h2e = false;
  sha256 = false;
  owe = false;
  psk_sha256 = false;
  pmf = false;
  last_activity = now;
  gtk = gtk;
  gtk_key_id = 1;
  gtk_rsc = 0;
  igtk = igtk;
  igtk_key_id = 4;
  igtk_ipn = replicate 6 0;
  vlan_group_initialized = false;
  traits = 0;
  wmm = false;
  assoc_ies = [];
  capability = 0;
  pending_eapol = none;
  eapol_tx = now;
  eapol_retries = 0;
  eapol_acked = false;
  eapol_timer_generation = 0;
  group_rekeying = false;
  client_mld_mac = none;
  client_mld_links = [];
  assoc_link_id = none;
  sa_query = none;
}

unfoldable pub next_station_pn : Station → Station × Option ℕ
next_station_pn s =
    if ltb 0x0000ffffffffffff s.client_pn
    then (s, none)
    else (record s { client_pn = s.client_pn + 1 }, some s.client_pn)

unfoldable pub station_mic : Station → KeyMic
station_mic s =
    if not s.sha256
    then hmac_sha1
    else if s.owe
    then hmac_sha256
    else if s.psk_sha256
    then aes_cmac_v3
    else aes_cmac

-- src/ap/output.rs
pub data ApEvent : Type 0 where
  connected : Octets → ApEvent
  disconnected : Octets → ℕ → ApEvent
  auth_failed : Octets → FailureKind → ℕ → ApEvent

pub record MldLink : Type 0 where
  pub link_id : ℕ
  pub mac : Octets
  pub channel : ℕ
  pub width : ℕ
  pub band6 : Bool

-- src/ap/runtime.rs
pub record PendingHandshake : Type 0 where
  pub anonce : Octets
  pub replay_counter : ℕ
  pub created_at : ℕ

pub record PmksaEntry : Type 0 where
  pub identity : Octets
  pub pmk : Octets
  pub sha256 : Bool
  pub expires_at : ℕ

-- A deadline of the EAPOL timers: its time, its generation and the station.
abbrev pub Deadline : Type 0
Deadline = ℕ × ℕ × Octets

abbrev pub Stations : Type 0
Stations = List (Octets × Station)

-- `sc` is `-1` between an authentication and the next frame; it is kept modulo 4096. The heap of
-- deadlines is the list of its entries.
pub record Ap : Type 0 where
  pub mac : Octets
  pub channel : ℕ
  pub channel_width : ℕ
  pub mld : Bool
  pub mld_mac : Octets
  pub link_id : ℕ
  pub mld_links : List MldLink
  pub pairwise_cipher : DataCipher
  pub pmk : Octets
  pub psk_candidates_by_mac : List (Octets × List Octets)
  pub wildcard_psk_candidates : List Octets
  pub wpa_credentials_authoritative : Bool
  pub sae_enabled : Bool
  pub psk_sha256 : Bool
  pub transition : Bool
  pub sc : ℕ
  pub group_pn : ℕ
  pub gtk : Octets
  pub gtk_key_id : ℕ
  pub igtk : Octets
  pub igtk_key_id : ℕ
  pub igtk_ipn : Octets
  pub bigtk : Octets
  pub bigtk_key_id : ℕ
  pub bigtk_ipn : Octets
  pub beacon_prot : Bool
  pub btm : Bool
  pub band6 : Bool
  pub per_sta_vif : Bool
  pub guest : Bool
  pub ocv : Bool
  pub owe : Bool
  pub sa_query_id : ℕ
  pub pmksa_cache : List ((Octets × Octets) × PmksaEntry)
  pub pending_anonce : List (Octets × PendingHandshake)
  pub maintenance_deadline : Option ℕ
  pub eapol_deadlines : List Deadline
  pub removed_stations : List Octets
  pub key_install_stations : List Octets
  pub key_ready_stations : List Octets
  pub group_key_epoch : ℕ
  pub eapol_replay_counter : ℕ
  pub request_rates : Rates
  pub stations : Stations
  pub failures : FailureLog
  pub events : List ApEvent
  pub group_rekey_secs : ℕ
  pub strict_rekey : Bool
  pub last_group_rekey : ℕ
  pub group_rekey_due : Bool

-- What a call takes from outside: the digests, the ciphers, the clock, and its draws of random octets,
-- by number and length.
pub record Env : Type 0 where
  pub digests : Digests
  pub ciphers : Ciphers
  pub now : ℕ
  pub random : ℕ → ℕ → Octets

-- src/ap/output.rs, `Outgoing`.
pub record Outgoing : Type 0 where
  pub frames : List Octets
  pub to_network : List Octets

unfoldable pub prepend_radiotap : Octets → Octets
prepend_radiotap frame = radiotap_tx ++ frame

unfoldable pub tx : Octets → Outgoing → Outgoing
unfolding prepend_radiotap
tx frame out = record out { frames = out.frames ++ (prepend_radiotap frame ∷ []) }
