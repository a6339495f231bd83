-- ===== src/Client.antt =====
-- src/client/mod.rs, configuration.rs, session.rs and sae_auth.rs: the station's state, its
-- counters, and the reset of a session. Times are milliseconds; random octets are arguments.
pub mod Management
pub mod Classify
pub mod Timers
pub mod GroupKeys
pub mod Uplink
pub mod Handshake
pub mod Rekey
pub mod Dispatch
pub mod Downlink
use oxwifid.Base.{
  ℕ, ◌+◌, ◌*◌, ◌%◌, ◌^◌, Bool, false, Option, none, some, List, Octets, ltb, if◌then◌else◌,
  replicate, is_some,
}
use oxwifid.Security.{DataCipher, KeyMic, select, Digests}
use KeyMic.{aes_cmac_v3}
use oxwifid.Frames.Data.{Ciphers}

pub record PendingPtk : Type 0 where
  pub anonce : Octets
  pub snonce : Octets
  pub replay : ℕ
  pub kck : Octets
  pub kek : Octets
  pub tk : Octets
  pub pairwise_tk : Octets

-- `sae_active` is `sae.is_some()`, and `owe_keyed` says that `owe_priv` and `owe_pub` hold a key pair.
pub record Client : Type 0 where
  pub mac : Octets
  pub pmk : Octets
  pub bssid : Option Octets
  pub connected : ℕ
  pub eapol_state : ℕ
  pub anonce : Octets
  pub snonce : Octets
  pub kck : Octets
  pub kek : Octets
  pub tk : Octets
  pub pairwise_tk : Octets
  pub pairwise_cipher : DataCipher
  pub ptk_installed : Bool
  pub pending_ptk : Option PendingPtk
  pub gtk : Octets
  pub gtk_set : Bool
  pub gtk_key_id : ℕ
  pub sc : ℕ
  pub client_pn : ℕ
  pub last_rx_pn : List ℕ
  pub last_rx_gpn : List ℕ
  pub last_rx_mgmt_pn : ℕ
  pub last_rx_igtk_ipn : ℕ
  pub igtk_key_id : Option ℕ
  pub eapol_replay : ℕ
  pub test_snonce : Option Octets
  pub sae_active : Bool
  pub sae_pmk : Option Octets
  pub igtk : Option Octets
  pub bigtk : Option Octets
  pub pmksa_reconnect : Bool
  pub ocv : Bool
  pub channel : ℕ
  pub owe : Bool
  pub owe_keyed : Bool
  pub ap_wmm : Bool
  pub wmm_negotiated : Bool
  pub wmm_tid_override : Option ℕ
  pub mld_mac : Option Octets
  pub link1_mac : Option Octets
  pub ap_mld_mac : Option Octets
  pub psk_sha256 : Bool
  pub pause_m3 : Bool
  pub state_since : ℕ
  pub last_ap_seen : ℕ

-- What a call of the client takes from outside: the ciphers, the clock and the random source.
pub record Env : Type 0 where
  pub digests : Digests
  pub ciphers : Ciphers
  pub now : ℕ
  pub random : Octets

unfoldable pub key_mic : Client → KeyMic
key_mic c = if c.psk_sha256 then aes_cmac_v3 else select (is_some c.sae_pmk) c.owe

-- `sc` stays in 0..4096, so the remainder is that of natural numbers.
unfoldable pub next_sc : Client → Client × ℕ
next_sc c = let sc = (c.sc + 1) % 4096 in (record c { sc = sc }, sc * 16 % 2 ^ 16)

unfoldable pub next_client_pn : Client → Client × Option ℕ
next_client_pn c =
    if ltb 0x0000ffffffffffff c.client_pn
    then (c, none)
    else (record c { client_pn = c.client_pn + 1 }, some c.client_pn)

unfoldable pub reset_session_keys : Client → Client
reset_session_keys c = record c {
  anonce = replicate 32 0;
  snonce = replicate 32 0;
  kck = replicate 16 0;
  kek = replicate 16 0;
  tk = replicate 16 0;
  pairwise_tk = replicate 32 0;
  gtk = replicate 16 0;
  gtk_set = false;
  ptk_installed = false;
  pending_ptk = none;
  client_pn = 1;
  last_rx_pn = replicate 17 0;
  last_rx_gpn = replicate 17 0;
  last_rx_mgmt_pn = 0;
  last_rx_igtk_ipn = 0;
  igtk_key_id = none;
  eapol_replay = 0;
  eapol_state = 0;
  igtk = none;
  bigtk = none;
  owe_keyed = false;
  pmksa_reconnect = false;
  ap_wmm = false;
  wmm_negotiated = false;
}

unfoldable pub set_connected_state : Env → ℕ → Client → Client
set_connected_state e state c = record c { connected = state; state_since = e.now }

unfoldable pub note_ap_activity : Env → Client → Client
note_ap_activity e c = record c { last_ap_seen = e.now }

unfoldable pub disconnect : Client → Client
disconnect c = record (reset_session_keys (record c { connected = 0 })) {
  bssid = none;
  gtk_key_id = 1;
  sae_active = false;
  sae_pmk = none;
}
