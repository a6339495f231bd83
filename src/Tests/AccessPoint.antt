-- ===== src/Tests/AccessPoint.antt =====
-- An access point and a station of it at concrete key messages.
use oxwifid.Base.{
  ◌+◌, ◌≤◌, ◌≡◌, ◌⊎◌, refl, arith, bytes_eq, be_bytes, be_value, true, false, none, some, [], ◌∷◌,
  ◌++◌, Octets, replicate, take, length, inl,
}
use mathlib.Core.Option
use oxwifid.Security.{Digests, DataCipher, key_len, version, compute}
use DataCipher.{ccmp128}
use oxwifid.Failures.{with_capacity}
use oxwifid.Frames.Dot11.{Dot11, parse, eapol_frame, eapol_key_body, is_eapol}
use oxwifid.Security.EapolKey
use oxwifid.Eapol.Messages.{build_eapol_m4_mld}
use oxwifid.Eapol.Received.{Widths}
use oxwifid.AccessPoint.State.{Ap, Env, Outgoing, Station, PtkCandidate, new_station, station_mic}
use oxwifid.AccessPoint.State.Stations.{get_station, update_station}
use oxwifid.AccessPoint.Lifecycle.{is_associated, max_eapol_retries}
use oxwifid.AccessPoint.Pmksa.{cache_pmksa, pmksa_cache_max}
use oxwifid.AccessPoint.Pmksa.Bound.{pmksa_bound}
use oxwifid.AccessPoint.Tick.{tick, fire_due, retransmitted, pop_due, fire, retry_or_end}
use oxwifid.AccessPoint.Data.{handle_data_uplink}
use oxwifid.AccessPoint.Data.Replay.{handle_data_uplink_twice}
use oxwifid.AccessPoint.Management.{ManagementRx, handle_robust_mgmt}
use ManagementRx.{userspace}
use oxwifid.AccessPoint.Management.Kept.{Authentic, pmf_session_kept}
use oxwifid.AccessPoint.GroupKeys.{rekey_gtk}
use oxwifid.AccessPoint.GroupKeys.Rotation.{Fresh, gtk_with_pn}
use oxwifid.AccessPoint.Tick.Due.{due, tick-Due}
use oxwifid.AccessPoint.Tick.Retries.{retries_bound}
use oxwifid.AccessPoint.Handshake.Checks.{received_key, key_info_matches, authentic}
use oxwifid.AccessPoint.Handshake.{
  handle_eapol, promoted, handle_message, is_m4, finish_handshake, select_candidate,
  install_candidate, same_temporal_key,
}
use oxwifid.AccessPoint.Handshake.Safety.{station_ptk_not_reinstalled}
use oxwifid.AccessPoint.Handshake.Authorization.{authorized_by_m4, Authorizes}
use oxwifid.AccessPoint.Handshake.Bound.{candidates_bound}
use oxwifid.AccessPoint.Handshake.Message4.{m4_authorizes}

-- Digests whose MIC is the first octet of the key and then fifteen ones.
abbrev key_digests : Digests
key_digests = record {
  sha1 = λ key m. take 1 (key ++ replicate 1 0) ++ replicate 19 1;
  sha256 = λ key m. replicate 32 2;
  cmac = λ key m. replicate 16 3;
}

abbrev ap_env : Env
ap_env = record {
  digests = key_digests;
  ciphers = record {
    aes = record { encrypt = λ key b. replicate 16 0; decrypt = λ key b. b };
    gcm = record { seal = λ k n a m. none; open_sealed = λ k n a m t. none };
  };
  now = 50000;
  random = λ i n. replicate n (i + 1);
}

abbrev sta_mac : Octets
sta_mac = replicate 6 2

abbrev candidate : PtkCandidate
candidate = record {
  m3_replay_counter = 3;
  kck = 5 ∷ replicate 15 5;
  kek = replicate 16 6;
  tk = replicate 32 7;
}

-- A station that has derived keys, and was sent message 3.
abbrev pub waiting : Station
waiting = record (new_station 40000 (replicate 16 1) (replicate 16 2)) {
  eapol_ready = true;
  awaiting_m4 = true;
  anonce = some (replicate 32 9);
  eapol_replay = 3;
  ptk_candidates = candidate ∷ [];
  pending_eapol = some (replicate 100 0);
  eapol_tx = 49000;
}

-- The same station in a second handshake, with its key in use.
abbrev rekeying : Station
rekeying = record waiting { associated = true; pairwise_tk = replicate 32 7; client_pn = 900 }

abbrev pub ap_with : Station → Ap
ap_with s = record {
  mac = replicate 6 4;
  channel = 36;
  channel_width = 20;
  mld = false;
  mld_mac = replicate 6 4;
  link_id = 0;
  mld_links = [];
  pairwise_cipher = ccmp128;
  pmk = replicate 32 1;
  psk_candidates_by_mac = [];
  wildcard_psk_candidates = [];
  wpa_credentials_authoritative = false;
  sae_enabled = false;
  psk_sha256 = false;
  transition = false;
  sc = 10;
  group_pn = 77;
  gtk = replicate 16 11;
  gtk_key_id = 1;
  igtk = replicate 16 12;
  igtk_key_id = 4;
  igtk_ipn = replicate 6 0;
  bigtk = replicate 16 13;
  bigtk_key_id = 6;
  bigtk_ipn = replicate 6 0;
  beacon_prot = false;
  btm = false;
  band6 = false;
  per_sta_vif = false;
  guest = false;
  ocv = false;
  owe = false;
  sa_query_id = 0;
  pmksa_cache = [];
  pending_anonce = [];
  maintenance_deadline = none;
  eapol_deadlines = (49000, 0, sta_mac) ∷ (90000, 1, sta_mac) ∷ [];
  removed_stations = [];
  key_install_stations = [];
  key_ready_stations = [];
  group_key_epoch = 0;
  eapol_replay_counter = 3;
  request_rates = [];
  stations = (sta_mac, s) ∷ [];
  failures = with_capacity 4;
  events = [];
  group_rekey_secs = 0;
  strict_rekey = false;
  last_group_rekey = 0;
  group_rekey_due = false;
}

abbrev nothing : Outgoing
nothing = record { frames = []; to_network = [] }

key_digests-Widths : Widths key_digests
key_digests-Widths = record {
  sha1_width = width;
  sha256_width = λ key m. refl;
  cmac_width = λ key m. refl;
}
  where
    width : (key m : Octets) → length (take 1 (key ++ replicate 1 0) ++ replicate 19 1) ≡ 20
    width [] m = refl
    width (b ∷ bs) m = refl

m4_authorizes_example :
    Option.map
      (λ (f : Dot11). is_associated sta_mac (handle_eapol ap_env f (ap_with waiting, nothing)).0)
      (parse (
        build_eapol_m4_mld key_digests
          (replicate 6 4)
          sta_mac
          (5 ∷ replicate 15 5)
          3
          20
          (station_mic waiting)
          none))
    ≡ some true
unfolding new_station get_station bytes_eq
m4_authorizes_example =
    m4_authorizes ap_env (ap_with waiting) nothing sta_mac waiting candidate 20 key_digests-Widths
      refl refl tt (omega arith) (omega arith) refl refl (inl refl)

-- Message 4 with that candidate's MIC, as the frame parser gives it.
abbrev m4_frame : Dot11
m4_frame = record {
  fc0 = 8;
  fc1 = 1;
  addr1 = replicate 6 4;
  addr2 = sta_mac;
  addr3 = replicate 6 4;
  sc = 320;
  qos = none;
  body =
      (0xaa ∷ 0xaa ∷ 3 ∷ 0 ∷ 0 ∷ 0 ∷ 0x88 ∷ 0x8e ∷ 2 ∷ 3 ∷ 0 ∷ 95 ∷ 2 ∷ 3 ∷ 10 ∷ 0 ∷ 0 ∷ [])
      ++ ((0 ∷ 0 ∷ 0 ∷ 0 ∷ 0 ∷ 0 ∷ 0 ∷ 3 ∷ [])
          ++ (replicate 64 0 ++ ((5 ∷ replicate 15 1) ++ (0 ∷ 0 ∷ []))));
}

handled :
    get_station sta_mac (handle_eapol ap_env m4_frame (ap_with rekeying, nothing)).0.stations
    ≡ some (promoted candidate rekeying)
unfolding handle_eapol get_station bytes_eq received_key eapol_frame is_eapol be_bytes be_value
    eapol_key_body EapolKey.parse handle_message new_station is_m4 key_info_matches version
    station_mic finish_handshake select_candidate authentic compute install_candidate
    same_temporal_key key_len update_station
handled = refl

station_ptk_not_reinstalled_example :
    ((promoted candidate rekeying).client_pn ≡ 900)
    × ((promoted candidate rekeying).last_rx_pn ≡ replicate 17 0)
    × ((promoted candidate rekeying).last_rx_mgmt_pn ≡ 0)
unfolding get_station bytes_eq new_station
station_ptk_not_reinstalled_example =
    station_ptk_not_reinstalled ap_env m4_frame (ap_with rekeying) nothing sta_mac rekeying
      (promoted candidate rekeying) refl handled refl refl

authorized_by_m4_example :
    (s : Station) × (get_station sta_mac (ap_with rekeying).stations ≡ some s)
    × Authorizes ap_env m4_frame s (promoted candidate rekeying)
authorized_by_m4_example =
    authorized_by_m4 ap_env m4_frame (ap_with rekeying) nothing sta_mac
      (promoted candidate rekeying) handled

candidates_bound_example : length (promoted candidate rekeying).ptk_candidates ≤ 8
unfolding get_station bytes_eq new_station
candidates_bound_example =
    candidates_bound ap_env m4_frame (ap_with rekeying) nothing sta_mac rekeying
      (promoted candidate rekeying) refl handled (omega arith)

-- Two turns of the loop, the first of which retransmits message 3.
retried :
    get_station sta_mac (fire_due ap_env 2 (ap_with waiting, nothing)).0.stations
    ≡ some (retransmitted 50000 waiting)
unfolding fire_due pop_due fire retry_or_end get_station bytes_eq be_value new_station
    update_station
retried = refl

retries_bound_example : (retransmitted 50000 waiting).eapol_retries ≤ max_eapol_retries
unfolding get_station bytes_eq new_station
retries_bound_example =
    retries_bound ap_env 2 (ap_with waiting) nothing sta_mac waiting (retransmitted 50000 waiting)
      refl retried (omega arith)

tick-Due_example : due 50000 (tick ap_env (ap_with waiting)).0.eapol_deadlines ≡ 0
tick-Due_example = tick-Due ap_env (ap_with waiting)

pmksa_bound_example :
    length
      (cache_pmksa 50000
        (replicate 16 1)
        sta_mac
        (replicate 32 3)
        false
        (ap_with waiting)).pmksa_cache
    ≤ pmksa_cache_max
pmksa_bound_example =
    pmksa_bound 50000 (replicate 16 1) sta_mac (replicate 32 3) false (ap_with waiting)
      (omega arith)

-- A data frame of the authorized station under packet number 301, with a keystream of zeros.
abbrev uplink_frame : Dot11
uplink_frame = record m4_frame {
  fc1 = 0x41;
  addr3 = replicate 6 8;
  body =
      (45 ∷ 1 ∷ 0 ∷ 0x20 ∷ 0 ∷ 0 ∷ 0 ∷ 0 ∷ [])
      ++ ((0xaa ∷ 0xaa ∷ 3 ∷ 0 ∷ 0 ∷ 0 ∷ 8 ∷ 0 ∷ 0x45 ∷ []) ++ replicate 8 0);
}

windows_of :
    (s : Station)
    → get_station sta_mac (ap_with rekeying).stations ≡ some s
    → length s.last_rx_pn ≡ 17
unfolding get_station bytes_eq new_station
windows_of s h = let same : s ≡ rekeying = cc in rw same refl

handle_data_uplink_twice_example :
    (handle_data_uplink ap_env uplink_frame
      (handle_data_uplink ap_env uplink_frame (ap_with rekeying, nothing))).1.to_network
    ≡ (handle_data_uplink ap_env uplink_frame (ap_with rekeying, nothing)).1.to_network
handle_data_uplink_twice_example =
    handle_data_uplink_twice ap_env uplink_frame (ap_with rekeying) nothing windows_of

abbrev protected_station : Station
protected_station = record rekeying { pmf = true }

-- A deauthentication frame without protection.
abbrev forged_deauth : Dot11
forged_deauth = record m4_frame { fc0 = 0xc0; fc1 = 0; body = 7 ∷ 0 ∷ [] }

pmf_session_kept_example :
    (get_station sta_mac
        (handle_robust_mgmt ap_env forged_deauth userspace (ap_with protected_station)).stations
      ≡ some protected_station)
    ⊎ Authentic ap_env forged_deauth protected_station (ap_with protected_station)
unfolding get_station bytes_eq
pmf_session_kept_example =
    pmf_session_kept ap_env forged_deauth (ap_with protected_station) protected_station refl refl

gtk_with_pn_example :
    (((rekey_gtk ap_env (ap_with waiting)).0.gtk ≡ replicate 16 11)
      × ((rekey_gtk ap_env (ap_with waiting)).0.group_pn ≡ 77))
    ⊎ Fresh ap_env (rekey_gtk ap_env (ap_with waiting)).0
gtk_with_pn_example = gtk_with_pn ap_env (ap_with waiting)
