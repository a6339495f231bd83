-- ===== src/Tests/Station.antt =====
-- A connected station at concrete key messages.
use oxwifid.Base.{
  ◌≤◌, ◌≡◌, refl, arith, true, false, none, some, [], ◌∷◌, ◌++◌, Octets, take, replicate, bytes_eq,
}
use oxwifid.Security.{Digests, DataCipher, select, version, compute, key_len}
use DataCipher.{ccmp128}
use oxwifid.Security.EapolKey.{
  EapolKey, descriptor_version, is_pairwise, install, key_ack, has_key_mic, secure, error, request,
  encrypted_key_data,
}
use oxwifid.Client.{Client, Env, key_mic, next_sc, note_ap_activity, set_connected_state}
use oxwifid.Client.Classify.{valid_m3, nonce_matches}
use oxwifid.Client.Handshake.{
  mic_valid, retry_m3, fresh_m3, m3_kck, accept_m3, answer_m3, send_eapol4,
}
use oxwifid.Client.Uplink.{tx_eapol}
use oxwifid.Client.Timers.{maintenance}
use oxwifid.Client.Timers.Silence.{Ended, maintenance-Ended}
use oxwifid.Client.Dispatch.{
  handle_eapol_key, forged_m1, note_answer, handle_message, handle_established,
}
use oxwifid.Client.Dispatch.Live.{live, handle_eapol_key-Untouched}
use oxwifid.Client.Dispatch.Forgery.{wrong_mic_ignored}
use oxwifid.Client.Dispatch.Safety.{
  ptk_not_reinstalled, gtk_not_reinstalled, igtk_not_reinstalled, replay_counter_monotone,
}

-- Digests whose MIC is the first octet of the key and then fifteen ones.
abbrev toy_digests : Digests
toy_digests = record {
  sha1 = λ key m. take 1 key ++ replicate 19 1;
  sha256 = λ key m. replicate 32 2;
  cmac = λ key m. replicate 16 3;
}

abbrev pub toy_env : Env
toy_env = record {
  digests = toy_digests;
  ciphers = record {
    aes = record { encrypt = λ key b. b; decrypt = λ key b. b };
    gcm = record { seal = λ k n a m. none; open_sealed = λ k n a m t. none };
  };
  now = 90000;
  random = replicate 32 8;
}

-- A station on an established link, at packet number 500 and replay counter 7.
abbrev pub station : Client
station = record {
  mac = replicate 6 2;
  pmk = replicate 32 1;
  bssid = some (replicate 6 4);
  connected = 4;
  eapol_state = 2;
  anonce = replicate 32 9;
  snonce = replicate 32 8;
  kck = replicate 16 5;
  kek = replicate 16 6;
  tk = replicate 16 7;
  pairwise_tk = replicate 32 7;
  pairwise_cipher = ccmp128;
  ptk_installed = true;
  pending_ptk = none;
  gtk = replicate 16 11;
  gtk_set = true;
  gtk_key_id = 1;
  sc = 40;
  client_pn = 500;
  last_rx_pn = replicate 17 300;
  last_rx_gpn = replicate 17 200;
  last_rx_mgmt_pn = 20;
  last_rx_igtk_ipn = 10;
  igtk_key_id = some 4;
  eapol_replay = 7;
  test_snonce = none;
  sae_active = false;
  sae_pmk = none;
  igtk = some (replicate 16 12);
  bigtk = none;
  pmksa_reconnect = false;
  ocv = false;
  channel = 36;
  owe = false;
  owe_keyed = false;
  ap_wmm = false;
  wmm_negotiated = false;
  wmm_tid_override = none;
  mld_mac = none;
  link1_mac = none;
  ap_mld_mac = none;
  psk_sha256 = false;
  pause_m3 = false;
  state_since = 1000;
  last_ap_seen = 60000;
}

-- Message 3 again, under the replay counter 8 and with the MIC of the installed key.
abbrev m3_again : EapolKey
m3_again = record {
  key_info = 5066;
  key_length = 16;
  key_replay_counter = 8;
  key_nonce = replicate 32 9;
  key_rsc = 0;
  key_mic = 5 ∷ replicate 15 1;
  key_data = replicate 24 0;
  mic_offset = 77;
}

abbrev m3_octets : Octets
m3_octets = replicate 123 0

abbrev forged_m3 : EapolKey
forged_m3 = record m3_again { key_mic = replicate 16 0 }

-- Message 1 of a new handshake, which has no MIC.
abbrev new_m1 : EapolKey
new_m1 = record m3_again {
  key_info = 138;
  key_nonce = replicate 32 77;
  key_mic = replicate 16 0;
  key_data = [];
}

-- The repeated message is answered, and moves the replay counter.
m3_again_answered :
    (handle_eapol_key toy_env m3_octets m3_again false (station, [])).0.eapol_replay ≡ 8
unfolding handle_eapol_key forged_m1 note_answer handle_message is_pairwise handle_established
    valid_m3 key_ack install has_key_mic secure error request encrypted_key_data descriptor_version
    version key_mic select nonce_matches bytes_eq key_len send_eapol4 retry_m3 fresh_m3 m3_kck
    mic_valid compute accept_m3 answer_m3 next_sc tx_eapol note_ap_activity set_connected_state
m3_again_answered = refl

handle_eapol_key-Untouched_example :
    (live (handle_eapol_key toy_env m3_octets new_m1 false (station, [])).0 ≡ live station)
    × (500 ≤ (handle_eapol_key toy_env m3_octets new_m1 false (station, [])).0.client_pn)
unfolding has_key_mic
handle_eapol_key-Untouched_example =
    handle_eapol_key-Untouched toy_env m3_octets new_m1 false station [] refl

wrong_mic_ignored_example :
    handle_eapol_key toy_env m3_octets forged_m3 true (station, []) ≡ (station, [])
unfolding has_key_mic mic_valid key_mic compute bytes_eq select
wrong_mic_ignored_example =
    wrong_mic_ignored toy_env m3_octets forged_m3 true station [] refl refl (λ p h. absurd (cc))

replay_counter_monotone_example :
    7 ≤ (handle_eapol_key toy_env m3_octets m3_again true (station, [])).0.eapol_replay
replay_counter_monotone_example =
    replay_counter_monotone toy_env m3_octets m3_again true station [] refl

maintenance-Ended_example :
    Ended (maintenance 90000 station).0 × ((maintenance 90000 station).1 ≡ true)
maintenance-Ended_example =
    maintenance-Ended 90000 station (omega arith) (omega arith) (omega arith) (omega arith)

abbrev after_m3 : Client
after_m3 = (handle_eapol_key toy_env m3_octets m3_again false (station, [])).0

ptk_not_reinstalled_example :
    (500 ≤ after_m3.client_pn)
    × (after_m3.last_rx_pn ≡ replicate 17 300)
    × (after_m3.last_rx_mgmt_pn ≡ 20)
unfolding handle_eapol_key forged_m1 note_answer handle_message is_pairwise handle_established
    valid_m3 key_ack install has_key_mic secure error request encrypted_key_data descriptor_version
    version key_mic select nonce_matches bytes_eq key_len send_eapol4 retry_m3 fresh_m3 m3_kck
    mic_valid compute accept_m3 answer_m3 next_sc tx_eapol note_ap_activity set_connected_state
ptk_not_reinstalled_example =
    ptk_not_reinstalled toy_env m3_octets m3_again false station [] refl refl

gtk_not_reinstalled_example : after_m3.last_rx_gpn ≡ replicate 17 200
unfolding handle_eapol_key forged_m1 note_answer handle_message is_pairwise handle_established
    valid_m3 key_ack install has_key_mic secure error request encrypted_key_data descriptor_version
    version key_mic select nonce_matches bytes_eq key_len send_eapol4 retry_m3 fresh_m3 m3_kck
    mic_valid compute accept_m3 answer_m3 next_sc tx_eapol note_ap_activity set_connected_state
gtk_not_reinstalled_example =
    gtk_not_reinstalled toy_env m3_octets m3_again false station [] refl refl

igtk_not_reinstalled_example : after_m3.last_rx_igtk_ipn ≡ 10
unfolding handle_eapol_key forged_m1 note_answer handle_message is_pairwise handle_established
    valid_m3 key_ack install has_key_mic secure error request encrypted_key_data descriptor_version
    version key_mic select nonce_matches bytes_eq key_len send_eapol4 retry_m3 fresh_m3 m3_kck
    mic_valid compute accept_m3 answer_m3 next_sc tx_eapol note_ap_activity set_connected_state
igtk_not_reinstalled_example =
    igtk_not_reinstalled toy_env m3_octets m3_again false station [] (replicate 16 12) refl refl
