-- ===== src/AccessPoint/Handshake/Message2.antt =====
-- The answer to message 2 in src/ap/handshake.rs.
use oxwifid.Base.{
  ℕ, ◌+◌, Bool, true, false, not, ◌&&◌, ◌||◌, Option, none, some, List, [], ◌∷◌, ◌++◌, Octets,
  length, take, drop, leb, ◌==◌, if◌then◌else◌, ◌>>=◌, bytes_eq, replicate,
}
use oxwifid.Security.{Digests, version, key_len}
use oxwifid.Security.EapolKey.{EapolKey}
use oxwifid.AccessPoint.State.{Ap, Env, Outgoing, Station, PtkCandidate, station_mic}
use oxwifid.AccessPoint.Lifecycle.{change_station}
use oxwifid.Base.{slice}
use oxwifid.Security.{DataCipher}
use oxwifid.Crypto.Kdf.{derive_ptk_sha256_len, custom_prf512}
use oxwifid.Frames.Elements.{trim_key_data_padding}
use oxwifid.Frames.Management.{build_deauth}
use oxwifid.Rsn.{parse_oci_kde, oci_class_matches_band}
use oxwifid.Rsn.Tails.{SecurityMode}
use SecurityMode.{wpa3_sae, owe}
use oxwifid.Failures.{FailureKind}
use FailureKind.{four_way_mic}
use oxwifid.AccessPoint.State.{tx, prepend_radiotap}
use oxwifid.AccessPoint.Configuration.{security_mode, ap_next_sc, next_eapol_replay, link_mac}
use oxwifid.AccessPoint.Lifecycle.{arm_eapol_timer, disconnect, report_failure}
use oxwifid.AccessPoint.Handshake.Checks.{
  key_info_matches, authentic, message_2_security_matches, remove_pending,
}
use oxwifid.AccessPoint.Handshake.Message3.{message_3, btm_request_frame}

abbrev unwrap_or {ℓ} : {A : Type ℓ} → Option A → A → A
unwrap_or none d = d
unwrap_or (some a) d = a

-- The addresses that the pairwise key is derived from.
abbrev pub key_addresses : Octets → Station → Ap → Option Octets → Octets × Octets
key_addresses sta s ap none =
    (unwrap_or (s.assoc_link_id >>= (λ id. link_mac id ap.mld_links)) ap.mac, sta)
key_addresses sta s ap (some mld) =
    if ap.mld
    then (ap.mld_mac, mld)
    else (unwrap_or (s.assoc_link_id >>= (λ id. link_mac id ap.mld_links)) ap.mac, sta)

-- The PTK octets of a PMK. The length is one that the derivation supports, so that the default of
-- `unwrap_or` is never taken.
unfoldable pub station_ptk : Digests → Octets → Station → Ap → Octets → Octets → Octets → Octets
station_ptk d sta s ap anonce snonce pmk =
    let (amac, smac) = key_addresses sta s ap s.client_mld_mac in
    if s.sha256
    then unwrap_or
        (derive_ptk_sha256_len d pmk amac smac anonce snonce (32 + key_len s.pairwise_cipher)) []
    else custom_prf512 d pmk amac smac anonce snonce

-- The keys of a PTK for the cipher: `tk` is an array of 32 octets.
unfoldable pub candidate_of : DataCipher → ℕ → Octets → PtkCandidate
candidate_of cipher m3_replay ptk =
    let key = slice 32 (key_len cipher) ptk in
    record {
      m3_replay_counter = m3_replay;
      kck = take 16 ptk;
      kek = slice 16 16 ptk;
      tk = key ++ drop (length key) (replicate 32 0);
    }

abbrev pmks_for : Octets → List (Octets × List Octets) → List Octets
pmks_for sta [] = []
pmks_for sta ((m, pmks) ∷ rest) = if bytes_eq m sta then pmks else pmks_for sta rest

-- The PMKs to try, in order.
unfoldable pub pmk_candidates : Octets → Station → Ap → List Octets
pmk_candidates sta s ap = elim s.pmk [
  | some p ↦ p ∷ []
  | none ↦
      pmks_for sta ap.psk_candidates_by_mac
      ++ (ap.wildcard_psk_candidates
          ++ (if ap.wpa_credentials_authoritative then [] else ap.pmk ∷ []))
]

-- The first PMK under which message 2 is authentic.
unfoldable pub match_pmk : (Octets → Bool) → List Octets → Option Octets
match_pmk verifies [] = none
match_pmk verifies (p ∷ ps) = if verifies p then some p else match_pmk verifies ps

abbrev pub known_candidate : PtkCandidate → List PtkCandidate → Bool
known_candidate c [] = false
known_candidate c (x ∷ xs) =
    (x.m3_replay_counter == c.m3_replay_counter && bytes_eq x.kck c.kck) || known_candidate c xs

-- At most eight candidates are kept; the oldest one goes.
unfoldable pub push_candidate : PtkCandidate → List PtkCandidate → List PtkCandidate
push_candidate c cs =
    if known_candidate c cs then cs else (if leb 8 (length cs) then drop 1 cs else cs) ++ (c ∷ [])

abbrev pub keep_candidate : PtkCandidate → Station → Station
keep_candidate c s = record s {
  ptk_candidates = push_candidate c s.ptk_candidates;
  eapol_ready = false;
  eapol_replay = c.m3_replay_counter;
}

abbrev pub await_m4 : ℕ → Octets → Station → Station
await_m4 now message_3 s = record s {
  awaiting_m4 = true;
  pending_eapol = some (prepend_radiotap message_3);
  eapol_tx = now;
  eapol_retries = 0;
  eapol_acked = false;
}

abbrev pub steer : Octets → Station → Ap × Outgoing → Ap × Outgoing
steer sta s (ap, out) =
    if ap.btm && not s.pmf
    then (let (ap', frame) = btm_request_frame sta ap in (ap', tx frame out))
    else (ap, out)

-- The replay counter of message 3: the first valid message 2 takes a fresh one.
abbrev pub m3_counter : Octets → Station → Ap → Ap × ℕ
m3_counter sta s ap =
    if s.awaiting_m4
    then (ap, s.eapol_replay)
    else next_eapol_replay (record ap { pending_anonce = remove_pending sta ap.pending_anonce })

-- Message 3 for a candidate, which is kept, and whose keys the driver is asked to install.
unfoldable pub send_candidate :
    Env → Octets → Station → Octets → PtkCandidate → Ap × Outgoing → Ap × Outgoing
send_candidate e sta s anonce c (ap, out) =
    let (ap1, sc) = ap_next_sc (change_station sta (keep_candidate c) ap) in
    let m3 = message_3 e sta s anonce c sc ap1 in
    let ap2 = change_station sta (await_m4 e.now m3) ap1 in
    let ap3 = record ap2 { key_install_stations = ap2.key_install_stations ++ (sta ∷ []) } in
    steer sta s (arm_eapol_timer sta ap3, tx m3 out)

-- What a message 2 that passed every check leads to.
unfoldable pub send_m3 : Env → Octets → Station → Octets → Octets → Ap × Outgoing → Ap × Outgoing
send_m3 e sta s anonce ptk (ap, out) =
    let (ap', m3_replay) = m3_counter sta s ap in
    send_candidate e sta s anonce (candidate_of s.pairwise_cipher m3_replay ptk) (ap', out)

-- The operating channel that message 2 names, where it has to be validated.
unfoldable pub m2_oci_valid : Ap → Octets → Bool
m2_oci_valid ap key_data = not ap.ocv || elim (parse_oci_kde key_data) [
  | none ↦ false
  | some (oc, ch) ↦ ch == ap.channel && oci_class_matches_band oc ap.channel ap.band6
]

abbrev pub pin_pmk : Octets → Station → Station
pin_pmk pmk s = record s { pmk = some pmk }

-- The PMK that message 2 verified under stays pinned, also where the channel is wrong.
unfoldable pub accept_verified :
    Env → Octets → Station → Octets → Octets → EapolKey → Ap × Outgoing → Ap × Outgoing
accept_verified e sta s anonce pmk ek (ap, out) =
    let key_data = trim_key_data_padding ek.key_data in
    let pinned = change_station sta (pin_pmk pmk) ap in
    if not (message_2_security_matches s.assoc_ies key_data)
    then (ap, out)
    else if not (m2_oci_valid ap key_data)
    then (pinned, out)
    else send_m3 e sta s anonce (station_ptk e.digests sta s ap anonce ek.key_nonce pmk)
        (pinned, out)

-- A first message 2 that verifies under no PMK ends the session.
unfoldable pub reject_m2 : Octets → Station → Ap × Outgoing → Ap × Outgoing
reject_m2 sta s (ap, out) =
    if s.awaiting_m4
    then (ap, out)
    else (disconnect sta 1 (report_failure sta four_way_mic ap), tx (build_deauth ap.mac sta 1) out)

abbrev pub verified_or_not :
    Env → Octets → Station → Octets → EapolKey → Ap × Outgoing → Option Octets → Ap × Outgoing
verified_or_not e sta s anonce ek st none = reject_m2 sta s st
verified_or_not e sta s anonce ek st (some pmk) = accept_verified e sta s anonce pmk ek st

abbrev needs_pmk : SecurityMode → Bool
needs_pmk wpa3_sae = true
needs_pmk owe = true
needs_pmk _ = false

abbrev missing : Option Octets → Bool
missing none = true
missing (some p) = false

-- Whether the message is a message 2 that the station may send now.
unfoldable pub m2_expected : Station → Ap → EapolKey → Bool
m2_expected s ap ek =
    (s.eapol_ready || s.awaiting_m4)
    && (ek.key_replay_counter == s.m1_replay
        && (key_info_matches ek.key_info (0x0108 + version (station_mic s))
            && (ek.key_length == 0 && not (needs_pmk (security_mode ap) && missing s.pmk))))

abbrev verify_m2 :
    Env → Octets → Station → Octets → Octets → EapolKey → Ap × Outgoing → Ap × Outgoing
verify_m2 e sta s frame anonce ek (ap, out) =
    verified_or_not e sta s anonce ek (ap, out)
      (match_pmk
        (λ pmk.
          authentic e.digests (station_mic s)
            (take 16 (station_ptk e.digests sta s ap anonce ek.key_nonce pmk)) frame ek)
        (pmk_candidates sta s ap))

abbrev pub answer_m2 :
    Env → Octets → Station → Octets → EapolKey → Ap × Outgoing → Option Octets → Ap × Outgoing
answer_m2 e sta s frame ek st none = st
answer_m2 e sta s frame ek st (some anonce) = verify_m2 e sta s frame anonce ek st

unfoldable pub accept_m2 :
    Env → Octets → Station → Octets → EapolKey → Ap × Outgoing → Ap × Outgoing
accept_m2 e sta s frame ek (ap, out) =
    if m2_expected s ap ek then answer_m2 e sta s frame ek (ap, out) s.anonce else (ap, out)
