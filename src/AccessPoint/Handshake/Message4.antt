-- ===== src/AccessPoint/Handshake/Message4.antt =====
-- Message 4 of a station, src/auth/eapol.rs, at the access point, src/ap/handshake.rs.
use oxwifid.Base.{
  Bool-cases, if◌then◌else◌, ◌&&◌, ℕ, ◌+◌, ◌^◌, ◌<◌, ◌≡◌, ◌∙◌, ap, refl, Bool, true, false, ◌&&◌,
  none, some, arith, List, [], ◌∷◌, Octets, Option, length, replicate, bytes_eq, bytes_eq_refl,
  take_all, if_split, inl, inr, ◌==◌, ==_refl, if◌then◌else◌, is_some,
}
use oxwifid.Security.{KeyMic, Digests, compute, to_u16, version}
use oxwifid.Security.EapolKey.{EapolKey}
use oxwifid.Eapol.{eapol_wrap}
use oxwifid.Eapol.RoundTrip.{Fields, built, read_back, Fits, parse-built}
use oxwifid.Eapol.Received.{
  Widths, length-compute, with_mic_field, zeroed-wrap, length-wrap, carried, eapol_frame-carried,
  eapol_key_body-carried,
}
use mathlib.Core.List.{append_assoc}
use oxwifid.Security.{default_key_info}
use oxwifid.Frames.{llc_snap, ethertype_eapol}
use oxwifid.Frames.Dot11.{Dot11, parse}
use oxwifid.Frames.Dot11.Built.{octets, parse-octets}
use oxwifid.Eapol.{build_eapol_key_body}
use oxwifid.Eapol.Messages.{build_eapol_m4_mld, eapol_data_header_tods, mld_octets, mac_addr_kde}
use oxwifid.Eapol.Mld.{parse_mac_addr_kde, mac_addr_loop}
use oxwifid.Eapol.Received.{up_header}
use oxwifid.AccessPoint.State.{Ap, Env, Outgoing, Station, PtkCandidate, station_mic}
use oxwifid.AccessPoint.State.Stations.{get_station, get-update_station}
use oxwifid.AccessPoint.Handshake.Checks.{authentic, received_key, key_info_matches}
use oxwifid.AccessPoint.Handshake.{
  is_m4, names_mld, is_group_m2, finish_group_rekey, select_candidate, same_temporal_key,
  install_candidate, authorize, finish_handshake, handle_message, handle_eapol,
}
use oxwifid.AccessPoint.Lifecycle.{is_associated}
use mathlib.Core.Option
use oxwifid.AccessPoint.Handshake.Authorization.{IsCandidate}
use KeyMic.{hmac_sha1, hmac_sha256, aes_cmac, aes_cmac_v3}

-- A message with the MIC that its builder computes is authentic.
pub authentic-built :
    (d : Digests) (w : Widths d) (mic : KeyMic) (kck : Octets) (f : Fields)
    → Fits f
    → f.mic ≡ compute d mic kck (eapol_wrap (built (with_mic_field (replicate 16 0) f)))
    → authentic d mic kck (eapol_wrap (built f)) (read_back f) ≡ true
unfolding authentic
authentic-built d w mic kck f fits sealed =
    rw (zeroed-wrap f fits, ← sealed, take_all f.mic 16 fits.mic_fits, bytes_eq_refl f.mic)
      (ground (arith, length-wrap f fits))

pub received_key-carried :
    (bssid sta : Octets) (sc : ℕ) (f : Fields)
    → Fits f
    → 95 + length f.key_data < 2 ^ 16
    → received_key (carried bssid sta sc f) ≡ some (eapol_wrap (built f), read_back f)
unfolding received_key
received_key-carried bssid sta sc f fits short =
    rw
      (
        eapol_frame-carried bssid sta sc f fits short,
        eapol_key_body-carried bssid sta sc f fits short,
        parse-built f fits,
      )
      refl

parse-mac_addr_kde :
    (mac : Octets) → length mac ≡ 6 → parse_mac_addr_kde (mac_addr_kde mac) ≡ some mac
unfolding parse_mac_addr_kde mac_addr_loop mac_addr_kde bytes_eq
parse-mac_addr_kde mac h = rw (h, take_all mac 6 h, take_all mac 6 h) refl

-- What a station puts into message 4, with this MIC.
abbrev m4_fields : KeyMic → ℕ → Option Octets → Octets → Fields
m4_fields mic replay mld m = record {
  info = record default_key_info {
    secure = true;
    has_key_mic = true;
    key_type = true;
    key_descriptor_type_version = version mic;
  };
  len = 0;
  replay = replay;
  nonce = replicate 32 0;
  rsc = 0;
  mic = m;
  key_data = mld_octets mld;
}

-- The MIC that the builder computes.
abbrev m4_mic : Digests → KeyMic → Octets → ℕ → Option Octets → Octets
m4_mic d mic kck replay mld =
    compute d mic kck (eapol_wrap (built (m4_fields mic replay mld (replicate 16 0))))

parse-build_eapol_m4_mld :
    (d : Digests) (bssid sta kck : Octets) (replay sc : ℕ) (mic : KeyMic) (mld : Option Octets)
    → length bssid ≡ 6
    → length sta ≡ 6
    → sc < 2 ^ 16
    → parse (build_eapol_m4_mld d bssid sta kck replay sc mic mld)
      ≡ some (carried bssid sta sc (m4_fields mic replay mld (m4_mic d mic kck replay mld)))
unfolding build_eapol_m4_mld eapol_data_header_tods build_eapol_key_body
parse-build_eapol_m4_mld d bssid sta kck replay sc mic mld hb hs hsc =
    ap parse (append_assoc (octets (up_header bssid sta sc)) (llc_snap ethertype_eapol) _)
    ∙ parse-octets (up_header bssid sta sc)
        record {
          type_fits = omega arith;
          subtype_fits = omega arith;
          no_qos = refl;
          three_addresses = refl;
          a1_fits = hb;
          a2_fits = hs;
          a3_fits = hb;
          sc_fits = hsc;
        }
        _

m4-Fits :
    (d : Digests) (w : Widths d) (mic : KeyMic) (kck : Octets) (replay : ℕ) (mld : Option Octets)
    → replay < 2 ^ 64
    → length (mld_octets mld) < 2 ^ 16
    → Fits (m4_fields mic replay mld (m4_mic d mic kck replay mld))
unfolding to_u16
m4-Fits d w mic kck replay mld hr hm = record {
  info_fits = omega arith;
  len_fits = omega arith;
  replay_fits = hr;
  nonce_fits = refl;
  rsc_fits = omega arith;
  mic_fits = length-compute d w mic kck _;
  key_data_fits = hm;
}

m4_flags :
    (mic : KeyMic)
    → key_info_matches (to_u16 (m4_fields mic 0 none []).info) (0x0308 + version mic) ≡ true
unfolding key_info_matches to_u16 version
m4_flags hmac_sha1 = refl
m4_flags hmac_sha256 = refl
m4_flags aes_cmac = refl
m4_flags aes_cmac_v3 = refl

m4-IsM4 :
    (s : Station) (replay : ℕ) (mld : Option Octets) (m : Octets)
    → is_m4 s (read_back (m4_fields (station_mic s) replay mld m)) ≡ true
unfolding is_m4
m4-IsM4 s replay mld m = rw (m4_flags (station_mic s), bytes_eq_refl (replicate 32 0)) refl

-- The address of a multi-link station, of six octets.
abbrev pub MldFits : Option Octets → Type 0
MldFits none = Unit
MldFits (some mld) = length mld ≡ 6

m4_names_mld :
    (multi : Bool) (mic : KeyMic) (replay : ℕ) (mld : Option Octets) (m : Octets)
    → MldFits mld
    → names_mld (if multi then mld else none) (read_back (m4_fields mic replay mld m)) ≡ true
m4_names_mld false mic replay mld m h = refl
m4_names_mld true mic replay none m h = refl
m4_names_mld true mic replay (some mld) m h =
    rw (names_mld, parse-mac_addr_kde mld h) (bytes_eq_refl mld)

-- A candidate that the message is authentic under is found, or one before it.
select_candidate_some :
    (d : Digests) (mic : KeyMic) (mld : Option Octets) (frame : Octets) (ek : EapolKey)
    (cs : List PtkCandidate) (c : PtkCandidate)
    → IsCandidate c cs
    → c.m3_replay_counter ≡ ek.key_replay_counter
    → authentic d mic c.kck frame ek ≡ true
    → names_mld mld ek ≡ true
    → is_some (select_candidate d mic mld frame ek cs) ≡ true
unfolding select_candidate
select_candidate_some d mic mld frame ek [] c among counter mic_valid named = absurd among
select_candidate_some d mic mld frame ek (x ∷ xs) c (inl same) counter mic_valid named =
    rw (← same, counter, ==_refl ek.key_replay_counter, mic_valid, named) refl
select_candidate_some d mic mld frame ek (x ∷ xs) c (inr among) counter mic_valid named =
    if_split (λ (o : Option PtkCandidate). is_some o ≡ true)
      (x.m3_replay_counter == ek.key_replay_counter
        && (authentic d mic x.kck frame ek && names_mld mld ek))
      (λ here. refl)
      (λ later. select_candidate_some d mic mld frame ek xs c among counter mic_valid named)

install_candidate-associated :
    (c : PtkCandidate) (s : Station) → (install_candidate c s).associated ≡ true
unfolding install_candidate
install_candidate-associated c s =
    if_split (λ (s' : Station). s'.associated ≡ true) (same_temporal_key s c) (λ h. refl)
      (λ h. refl)

authorize-associated :
    (sta : Octets) (s : Station) (a : Ap) (o : Option PtkCandidate)
    → get_station sta a.stations ≡ some s
    → is_some o ≡ true
    → is_associated sta (authorize sta s a o) ≡ true
unfolding is_associated
authorize-associated sta s a none found h = absurd (cc)
authorize-associated sta s a (some c) found h =
    rw (is_associated, get-update_station sta (install_candidate c) a.stations, found)
      (install_candidate-associated c s)

length-mld_octets : (mld : Option Octets) → MldFits mld → 95 + length (mld_octets mld) < 2 ^ 16
unfolding mac_addr_kde
length-mld_octets none h = omega arith
length-mld_octets (some mld) h = omega arith

group_flags :
    (mic : KeyMic)
    → key_info_matches (to_u16 (m4_fields mic 0 none []).info) (0x0300 + version mic) ≡ false
unfolding key_info_matches to_u16 version
group_flags hmac_sha1 = refl
group_flags hmac_sha256 = refl
group_flags aes_cmac = refl
group_flags aes_cmac_v3 = refl

-- Message 4 is no message 2 of the group-key handshake.
m4_is_no_group_m2 :
    (s : Station) (replay : ℕ) (mld : Option Octets) (m : Octets)
    → is_group_m2 s (read_back (m4_fields (station_mic s) replay mld m)) ≡ false
unfolding is_group_m2
m4_is_no_group_m2 s replay mld m = rw (group_flags (station_mic s)) refl

-- Whether a key message of the replay counter is taken for the answer to a group rekey.
abbrev pub answers_group : Station → ℕ → Bool
answers_group s replay = s.group_rekeying && replay == s.eapol_replay

-- A station that awaits message 4 sends the message 4 of one of its candidates, of the replay counter
-- of that candidate and with the MLD address that it is known by, if any. If a group rekey is not
-- outstanding, or has another replay counter than the message, the station is authorized when the
-- access point handles the frame. If a group rekey of that very replay counter is outstanding, the
-- message is taken for its answer, and the station is authorized afterwards just if it was before.
-- The hypotheses are the widths of digests, addresses, replay and sequence counters.
pub m4_authorizes :
    (e : Env) (a : Ap) (out : Outgoing) (sta : Octets) (s : Station) (c : PtkCandidate) (sc : ℕ)
    → Widths e.digests
    → length a.mac ≡ 6
    → length sta ≡ 6
    → MldFits s.client_mld_mac
    → sc < 2 ^ 16
    → c.m3_replay_counter < 2 ^ 64
    → get_station sta a.stations ≡ some s
    → s.awaiting_m4 ≡ true
    → IsCandidate c s.ptk_candidates
    → Option.map
        (λ (f : Dot11). is_associated sta (handle_eapol e f (a, out)).0)
        (parse (
          build_eapol_m4_mld e.digests a.mac sta c.kck c.m3_replay_counter sc
            (station_mic s)
            s.client_mld_mac))
      ≡ some (if answers_group s c.m3_replay_counter then s.associated else true)
unfolding handle_eapol handle_message finish_handshake finish_group_rekey station_mic is_associated
m4_authorizes e a out sta s c sc w ha hs hm hsc hr found awaiting among =
    let mic : KeyMic = station_mic s in
    let mld : Option Octets = s.client_mld_mac in
    let f : Fields =
      m4_fields mic c.m3_replay_counter mld (m4_mic e.digests mic c.kck c.m3_replay_counter mld) in
    let fits : Fits f =
      m4-Fits e.digests w mic c.kck c.m3_replay_counter mld hr
        (omega (arith, length-mld_octets mld hm)) in
    rw
      (
        parse-build_eapol_m4_mld e.digests a.mac sta c.kck c.m3_replay_counter sc mic mld ha hs hsc,
        bytes_eq_refl a.mac,
        found,
        received_key-carried a.mac sta sc f fits (length-mld_octets mld hm),
        m4-IsM4 s c.m3_replay_counter mld f.mic,
        m4_is_no_group_m2 s c.m3_replay_counter mld f.mic,
        awaiting,
      )
      (elim (Bool-cases (answers_group s c.m3_replay_counter)) [
        | inl taken ↦ rw (taken, is_associated, found) refl
        | inr free ↦ rw free (
            ap some (
              authorize-associated sta s a _ found (
                select_candidate_some e.digests mic _ (eapol_wrap (built f)) (read_back f)
                  s.ptk_candidates c among refl (authentic-built e.digests w mic c.kck f fits refl)
                  (m4_names_mld a.mld mic c.m3_replay_counter mld f.mic hm))))
      ])
