-- ===== src/AccessPoint/Handshake/Authorization.antt =====
-- How a station becomes authorized in src/ap/handshake.rs.
use oxwifid.Base.{
  ◌≡◌, refl, ◌∙◌, arith, true, ◌&&◌, Option, some, List, [], ◌∷◌, ◌⊎◌, inl, inr, Octets, ◌==◌,
  if_split,
}
use oxwifid.Security.{Digests, KeyMic}
use oxwifid.Security.EapolKey.{EapolKey}
use oxwifid.Frames.Dot11.{Dot11}
use oxwifid.AccessPoint.State.{Ap, Env, Outgoing, Station, PtkCandidate, station_mic}
use oxwifid.AccessPoint.State.Steps.{Steps, Steps-from}
use oxwifid.AccessPoint.State.Stations.{get_station}
use oxwifid.AccessPoint.Handshake.Checks.{received_key, authentic}
use oxwifid.AccessPoint.Handshake.{
  names_mld, same_temporal_key, install_candidate, select_candidate, handle_eapol,
}
use oxwifid.AccessPoint.Handshake.Changes.{Admits, handle_eapol-Steps}

abbrev pub IsCandidate : PtkCandidate → List PtkCandidate → Type 0
IsCandidate c [] = ⊥
IsCandidate c (x ∷ xs) = (c ≡ x) ⊎ IsCandidate c xs

-- The message was expected, answers the candidate's message 3, and is authentic under its key.
abbrev pub Confirms : Env → Dot11 → Station → PtkCandidate → Type 0
Confirms e f s c =
    (frame : Octets) × (ek : EapolKey) × (received_key f ≡ some (frame, ek))
    × (s.awaiting_m4 ≡ true)
    × IsCandidate c s.ptk_candidates
    × (c.m3_replay_counter ≡ ek.key_replay_counter)
    × (authentic e.digests (station_mic s) c.kck frame ek ≡ true)

select_candidate_found :
    (d : Digests) (mic : KeyMic) (mld : Option Octets) (frame : Octets) (ek : EapolKey)
    (cs : List PtkCandidate) (c : PtkCandidate)
    → select_candidate d mic mld frame ek cs ≡ some c
    → IsCandidate c cs
      × (c.m3_replay_counter ≡ ek.key_replay_counter)
      × (authentic d mic c.kck frame ek ≡ true)
unfolding select_candidate
select_candidate_found d mic mld frame ek [] c = λ h. absurd (cc)
select_candidate_found d mic mld frame ek (x ∷ xs) c =
    if_split
      (λ (o : Option PtkCandidate).
        o ≡ some c
        → ((c ≡ x) ⊎ IsCandidate c xs)
          × (c.m3_replay_counter ≡ ek.key_replay_counter)
          × (authentic d mic c.kck frame ek ≡ true))
      (x.m3_replay_counter == ek.key_replay_counter
        && (authentic d mic x.kck frame ek && names_mld mld ek))
      (λ here h.
        let same : c ≡ x = cc in
        let counter : x.m3_replay_counter ≡ ek.key_replay_counter = ground arith in
        let mic_valid : authentic d mic x.kck frame ek ≡ true = ground arith in
        (inl same, rw same counter, rw same mic_valid))
      (λ later h.
        let (among, counter, mic_valid) = select_candidate_found d mic mld frame ek xs c h in
        (inr among, counter, mic_valid))

-- The authorization and the pairwise key are as before.
abbrev KeepsAuthorization : Station → Station → Type 0
KeepsAuthorization s s' = (s'.associated ≡ s.associated) × (s'.pairwise_tk ≡ s.pairwise_tk)

keeps_authorization : Admits KeepsAuthorization
keeps_authorization = record {
  refl_law = λ s. (refl, refl);
  trans_law = λ s s' s'' (a, b) (a', b'). (a' ∙ a, b' ∙ b);
  bump = λ s. (refl, refl);
  keep = λ c s. (refl, refl);
  await = λ now m3 s. (refl, refl);
  pin = λ pmk s. (refl, refl);
  group = λ now s. (refl, refl);
}

-- Nothing changed, or a candidate's key was installed that the message confirms.
abbrev pub Authorizes : Env → Dot11 → Station → Station → Type 0
Authorizes e f s s' =
    ((s'.associated ≡ s.associated) × (s'.pairwise_tk ≡ s.pairwise_tk))
    ⊎ ((c : PtkCandidate) × Confirms e f s c × (s'.pairwise_tk ≡ c.tk))

install_candidate_tk : (c : PtkCandidate) (s : Station) → (install_candidate c s).pairwise_tk ≡ c.tk
unfolding install_candidate
install_candidate_tk c s =
    if_split (λ (s' : Station). s'.pairwise_tk ≡ c.tk) (same_temporal_key s c) (λ h. refl)
      (λ h. refl)

handle_eapol-Authorizes :
    (e : Env) (f : Dot11) (a : Ap) (out : Outgoing)
    → Steps (Authorizes e f) a.stations (handle_eapol e f (a, out)).0.stations
handle_eapol-Authorizes e f a out =
    handle_eapol-Steps e f KeepsAuthorization (Authorizes e f) keeps_authorization
      (λ s s' kept. inl kept)
      (λ frame ek mld c s received awaiting selected.
        let (among, counter, mic_valid) =
          select_candidate_found e.digests (station_mic s) mld frame ek s.ptk_candidates c
            selected in
        inr
          (c, (frame, ek, received, awaiting, among, counter, mic_valid), install_candidate_tk c s))
      a out

-- Whatever key message an access point handles: a station that it knows afterwards was known before,
-- and has kept its authorization and its pairwise key, or it was awaiting message 4, the message
-- answers the message 3 of one of the station's candidates and is authentic under that candidate's
-- key, and the pairwise key is that candidate's.
pub authorized_by_m4 :
    (e : Env) (f : Dot11) (a : Ap) (out : Outgoing) (sta : Octets) (s' : Station)
    → get_station sta (handle_eapol e f (a, out)).0.stations ≡ some s'
    → (s : Station) × (get_station sta a.stations ≡ some s) × Authorizes e f s s'
authorized_by_m4 e f a out sta s' h' =
    Steps-from (Authorizes e f) sta a.stations (handle_eapol e f (a, out)).0.stations s' h'
      (handle_eapol-Authorizes e f a out)
