-- ===== src/AccessPoint/Handshake/Bound.antt =====
-- The number of PTK candidates that src/ap/handshake.rs keeps.
use oxwifid.Base.{
  ◌+◌, ◌≤◌, ◌≡◌, arith, some, List, Octets, [], ◌∷◌, ◌++◌, length, length-append, length-drop, drop,
  leb, if_split,
}
use oxwifid.Frames.Dot11.{Dot11}
use oxwifid.AccessPoint.State.{Ap, Env, Outgoing, Station, PtkCandidate}
use oxwifid.AccessPoint.State.Steps.{Steps, Steps-at}
use oxwifid.AccessPoint.State.Stations.{get_station}
use oxwifid.AccessPoint.Handshake.Message2.{known_candidate, push_candidate}
use oxwifid.AccessPoint.Handshake.{same_temporal_key, install_candidate, handle_eapol}
use oxwifid.AccessPoint.Handshake.Changes.{Admits, handle_eapol-Steps}

length-push_candidate :
    (c : PtkCandidate) (cs : List PtkCandidate) → length cs ≤ 8 → length (push_candidate c cs) ≤ 8
unfolding push_candidate
length-push_candidate c cs h =
    if_split (λ (l : List PtkCandidate). length l ≤ 8) (known_candidate c cs) (λ known. h)
      (λ new.
        if_split (λ (l : List PtkCandidate). length (l ++ (c ∷ [])) ≤ 8) (leb 8 (length cs))
          (λ full. omega (arith, h, length-append (drop 1 cs) (c ∷ []), length-drop 1 cs))
          (λ room.
            let less : length cs + 1 ≤ 8 = ground arith in
            omega (arith, less, length-append cs (c ∷ []))))

-- At most eight candidates stay at most eight.
abbrev Bounded : Station → Station → Type 0
Bounded s s' = length s.ptk_candidates ≤ 8 → length s'.ptk_candidates ≤ 8

bounded : Admits Bounded
bounded = record {
  refl_law = λ s h. h;
  trans_law = λ s s' s'' f g h. g (f h);
  bump = λ s h. h;
  keep = λ c s h. length-push_candidate c s.ptk_candidates h;
  await = λ now m3 s h. h;
  pin = λ pmk s h. h;
  group = λ now s h. h;
}

install_candidate-Bounded : (c : PtkCandidate) (s : Station) → Bounded s (install_candidate c s)
unfolding install_candidate
install_candidate-Bounded c s =
    if_split (λ (s' : Station). Bounded s s') (same_temporal_key s c) (λ h n. omega arith)
      (λ h n. omega arith)

handle_eapol-Bounded :
    (e : Env) (f : Dot11) (a : Ap) (out : Outgoing)
    → Steps Bounded a.stations (handle_eapol e f (a, out)).0.stations
handle_eapol-Bounded e f a out =
    handle_eapol-Steps e f Bounded Bounded bounded (λ s s' h. h)
      (λ frame ek mld c s received awaiting selected. install_candidate-Bounded c s) a out

-- Whatever key message an access point handles: a station that had at most eight PTK candidates has at
-- most eight.
pub candidates_bound :
    (e : Env) (f : Dot11) (a : Ap) (out : Outgoing) (sta : Octets) (s s' : Station)
    → get_station sta a.stations ≡ some s
    → get_station sta (handle_eapol e f (a, out)).0.stations ≡ some s'
    → length s.ptk_candidates ≤ 8
    → length s'.ptk_candidates ≤ 8
candidates_bound e f a out sta s s' h h' =
    Steps-at Bounded sta a.stations (handle_eapol e f (a, out)).0.stations s s' h h'
      (handle_eapol-Bounded e f a out)
