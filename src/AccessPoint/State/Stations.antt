-- ===== src/AccessPoint/State/Stations.antt =====
-- The table of stations, `Ap::stations`: lookups, changes and removals, and how they interact.
use oxwifid.Base.{
  ◌≡◌, ◌≢◌, refl, sym, ◌∙◌, Bool, false, ◌||◌, Option, none, some, [], ◌∷◌, inl, inr, Octets,
  if◌then◌else◌, if_split, bytes_eq, bytes_eq→eq, Bool-cases,
}
use mathlib.Core.Option
use oxwifid.AccessPoint.State.{Station, Stations}

unfoldable pub get_station : Octets → Stations → Option Station
get_station sta [] = none
get_station sta ((m, s) ∷ rest) = if bytes_eq m sta then some s else get_station sta rest

-- `get_mut` and what is done with the station.
unfoldable pub update_station : Octets → (Station → Station) → Stations → Stations
update_station sta f [] = []
update_station sta f ((m, s) ∷ rest) =
    if bytes_eq m sta then (m, f s) ∷ rest else (m, s) ∷ update_station sta f rest

unfoldable pub remove_station : Octets → Stations → Stations
remove_station sta [] = []
remove_station sta ((m, s) ∷ rest) =
    if bytes_eq m sta then remove_station sta rest else (m, s) ∷ remove_station sta rest

-- `stations.values().any(...)`.
unfoldable pub any_station : (Station → Bool) → Stations → Bool
any_station p [] = false
any_station p ((m, s) ∷ rest) = p s || any_station p rest

pub get-update_station :
    (sta : Octets) (f : Station → Station) (table : Stations)
    → get_station sta (update_station sta f table) ≡ Option.map f (get_station sta table)
unfolding get_station update_station
get-update_station sta f [] = refl
get-update_station sta f ((m, s) ∷ rest) = elim (Bool-cases (bytes_eq m sta)) [
  | inl e ↦ rw (e, e) refl
  | inr e ↦ rw (e, e) (get-update_station sta f rest)
]

bytes_eq-false : (a b : Octets) → a ≢ b → bytes_eq a b ≡ false
bytes_eq-false a b h = elim (Bool-cases (bytes_eq a b)) [
  | inl e ↦ absurd (h (bytes_eq→eq a b e))
  | inr e ↦ e
]

-- A change of one station leaves the others as they are.
pub get-update_other :
    (sta other : Octets) (f : Station → Station) (table : Stations)
    → other ≢ sta
    → get_station other (update_station sta f table) ≡ get_station other table
unfolding get_station update_station
get-update_other sta other f [] h = refl
get-update_other sta other f ((m, s) ∷ rest) h = elim (Bool-cases (bytes_eq m sta)) [
  | inl e ↦
      let differs : bytes_eq m other ≡ false =
        bytes_eq-false m other (λ same. h (sym same ∙ bytes_eq→eq m sta e)) in
      rw (e, differs) refl
  | inr e ↦ rw e (
      if_split
        (λ (o : Option Station).
          (if bytes_eq m other then some s else get_station other (update_station sta f rest)) ≡ o)
        (bytes_eq m other) (λ here. rw here refl)
        (λ later. rw later (get-update_other sta other f rest h)))
]

pub get-remove_station :
    (sta : Octets) (table : Stations) → get_station sta (remove_station sta table) ≡ none
unfolding get_station remove_station
get-remove_station sta [] = refl
get-remove_station sta ((m, s) ∷ rest) = elim (Bool-cases (bytes_eq m sta)) [
  | inl e ↦ rw e (get-remove_station sta rest)
  | inr e ↦ rw (e, e) (get-remove_station sta rest)
]

pub get-remove_other :
    (sta other : Octets) (table : Stations)
    → other ≢ sta
    → get_station other (remove_station sta table) ≡ get_station other table
unfolding get_station remove_station
get-remove_other sta other [] h = refl
get-remove_other sta other ((m, s) ∷ rest) h = elim (Bool-cases (bytes_eq m sta)) [
  | inl e ↦
      let differs : bytes_eq m other ≡ false =
        bytes_eq-false m other (λ same. h (sym same ∙ bytes_eq→eq m sta e)) in
      rw (e, differs) (get-remove_other sta other rest h)
  | inr e ↦ rw e (
      if_split
        (λ (o : Option Station).
          (if bytes_eq m other then some s else get_station other (remove_station sta rest)) ≡ o)
        (bytes_eq m other) (λ here. rw here refl)
        (λ later. rw later (get-remove_other sta other rest h)))
]
