-- ===== src/AccessPoint/Requests/Table.antt =====
-- The size of the table of request rates in src/ap/runtime.rs.
use oxwifid.Base.{
  ℕ, suc, ◌+◌, ◌-◌, ◌≤◌, ◌<◌, ◌≡◌, refl, arith, true, not, ◌&&◌, Option, none, some, [], ◌∷◌,
  Octets, length, leb, ltb, is_some, bytes_eq, bytes_eq_refl, ap, if◌then◌else◌, if_split,
  Bool-cases, inl, inr,
}
use oxwifid.AccessPoint.Requests.{
  RequestRate, Rates, lookup, store, retain_recent, make_room, request_rate_entry,
  request_rate_entry_max, request_rate_window, entry_in, auth_decision, assoc_decision,
  allow_auth_request, allow_assoc_request,
}

-- A station in the table takes no new entry; another one takes one.
length-store :
    (sta : Octets) (rate : RequestRate) (rates : Rates)
    → length (store sta rate rates)
      ≡ (if is_some (lookup sta rates) then length rates else length rates + 1)
unfolding store lookup
length-store sta rate [] = omega arith
length-store sta rate ((s, r) ∷ rs) = elim (Bool-cases (bytes_eq s sta)) [
  | inl e ↦ rw e refl
  | inr e ↦ rw e (ground (arith, length-store sta rate rs))
]

lookup-store :
    (sta : Octets) (rate : RequestRate) (rates : Rates)
    → lookup sta (store sta rate rates) ≡ some rate
unfolding store lookup
lookup-store sta rate [] = rw (bytes_eq_refl sta) refl
lookup-store sta rate ((s, r) ∷ rs) = elim (Bool-cases (bytes_eq s sta)) [
  | inl e ↦ rw (e, e) refl
  | inr e ↦ rw (e, e) (lookup-store sta rate rs)
]

length-retain_recent : (now : ℕ) (rates : Rates) → length (retain_recent now rates) ≤ length rates
unfolding retain_recent
length-retain_recent now [] = omega arith
length-retain_recent now ((s, r) ∷ rs) =
    if_split (λ (l : Rates). length l ≤ suc (length rs))
      (ltb (now - r.last_seen) request_rate_window)
      (λ h. omega (arith, length-retain_recent now rs))
      (λ h. omega (arith, length-retain_recent now rs))

length-make_room :
    (sta : Octets) (now : ℕ) (rates : Rates) → length (make_room sta now rates) ≤ length rates
unfolding make_room
length-make_room sta now rates =
    if_split (λ (l : Rates). length l ≤ length rates)
      (not (is_some (lookup sta rates)) && leb request_rate_entry_max (length rates))
      (λ h. length-retain_recent now rates) (λ h. omega arith)

make_room_known :
    (sta : Octets) (now : ℕ) (rates : Rates)
    → is_some (lookup sta rates) ≡ true
    → make_room sta now rates ≡ rates
unfolding make_room
make_room_known sta now rates h = rw h refl

-- A table within its bound, which holds the station if it gave out an entry.
abbrev Entry : Octets → Rates × Option RequestRate → Type 0
Entry sta (rates, none) = length rates ≤ request_rate_entry_max
Entry sta (rates, some r) =
    (length rates ≤ request_rate_entry_max) × (is_some (lookup sta rates) ≡ true)

entry_in_known :
    (sta : Octets) (now : ℕ) (room : Rates)
    → length room ≤ request_rate_entry_max
    → is_some (lookup sta room) ≡ true
    → Entry sta (entry_in sta now room)
entry_in_known sta now room h k =
    (rw (length-store sta _ room, k) h, ap is_some (lookup-store sta _ room))

entry_in_free :
    (sta : Octets) (now : ℕ) (room : Rates)
    → length room < request_rate_entry_max
    → Entry sta (entry_in sta now room)
entry_in_free sta now room h = (
  rw (length-store sta _ room) (
      if_split (λ (n : ℕ). n ≤ request_rate_entry_max) (is_some (lookup sta room))
        (λ k. omega (arith, h)) (λ k. omega (arith, h))),
  ap is_some (lookup-store sta _ room),
)

request_rate_entry-Entry :
    (sta : Octets) (now : ℕ) (rates : Rates)
    → length rates ≤ request_rate_entry_max
    → Entry sta (request_rate_entry sta now rates)
unfolding request_rate_entry
request_rate_entry-Entry sta now rates h = elim (Bool-cases (is_some (lookup sta rates))) [
  | inl known ↦
      rw (known, make_room_known sta now rates known) (entry_in_known sta now rates h known)
  | inr unknown ↦ rw unknown (
      if_split (Entry sta) (leb request_rate_entry_max (length (make_room sta now rates)))
        (λ full. omega (arith, length-make_room sta now rates, h))
        (λ free. entry_in_free sta now (make_room sta now rates) (ground arith)))
]

auth_decision_bound :
    (sta : Octets) (now : ℕ) (r : Rates × Option RequestRate)
    → Entry sta r
    → length (auth_decision sta now r).0 ≤ request_rate_entry_max
auth_decision_bound sta now (rates, none) h = h
auth_decision_bound sta now (rates, some r) (h, k) = rw (length-store sta _ rates, k) h

assoc_decision_bound :
    (sta : Octets) (now : ℕ) (r : Rates × Option RequestRate)
    → Entry sta r
    → length (assoc_decision sta now r).0 ≤ request_rate_entry_max
assoc_decision_bound sta now (rates, none) h = h
assoc_decision_bound sta now (rates, some r) (h, k) = rw (length-store sta _ rates, k) h

-- A table of request rates within its bound of 1024 entries stays within it, whichever station
-- makes an authentication or an association request, and whenever it does.
pub rates_bound :
    (sta : Octets) (now : ℕ) (rates : Rates)
    → length rates ≤ request_rate_entry_max
    → (length (allow_auth_request sta now rates).0 ≤ request_rate_entry_max)
      × (length (allow_assoc_request sta now rates).0 ≤ request_rate_entry_max)
unfolding allow_auth_request allow_assoc_request
rates_bound sta now rates h = (
  auth_decision_bound sta now _ (request_rate_entry-Entry sta now rates h),
  assoc_decision_bound sta now _ (request_rate_entry-Entry sta now rates h),
)
