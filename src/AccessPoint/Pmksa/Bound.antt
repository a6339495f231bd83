-- ===== src/AccessPoint/Pmksa/Bound.antt =====
-- The size of the cache of PMKs in src/ap/lifecycle.rs.
use oxwifid.Base.{
  ℕ, suc, ◌+◌, ◌≤◌, ◌≡◌, refl, arith, Bool, not, ◌&&◌, [], ◌∷◌, Octets, length, leb, ltb,
  if◌then◌else◌, if_split, bytes_eq, Bool-cases, inl, inr,
}
use oxwifid.AccessPoint.State.{Ap, PmksaEntry}
use oxwifid.AccessPoint.Pmksa.{
  PmksaCache, live_pmksa, expire_pmksa, same_key, cached, insert_pmksa, make_pmksa_room,
  pmksa_cache_max, schedule_maintenance, cache_pmksa,
}

length-live_pmksa : (now : ℕ) (c : PmksaCache) → length (live_pmksa now c) ≤ length c
unfolding live_pmksa
length-live_pmksa now [] = omega arith
length-live_pmksa now (((id, identity), entry) ∷ rest) =
    if_split (λ (l : PmksaCache). length l ≤ suc (length rest))
      (bytes_eq identity entry.identity && ltb now entry.expires_at)
      (λ h. omega (arith, length-live_pmksa now rest))
      (λ h. omega (arith, length-live_pmksa now rest))

-- A key that is cached takes no new entry; another one takes one.
length-insert_pmksa :
    (key : Octets × Octets) (entry : PmksaEntry) (c : PmksaCache)
    → length (insert_pmksa key entry c) ≡ (if cached key c then length c else length c + 1)
unfolding insert_pmksa
length-insert_pmksa key entry [] = omega arith
length-insert_pmksa key entry ((k, old) ∷ rest) = elim (Bool-cases (same_key k key)) [
  | inl e ↦ rw e refl
  | inr e ↦ rw e (ground (arith, length-insert_pmksa key entry rest))
]

insert-make_room :
    (key : Octets × Octets) (entry : PmksaEntry) (c : PmksaCache)
    → length c ≤ pmksa_cache_max
    → length (insert_pmksa key entry (make_pmksa_room key c)) ≤ pmksa_cache_max
unfolding make_pmksa_room
insert-make_room key entry [] h = omega (arith, length-insert_pmksa key entry [])
insert-make_room key entry (first ∷ rest) h =
    if_split (λ (l : PmksaCache). length (insert_pmksa key entry l) ≤ pmksa_cache_max)
      (leb pmksa_cache_max (length (first ∷ rest)) && not (cached key (first ∷ rest)))
      (λ full. ground (arith, length-insert_pmksa key entry rest))
      (λ room. ground (arith, length-insert_pmksa key entry (first ∷ rest)))

-- A PMK cache within its bound of 256 entries stays within it when a PMK is cached.
pub pmksa_bound :
    (now : ℕ) (id identity pmk : Octets) (sha256 : Bool) (a : Ap)
    → length a.pmksa_cache ≤ pmksa_cache_max
    → length (cache_pmksa now id identity pmk sha256 a).pmksa_cache ≤ pmksa_cache_max
unfolding cache_pmksa expire_pmksa schedule_maintenance
pmksa_bound now id identity pmk sha256 a h =
    insert-make_room (id, identity) _ (live_pmksa now a.pmksa_cache)
      (omega (arith, h, length-live_pmksa now a.pmksa_cache))
