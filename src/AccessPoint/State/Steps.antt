-- ===== src/AccessPoint/State/Steps.antt =====
-- How the table of stations changes: each station that is there afterwards was there before, and is
-- related to what it was.
use oxwifid.Base.{
  ◌≡◌, ◌≢◌, refl, false, Option, none, some, inl, inr, Octets, bytes_eq, bytes_eq_refl, bytes_eq→eq,
  Bool-cases,
}
use mathlib.Core.Option
use oxwifid.AccessPoint.State.{Station, Stations}
use oxwifid.AccessPoint.State.Stations.{
  get_station, update_station, remove_station, get-update_station, get-update_other,
  get-remove_station, get-remove_other,
}

abbrev pub OnBoth : (Station → Station → Type 0) → Option Station → Option Station → Type 0
OnBoth R o none = Unit
OnBoth R none (some s') = ⊥
OnBoth R (some s) (some s') = R s s'

abbrev pub Steps : (Station → Station → Type 0) → Stations → Stations → Type 0
Steps R table table' = (x : Octets) → OnBoth R (get_station x table) (get_station x table')

module _ (R : Station → Station → Type 0) (refl_law : (s : Station) → R s s) where
  OnBoth-refl : (o : Option Station) → OnBoth R o o
  OnBoth-refl none = tt
  OnBoth-refl (some s) = refl_law s

  pub Steps-refl : (table : Stations) → Steps R table table
  Steps-refl table x = OnBoth-refl (get_station x table)

  OnBoth-map :
      (f : Station → Station) (o : Option Station)
      → ((s : Station) → o ≡ some s → R s (f s))
      → OnBoth R o (Option.map f o)
  OnBoth-map f none h = tt
  OnBoth-map f (some s) h = h s refl

  -- A change of one station.
  pub Steps-update :
      (sta : Octets) (f : Station → Station) (table : Stations)
      → ((s : Station) → get_station sta table ≡ some s → R s (f s))
      → Steps R table (update_station sta f table)
  Steps-update sta f table h x = elim (Bool-cases (bytes_eq x sta)) [
    | inl e ↦
        let same : x ≡ sta = bytes_eq→eq x sta e in
        rw (same, get-update_station sta f table) (OnBoth-map f (get_station sta table) h)
    | inr e ↦
        rw (get-update_other sta x f table (λ same. differs x sta e same))
          (OnBoth-refl (get_station x table))
  ]
    where
      differs : (a b : Octets) → bytes_eq a b ≡ false → a ≢ b
      differs a b e same = cc (e, same, bytes_eq_refl a)

  pub Steps-remove : (sta : Octets) (table : Stations) → Steps R table (remove_station sta table)
  Steps-remove sta table x = elim (Bool-cases (bytes_eq x sta)) [
    | inl e ↦ let same : x ≡ sta = bytes_eq→eq x sta e in rw (same, get-remove_station sta table) tt
    | inr e ↦
        rw (get-remove_other sta x table (λ same. cc (e, same, bytes_eq_refl x)))
          (OnBoth-refl (get_station x table))
  ]

module _ (R : Station → Station → Type 0)
    (trans_law : (s s' s'' : Station) → R s s' → R s' s'' → R s s'') where
  OnBoth-trans : (o o' o'' : Option Station) → OnBoth R o o' → OnBoth R o' o'' → OnBoth R o o''
  OnBoth-trans o o' none h g = tt
  OnBoth-trans o none (some s'') h g = absurd g
  OnBoth-trans none (some s') (some s'') h g = absurd h
  OnBoth-trans (some s) (some s') (some s'') h g = trans_law s s' s'' h g

  pub Steps-trans : (t t' t'' : Stations) → Steps R t t' → Steps R t' t'' → Steps R t t''
  Steps-trans t t' t'' h g x =
      OnBoth-trans (get_station x t) (get_station x t') (get_station x t'') (h x) (g x)

module _ (K R : Station → Station → Type 0) (lift : (s s' : Station) → K s s' → R s s') where
  OnBoth-imp : (o o' : Option Station) → OnBoth K o o' → OnBoth R o o'
  OnBoth-imp o none h = tt
  OnBoth-imp none (some s') h = absurd h
  OnBoth-imp (some s) (some s') h = lift s s' h

  pub Steps-imp : (t t' : Stations) → Steps K t t' → Steps R t t'
  Steps-imp t t' h x = OnBoth-imp (get_station x t) (get_station x t') (h x)

OnBoth-at :
    (R : Station → Station → Type 0) (o o' : Option Station) (s s' : Station)
    → o ≡ some s
    → o' ≡ some s'
    → OnBoth R o o'
    → R s s'
OnBoth-at R none o' s s' h h' r = absurd (cc)
OnBoth-at R (some t) none s s' h h' r = absurd (cc)
OnBoth-at R (some t) (some t') s s' h h' r =
    let p : s ≡ t = cc in let p' : s' ≡ t' = cc in rw (p, p') r

OnBoth-from :
    (R : Station → Station → Type 0) (o o' : Option Station) (s' : Station)
    → o' ≡ some s'
    → OnBoth R o o'
    → (s : Station) × (o ≡ some s) × R s s'
OnBoth-from R o none s' h' r = absurd (cc)
OnBoth-from R none (some t') s' h' r = absurd (r)
OnBoth-from R (some t) (some t') s' h' r = let p' : s' ≡ t' = cc in (t, refl, rw p' r)

-- What a station becomes that is in both tables.
pub Steps-at :
    (R : Station → Station → Type 0) (x : Octets) (table table' : Stations) (s s' : Station)
    → get_station x table ≡ some s
    → get_station x table' ≡ some s'
    → Steps R table table'
    → R s s'
Steps-at R x table table' s s' h h' r =
    OnBoth-at R (get_station x table) (get_station x table') s s' h h' (r x)

-- Where a station comes from that is in the later table.
pub Steps-from :
    (R : Station → Station → Type 0) (x : Octets) (table table' : Stations) (s' : Station)
    → get_station x table' ≡ some s'
    → Steps R table table'
    → (s : Station) × (get_station x table ≡ some s) × R s s'
Steps-from R x table table' s' h' r =
    OnBoth-from R (get_station x table) (get_station x table') s' h' (r x)
