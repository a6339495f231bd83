-- ===== src/Failures/Bound.antt =====
-- The size of the log of src/failures.rs.
use oxwifid.Base.{
  ℕ, suc, ◌+◌, ◌≤◌, ◌<◌, ◌≡◌, refl, ap, arith, Bool, true, false, Option, none, some, List, [], ◌∷◌,
  ◌++◌, lt_or_ge, ==_refl, length, length-append, leb, ◌==◌, if◌then◌else◌, if_split, ◌⊎◌, inl, inr,
}
use Prim.Native.Nat.{min}
use oxwifid.Failures.{
  FailureRecord, FailureLog, Failure, with_capacity, is_same, find_record, bump, least_seq,
  remove_seq, evict, record_found, record_failure, new_record,
}

-- A log within its capacity, which is one at least.
abbrev pub Bounded : FailureLog → Type 0
Bounded log = (1 ≤ log.cap) × (length log.records ≤ log.cap)

length-bump : (f : Failure) (seq : ℕ) (rs : List FailureRecord) → length (bump f seq rs) ≡ length rs
unfolding bump
length-bump f seq [] = refl
length-bump f seq (r ∷ rs) =
    if_split (λ (l : List FailureRecord). length l ≡ suc (length rs)) (is_same f r) (λ h. refl)
      (λ h. ap suc (length-bump f seq rs))

-- Whether some record has the `last_seq`.
abbrev has_seq : ℕ → List FailureRecord → Bool
has_seq m [] = false
has_seq m (r ∷ rs) = if r.last_seq == m then true else has_seq m rs

length-remove_seq :
    (m : ℕ) (rs : List FailureRecord)
    → has_seq m rs ≡ true
    → length (remove_seq m rs) + 1 ≡ length rs
length-remove_seq m [] h = absurd (cc)
length-remove_seq m (r ∷ rs) h = ground (arith, length-remove_seq m rs)

least_seq_found :
    (m : ℕ) (rs : List FailureRecord) → (least_seq m rs ≡ m) ⊎ (has_seq (least_seq m rs) rs ≡ true)
least_seq_found m [] = inl refl
least_seq_found m (r ∷ rs) = elim (least_seq_found (min m r.last_seq) rs) [
  | inl e ↦ elim (lt_or_ge r.last_seq m) [
    | inl lt ↦
        let here : r.last_seq ≡ least_seq (min m r.last_seq) rs = omega (arith, e, lt) in
        inr (rw (← here, ==_refl r.last_seq) refl)
    | inr ge ↦ inl (omega (arith, e, ge))
  ]
  | inr h ↦ inr (
      if_split (λ (b : Bool). b ≡ true) (r.last_seq == least_seq (min m r.last_seq) rs) (λ e. refl)
        (λ e. h))
]

least_seq_occurs :
    (r : FailureRecord) (rs : List FailureRecord)
    → has_seq (least_seq r.last_seq rs) (r ∷ rs) ≡ true
least_seq_occurs r rs = elim (least_seq_found r.last_seq rs) [
  | inl e ↦ rw (e, ==_refl r.last_seq) refl
  | inr h ↦
      if_split (λ (b : Bool). b ≡ true) (r.last_seq == least_seq r.last_seq rs) (λ e. refl) (λ e. h)
]

length-evict : (rs : List FailureRecord) → 1 ≤ length rs → length (evict rs) + 1 ≡ length rs
unfolding evict
length-evict [] h = absurd (omega arith)
length-evict (r ∷ rs) h =
    length-remove_seq (least_seq r.last_seq rs) (r ∷ rs) (least_seq_occurs r rs)

record_found-Bounded :
    (f : Failure) (log : FailureLog) (o : Option FailureRecord)
    → Bounded log
    → Bounded (record_found f log o).0
record_found-Bounded f log (some r) (one, fits) =
    (one, omega (arith, length-bump f (log.seq + 1) log.records))
record_found-Bounded f log none (one, fits) = (
  one,
  if_split (λ (rs : List FailureRecord). length (rs ++ (new_record f (log.seq + 1) ∷ [])) ≤ log.cap)
      (leb log.cap (length log.records))
      (λ full.
        let enough : log.cap ≤ length log.records = ground arith in
        omega (
          arith,
          length-append (evict log.records) (new_record f (log.seq + 1) ∷ []),
          length-evict log.records (omega arith),
        ))
      (λ room.
        let less : length log.records < log.cap = ground arith in
        omega (arith, length-append log.records (new_record f (log.seq + 1) ∷ []))),
)

-- A log starts within its capacity, which is made one at least, and recording a failure keeps it
-- there.
pub record_failure-Bounded :
    (cap : ℕ) (f : Failure) (log : FailureLog)
    → Bounded log
    → Bounded (with_capacity cap) × Bounded (record_failure f log).0
unfolding with_capacity record_failure
record_failure-Bounded cap f log b =
    ((omega arith, omega arith), record_found-Bounded f log (find_record f log.records) b)
