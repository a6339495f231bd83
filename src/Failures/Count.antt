-- ===== src/Failures/Count.antt =====
-- The counts of the log of src/failures.rs.
use oxwifid.Base.{
  ℕ, ◌+◌, ◌≡◌, refl, ap, ◌∙◌, arith, true, Option, none, some, List, [], ◌∷◌, ◌++◌, length, leb,
  ==_refl, bytes_eq_refl, if_split, inl, inr, Bool-cases,
}
use oxwifid.Failures.{
  FailureRecord, FailureLog, Failure, discriminant, is_same, find_record, bump, least_seq,
  remove_seq, evict, record_found, record_failure, new_record,
}

-- How often the log has the failure.
abbrev count_of : Option FailureRecord → ℕ
count_of none = 0
count_of (some r) = r.count

abbrev pub logged : Failure → FailureLog → ℕ
logged f log = count_of (find_record f log.records)

-- The count after one more occurrence of a failure that is there.
abbrev bumped : Option FailureRecord → ℕ
bumped none = 0
bumped (some r) = r.count + 1

find-bump :
    (f : Failure) (seq : ℕ) (rs : List FailureRecord)
    → count_of (find_record f (bump f seq rs)) ≡ bumped (find_record f rs)
unfolding find_record bump
find-bump f seq [] = refl
find-bump f seq (x ∷ rs) = elim (Bool-cases (is_same f x)) [
  | inl e ↦ rw (e, e) refl
  | inr e ↦ rw (e, e) (find-bump f seq rs)
]

find-remove_seq :
    (f : Failure) (m : ℕ) (rs : List FailureRecord)
    → find_record f rs ≡ none
    → find_record f (remove_seq m rs) ≡ none
unfolding find_record
find-remove_seq f m [] h = refl
find-remove_seq f m (x ∷ rs) h = ground (arith, find-remove_seq f m rs)

find-evict :
    (f : Failure) (rs : List FailureRecord)
    → find_record f rs ≡ none
    → find_record f (evict rs) ≡ none
unfolding evict
find-evict f [] h = h
find-evict f (r ∷ rs) h = find-remove_seq f (least_seq r.last_seq rs) (r ∷ rs) h

find-append :
    (f : Failure) (rs : List FailureRecord) (r : FailureRecord)
    → find_record f rs ≡ none
    → is_same f r ≡ true
    → find_record f (rs ++ (r ∷ [])) ≡ some r
unfolding find_record
find-append f [] r h s = rw s refl
find-append f (x ∷ rs) r h s = ground (arith, find-append f rs r)

record_found_count :
    (f : Failure) (log : FailureLog) (o : Option FailureRecord)
    → find_record f log.records ≡ o
    → ((record_found f log o).1 ≡ count_of o + 1)
      × (logged f (record_found f log o).0 ≡ count_of o + 1)
record_found_count f log (some r) h = (refl, find-bump f (log.seq + 1) log.records ∙ ap bumped h)
record_found_count f log none h = (
  refl,
  if_split
      (λ (rs : List FailureRecord).
        count_of (find_record f (rs ++ (new_record f (log.seq + 1) ∷ []))) ≡ 1)
      (leb log.cap (length log.records))
      (λ full. ap count_of (find-append f (evict log.records) _ (find-evict f log.records h) same))
      (λ room. ap count_of (find-append f log.records _ h same)),
)
  where
    same : is_same f (new_record f (log.seq + 1)) ≡ true
    same = rw (bytes_eq_refl f.mac, ==_refl f.traits, ==_refl (discriminant f.kind)) refl

-- Recording a failure returns the number of times the log now has it, which is one more than
-- before: a known failure is counted once more, and a new one starts at one, also where the log was
-- full.
pub record_failure_count :
    (f : Failure) (log : FailureLog)
    → ((record_failure f log).1 ≡ logged f log + 1)
      × (logged f (record_failure f log).0 ≡ logged f log + 1)
unfolding record_failure
record_failure_count f log = record_found_count f log (find_record f log.records) refl
