-- ===== src/Tests/Limits.antt =====
-- The request limits and the failure log at concrete inputs.
use oxwifid.Base.{ℕ, ◌+◌, ◌-◌, ◌≤◌, ◌≡◌, arith, [], ◌∷◌, replicate, length}
use oxwifid.AccessPoint.Requests.{
  Rates, new_rate, request_rate_entry_max, allow_auth_request, allow_assoc_request,
}
use oxwifid.AccessPoint.Requests.Limit.{allowed, allowed_bound}
use oxwifid.AccessPoint.Requests.Table.{rates_bound}
use oxwifid.Failures.{FailureLog, Failure, FailureKind, with_capacity, record_failure}
use FailureKind.{sae}
use oxwifid.Failures.Bound.{Bounded, record_failure-Bounded}
use oxwifid.Failures.Count.{logged, record_failure_count}

-- Five requests within a second, of which a burst of eight with six used lets two through.
allowed_bound_example : allowed (1000, 6) 8 (1000 ∷ 1100 ∷ 1200 ∷ 1300 ∷ 1999 ∷ []) ≤ 8 - 6
allowed_bound_example =
    allowed_bound 1000 6 8 (1000 ∷ 1100 ∷ 1200 ∷ 1300 ∷ 1999 ∷ [])
      (omega arith, (omega arith, (omega arith, (omega arith, (omega arith, tt)))))

abbrev one_station : Rates
one_station = (replicate 6 1, new_rate 500) ∷ []

rates_bound_example :
    (length (allow_auth_request (replicate 6 2) 900 one_station).0 ≤ request_rate_entry_max)
    × (length (allow_assoc_request (replicate 6 2) 900 one_station).0 ≤ request_rate_entry_max)
rates_bound_example = rates_bound (replicate 6 2) 900 one_station (omega arith)

abbrev failure_of : ℕ → Failure
failure_of n = record { mac = replicate 6 n; traits = 0; kind = sae }

-- A log for one failure, which is full.
abbrev full_log : FailureLog
full_log = record {
  records =
      record { mac = replicate 6 1; traits = 0; kind = sae; count = 3; first_seq = 1; last_seq = 3 }
      ∷ [];
  cap = 1;
  seq = 3;
}

record_failure-Bounded_example :
    Bounded (with_capacity 0) × Bounded (record_failure (failure_of 2) full_log).0
record_failure-Bounded_example =
    record_failure-Bounded 0 (failure_of 2) full_log (omega arith, omega arith)

record_failure_count_example :
    ((record_failure (failure_of 2) full_log).1 ≡ logged (failure_of 2) full_log + 1)
    × (logged (failure_of 2) (record_failure (failure_of 2) full_log).0
        ≡ logged (failure_of 2) full_log + 1)
record_failure_count_example = record_failure_count (failure_of 2) full_log
