-- ===== src/Failures.antt =====
-- src/failures.rs: the log of failed authentication and decryption attempts. Its sequence number
-- and its counts are 64-bit numbers in the code, which no run of it exhausts.
pub mod Bound
pub mod Count
use oxwifid.Base.{
  ℕ, ◌+◌, Bool, ◌&&◌, Option, none, some, List, [], ◌∷◌, ◌++◌, Octets, length, leb, ◌==◌,
  if◌then◌else◌, bytes_eq,
}
use Prim.Native.Nat.{min, max}

pub data FailureKind : Type 0 where
  four_way_mic sae ccmp_data protected_mgmt : FailureKind

-- The discriminant, which `==` on kinds compares.
abbrev pub discriminant : FailureKind → ℕ
discriminant four_way_mic = 0
discriminant sae = 1
discriminant ccmp_data = 2
discriminant protected_mgmt = 3

pub record FailureRecord : Type 0 where
  pub mac : Octets
  pub traits : ℕ
  pub kind : FailureKind
  pub count : ℕ
  pub first_seq : ℕ
  pub last_seq : ℕ

pub record FailureLog : Type 0 where
  pub records : List FailureRecord
  pub cap : ℕ
  pub seq : ℕ

-- What a call of `record` says of the failure.
pub record Failure : Type 0 where
  pub mac : Octets
  pub traits : ℕ
  pub kind : FailureKind

unfoldable pub with_capacity : ℕ → FailureLog
with_capacity cap = record { records = []; cap = max cap 1; seq = 0 }

-- The test of `find`.
abbrev pub is_same : Failure → FailureRecord → Bool
is_same f r =
    bytes_eq r.mac f.mac && (r.traits == f.traits && discriminant r.kind == discriminant f.kind)

unfoldable pub find_record : Failure → List FailureRecord → Option FailureRecord
find_record f [] = none
find_record f (r ∷ rs) = if is_same f r then some r else find_record f rs

-- The first record of the failure, counted once more.
unfoldable pub bump : Failure → ℕ → List FailureRecord → List FailureRecord
bump f seq [] = []
bump f seq (r ∷ rs) =
    if is_same f r then record r { count = r.count + 1; last_seq = seq } ∷ rs else r ∷ bump f seq rs

-- The least `last_seq`, of a first one and of a list.
abbrev pub least_seq : ℕ → List FailureRecord → ℕ
least_seq m [] = m
least_seq m (r ∷ rs) = least_seq (min m r.last_seq) rs

-- `remove` of the first record with a given `last_seq`.
abbrev pub remove_seq : ℕ → List FailureRecord → List FailureRecord
remove_seq m [] = []
remove_seq m (r ∷ rs) = if r.last_seq == m then rs else r ∷ remove_seq m rs

-- The first of the records seen the longest ago goes.
unfoldable pub evict : List FailureRecord → List FailureRecord
evict [] = []
evict (r ∷ rs) = remove_seq (least_seq r.last_seq rs) (r ∷ rs)

abbrev pub new_record : Failure → ℕ → FailureRecord
new_record f seq = record {
  mac = f.mac;
  traits = f.traits;
  kind = f.kind;
  count = 1;
  first_seq = seq;
  last_seq = seq;
}

-- What follows the search for the failure.
abbrev pub record_found : Failure → FailureLog → Option FailureRecord → FailureLog × ℕ
record_found f log (some r) =
    (record log { records = bump f (log.seq + 1) log.records; seq = log.seq + 1 }, r.count + 1)
record_found f log none = (
  record log {
    records =
        (if leb log.cap (length log.records) then evict log.records else log.records)
        ++ (new_record f (log.seq + 1) ∷ []);
    seq = log.seq + 1;
  },
  1,
)

-- `FailureLog::record`.
unfoldable pub record_failure : Failure → FailureLog → FailureLog × ℕ
record_failure f log = record_found f log (find_record f log.records)
