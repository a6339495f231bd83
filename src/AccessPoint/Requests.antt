-- ===== src/AccessPoint/Requests.antt =====
-- src/ap/runtime.rs: the limits on authentication and association requests. Times are milliseconds.
pub mod Limit
pub mod Table
use oxwifid.Base.{
  ℕ, ◌+◌, ◌-◌, Bool, true, false, not, ◌&&◌, Option, none, some, List, [], ◌∷◌, Octets, length, leb,
  ltb, if◌then◌else◌, is_some, bytes_eq,
}

-- src/ap/mod.rs
abbrev pub request_rate_window : ℕ
request_rate_window = 1000

abbrev pub auth_request_burst : ℕ
auth_request_burst = 16

abbrev pub assoc_request_burst : ℕ
assoc_request_burst = 8

abbrev pub request_rate_entry_max : ℕ
request_rate_entry_max = 1024

pub record RequestRate : Type 0 where
  pub auth_window : ℕ
  pub auth_count : ℕ
  pub assoc_window : ℕ
  pub assoc_count : ℕ
  pub last_seen : ℕ

-- `RequestRate::new`.
unfoldable pub new_rate : ℕ → RequestRate
new_rate now = record {
  auth_window = now;
  auth_count = 0;
  assoc_window = now;
  assoc_count = 0;
  last_seen = now;
}

-- A request in the window that starts at the first number, of which `count` were let through.
abbrev pub count_request : ℕ → ℕ → ℕ → (ℕ × ℕ) × Bool
count_request window count burst =
    if leb burst count then ((window, count), false) else ((window, count + 1), true)

-- The window, the count, and whether the request is let through. A duration saturates at 0.
unfoldable pub allow_request : ℕ × ℕ → ℕ → ℕ → (ℕ × ℕ) × Bool
allow_request (window, count) burst now =
    if leb request_rate_window (now - window)
    then count_request now 0 burst
    else count_request window count burst

-- The map from stations to their rates, as a list of pairs.
abbrev pub Rates : Type 0
Rates = List (Octets × RequestRate)

unfoldable pub lookup : Octets → Rates → Option RequestRate
lookup sta [] = none
lookup sta ((s, r) ∷ rs) = if bytes_eq s sta then some r else lookup sta rs

-- The first entry of a station is replaced; without one, a new one is added.
unfoldable pub store : Octets → RequestRate → Rates → Rates
store sta rate [] = (sta, rate) ∷ []
store sta rate ((s, r) ∷ rs) = if bytes_eq s sta then (s, rate) ∷ rs else (s, r) ∷ store sta rate rs

-- `retain`: the entries seen within the window stay.
unfoldable pub retain_recent : ℕ → Rates → Rates
retain_recent now [] = []
retain_recent now ((s, r) ∷ rs) =
    if ltb (now - r.last_seen) request_rate_window
    then (s, r) ∷ retain_recent now rs
    else retain_recent now rs

-- The table, without old entries where it is full and the station is new to it.
unfoldable pub make_room : Octets → ℕ → Rates → Rates
make_room sta now rates =
    if not (is_some (lookup sta rates)) && leb request_rate_entry_max (length rates)
    then retain_recent now rates
    else rates

abbrev or_new : ℕ → Option RequestRate → RequestRate
or_new now none = new_rate now
or_new now (some r) = r

-- `entry(sta).or_insert_with(...)`, seen now.
abbrev pub entry_in : Octets → ℕ → Rates → Rates × Option RequestRate
entry_in sta now room =
    let rate : RequestRate = record (or_new now (lookup sta room)) { last_seen = now } in
    (store sta rate room, some rate)

-- The table and the entry of the station, or `none` where the table stays full.
unfoldable pub request_rate_entry : Octets → ℕ → Rates → Rates × Option RequestRate
request_rate_entry sta now rates =
    let room = make_room sta now rates in
    if not (is_some (lookup sta rates)) && leb request_rate_entry_max (length room)
    then (room, none)
    else entry_in sta now room

abbrev pub auth_decision : Octets → ℕ → Rates × Option RequestRate → Rates × Bool
auth_decision sta now (rates, none) = (rates, false)
auth_decision sta now (rates, some r) =
    let ((window, count), allowed) =
      allow_request (r.auth_window, r.auth_count) auth_request_burst now in
    (store sta (record r { auth_window = window; auth_count = count }) rates, allowed)

unfoldable pub allow_auth_request : Octets → ℕ → Rates → Rates × Bool
allow_auth_request sta now rates = auth_decision sta now (request_rate_entry sta now rates)

abbrev pub assoc_decision : Octets → ℕ → Rates × Option RequestRate → Rates × Bool
assoc_decision sta now (rates, none) = (rates, false)
assoc_decision sta now (rates, some r) =
    let ((window, count), allowed) =
      allow_request (r.assoc_window, r.assoc_count) assoc_request_burst now in
    (store sta (record r { assoc_window = window; assoc_count = count }) rates, allowed)

unfoldable pub allow_assoc_request : Octets → ℕ → Rates → Rates × Bool
allow_assoc_request sta now rates = assoc_decision sta now (request_rate_entry sta now rates)
