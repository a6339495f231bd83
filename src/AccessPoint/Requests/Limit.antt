-- ===== src/AccessPoint/Requests/Limit.antt =====
-- The requests that `allow_request` in src/ap/runtime.rs lets through in one window.
use oxwifid.Base.{
  ℕ, ◌+◌, ◌-◌, ◌≤◌, ◌<◌, arith, Bool, List, [], ◌∷◌, All, leb, if◌then◌else◌, if_split,
}
use oxwifid.AccessPoint.Requests.{allow_request, request_rate_window}

-- How many of the requests at these times are let through, one after the other.
abbrev pub allowed : ℕ × ℕ → ℕ → List ℕ → ℕ
allowed s burst [] = 0
allowed s burst (t ∷ ts) =
    let (s', ok) = allow_request s burst t in (if ok then 1 else 0) + allowed s' burst ts

-- A time in the window.
abbrev pub Within : ℕ → ℕ → Type 0
Within window t = t < window + request_rate_window

-- In the window that starts at `window`, after `count` requests were let through, at most
-- `burst - count` more are, however many are made before the window ends.
pub allowed_bound :
    (window count burst : ℕ) (times : List ℕ)
    → All (Within window) times
    → allowed (window, count) burst times ≤ burst - count
unfolding allow_request
allowed_bound window count burst [] h = omega arith
allowed_bound window count burst (t ∷ ts) (w, h) =
    if_split P (leb request_rate_window (t - window)) (λ late. absurd (ground arith))
      (λ early.
        if_split P (leb burst count) (λ full. omega (arith, allowed_bound window count burst ts h))
          (λ free. ground (arith, allowed_bound window (count + 1) burst ts h)))
  where
    P : (ℕ × ℕ) × Bool → Type 0
    P r = (if r.1 then 1 else 0) + allowed r.0 burst ts ≤ burst - count
