-- ===== src/AccessPoint/Maintenance.antt =====
-- src/ap/lifecycle.rs: `run_deadline_maintenance`, which retires sessions that have timed out. There is
-- no SAE worker, so none of its requests are pending.
use oxwifid.Base.{
  ℕ, ◌+◌, ◌-◌, Bool, false, not, ◌&&◌, Option, none, some, List, [], ◌∷◌, Octets, leb, ltb,
  if◌then◌else◌,
}
use oxwifid.AccessPoint.State.{Ap, Station, Stations, PendingHandshake}
use oxwifid.AccessPoint.Lifecycle.{disconnect}
use oxwifid.AccessPoint.Pmksa.{PmksaCache, expire_pmksa}

-- The stations for which a test holds.
unfoldable pub macs_where : (Station → Bool) → Stations → List Octets
macs_where p [] = []
macs_where p ((m, s) ∷ rest) = if p s then m ∷ macs_where p rest else macs_where p rest

unfoldable pub disconnect_all : List Octets → ℕ → Ap → Ap
disconnect_all [] reason ap = ap
disconnect_all (m ∷ ms) reason ap = disconnect_all ms reason (disconnect m reason ap)

abbrev pub anonce_hold : ℕ
anonce_hold = 10000

abbrev pub sae_auth_timeout : ℕ
sae_auth_timeout = 5000

abbrev pub sa_query_timeout : ℕ
sa_query_timeout = 1024

abbrev pub stale_sae : ℕ → Station → Bool
stale_sae now s = not s.associated && (s.sae_active && leb sae_auth_timeout (now - s.last_activity))

abbrev unanswered : ℕ → Option (ℕ × ℕ) → Bool
unanswered now none = false
unanswered now (some (trans, started)) = leb sa_query_timeout (now - started)

abbrev pub unresponsive : ℕ → Station → Bool
unresponsive now s = unanswered now s.sa_query

unfoldable pub live_pending :
    ℕ → List (Octets × PendingHandshake) → List (Octets × PendingHandshake)
live_pending now [] = []
live_pending now ((m, p) ∷ rest) =
    if ltb (now - p.created_at) anonce_hold
    then (m, p) ∷ live_pending now rest
    else live_pending now rest

-- The earlier of a deadline that is to come and of what was found so far.
abbrev consider : ℕ → ℕ → Option ℕ → Option ℕ
consider now deadline none = if ltb now deadline then some deadline else none
consider now deadline (some current) =
    if ltb now deadline && ltb deadline current then some deadline else some current

abbrev consider_pending : ℕ → List (Octets × PendingHandshake) → Option ℕ → Option ℕ
consider_pending now [] next = next
consider_pending now ((m, p) ∷ rest) next =
    consider_pending now rest (consider now (p.created_at + anonce_hold) next)

abbrev consider_query : ℕ → Option (ℕ × ℕ) → Option ℕ → Option ℕ
consider_query now none next = next
consider_query now (some (trans, started)) next = consider now (started + sa_query_timeout) next

abbrev consider_sae : ℕ → Station → Option ℕ → Option ℕ
consider_sae now s next =
    if not s.associated && (s.sae_active && not s.sae_confirmed)
    then consider now (s.last_activity + sae_auth_timeout) next
    else next

abbrev consider_stations : ℕ → Stations → Option ℕ → Option ℕ
consider_stations now [] next = next
consider_stations now ((m, s) ∷ rest) next =
    consider_stations now rest (consider_query now s.sa_query (consider_sae now s next))

abbrev consider_pmksa : ℕ → PmksaCache → Option ℕ → Option ℕ
consider_pmksa now [] next = next
consider_pmksa now ((key, entry) ∷ rest) next =
    consider_pmksa now rest (consider now entry.expires_at next)

unfoldable pub next_maintenance : ℕ → Ap → Option ℕ
next_maintenance now ap =
    consider_pmksa now ap.pmksa_cache
      (consider_stations now ap.stations (consider_pending now ap.pending_anonce none))

unfoldable pub run_deadline_maintenance : ℕ → Ap → Ap
run_deadline_maintenance now ap =
    let ap1 = record ap { pending_anonce = live_pending now ap.pending_anonce } in
    let ap2 = disconnect_all (macs_where (stale_sae now) ap1.stations) 15 ap1 in
    let ap3 = disconnect_all (macs_where (unresponsive now) ap2.stations) 15 ap2 in
    let ap4 = expire_pmksa now ap3 in record ap4 { maintenance_deadline = next_maintenance now ap4 }

abbrev pub reached : ℕ → Option ℕ → Bool
reached now none = false
reached now (some deadline) = leb deadline now
