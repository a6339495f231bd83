-- ===== src/AccessPoint/Tick/Retries.antt =====
-- The number of retransmissions by `Ap::tick` in src/ap/lifecycle.rs.
use oxwifid.Base.{
  ℕ, zero, suc, ◌+◌, ◌≤◌, ◌≡◌, refl, arith, Option, none, some, List, Octets, leb, ◌==◌, if_split,
}
use mathlib.Core.Path.{subst}
use oxwifid.AccessPoint.State.{Ap, Env, Outgoing, Station, Deadline}
use oxwifid.AccessPoint.State.Stations.{get_station}
use oxwifid.AccessPoint.State.Steps.{Steps, Steps-refl, Steps-trans, Steps-update, Steps-at}
use oxwifid.AccessPoint.Lifecycle.{max_eapol_retries}
use oxwifid.AccessPoint.Lifecycle.Changes.{disconnect-Steps}
use oxwifid.AccessPoint.Tick.{
  retransmitted, pop_due, retry_or_end, fire_pending, fire_station, fire, with_deadlines, fire_next,
  fire_due,
}

-- At most three retransmissions stay at most three.
abbrev Limited : Station → Station → Type 0
Limited s s' = s.eapol_retries ≤ max_eapol_retries → s'.eapol_retries ≤ max_eapol_retries

Limited-refl : (s : Station) → Limited s s
Limited-refl s h = h

same : (a : Ap) → Steps Limited a.stations a.stations
same a = Steps-refl Limited Limited-refl a.stations

retry_or_end-Steps :
    (e : Env) (mac frame : Octets) (s : Station) (a : Ap) (out : Outgoing)
    → get_station mac a.stations ≡ some s
    → Steps Limited a.stations (retry_or_end e mac frame s (a, out)).0.stations
unfolding retry_or_end
retry_or_end-Steps e mac frame s a out found =
    if_split (λ (r : Ap × Outgoing). Steps Limited a.stations r.0.stations)
      (leb max_eapol_retries s.eapol_retries)
      (λ over. disconnect-Steps Limited Limited-refl mac 15 a)
      (λ left. Steps-update Limited Limited-refl mac (retransmitted e.now) a.stations (λ t found' h.
        let this : s ≡ t = cc in
        let fits : s.eapol_retries + 1 ≤ max_eapol_retries = ground arith in
        subst (λ u. u.eapol_retries + 1 ≤ max_eapol_retries) this fits))

fire_pending-Steps :
    (e : Env) (generation : ℕ) (mac : Octets) (s : Station) (o : Option Octets) (a : Ap)
    (out : Outgoing)
    → get_station mac a.stations ≡ some s
    → Steps Limited a.stations (fire_pending e generation mac s o (a, out)).0.stations
fire_pending-Steps e generation mac s none a out found = same a
fire_pending-Steps e generation mac s (some frame) a out found =
    if_split (λ (r : Ap × Outgoing). Steps Limited a.stations r.0.stations)
      (s.eapol_timer_generation == generation) (λ h. retry_or_end-Steps e mac frame s a out found)
      (λ h. same a)

fire_station-Steps :
    (e : Env) (generation : ℕ) (mac : Octets) (o : Option Station) (a : Ap) (out : Outgoing)
    → get_station mac a.stations ≡ o
    → Steps Limited a.stations (fire_station e generation mac o (a, out)).0.stations
fire_station-Steps e generation mac none a out found = same a
fire_station-Steps e generation mac (some s) a out found =
    fire_pending-Steps e generation mac s s.pending_eapol a out found

fire_next-Steps :
    (e : Env) (a : Ap) (out : Outgoing) (loop : Ap × Outgoing → Ap × Outgoing)
    (o : Option (Deadline × List Deadline))
    → ((a' : Ap) (out' : Outgoing) → Steps Limited a'.stations (loop (a', out')).0.stations)
    → Steps Limited a.stations (fire_next loop e (a, out) o).0.stations
unfolding fire
fire_next-Steps e a out loop none later = same a
fire_next-Steps e a out loop (some ((t, g, m), rest)) later =
    let a1 : Ap = with_deadlines rest a in
    let r : Ap × Outgoing = fire_station e g m (get_station m a.stations) (a1, out) in
    Steps-trans Limited (λ s s' s'' f g h. g (f h)) a.stations r.0.stations _
      (fire_station-Steps e g m (get_station m a.stations) a1 out refl) (later r.0 r.1)

fire_due-Limited :
    (e : Env) (fuel : ℕ) (a : Ap) (out : Outgoing)
    → Steps Limited a.stations (fire_due e fuel (a, out)).0.stations
unfolding fire_due
fire_due-Limited e zero a out = same a
fire_due-Limited e (suc fuel) a out =
    fire_next-Steps e a out (fire_due e fuel) (pop_due e.now a.eapol_deadlines)
      (fire_due-Limited e fuel)

-- However many turns the loop of a tick takes: a station whose key message was retransmitted at most
-- three times is, as long as it stays, still one whose message was.
pub retries_bound :
    (e : Env) (fuel : ℕ) (a : Ap) (out : Outgoing) (sta : Octets) (s s' : Station)
    → get_station sta a.stations ≡ some s
    → get_station sta (fire_due e fuel (a, out)).0.stations ≡ some s'
    → s.eapol_retries ≤ max_eapol_retries
    → s'.eapol_retries ≤ max_eapol_retries
retries_bound e fuel a out sta s s' h h' =
    Steps-at Limited sta a.stations (fire_due e fuel (a, out)).0.stations s s' h h'
      (fire_due-Limited e fuel a out)
