-- ===== src/AccessPoint/Tick/Due.antt =====
-- The deadlines that `Ap::tick` in src/ap/lifecycle.rs leaves.
use oxwifid.Base.{
  ℕ, zero, suc, ◌+◌, ◌≤◌, ◌≡◌, refl, ap, arith, Bool, true, false, ◌||◌, Option, none, some, List,
  [], ◌∷◌, Octets, length, leb, ◌==◌, ==_refl, if◌then◌else◌, if_split, bytes_eq_refl,
}
use oxwifid.AccessPoint.State.{Ap, Env, Outgoing, Station, Deadline}
use oxwifid.AccessPoint.State.Stations.{get_station}
use oxwifid.AccessPoint.Lifecycle.{disconnect, disconnect_station, max_eapol_retries}
use oxwifid.AccessPoint.Tick.{
  earlier, least, same_deadline, without, pop_due, retry_or_end, fire_pending, fire_station, fire,
  with_deadlines, fire_next, fire_due, tick_keys, tick,
}

-- How many deadlines are due.
abbrev pub due : ℕ → List Deadline → ℕ
due now [] = 0
due now (d ∷ ds) = (if leb d.0 now then 1 else 0) + due now ds

due-length : (now : ℕ) (ds : List Deadline) → due now ds ≤ length ds
due-length now [] = omega arith
due-length now (d ∷ ds) = ground (arith, due-length now ds)

abbrev has : Deadline → List Deadline → Bool
has d [] = false
has d (x ∷ xs) = same_deadline x d || has d xs

same_deadline_refl : (d : Deadline) → same_deadline d d ≡ true
same_deadline_refl (t, g, m) = rw (==_refl t, ==_refl g) (bytes_eq_refl m)

least-has : (d : Deadline) (ds : List Deadline) → has (least d ds) (d ∷ ds) ≡ true
least-has d [] = rw (same_deadline_refl d) refl
least-has d (x ∷ xs) =
    if_split (λ (l : Deadline). has l (d ∷ x ∷ xs) ≡ true) (earlier x d)
      (λ h. ground (arith, least-has x xs)) (λ h. ground (arith, least-has d xs))

due-without :
    (now : ℕ) (d : Deadline) (ds : List Deadline)
    → has d ds ≡ true
    → leb d.0 now ≡ true
    → due now (without d ds) + 1 ≡ due now ds
due-without now d [] h l = absurd (cc)
due-without now d (x ∷ xs) h l = ground (arith, due-without now d xs)

earlier_time : (x d : Deadline) → earlier x d ≡ true → x.0 ≤ d.0
earlier_time (t, g, m) (t', g', m') h = ground arith

later_time : (x d : Deadline) → earlier x d ≡ false → d.0 ≤ x.0
later_time (t, g, m) (t', g', m') h = ground arith

-- Where the least deadline is to come, none is due.
due-least :
    (now : ℕ) (d : Deadline) (ds : List Deadline)
    → leb (least d ds).0 now ≡ false
    → due now (d ∷ ds) ≡ 0
due-least now d [] = λ h. rw h (omega arith)
due-least now d (x ∷ xs) =
    if_split (λ (l : Deadline). leb l.0 now ≡ false → due now (d ∷ x ∷ xs) ≡ 0) (earlier x d)
      (λ first h. ground (arith, earlier_time x d first, due-least now x xs h))
      (λ second h. ground (arith, later_time x d second, due-least now d xs h))

-- Taking a deadline that is due leaves one less.
abbrev Popped : ℕ → List Deadline → Option (Deadline × List Deadline) → Type 0
Popped now ds none = due now ds ≡ 0
Popped now ds (some (d, rest)) = due now rest + 1 ≡ due now ds

pop_due-Popped : (now : ℕ) (ds : List Deadline) → Popped now ds (pop_due now ds)
unfolding pop_due
pop_due-Popped now [] = refl
pop_due-Popped now (d ∷ ds) =
    if_split (Popped now (d ∷ ds)) (leb (least d ds).0 now)
      (λ h. due-without now (least d ds) (d ∷ ds) (least-has d ds) h) (λ h. due-least now d ds h)

disconnect_deadlines :
    (sta : Octets) (reason : ℕ) (a : Ap)
    → (disconnect sta reason a).eapol_deadlines ≡ a.eapol_deadlines
unfolding disconnect
disconnect_deadlines sta reason a = of_station (get_station sta a.stations)
  where
    of_station :
        (o : Option Station)
        → (disconnect_station sta reason a o).eapol_deadlines ≡ a.eapol_deadlines
    of_station none = refl
    of_station (some s) =
        if_split (λ (a' : Ap). a'.eapol_deadlines ≡ a.eapol_deadlines) s.associated (λ h. refl)
          (λ h. refl)

due-retry_or_end :
    (e : Env) (mac frame : Octets) (s : Station) (a : Ap) (out : Outgoing)
    → due e.now (retry_or_end e mac frame s (a, out)).0.eapol_deadlines
      ≡ due e.now a.eapol_deadlines
unfolding retry_or_end
due-retry_or_end e mac frame s a out =
    if_split (λ (r : Ap × Outgoing). due e.now r.0.eapol_deadlines ≡ due e.now a.eapol_deadlines)
      (leb max_eapol_retries s.eapol_retries) (λ h. ap (due e.now) (disconnect_deadlines mac 15 a))
      (λ h. ground arith)

due-fire_pending :
    (e : Env) (generation : ℕ) (mac : Octets) (s : Station) (o : Option Octets) (a : Ap)
    (out : Outgoing)
    → due e.now (fire_pending e generation mac s o (a, out)).0.eapol_deadlines
      ≡ due e.now a.eapol_deadlines
due-fire_pending e generation mac s none a out = refl
due-fire_pending e generation mac s (some frame) a out =
    if_split (λ (r : Ap × Outgoing). due e.now r.0.eapol_deadlines ≡ due e.now a.eapol_deadlines)
      (s.eapol_timer_generation == generation) (λ h. due-retry_or_end e mac frame s a out)
      (λ h. refl)

due-fire_station :
    (e : Env) (generation : ℕ) (mac : Octets) (o : Option Station) (a : Ap) (out : Outgoing)
    → due e.now (fire_station e generation mac o (a, out)).0.eapol_deadlines
      ≡ due e.now a.eapol_deadlines
due-fire_station e generation mac none a out = refl
due-fire_station e generation mac (some s) a out =
    due-fire_pending e generation mac s s.pending_eapol a out

fire_next-Due :
    (e : Env) (fuel : ℕ) (a : Ap) (out : Outgoing) (loop : Ap × Outgoing → Ap × Outgoing)
    (o : Option (Deadline × List Deadline))
    → ((a' : Ap) (out' : Outgoing)
        → due e.now a'.eapol_deadlines ≤ fuel
        → due e.now (loop (a', out')).0.eapol_deadlines ≡ 0)
    → Popped e.now a.eapol_deadlines o
    → due e.now a.eapol_deadlines ≤ suc fuel
    → due e.now (fire_next loop e (a, out) o).0.eapol_deadlines ≡ 0
unfolding fire
fire_next-Due e fuel a out loop none later p h = p
fire_next-Due e fuel a out loop (some ((t, g, m), rest)) later p h =
    let a1 : Ap = with_deadlines rest a in
    let r : Ap × Outgoing = fire_station e g m (get_station m a.stations) (a1, out) in
    later r.0 r.1 (omega (arith, h, p, due-fire_station e g m (get_station m a.stations) a1 out))

fire_due-Due :
    (e : Env) (fuel : ℕ) (a : Ap) (out : Outgoing)
    → due e.now a.eapol_deadlines ≤ fuel
    → due e.now (fire_due e fuel (a, out)).0.eapol_deadlines ≡ 0
unfolding fire_due
fire_due-Due e zero a out h = omega (arith, h)
fire_due-Due e (suc fuel) a out h =
    fire_next-Due e fuel a out (fire_due e fuel) (pop_due e.now a.eapol_deadlines)
      (fire_due-Due e fuel) (pop_due-Popped e.now a.eapol_deadlines) h

-- A tick leaves no deadline of the key messages that is due at its time, however many were, and the
-- length of the heap is fuel enough for its loop.
pub tick-Due : (e : Env) (a : Ap) → due e.now (tick e a).0.eapol_deadlines ≡ 0
unfolding tick
tick-Due e a =
    let r : Ap × Outgoing = tick_keys e a in
    fire_due-Due e (length r.0.eapol_deadlines) r.0 r.1 (due-length e.now r.0.eapol_deadlines)
