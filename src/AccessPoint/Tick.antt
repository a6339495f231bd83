-- ===== src/AccessPoint/Tick.antt =====
-- src/ap/lifecycle.rs: `Ap::tick`, which retransmits key messages and retires what has timed out. There
-- is no SAE worker, so `poll_sae_work` does nothing.
pub mod Due
pub mod Retries
use oxwifid.Base.{
  ℕ, zero, suc, ◌+◌, ◌*◌, ◌-◌, ◌%◌, ◌^◌, Bool, true, false, not, ◌&&◌, ◌||◌, Option, none, some,
  List, [], ◌∷◌, ◌++◌, Octets, length, leb, ltb, ◌==◌, if◌then◌else◌, bytes_eq, be_value, is_some,
}
use mathlib.Core.Option
use oxwifid.Frames.Management.{build_deauth}
use oxwifid.AccessPoint.State.{
  Ap, Env, Outgoing, Station, Stations, Deadline, PendingHandshake, PmksaEntry, tx,
}
use oxwifid.AccessPoint.State.Stations.{get_station}
use oxwifid.AccessPoint.Lifecycle.{
  change_station, disconnect, eapol_timeout, max_eapol_retries, next_generation,
}
use oxwifid.AccessPoint.GroupKeys.{rekey_gtk}
use oxwifid.AccessPoint.Maintenance.{run_deadline_maintenance, reached}

-- The order of the heap: by time, then generation, then address.
abbrev pub earlier : Deadline → Deadline → Bool
earlier (t, g, m) (t', g', m') =
    ltb t t' || (t == t' && (ltb g g' || (g == g' && ltb (be_value m) (be_value m'))))

abbrev pub least : Deadline → List Deadline → Deadline
least d [] = d
least d (x ∷ xs) = if earlier x d then least x xs else least d xs

abbrev pub same_deadline : Deadline → Deadline → Bool
same_deadline (t, g, m) (t', g', m') = t == t' && (g == g' && bytes_eq m m')

abbrev pub without : Deadline → List Deadline → List Deadline
without d [] = []
without d (x ∷ xs) = if same_deadline x d then xs else x ∷ without d xs

-- `peek` with the test for the time, and `pop`.
unfoldable pub pop_due : ℕ → List Deadline → Option (Deadline × List Deadline)
pop_due now [] = none
pop_due now (d ∷ ds) =
    let first = least d ds in if leb first.0 now then some (first, without first (d ∷ ds)) else none

abbrev pub retransmitted : ℕ → Station → Station
retransmitted now s = record s {
  eapol_tx = now;
  eapol_retries = s.eapol_retries + 1;
  eapol_acked = false;
  eapol_timer_generation = next_generation s;
}

-- The timer of a station that still waits for the answer to `frame`.
unfoldable pub retry_or_end : Env → Octets → Octets → Station → Ap × Outgoing → Ap × Outgoing
retry_or_end e mac frame s (ap, out) =
    if leb max_eapol_retries s.eapol_retries
    then (disconnect mac 15 ap, tx (build_deauth ap.mac mac 15) out)
    else (
      record (change_station mac (retransmitted e.now) ap) {
        eapol_deadlines = (e.now + eapol_timeout, next_generation s, mac) ∷ ap.eapol_deadlines;
      },
      record out { frames = out.frames ++ (frame ∷ []) },
    )

abbrev pub fire_pending : Env → ℕ → Octets → Station → Option Octets → Ap × Outgoing → Ap × Outgoing
fire_pending e generation mac s none st = st
fire_pending e generation mac s (some frame) st =
    if s.eapol_timer_generation == generation then retry_or_end e mac frame s st else st

abbrev pub fire_station : Env → ℕ → Octets → Option Station → Ap × Outgoing → Ap × Outgoing
fire_station e generation mac none st = st
fire_station e generation mac (some s) st = fire_pending e generation mac s s.pending_eapol st

-- A turn of the loop for a deadline that was taken from the heap.
unfoldable pub fire : Env → Deadline → Ap × Outgoing → Ap × Outgoing
fire e (t, generation, mac) (ap, out) =
    fire_station e generation mac (get_station mac ap.stations) (ap, out)

abbrev pub with_deadlines : List Deadline → Ap → Ap
with_deadlines ds ap = record ap { eapol_deadlines = ds }

-- A turn of the loop, of which `loop` is the rest.
abbrev pub fire_next :
    (Ap × Outgoing → Ap × Outgoing)
    → Env
    → Ap × Outgoing
    → Option (Deadline × List Deadline)
    → Ap × Outgoing
fire_next loop e st none = st
fire_next loop e (ap, out) (some (d, rest)) = loop (fire e d (with_deadlines rest ap, out))

-- The `while` loop. Each turn takes a deadline that is due, and adds at most one that is not.
unfoldable pub fire_due : Env → ℕ → Ap × Outgoing → Ap × Outgoing
fire_due e zero st = st
fire_due e (suc fuel) (ap, out) =
    fire_next (fire_due e fuel) e (ap, out) (pop_due e.now ap.eapol_deadlines)

unfoldable pub periodic_rekey : ℕ → Ap → Bool
periodic_rekey now ap =
    ltb 0 ap.group_rekey_secs && leb (1000 * ap.group_rekey_secs) (now - ap.last_group_rekey)

-- The part of `tick` before the loop.
unfoldable pub tick_keys : Env → Ap → Ap × Outgoing
tick_keys e ap =
    let ap1 =
      if reached e.now ap.maintenance_deadline then run_deadline_maintenance e.now ap else ap in
    let (ap2, frames) = rekey_gtk e (record ap1 { group_rekey_due = false }) in
    if ap1.group_rekey_due || periodic_rekey e.now ap1
    then (ap2, record { frames = frames; to_network = [] })
    else (ap1, record { frames = []; to_network = [] })

unfoldable pub tick : Env → Ap → Ap × Outgoing
tick e ap = let (ap1, out) = tick_keys e ap in fire_due e (length ap1.eapol_deadlines) (ap1, out)
