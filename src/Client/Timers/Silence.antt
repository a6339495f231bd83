-- ===== src/Client/Timers/Silence.antt =====
-- `maintenance` in src/client/session.rs ends a session whose access point is silent.
use oxwifid.Base.{ℕ, ◌+◌, ◌≤◌, ◌≡◌, refl, arith, true, false, none}
use oxwifid.Client.{Client, disconnect, reset_session_keys}
use oxwifid.Client.Timers.{timed_out, maintenance}

-- A session has ended: not connected, no access point, no key installed or pending.
abbrev pub Ended : Client → Type 0
Ended c =
    (c.connected ≡ 0)
    × (c.bssid ≡ none)
    × (c.ptk_installed ≡ false)
    × (c.gtk_set ≡ false)
    × (c.pending_ptk ≡ none)

silent_timeout :
    (now : ℕ) (c : Client)
    → 1 ≤ c.connected
    → c.connected ≤ 4
    → c.state_since + 20000 ≤ now
    → c.last_ap_seen + 20000 ≤ now
    → timed_out now c ≡ true
unfolding timed_out
silent_timeout now c lo hi s a = ground arith

-- Once twenty seconds have passed since a station changed its connection state and since it last
-- heard its access point, maintenance ends the session and says so, in each of the states 1 to 4.
pub maintenance-Ended :
    (now : ℕ) (c : Client)
    → 1 ≤ c.connected
    → c.connected ≤ 4
    → c.state_since + 20000 ≤ now
    → c.last_ap_seen + 20000 ≤ now
    → Ended (maintenance now c).0 × ((maintenance now c).1 ≡ true)
unfolding maintenance disconnect reset_session_keys
maintenance-Ended now c lo hi s a =
    rw (silent_timeout now c lo hi s a) ((refl, refl, refl, refl, refl), refl)
