-- ===== src/Client/Timers.antt =====
-- src/client/session.rs: the timeouts of a station.
pub mod Silence
use oxwifid.Base.{ℕ, ◌-◌, Bool, true, false, leb, ◌==◌, if◌then◌else◌}
use oxwifid.Client.{Client, disconnect}

abbrev pub auth_assoc_timeout : ℕ
auth_assoc_timeout = 3000

abbrev pub four_way_timeout : ℕ
four_way_timeout = 5000

abbrev pub link_silence_timeout : ℕ
link_silence_timeout = 20000

-- `match self.connected`; a duration saturates at 0, as `-` does.
unfoldable pub timed_out : ℕ → Client → Bool
timed_out now c =
    if c.connected == 1
    then leb auth_assoc_timeout (now - c.state_since)
    else if c.connected == 2
    then leb four_way_timeout (now - c.state_since)
    else if c.connected == 3
    then leb four_way_timeout (now - c.state_since)
    else if c.connected == 4
    then leb link_silence_timeout (now - c.last_ap_seen)
    else false

unfoldable pub maintenance : ℕ → Client → Client × Bool
maintenance now c = if timed_out now c then (disconnect c, true) else (c, false)
