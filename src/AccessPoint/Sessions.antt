-- ===== src/AccessPoint/Sessions.antt =====
-- Sessions that the access point ends by itself: `prune_idle` of src/ap/group_keys.rs and `kick` of
-- src/ap/lifecycle.rs.
use oxwifid.Base.{ℕ, ◌-◌, ◌&&◌, Bool, Option, none, some, List, [], ◌∷◌, Octets, ltb}
use oxwifid.Frames.Management.{build_deauth}
use oxwifid.AccessPoint.State.{Ap, Env, Station, prepend_radiotap}
use oxwifid.AccessPoint.State.Stations.{get_station}
use oxwifid.AccessPoint.Lifecycle.{disconnect}
use oxwifid.AccessPoint.Maintenance.{macs_where, disconnect_all, stale_sae}
use oxwifid.AccessPoint.Roaming.{protected_deauth}

abbrev or_plain : Octets → ℕ → Ap × Option Octets → Ap × Octets
or_plain sta reason (ap, some frame) = (ap, frame)
or_plain sta reason (ap, none) = (ap, prepend_radiotap (build_deauth ap.mac sta reason))

-- The deauthentication frame, protected where the station has a key, and the end of the session.
unfoldable pub deauthenticate : Env → Octets → ℕ → Ap → Ap × Octets
deauthenticate e sta reason ap =
    let (ap1, frame) = or_plain sta reason (protected_deauth e sta reason ap) in
    (disconnect sta reason ap1, frame)

unfoldable pub deauthenticate_all : Env → List Octets → ℕ → Ap → Ap × List Octets
deauthenticate_all e [] reason ap = (ap, [])
deauthenticate_all e (sta ∷ rest) reason ap =
    let (ap1, frame) = deauthenticate e sta reason ap in
    let (ap2, frames) = deauthenticate_all e rest reason ap1 in (ap2, frame ∷ frames)

abbrev idle : ℕ → ℕ → Station → Bool
idle now max_idle s = s.associated && ltb max_idle (now - s.last_activity)

unfoldable pub prune_idle : Env → ℕ → Ap → Ap × List Octets
prune_idle e max_idle ap =
    let ap1 = disconnect_all (macs_where (stale_sae e.now) ap.stations) 15 ap in
    deauthenticate_all e (macs_where (idle e.now max_idle) ap1.stations) 4 ap1

abbrev kick_known : Env → Octets → Ap → Option Station → Ap × Option Octets
kick_known e sta ap none = (ap, none)
kick_known e sta ap (some s) = let (ap1, frame) = deauthenticate e sta 3 ap in (ap1, some frame)

unfoldable pub kick : Env → Octets → Ap → Ap × Option Octets
kick e sta ap = kick_known e sta ap (get_station sta ap.stations)
