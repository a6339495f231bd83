-- ===== src/AccessPoint/Lifecycle/Changes.antt =====
-- What the timers and the end of a session in src/ap/lifecycle.rs do to the table of stations.
use oxwifid.Base.{ℕ, ◌≡◌, refl, Option, none, some, Octets, if_split, is_some}
use oxwifid.Failures.{FailureKind}
use oxwifid.AccessPoint.State.{Ap, Station}
use oxwifid.AccessPoint.State.Stations.{get_station}
use oxwifid.AccessPoint.State.Steps.{Steps, Steps-refl, Steps-update, Steps-remove}
use oxwifid.AccessPoint.Lifecycle.{
  bump_generation, arm_station, arm_eapol_timer, disconnect_station, disconnect, report_failure,
}

module _ (R : Station → Station → Type 0) (refl_law : (s : Station) → R s s) where
  arm_station-Steps :
      (sta : Octets) (ap : Ap) (o : Option Station)
      → ((s : Station) → R s (bump_generation s))
      → Steps R ap.stations (arm_station sta ap o).stations
  arm_station-Steps sta ap none bump = Steps-refl R refl_law ap.stations
  arm_station-Steps sta ap (some s) bump =
      if_split (λ (a : Ap). Steps R ap.stations a.stations) (is_some s.pending_eapol)
        (λ h. Steps-update R refl_law sta bump_generation ap.stations (λ t e. bump t))
        (λ h. Steps-update R refl_law sta bump_generation ap.stations (λ t e. bump t))

  pub arm_eapol_timer-Steps :
      (sta : Octets) (ap : Ap)
      → ((s : Station) → R s (bump_generation s))
      → Steps R ap.stations (arm_eapol_timer sta ap).stations
  unfolding arm_eapol_timer
  arm_eapol_timer-Steps sta ap bump = arm_station-Steps sta ap (get_station sta ap.stations) bump

  disconnect_station-Steps :
      (sta : Octets) (reason : ℕ) (ap : Ap) (o : Option Station)
      → Steps R ap.stations (disconnect_station sta reason ap o).stations
  disconnect_station-Steps sta reason ap none = Steps-refl R refl_law ap.stations
  disconnect_station-Steps sta reason ap (some s) =
      if_split (λ (a : Ap). Steps R ap.stations a.stations) s.associated
        (λ h. Steps-remove R refl_law sta ap.stations)
        (λ h. Steps-remove R refl_law sta ap.stations)

  pub disconnect-Steps :
      (sta : Octets) (reason : ℕ) (ap : Ap)
      → Steps R ap.stations (disconnect sta reason ap).stations
  unfolding disconnect
  disconnect-Steps sta reason ap =
      disconnect_station-Steps sta reason ap (get_station sta ap.stations)

pub report_failure_stations :
    (sta : Octets) (kind : FailureKind) (ap : Ap)
    → (report_failure sta kind ap).stations ≡ ap.stations
unfolding report_failure
report_failure_stations sta kind ap = refl
