-- ===== src/AccessPoint/Lifecycle.antt =====
-- src/ap/lifecycle.rs: the timers of the key messages, and the end of a session.
pub mod Changes
use oxwifid.Base.{
  ℕ, ◌+◌, ◌%◌, ◌^◌, Bool, true, false, not, ◌&&◌, ◌||◌, Option, none, some, List, [], ◌∷◌, ◌++◌,
  Octets, ltb, ◌==◌, if◌then◌else◌, is_some, replicate,
}
use mathlib.Core.Option
use oxwifid.Failures.{Failure, FailureKind, record_failure}
use oxwifid.AccessPoint.State.{Ap, ApEvent, Station, Stations}
use ApEvent.{connected, disconnected, auth_failed}
use oxwifid.AccessPoint.State.Stations.{get_station, update_station, remove_station, any_station}

abbrev pub eapol_timeout : ℕ
eapol_timeout = 1000

abbrev pub eapol_first_timeout : ℕ
eapol_first_timeout = 100

abbrev pub max_eapol_retries : ℕ
max_eapol_retries = 3

-- `if let Some(s) = self.stations.get_mut(sta) { ... }`.
abbrev pub change_station : Octets → (Station → Station) → Ap → Ap
change_station sta f ap = record ap { stations = update_station sta f ap.stations }

abbrev pub next_generation : Station → ℕ
next_generation s = (s.eapol_timer_generation + 1) % 2 ^ 64

abbrev pub bump_generation : Station → Station
bump_generation s = record s { eapol_timer_generation = next_generation s }

abbrev pub first_timeout : Station → ℕ
first_timeout s =
    if s.eapol_retries == 0 && not s.eapol_acked then eapol_first_timeout else eapol_timeout

abbrev pub arm_station : Octets → Ap → Option Station → Ap
arm_station sta ap none = ap
arm_station sta ap (some s) =
    let armed = change_station sta bump_generation ap in
    if is_some s.pending_eapol
    then record armed {
      eapol_deadlines = (s.eapol_tx + first_timeout s, next_generation s, sta) ∷ ap.eapol_deadlines;
    }
    else armed

unfoldable pub arm_eapol_timer : Octets → Ap → Ap
arm_eapol_timer sta ap = arm_station sta ap (get_station sta ap.stations)

unfoldable pub cancel_eapol_timer : Octets → Ap → Ap
cancel_eapol_timer sta ap = change_station sta bump_generation ap

unfoldable pub note_eapol_acked : ℕ → Octets → Ap → Ap
note_eapol_acked now sta ap = arm_eapol_timer sta (
    change_station sta
      (λ s.
        if not s.awaiting_m4 && not s.group_rekeying
        then record s { eapol_acked = true; eapol_tx = now }
        else s)
      ap)

unfoldable pub note_eapol_transmitted : ℕ → Octets → Ap → Ap
note_eapol_transmitted now sta ap = arm_eapol_timer sta (
    change_station sta (λ s. record s { eapol_tx = now; eapol_retries = 0; eapol_acked = false })
      ap)

abbrev pub zeroized_keys : Station → Station
zeroized_keys s = record s {
  kck = replicate 16 0;
  kek = replicate 16 0;
  tk = replicate 16 0;
  pairwise_tk = replicate 32 0;
}

abbrev pub without_handshake : Station → Station
without_handshake s = record (if s.associated then s else zeroized_keys s) {
  pending_eapol = none;
  eapol_ready = false;
  awaiting_m4 = false;
  ptk_candidates = [];
  eapol_retries = 0;
  eapol_acked = false;
}

unfoldable pub note_assoc_response_not_acked : Octets → Ap → Ap
note_assoc_response_not_acked sta ap =
    cancel_eapol_timer sta (change_station sta without_handshake ap)

unfoldable pub is_associated : Octets → Ap → Bool
is_associated sta ap = elim (get_station sta ap.stations) [ none ↦ false | some s ↦ s.associated ]

-- `mld.unwrap_or(sta)`.
abbrev pub mld_or : Option Octets → Octets → Octets
mld_or none sta = sta
mld_or (some mld) sta = mld

abbrev associated_station : Station → Bool
associated_station s = s.associated

-- What follows the removal of a station; `ap` is without it.
abbrev pub disconnect_removed : Octets → ℕ → Ap → Station → Ap
disconnect_removed sta reason ap s =
    if s.associated
    then record ap {
      events = ap.events ++ (disconnected (mld_or s.client_mld_mac sta) reason ∷ []);
      group_rekey_due =
          ap.group_rekey_due || (ap.strict_rekey && any_station associated_station ap.stations);
    }
    else ap

abbrev pub disconnect_station : Octets → ℕ → Ap → Option Station → Ap
disconnect_station sta reason ap none = ap
disconnect_station sta reason ap (some s) =
    disconnect_removed sta reason
      (record ap {
        stations = remove_station sta ap.stations;
        removed_stations = ap.removed_stations ++ (sta ∷ []);
      })
      s

unfoldable pub disconnect : Octets → ℕ → Ap → Ap
disconnect sta reason ap = disconnect_station sta reason ap (get_station sta ap.stations)

abbrev traits_of : Option Station → ℕ
traits_of none = 0
traits_of (some s) = s.traits

-- `Ap::record_failure`.
unfoldable pub report_failure : Octets → FailureKind → Ap → Ap
report_failure sta kind ap =
    let (failures, count) =
      record_failure
        (record { mac = sta; traits = traits_of (get_station sta ap.stations); kind = kind })
        ap.failures in
    record ap { failures = failures; events = ap.events ++ (auth_failed sta kind count ∷ []) }
