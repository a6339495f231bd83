-- ===== src/AccessPoint/Handshake/Changes.antt =====
-- What `handle_eapol` in src/ap/handshake.rs does to the table of stations, for every relation that
-- its single steps have.
use oxwifid.Base.{
  ℕ, ◌≡◌, refl, Bool, true, false, not, ◌&&◌, Option, none, some, [], ◌∷◌, ◌++◌, Octets, if_split,
  ◌==◌, bytes_eq,
}
use mathlib.Core.Path.{subst}
use oxwifid.Security.EapolKey.{EapolKey}
use oxwifid.Frames.Dot11.{Dot11}
use oxwifid.Failures.{FailureKind}
use FailureKind.{four_way_mic}
use oxwifid.Frames.Elements.{trim_key_data_padding}
use oxwifid.AccessPoint.State.{tx, Ap, Env, Outgoing, Station, Stations, PtkCandidate, station_mic}
use oxwifid.AccessPoint.State.Stations.{get_station}
use oxwifid.AccessPoint.State.Steps.{Steps, Steps-refl, Steps-trans, Steps-update, Steps-imp}
use oxwifid.AccessPoint.Configuration.{ap_next_sc, next_eapol_replay}
use oxwifid.AccessPoint.Lifecycle.{
  bump_generation, change_station, report_failure, arm_eapol_timer, disconnect,
}
use oxwifid.AccessPoint.Lifecycle.Changes.{
  arm_eapol_timer-Steps, disconnect-Steps, report_failure_stations,
}
use oxwifid.AccessPoint.Handshake.Checks.{authentic, received_key, message_2_security_matches}
use oxwifid.AccessPoint.Handshake.Message3.{message_3, btm_request_frame}
use oxwifid.AccessPoint.Handshake.Message2.{
  keep_candidate, await_m4, pin_pmk, steer, m3_counter, send_candidate, send_m3, m2_oci_valid,
  accept_verified, reject_m2, verified_or_not, m2_expected, answer_m2, accept_m2,
}
use oxwifid.AccessPoint.Handshake.{
  group_done, finish_group_rekey, is_group_m2, is_m4, select_candidate, install_candidate,
  authorize, finish_handshake, handle_message, handle_received, handle_from, handle_eapol,
}

-- What a relation between a station before and after a key message has to hold of, where no
-- candidate is installed.
pub record Admits (K : Station → Station → Type 0) : Type 0 where
  pub refl_law : (s : Station) → K s s
  pub trans_law : (s s' s'' : Station) → K s s' → K s' s'' → K s s''
  pub bump : (s : Station) → K s (bump_generation s)
  pub keep : (c : PtkCandidate) (s : Station) → K s (keep_candidate c s)
  pub await : (now : ℕ) (m3 : Octets) (s : Station) → K s (await_m4 now m3 s)
  pub pin : (pmk : Octets) (s : Station) → K s (pin_pmk pmk s)
  pub group : (now : ℕ) (s : Station) → K s (group_done now s)

-- What it has to hold of where one is: a candidate is installed only for the message that selects it.
abbrev pub Installs : Env → Dot11 → (Station → Station → Type 0) → Type 0
Installs e f R =
    (frame : Octets) (ek : EapolKey) (mld : Option Octets) (c : PtkCandidate) (s : Station)
    → received_key f ≡ some (frame, ek)
    → s.awaiting_m4 ≡ true
    → select_candidate e.digests (station_mic s) mld frame ek s.ptk_candidates ≡ some c
    → R s (install_candidate c s)

steer_stations :
    (sta : Octets) (s : Station) (a : Ap) (out : Outgoing)
    → (steer sta s (a, out)).0.stations ≡ a.stations
unfolding btm_request_frame ap_next_sc
steer_stations sta s a out =
    if_split (λ (r : Ap × Outgoing). r.0.stations ≡ a.stations) (a.btm && not s.pmf) (λ h. refl)
      (λ h. refl)

m3_counter_stations :
    (sta : Octets) (s : Station) (a : Ap) → (m3_counter sta s a).0.stations ≡ a.stations
unfolding next_eapol_replay
m3_counter_stations sta s a =
    if_split (λ (r : Ap × ℕ). r.0.stations ≡ a.stations) s.awaiting_m4 (λ h. refl) (λ h. refl)

module _ (e : Env) (K : Station → Station → Type 0) (admits : Admits K) where
  changed :
      (sta : Octets) (g : Station → Station) (a : Ap)
      → ((s : Station) → K s (g s))
      → Steps K a.stations (change_station sta g a).stations
  changed sta g a h = Steps-update K admits.refl_law sta g a.stations (λ s eq. h s)

  unchanged : (a : Ap) → Steps K a.stations a.stations
  unchanged a = Steps-refl K admits.refl_law a.stations

  send_candidate-Steps :
      (sta : Octets) (s : Station) (anonce : Octets) (c : PtkCandidate) (a : Ap) (out : Outgoing)
      → Steps K a.stations (send_candidate e sta s anonce c (a, out)).0.stations
  unfolding send_candidate ap_next_sc
  send_candidate-Steps sta s anonce c a out =
      let a1 : Ap = (ap_next_sc (change_station sta (keep_candidate c) a)).0 in
      let m3 : Octets =
        message_3 e sta s anonce c (ap_next_sc (change_station sta (keep_candidate c) a)).1 a1 in
      let a2 : Ap = change_station sta (await_m4 e.now m3) a1 in
      let a3 : Ap = record a2 { key_install_stations = a2.key_install_stations ++ (sta ∷ []) } in
      rw (steer_stations sta s (arm_eapol_timer sta a3) (tx m3 out)) (
        Steps-trans K admits.trans_law a.stations a1.stations _ (changed sta _ a (admits.keep c)) (
          Steps-trans K admits.trans_law a1.stations a2.stations _
            (changed sta _ a1 (admits.await e.now m3))
            (arm_eapol_timer-Steps K admits.refl_law sta a3 admits.bump)))

  send_m3-Steps :
      (sta : Octets) (s : Station) (anonce ptk : Octets) (a : Ap) (out : Outgoing)
      → Steps K a.stations (send_m3 e sta s anonce ptk (a, out)).0.stations
  unfolding send_m3
  send_m3-Steps sta s anonce ptk a out =
      subst (λ t. Steps K t (send_m3 e sta s anonce ptk (a, out)).0.stations)
        (m3_counter_stations sta s a)
        (send_candidate-Steps sta s anonce _ (m3_counter sta s a).0 out)

  accept_verified-Steps :
      (sta : Octets) (s : Station) (anonce pmk : Octets) (ek : EapolKey) (a : Ap) (out : Outgoing)
      → Steps K a.stations (accept_verified e sta s anonce pmk ek (a, out)).0.stations
  unfolding accept_verified
  accept_verified-Steps sta s anonce pmk ek a out =
      let key_data : Octets = trim_key_data_padding ek.key_data in
      let pinned : Ap = change_station sta (pin_pmk pmk) a in
      if_split P (not (message_2_security_matches s.assoc_ies key_data)) (λ h. unchanged a)
        (λ h.
          if_split P (not (m2_oci_valid a key_data)) (λ h. changed sta _ a (admits.pin pmk))
            (λ h.
              Steps-trans K admits.trans_law a.stations pinned.stations _
                (changed sta _ a (admits.pin pmk)) (send_m3-Steps sta s anonce _ pinned out)))
    where
      P : Ap × Outgoing → Type 0
      P r = Steps K a.stations r.0.stations

  reject_m2-Steps :
      (sta : Octets) (s : Station) (a : Ap) (out : Outgoing)
      → Steps K a.stations (reject_m2 sta s (a, out)).0.stations
  unfolding reject_m2
  reject_m2-Steps sta s a out =
      if_split (λ (r : Ap × Outgoing). Steps K a.stations r.0.stations) s.awaiting_m4
        (λ h. unchanged a)
        (λ h.
          subst (λ t. Steps K t (disconnect sta 1 (report_failure sta four_way_mic a)).stations)
            (report_failure_stations sta four_way_mic a)
            (disconnect-Steps K admits.refl_law sta 1 (report_failure sta four_way_mic a)))

  verified_or_not-Steps :
      (sta : Octets) (s : Station) (anonce : Octets) (ek : EapolKey) (a : Ap) (out : Outgoing)
      (o : Option Octets)
      → Steps K a.stations (verified_or_not e sta s anonce ek (a, out) o).0.stations
  verified_or_not-Steps sta s anonce ek a out none = reject_m2-Steps sta s a out
  verified_or_not-Steps sta s anonce ek a out (some pmk) =
      accept_verified-Steps sta s anonce pmk ek a out

  answer_m2-Steps :
      (sta : Octets) (s : Station) (frame : Octets) (ek : EapolKey) (a : Ap) (out : Outgoing)
      (o : Option Octets)
      → Steps K a.stations (answer_m2 e sta s frame ek (a, out) o).0.stations
  answer_m2-Steps sta s frame ek a out none = unchanged a
  answer_m2-Steps sta s frame ek a out (some anonce) = verified_or_not-Steps sta s anonce ek a out _

  accept_m2-Steps :
      (sta : Octets) (s : Station) (frame : Octets) (ek : EapolKey) (a : Ap) (out : Outgoing)
      → Steps K a.stations (accept_m2 e sta s frame ek (a, out)).0.stations
  unfolding accept_m2
  accept_m2-Steps sta s frame ek a out =
      if_split (λ (r : Ap × Outgoing). Steps K a.stations r.0.stations) (m2_expected s a ek)
        (λ h. answer_m2-Steps sta s frame ek a out s.anonce) (λ h. unchanged a)

  finish_group_rekey-Steps :
      (sta : Octets) (s : Station) (frame : Octets) (ek : EapolKey) (a : Ap)
      → Steps K a.stations (finish_group_rekey e sta s frame ek a).stations
  unfolding finish_group_rekey
  finish_group_rekey-Steps sta s frame ek a =
      if_split (λ (r : Ap). Steps K a.stations r.stations)
        (is_group_m2 s ek && authentic e.digests (station_mic s) s.kck frame ek)
        (λ h. changed sta _ a (admits.group e.now)) (λ h. unchanged a)

module _ (e : Env) (f : Dot11) (K R : Station → Station → Type 0) (admits : Admits K)
    (lift : (s s' : Station) → K s s' → R s s') (installs : Installs e f R) where
  lifted : (t t' : Stations) → Steps K t t' → Steps R t t'
  lifted t t' h = Steps-imp K R lift t t' h

  still : (a : Ap) → Steps R a.stations a.stations
  still a = lifted a.stations a.stations (unchanged e K admits a)

  authorize-Steps :
      (sta : Octets) (s : Station) (a : Ap) (o : Option PtkCandidate)
      → ((c : PtkCandidate)
          → o ≡ some c
          → (t : Station) → get_station sta a.stations ≡ some t
          → R t (install_candidate c t))
      → Steps R a.stations (authorize sta s a o).stations
  authorize-Steps sta s a none h = still a
  authorize-Steps sta s a (some c) h =
      Steps-update R (λ s. lift s s (admits.refl_law s)) sta (install_candidate c) a.stations
        (h c refl)

  finish_handshake-Steps :
      (sta : Octets) (s : Station) (frame : Octets) (ek : EapolKey) (a : Ap)
      → get_station sta a.stations ≡ some s
      → received_key f ≡ some (frame, ek)
      → s.awaiting_m4 ≡ true
      → Steps R a.stations (finish_handshake e sta s frame ek a).stations
  unfolding finish_handshake
  finish_handshake-Steps sta s frame ek a found received awaiting =
      authorize-Steps sta s a _ (λ c selected t found'.
        let same : s ≡ t = cc in
        subst (λ u. R u (install_candidate c u)) same
          (installs frame ek _ c s received awaiting selected))

  handle_message-Steps :
      (sta : Octets) (s : Station) (frame : Octets) (ek : EapolKey) (a : Ap) (out : Outgoing)
      → get_station sta a.stations ≡ some s
      → received_key f ≡ some (frame, ek)
      → Steps R a.stations (handle_message e sta s frame ek (a, out)).0.stations
  unfolding handle_message
  handle_message-Steps sta s frame ek a out found received =
      if_split P (s.group_rekeying && ek.key_replay_counter == s.eapol_replay)
        (λ h. lifted a.stations _ (finish_group_rekey-Steps e K admits sta s frame ek a))
        (λ h.
          if_split P (s.awaiting_m4 && is_m4 s ek)
            (λ m4.
              finish_handshake-Steps sta s frame ek a found received (&&-left s.awaiting_m4 _ m4))
            (λ h. lifted a.stations _ (accept_m2-Steps e K admits sta s frame ek a out)))
    where
      P : Ap × Outgoing → Type 0
      P r = Steps R a.stations r.0.stations

      &&-left : (x y : Bool) → (x && y) ≡ true → x ≡ true
      &&-left true y h = refl
      &&-left false y h = h

  handle_received-Steps :
      (sta : Octets) (s : Station) (o : Option (Octets × EapolKey)) (a : Ap) (out : Outgoing)
      → get_station sta a.stations ≡ some s
      → received_key f ≡ o
      → Steps R a.stations (handle_received e sta s o (a, out)).0.stations
  handle_received-Steps sta s none a out found received = still a
  handle_received-Steps sta s (some (frame, ek)) a out found received =
      handle_message-Steps sta s frame ek a out found received

  handle_from-Steps :
      (o : Option Station) (a : Ap) (out : Outgoing)
      → get_station f.addr2 a.stations ≡ o
      → Steps R a.stations (handle_from e f o (a, out)).0.stations
  handle_from-Steps none a out found = still a
  handle_from-Steps (some s) a out found =
      handle_received-Steps f.addr2 s (received_key f) a out found refl

  -- Every key message changes the table of stations by admitted steps.
  pub handle_eapol-Steps :
      (a : Ap) (out : Outgoing) → Steps R a.stations (handle_eapol e f (a, out)).0.stations
  unfolding handle_eapol
  handle_eapol-Steps a out =
      if_split (λ (r : Ap × Outgoing). Steps R a.stations r.0.stations)
        (not (bytes_eq f.addr1 a.mac)) (λ h. still a)
        (λ h. handle_from-Steps (get_station f.addr2 a.stations) a out refl)
