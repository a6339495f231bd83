-- ===== src/AccessPoint/Management.antt =====
-- src/ap/management.rs: robust management frames.
pub mod Kept
use oxwifid.Base.{
  ℕ, ◌+◌, ◌%◌, ◌^◌, Bool, true, false, not, ◌&&◌, Option, none, some, List, [], ◌∷◌, ◌++◌, Octets,
  length, take, leb, ◌==◌, if◌then◌else◌, ◌>>=◌, le_value, is_some,
}
use mathlib.Core.Option
use oxwifid.Security.{DataCipher, key_len}
use oxwifid.Failures.{FailureKind}
use FailureKind.{protected_mgmt}
use oxwifid.Frames.Channels.{is_5ghz}
use oxwifid.Frames.Dot11.{Dot11, protected, ccmp_pn}
use oxwifid.Frames.Management.{decrypt_protected_mgmt_sec, build_protected_deauth_for_cipher_sec}
use oxwifid.Actions.{
  build_protected_sa_query_for_cipher_sec, parse_sa_query, parse_btm_response, sa_query_request,
  sa_query_response, build_protected_btm_request_for_cipher_sec, neighbor_report_element,
  build_protected_neighbor_report_for_cipher_sec,
}
use oxwifid.Actions.Twt.{parse_twt_setup, build_twt_setup_response}
use oxwifid.AccessPoint.State.{Ap, Env, Outgoing, Station, next_station_pn, prepend_radiotap, tx}
use oxwifid.AccessPoint.State.Stations.{get_station}
use oxwifid.AccessPoint.Configuration.{ap_next_sc}
use oxwifid.AccessPoint.Lifecycle.{change_station, disconnect, is_associated, report_failure}
use oxwifid.AccessPoint.Mld.{mld_mgmt_tx_sec_addrs, mld_mgmt_rx_sec_addrs}
use oxwifid.AccessPoint.Maintenance.{sa_query_timeout}
use oxwifid.AccessPoint.Pmksa.{schedule_maintenance}
use oxwifid.AccessPoint.Roaming.{installed_pairwise_key, send_protected}

abbrev send_sa_query : Env → Octets → Bool → ℕ → Ap → Ap × Option Octets
send_sa_query e sta response trans ap =
    send_protected
      (λ cipher sc pn tk sec.
        build_protected_sa_query_for_cipher_sec e.ciphers cipher ap.mac sta false response trans sc
          pn tk sec)
      sta ap

unfoldable pub pmf_session_protected : Octets → Ap → Bool
pmf_session_protected sta ap = elim (get_station sta ap.stations) [
  | none ↦ false
  | some s ↦ s.associated && s.pmf
]

-- The identifier of the outstanding query, or the next one.
abbrev query_id : Ap → Option (ℕ × ℕ) → Ap × ℕ
query_id ap (some (trans, started)) = (ap, trans)
query_id ap none = let id = (ap.sa_query_id + 1) % 2 ^ 16 in (record ap { sa_query_id = id }, id)

abbrev pub keep_query : ℕ → ℕ → Option (ℕ × ℕ) → ℕ × ℕ
keep_query trans now none = (trans, now)
keep_query trans now (some q) = q

-- What follows a query that was sent: the deadline of the first one stays.
abbrev await_answer : Env → Octets → ℕ → Ap → Option Station → Ap
await_answer e sta trans ap none = ap
await_answer e sta trans ap (some s) =
    let query = keep_query trans e.now s.sa_query in
    schedule_maintenance (query.1 + sa_query_timeout)
      (change_station sta (λ t. record t { sa_query = some query }) ap)

abbrev challenge_sent : Env → Octets → ℕ → Ap × Option Octets → Outgoing → Ap × Outgoing
challenge_sent e sta trans (ap, none) out = (ap, out)
challenge_sent e sta trans (ap, some frame) out = (
  await_answer e sta trans ap (get_station sta ap.stations),
  record out { frames = out.frames ++ (frame ∷ []) },
)

unfoldable pub sa_query_challenge : Env → Octets → Ap × Outgoing → Ap × Outgoing
sa_query_challenge e sta (ap, out) =
    let (ap1, trans) = query_id ap (get_station sta ap.stations >>= (λ s. s.sa_query)) in
    if is_some (installed_pairwise_key sta ap)
    then challenge_sent e sta trans (send_sa_query e sta false trans ap1) out
    else (ap, out)

-- `ManagementRx`: who checked the MIC and the packet number.
pub data ManagementRx : Type 0 where
  userspace kernel : ManagementRx

abbrev pub with_mgmt_pn : ℕ → Station → Station
with_mgmt_pn pn s = record s { last_rx_mgmt_pn = pn }

abbrev opened_body : Octets → ℕ → Option Octets → Ap → Ap × Option Octets
opened_body sta pn none ap = (report_failure sta protected_mgmt ap, none)
opened_body sta pn (some plain) ap = (change_station sta (with_mgmt_pn pn) ap, some plain)

abbrev checked_body : Env → Dot11 → Station → Option ℕ → Ap → Ap × Option Octets
checked_body e f s none ap = (ap, none)
checked_body e f s (some pn) ap =
    if leb pn s.last_rx_mgmt_pn
    then (ap, none)
    else opened_body f.addr2 pn
        (decrypt_protected_mgmt_sec e.ciphers s.pairwise_cipher f
          (take (key_len s.pairwise_cipher) s.pairwise_tk) (mld_mgmt_rx_sec_addrs f.addr2 ap))
        ap

abbrev body_from : Env → Dot11 → ManagementRx → Option Station → Ap → Ap × Option Octets
body_from e f rx none ap = (ap, none)
body_from e f ManagementRx.kernel (some s) ap =
    if s.associated then (ap, some f.body) else (ap, none)
body_from e f ManagementRx.userspace (some s) ap =
    if s.associated then checked_body e f s (ccmp_pn f) ap else (ap, none)

unfoldable pub protected_mgmt_body : Env → Dot11 → ManagementRx → Ap → Ap × Option Octets
protected_mgmt_body e f rx ap =
    if not (protected f) then (ap, none) else body_from e f rx (get_station f.addr2 ap.stations) ap

abbrev reason_of : Octets → ℕ
reason_of body = if leb 2 (length body) then le_value (take 2 body) else 0

abbrev end_protected : Octets → Ap × Option Octets → Ap
end_protected sta (ap, none) = ap
end_protected sta (ap, some plain) = disconnect sta (reason_of plain) ap

abbrev robust_from : Env → Dot11 → ManagementRx → Option Station → Ap → Ap
robust_from e f rx none ap = ap
robust_from e f rx (some s) ap =
    if not s.pmf
    then disconnect f.addr2 (reason_of f.body) ap
    else end_protected f.addr2 (protected_mgmt_body e f rx ap)

unfoldable pub handle_robust_mgmt : Env → Dot11 → ManagementRx → Ap → Ap
handle_robust_mgmt e f rx ap = robust_from e f rx (get_station f.addr2 ap.stations) ap

-- A response of a BSS transition is only printed.
abbrev grant_twt : Octets → Option (ℕ × Octets) → Ap × Outgoing → Ap × Outgoing
grant_twt sta none st = st
grant_twt sta (some (dialog, twt)) (ap, out) =
    let (ap1, sc) = ap_next_sc ap in
    if is_associated sta ap
    then (ap1, tx (build_twt_setup_response ap1.mac sta dialog twt sc) out)
    else (ap, out)

abbrev answers : ℕ → Option (ℕ × ℕ) → Bool
answers trans none = false
answers trans (some (pending, started)) = pending == trans

abbrev pub query_answered : ℕ → Station → Station
query_answered trans s = if answers trans s.sa_query then record s { sa_query = none } else s

abbrev queue_frame : Ap × Option Octets → Outgoing → Ap × Outgoing
queue_frame (ap, none) out = (ap, out)
queue_frame (ap, some frame) out = (ap, record out { frames = out.frames ++ (frame ∷ []) })

abbrev act_on : Env → Octets → Option (ℕ × ℕ) → Ap × Outgoing → Ap × Outgoing
act_on e sta none st = st
act_on e sta (some (action, trans)) (ap, out) =
    if action == sa_query_response
    then (change_station sta (query_answered trans) ap, out)
    else if action == sa_query_request
    then queue_frame (send_sa_query e sta true trans ap) out
    else (ap, out)

abbrev act_on_body : Env → Octets → Ap × Option Octets → Outgoing → Ap × Outgoing
act_on_body e sta (ap, none) out = (ap, out)
act_on_body e sta (ap, some plain) out = act_on e sta (parse_sa_query plain) (ap, out)

unfoldable pub handle_action : Env → Dot11 → ManagementRx → Ap × Outgoing → Ap × Outgoing
handle_action e f rx (ap, out) =
    if not (protected f)
    then grant_twt f.addr2 (parse_twt_setup f.body) (ap, out)
    else act_on_body e f.addr2 (protected_mgmt_body e f rx ap) out
