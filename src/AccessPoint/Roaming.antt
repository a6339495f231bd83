-- ===== src/AccessPoint/Roaming.antt =====
-- src/ap/roaming.rs: the protected frames that the access point sends. The code panics where a cipher
-- refuses its input; here nothing is sent.
use oxwifid.Base.{ℕ, Bool, Option, none, some, Octets, take, if◌then◌else◌, ◌>>=◌}
use mathlib.Core.Option
use oxwifid.Security.{DataCipher, key_len}
use oxwifid.Frames.Channels.{is_5ghz}
use oxwifid.Frames.Management.{build_protected_deauth_for_cipher_sec}
use oxwifid.Actions.{
  build_protected_btm_request_for_cipher_sec, neighbor_report_element,
  build_protected_neighbor_report_for_cipher_sec,
}
use oxwifid.AccessPoint.State.{Ap, Env, next_station_pn, prepend_radiotap}
use oxwifid.AccessPoint.State.Stations.{get_station}
use oxwifid.AccessPoint.Configuration.{ap_next_sc}
use oxwifid.AccessPoint.Lifecycle.{change_station}
use oxwifid.AccessPoint.Mld.{mld_mgmt_tx_sec_addrs}

-- The pairwise key of an authorized station.
unfoldable pub installed_pairwise_key : Octets → Ap → Option Octets
installed_pairwise_key sta ap =
    get_station sta ap.stations >>= (λ s. if s.associated then some s.pairwise_tk else none)

unfoldable pub station_pairwise_cipher : Octets → Ap → DataCipher
station_pairwise_cipher sta ap = elim (get_station sta ap.stations) [
  | none ↦ ap.pairwise_cipher
  | some s ↦ s.pairwise_cipher
]

-- A key with its number, from a suite, a sequence number, a packet number, a key and addresses.
abbrev Builder : Type 0
Builder = DataCipher → ℕ → ℕ → Octets → Option (Octets × Octets × Octets) → Option Octets

abbrev with_sc : Builder → Octets → Octets → ℕ → Ap × ℕ → Ap × Option Octets
with_sc build sta tk pn (ap, sc) = (
  ap,
  Option.map prepend_radiotap (
      build (station_pairwise_cipher sta ap) sc pn
        (take (key_len (station_pairwise_cipher sta ap)) tk) (mld_mgmt_tx_sec_addrs sta ap)),
)

abbrev with_pn : Builder → Octets → Octets → Ap → Option ℕ → Ap × Option Octets
with_pn build sta tk ap none = (ap, none)
with_pn build sta tk ap (some pn) = with_sc build sta tk pn (ap_next_sc ap)

abbrev pub draw_pn : Octets → Ap → Ap
draw_pn sta ap = change_station sta (λ s. (next_station_pn s).0) ap

abbrev with_key : Builder → Octets → Ap → Option Octets → Ap × Option Octets
with_key build sta ap none = (ap, none)
with_key build sta ap (some tk) =
    with_pn build sta tk (draw_pn sta ap)
      (get_station sta ap.stations >>= (λ s. (next_station_pn s).1))

-- The steps that the senders of protected frames share: the key, a packet number, a sequence number.
unfoldable pub send_protected : Builder → Octets → Ap → Ap × Option Octets
send_protected build sta ap = with_key build sta ap (installed_pairwise_key sta ap)

unfoldable pub btm_request : Env → Octets → Bool → ℕ → Ap → Ap × Option Octets
btm_request e sta disassoc_imminent disassoc_timer ap =
    send_protected
      (λ cipher sc pn tk sec.
        build_protected_btm_request_for_cipher_sec e.ciphers cipher ap.mac sta 1 disassoc_imminent
          disassoc_timer sc pn tk sec)
      sta ap

unfoldable pub neighbor_report : Env → Octets → Ap → Ap × Option Octets
neighbor_report e sta ap =
    let op_class = if is_5ghz ap.channel then 115 else 81 in
    send_protected
      (λ cipher sc pn tk sec.
        build_protected_neighbor_report_for_cipher_sec e.ciphers cipher ap.mac sta 1
          (neighbor_report_element ap.mac op_class ap.channel) sc pn tk sec)
      sta ap

unfoldable pub protected_deauth : Env → Octets → ℕ → Ap → Ap × Option Octets
protected_deauth e sta reason ap =
    send_protected
      (λ cipher sc pn tk sec.
        build_protected_deauth_for_cipher_sec e.ciphers cipher ap.mac sta reason sc pn tk sec)
      sta ap
