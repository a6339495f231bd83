-- ===== src/AccessPoint/Configuration.antt =====
-- src/ap/configuration.rs: the counters of the access point, and what it advertises.
use oxwifid.Base.{
  ℕ, ◌+◌, ◌-◌, ◌*◌, ◌%◌, ◌^◌, Bool, true, false, Option, none, some, List, [], ◌∷◌, Octets, ltb,
  ◌==◌, if◌then◌else◌,
}
use oxwifid.Security.{DataCipher}
use DataCipher.{ccmp128, ccmp256}
use oxwifid.Rsn.Tails.{SecurityMode, security_tail_for_ciphers}
use SecurityMode.{wpa2, wpa2_psk_sha256, wpa3_sae, transition, owe}
use oxwifid.AccessPoint.State.{Ap, Station, MldLink}
use oxwifid.AccessPoint.State.Stations.{get_station}

unfoldable pub security_mode : Ap → SecurityMode
security_mode ap =
    if ap.owe
    then owe
    else if ap.transition
    then transition
    else if ap.sae_enabled
    then wpa3_sae
    else if ap.psk_sha256
    then wpa2_psk_sha256
    else wpa2

abbrev pub with_fallback : DataCipher → List DataCipher
with_fallback ccmp256 = ccmp256 ∷ ccmp128 ∷ []
with_fallback c = c ∷ []

unfoldable pub pairwise_ciphers : Ap → List DataCipher
pairwise_ciphers ap = with_fallback ap.pairwise_cipher

unfoldable pub advertised_security_tail : Ap → Octets
advertised_security_tail ap = security_tail_for_ciphers (security_mode ap) (pairwise_ciphers ap)

unfoldable pub ap_next_sc : Ap → Ap × ℕ
ap_next_sc ap = let sc = (ap.sc + 1) % 4096 in (record ap { sc = sc }, sc * 16 % 2 ^ 16)

-- Zero is skipped when the counter wraps.
abbrev pub wrapped_replay : ℕ → ℕ
wrapped_replay n = let next = (n + 1) % 2 ^ 64 in if next == 0 then 1 else next

unfoldable pub next_eapol_replay : Ap → Ap × ℕ
next_eapol_replay ap =
    let next = wrapped_replay ap.eapol_replay_counter in
    (record ap { eapol_replay_counter = next }, next)

unfoldable pub next_group_pn : Ap → Ap × Option ℕ
next_group_pn ap =
    if ltb 0x0000ffffffffffff ap.group_pn
    then (ap, none)
    else (record ap { group_pn = ap.group_pn + 1 }, some ap.group_pn)

unfoldable pub current_group_rsc : Ap → ℕ
current_group_rsc ap = ap.group_pn - 1

unfoldable pub link_mac : ℕ → List MldLink → Option Octets
link_mac id [] = none
link_mac id (l ∷ ls) = if l.link_id == id then some l.mac else link_mac id ls

abbrev no_links : List MldLink → Bool
no_links [] = true
no_links (l ∷ ls) = false

unfoldable pub active_mld_links : Ap → List MldLink
active_mld_links ap =
    if ap.mld then (if no_links ap.mld_links then own_link else ap.mld_links) else own_link
  where
    own_link : List MldLink
    own_link =
        record {
          link_id = ap.link_id;
          mac = ap.mac;
          channel = ap.channel;
          width = ap.channel_width;
          band6 = ap.band6;
        }
        ∷ []

-- What a station of a private network has, or else what the network has.
abbrev pub own_or {ℓ} : {A : Type ℓ} → Bool → Option Station → (Station → A) → A → A
own_or true (some s) own shared = own s
own_or _ _ own shared = shared

unfoldable pub station_gtk : Octets → Ap → Octets
station_gtk sta ap = own_or ap.per_sta_vif (get_station sta ap.stations) (λ s. s.gtk) ap.gtk

unfoldable pub station_gtk_key_id : Octets → Ap → ℕ
station_gtk_key_id sta ap =
    own_or ap.per_sta_vif (get_station sta ap.stations) (λ s. s.gtk_key_id) ap.gtk_key_id

unfoldable pub station_group_rsc : Octets → Ap → ℕ
station_group_rsc sta ap =
    own_or ap.per_sta_vif (get_station sta ap.stations) (λ s. s.gtk_rsc) (current_group_rsc ap)

unfoldable pub station_igtk : Octets → Ap → Octets
station_igtk sta ap = own_or ap.per_sta_vif (get_station sta ap.stations) (λ s. s.igtk) ap.igtk

unfoldable pub station_igtk_key_id : Octets → Ap → ℕ
station_igtk_key_id sta ap =
    own_or ap.per_sta_vif (get_station sta ap.stations) (λ s. s.igtk_key_id) ap.igtk_key_id

unfoldable pub station_igtk_ipn : Octets → Ap → Octets
station_igtk_ipn sta ap =
    own_or ap.per_sta_vif (get_station sta ap.stations) (λ s. s.igtk_ipn) ap.igtk_ipn
