-- ===== src/AccessPoint/Mld.antt =====
-- src/ap/mlo.rs and the link views of src/ap/lifecycle.rs: the links of a multi-link station, and the
-- addresses that protect its frames.
use oxwifid.Base.{
  ℕ, Bool, false, not, ◌&&◌, ◌||◌, Option, none, some, List, [], ◌∷◌, ◌++◌, Octets, leb, ◌==◌,
  if◌then◌else◌, bytes_eq, ◌>>=◌,
}
use mathlib.Core.Option
use oxwifid.Frames.Dot11.{Dot11}
use oxwifid.AccessPoint.State.{Ap, Station, MldLink}
use oxwifid.AccessPoint.State.Stations.{get_station}

abbrev pub has_id : ℕ → List ℕ → Bool
has_id id [] = false
has_id id (x ∷ xs) = x == id || has_id id xs

abbrev pub configured : ℕ → List MldLink → Bool
configured id [] = false
configured id (l ∷ ls) = l.link_id == id || configured id ls

-- The partner links, in the order of the request, without the ones that are there or not configured.
unfoldable pub add_links : List MldLink → List ℕ → List (ℕ × Octets) → List ℕ
add_links links ids [] = ids
add_links links ids ((id, mac) ∷ rest) =
    if not (has_id id ids) && configured id links
    then add_links links (ids ++ (id ∷ [])) rest
    else add_links links ids rest

-- `sort_unstable` of distinct numbers.
abbrev insert_sorted : ℕ → List ℕ → List ℕ
insert_sorted x [] = x ∷ []
insert_sorted x (y ∷ ys) = if leb x y then x ∷ y ∷ ys else y ∷ insert_sorted x ys

abbrev sorted : List ℕ → List ℕ
sorted [] = []
sorted (x ∷ xs) = insert_sorted x (sorted xs)

abbrev id_or : Option ℕ → ℕ → ℕ
id_or none d = d
id_or (some id) d = id

abbrev pub link_ids_of : Ap → Option Octets → Station → List ℕ
link_ids_of ap none s = []
link_ids_of ap (some mld) s =
    if ap.mld
    then sorted (add_links ap.mld_links (id_or s.assoc_link_id ap.link_id ∷ []) s.client_mld_links)
    else []

abbrev ids_of_station : Ap → Option Station → List ℕ
ids_of_station ap none = []
ids_of_station ap (some s) = link_ids_of ap s.client_mld_mac s

unfoldable pub station_mld_link_ids : Octets → Ap → List ℕ
station_mld_link_ids sta ap = ids_of_station ap (get_station sta ap.stations)

-- The MLD address of a station of a multi-link access point.
abbrev pub station_mld : Octets → Ap → Option Octets
station_mld sta ap =
    if ap.mld then (get_station sta ap.stations >>= (λ s. s.client_mld_mac)) else none

unfoldable pub mld_data_rx_sec_addrs : Octets → Dot11 → Ap → Option (Octets × Octets × Octets)
mld_data_rx_sec_addrs sta f ap =
    Option.map
      (λ (mld : Octets). (
        ap.mld_mac,
        mld,
        if bytes_eq f.addr3 ap.mac || bytes_eq f.addr3 ap.mld_mac then ap.mld_mac else f.addr3,
      ))
      (station_mld sta ap)

unfoldable pub mld_data_tx_sec_addrs : Octets → Octets → Ap → Option (Octets × Octets × Octets)
mld_data_tx_sec_addrs sta src ap =
    Option.map
      (λ (mld : Octets). (
        mld,
        ap.mld_mac,
        if bytes_eq src ap.mac || bytes_eq src ap.mld_mac then ap.mld_mac else src,
      ))
      (station_mld sta ap)

unfoldable pub mld_mgmt_rx_sec_addrs : Octets → Ap → Option (Octets × Octets × Octets)
mld_mgmt_rx_sec_addrs sta ap =
    Option.map (λ (mld : Octets). (ap.mld_mac, mld, ap.mld_mac)) (station_mld sta ap)

unfoldable pub mld_mgmt_tx_sec_addrs : Octets → Ap → Option (Octets × Octets × Octets)
mld_mgmt_tx_sec_addrs sta ap =
    Option.map (λ (mld : Octets). (mld, ap.mld_mac, ap.mld_mac)) (station_mld sta ap)
