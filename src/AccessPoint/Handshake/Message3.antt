-- ===== src/AccessPoint/Handshake/Message3.antt =====
-- Message 3 of src/ap/handshake.rs, and the steering frame behind it, `Ap::btm_request_frame` of
-- src/ap/configuration.rs.
use oxwifid.Base.{ℕ, ◌&&◌, none, some, List, [], ◌∷◌, ◌++◌, Octets, if◌then◌else◌}
use oxwifid.Security.{key_len}
use oxwifid.AccessPoint.State.{Ap, Env, Station, PtkCandidate, station_mic}
use Prim.Native.Nat.{bit_xor}
use oxwifid.Base.{get_or, set}
use oxwifid.Eapol.Messages.{build_eapol_m3_for_key_length_with_rsc, m3_key_data}
use oxwifid.Eapol.Mld.{Link, build_eapol_m3_mld_links_with_rsc, m3_mld_key_data}
use oxwifid.Frames.Channels.{is_5ghz}
use oxwifid.Actions.{neighbor_report_element, btm_request_body, build_action_frame}
use oxwifid.Rsn.{operating_class}
use oxwifid.AccessPoint.State.{MldLink}
use oxwifid.AccessPoint.Configuration.{
  advertised_security_tail, ap_next_sc, active_mld_links, station_gtk, station_gtk_key_id,
  station_group_rsc, station_igtk, station_igtk_key_id, station_igtk_ipn,
}
use oxwifid.AccessPoint.Mld.{has_id, station_mld_link_ids}

-- The links that the station negotiated, with the one that it associated on.
abbrev negotiated_links : Octets → Station → Ap → List ℕ
negotiated_links sta s ap =
    let ids = station_mld_link_ids sta ap in
    elim s.assoc_link_id [ none ↦ ids | some id ↦ if has_id id ids then ids else ids ++ (id ∷ []) ]

abbrev links_of : List ℕ → Octets → List MldLink → List Link
links_of ids ap_rsn [] = []
links_of ids ap_rsn (l ∷ ls) =
    if has_id l.link_id ids
    then (l.link_id, l.mac, ap_rsn) ∷ links_of ids ap_rsn ls
    else links_of ids ap_rsn ls

-- Message 3 for the keys of a candidate.
unfoldable pub message_3 : Env → Octets → Station → Octets → PtkCandidate → ℕ → Ap → Octets
message_3 e sta s anonce c sc ap =
    let igtk =
      if s.pmf
      then some (station_igtk_key_id sta ap, station_igtk_ipn sta ap, station_igtk sta ap)
      else none in
    let bigtk =
      if s.pmf && ap.beacon_prot then some (ap.bigtk_key_id, ap.bigtk_ipn, ap.bigtk) else none in
    let oci =
      if ap.ocv
      then some (operating_class ap.channel ap.channel_width ap.band6, ap.channel)
      else none in
    let ap_rsn = advertised_security_tail ap in
    let gtk = station_gtk sta ap in
    let gtk_key_id = station_gtk_key_id sta ap in
    let rsc = station_group_rsc sta ap in
    let links = links_of (negotiated_links sta s ap) ap_rsn (active_mld_links ap) in
    let single =
      build_eapol_m3_for_key_length_with_rsc e.digests e.ciphers.aes ap.mac sta anonce c.kck c.kek
        (m3_key_data ap_rsn gtk_key_id gtk igtk bigtk oci) rsc c.m3_replay_counter sc
        (station_mic s) (key_len s.pairwise_cipher) in
    let multi =
      build_eapol_m3_mld_links_with_rsc e.digests e.ciphers.aes ap.mac sta anonce c.kck c.kek
        (m3_mld_key_data ap.mld_mac links gtk_key_id gtk igtk bigtk oci rsc) rsc c.m3_replay_counter
        sc (station_mic s) in
    elim s.client_mld_mac [ none ↦ single | some mld ↦ if ap.mld then multi else single ]

-- `Ap::btm_request_frame`.
unfoldable pub btm_request_frame : Octets → Ap → Ap × Octets
btm_request_frame sta ap =
    let op_class = if is_5ghz ap.channel then 115 else 81 in
    let neighbour = set ap.mac 5 (bit_xor (get_or ap.mac 5 0) 0x01) in
    let body =
      btm_request_body 1 0x01 0 255 (neighbor_report_element neighbour op_class ap.channel) in
    let (ap', sc) = ap_next_sc ap in (ap', build_action_frame sta ap.mac ap.mac sc body)
