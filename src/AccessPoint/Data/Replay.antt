-- ===== src/AccessPoint/Data/Replay.antt =====
-- A data frame that arrives again at `Ap::handle_data_uplink` of src/ap/data.rs.
use oxwifid.Base.{
  ℕ, ◌<◌, ◌≡◌, refl, arith, true, false, not, ◌&&◌, ◌||◌, Option, none, some, Octets, length,
  get_or, set, slice, take, leb, if_split, get-set, leb_refl, bytes_eq, ◌==◌,
}
use oxwifid.Failures.{FailureKind}
use FailureKind.{ccmp_data}
use oxwifid.Frames.Dot11.{Dot11, is_amsdu, is_fragment, ccmp_key_id, ccmp_pn}
use oxwifid.AccessPoint.State.{Ap, Env, Outgoing, Station, tx}
use oxwifid.AccessPoint.State.Stations.{get_station, get-update_station}
use oxwifid.AccessPoint.Lifecycle.{change_station, is_associated, report_failure}
use oxwifid.AccessPoint.Mld.{mld_data_rx_sec_addrs}
use oxwifid.AccessPoint.Data.{
  uplink_window, advance_window, forward, accept_uplink, open_uplink, uplink_with_pn, uplink_from,
  handle_data_uplink,
}

uplink_window_bound : (q : Option ℕ) → uplink_window q < 17
uplink_window_bound none = omega arith
uplink_window_bound (some q) = omega arith

module _ (e : Env) (f : Dot11) where
  abbrev Quiet : Ap × Outgoing → Type 0
  Quiet r = (handle_data_uplink e f r).1.to_network ≡ r.1.to_network

  -- A frame that passes the first checks is decided by its sender.
  quiet :
      (a : Ap) (out : Outgoing)
      → (uplink_from e f (get_station f.addr2 a.stations) (a, out)).1.to_network ≡ out.to_network
      → Quiet (a, out)
  unfolding handle_data_uplink
  quiet a out q =
      if_split P (not (bytes_eq f.addr1 a.mac)) (λ h. refl)
        (λ h.
          if_split P (is_amsdu f || is_fragment f) (λ h. refl)
            (λ h. if_split P (not (ccmp_key_id f == 0)) (λ h. refl) (λ h. q)))
    where
      P : Ap × Outgoing → Type 0
      P r = r.1.to_network ≡ out.to_network

  -- A packet number that the window has seen is dropped.
  seen :
      (a : Ap) (out : Outgoing) (s : Station) (pn : ℕ)
      → get_station f.addr2 a.stations ≡ some s
      → ccmp_pn f ≡ some pn
      → get_or s.last_rx_pn (uplink_window f.qos) 0 ≡ pn
      → Quiet (a, out)
  seen a out s pn h p l = quiet a out (
      rw (h, p, l, leb_refl pn)
        (if_split (λ (r : Ap × Outgoing). r.1.to_network ≡ out.to_network) s.associated (λ t. refl)
          (λ t. refl)))

  forwarded :
      (a : Ap) (out : Outgoing) (s : Station) (pn : ℕ) (eth : Octets)
      → length s.last_rx_pn ≡ 17
      → get_station f.addr2 a.stations ≡ some s
      → ccmp_pn f ≡ some pn
      → Quiet
          (forward eth (change_station f.addr2 (advance_window (uplink_window f.qos) pn) a, out))
  unfolding forward
  forwarded a out s pn eth w h p =
      let a1 : Ap = change_station f.addr2 (advance_window (uplink_window f.qos) pn) a in
      let known : get_station f.addr2 a1.stations
          ≡ some (advance_window (uplink_window f.qos) pn s) =
        rw (get-update_station f.addr2 (advance_window (uplink_window f.qos) pn) a.stations, h)
          refl in
      let at : get_or (set s.last_rx_pn (uplink_window f.qos) pn) (uplink_window f.qos) 0 ≡ pn =
        get-set s.last_rx_pn (uplink_window f.qos) pn 0
          (omega (arith, w, uplink_window_bound f.qos)) in
      if_split Quiet (a1.guest && is_associated (take 6 eth) a1)
        (λ g. seen a1 out (advance_window (uplink_window f.qos) pn s) pn known p at)
        (λ g. seen a1 _ (advance_window (uplink_window f.qos) pn s) pn known p at)

  module _ (a : Ap) (out : Outgoing) (s : Station) (w : length s.last_rx_pn ≡ 17)
      (h : get_station f.addr2 a.stations ≡ some s) where
    opened :
        (pn : ℕ)
        → s.associated ≡ true
        → ccmp_pn f ≡ some pn
        → leb pn (get_or s.last_rx_pn (uplink_window f.qos) 0) ≡ false
        → (o : Option Octets) → open_uplink e f s a ≡ o
        → Quiet (accept_uplink f pn o (a, out))
    unfolding report_failure open_uplink mld_data_rx_sec_addrs
    opened pn t p n none o =
        quiet (report_failure f.addr2 ccmp_data a) out (rw (h, t, p, n, o) refl)
    opened pn t p n (some eth) o =
        if_split Quiet (leb 12 (length eth) && bytes_eq (slice 6 6 eth) f.addr2)
          (λ c. forwarded a out s pn eth w h p) (λ c. quiet a out (rw (h, t, p, n, o, c) refl))

    with_pn :
        (o : Option ℕ)
        → s.associated ≡ true
        → ccmp_pn f ≡ o
        → Quiet (uplink_with_pn e f s o (a, out))
    with_pn none t p = quiet a out (rw (h, t, p) refl)
    with_pn (some pn) t p =
        if_split Quiet (leb pn (get_or s.last_rx_pn (uplink_window f.qos) 0))
          (λ r. quiet a out (rw (h, t, p, r) refl))
          (λ n. opened pn t p n (open_uplink e f s a) refl)

    from_known : Quiet (uplink_from e f (some s) (a, out))
    from_known =
        if_split Quiet s.associated (λ t. with_pn (ccmp_pn f) t refl)
          (λ t. quiet a out (rw (h, t) refl))

  from :
      (a : Ap) (out : Outgoing) (o : Option Station)
      → ((s : Station) → o ≡ some s → length s.last_rx_pn ≡ 17)
      → get_station f.addr2 a.stations ≡ o
      → Quiet (uplink_from e f o (a, out))
  unfolding tx
  from a out none w h = quiet a (tx _ out) (rw h refl)
  from a out (some s) w h = from_known a out s (w s refl) h

-- A data frame that an access point receives a second time, where the windows of its sender have
-- seventeen slots if it is known, brings no further frame to the network, whatever it did the first
-- time.
pub handle_data_uplink_twice :
    (e : Env) (f : Dot11) (a : Ap) (out : Outgoing)
    → ((s : Station) → (get_station f.addr2 a.stations ≡ some s) → length s.last_rx_pn ≡ 17)
    → (handle_data_uplink e f (handle_data_uplink e f (a, out))).1.to_network
      ≡ (handle_data_uplink e f (a, out)).1.to_network
unfolding handle_data_uplink
handle_data_uplink_twice e f a out w =
    if_split (Quiet e f) (not (bytes_eq f.addr1 a.mac)) (λ h. rw h refl)
      (λ h1.
        if_split (Quiet e f) (is_amsdu f || is_fragment f) (λ h. rw (h1, h) refl)
          (λ h2.
            if_split (Quiet e f) (not (ccmp_key_id f == 0)) (λ h. rw (h1, h2, h) refl)
              (λ h3. from e f a out (get_station f.addr2 a.stations) w refl)))
