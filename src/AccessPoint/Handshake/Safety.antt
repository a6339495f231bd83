-- ===== src/AccessPoint/Handshake/Safety.antt =====
-- What a key message cannot do to the stations of an access point: src/ap/handshake.rs.
use oxwifid.Base.{◌≡◌, refl, ◌∙◌, true, ◌&&◌, some, Octets, take, bytes_eq, bytes_eq_refl, if_split}
use oxwifid.Security.{key_len}
use oxwifid.Frames.Dot11.{Dot11}
use oxwifid.AccessPoint.State.{Ap, Env, Outgoing, Station, PtkCandidate}
use oxwifid.AccessPoint.State.Steps.{Steps, Steps-at}
use oxwifid.AccessPoint.State.Stations.{get_station}
use oxwifid.AccessPoint.Handshake.{same_temporal_key, install_candidate, handle_eapol}
use oxwifid.AccessPoint.Handshake.Changes.{Admits, handle_eapol-Steps}

-- The cipher, the pairwise key and its counters are as before, and so is the authorization.
abbrev KeepsKey : Station → Station → Type 0
KeepsKey s s' =
    (s'.associated ≡ s.associated)
    × (s'.pairwise_cipher ≡ s.pairwise_cipher)
    × (s'.pairwise_tk ≡ s.pairwise_tk)
    × (s'.client_pn ≡ s.client_pn)
    × (s'.last_rx_pn ≡ s.last_rx_pn)
    × (s'.last_rx_mgmt_pn ≡ s.last_rx_mgmt_pn)

keeps_key : Admits KeepsKey
keeps_key = record {
  refl_law = λ s. (refl, refl, refl, refl, refl, refl);
  trans_law = λ s s' s'' (a, b, c, d, e, f) (a', b', c', d', e', f').
      (a' ∙ a, b' ∙ b, c' ∙ c, d' ∙ d, e' ∙ e, f' ∙ f);
  bump = λ s. (refl, refl, refl, refl, refl, refl);
  keep = λ c s. (refl, refl, refl, refl, refl, refl);
  await = λ now m3 s. (refl, refl, refl, refl, refl, refl);
  pin = λ pmk s. (refl, refl, refl, refl, refl, refl);
  group = λ now s. (refl, refl, refl, refl, refl, refl);
}

-- A station that was authorized, and has the same temporal key as before, has the counters it had.
abbrev NotReinstalled : Station → Station → Type 0
NotReinstalled s s' =
    s.associated ≡ true
    → take (key_len s.pairwise_cipher) s'.pairwise_tk
      ≡ take (key_len s.pairwise_cipher) s.pairwise_tk
    → (s'.client_pn ≡ s.client_pn)
      × (s'.last_rx_pn ≡ s.last_rx_pn)
      × (s'.last_rx_mgmt_pn ≡ s.last_rx_mgmt_pn)

install_candidate-NotReinstalled :
    (c : PtkCandidate) (s : Station) → NotReinstalled s (install_candidate c s)
unfolding install_candidate same_temporal_key
install_candidate-NotReinstalled c s =
    if_split (λ (s' : Station). NotReinstalled s s')
      (s.associated
        && bytes_eq (take (key_len s.pairwise_cipher) s.pairwise_tk)
            (take (key_len s.pairwise_cipher) c.tk))
      (λ same on k. (refl, refl, refl))
      (λ other on k.
        absurd (cc (on, k, other, bytes_eq_refl (take (key_len s.pairwise_cipher) c.tk))))

handle_eapol-NotReinstalled :
    (e : Env) (f : Dot11) (a : Ap) (out : Outgoing)
    → Steps NotReinstalled a.stations (handle_eapol e f (a, out)).0.stations
handle_eapol-NotReinstalled e f a out =
    handle_eapol-Steps e f KeepsKey NotReinstalled keeps_key
      (λ s s' (assoc, cipher, tk, pn, rx, mgmt) on k. (pn, rx, mgmt))
      (λ frame ek mld c s received awaiting selected. install_candidate-NotReinstalled c s) a out

-- Whatever key message an access point handles: a station that was authorized, and that has the same
-- temporal key afterwards, has the packet number it had, and its replay windows for data and for
-- management frames are those from before.
pub station_ptk_not_reinstalled :
    (e : Env) (f : Dot11) (a : Ap) (out : Outgoing) (sta : Octets) (s s' : Station)
    → get_station sta a.stations ≡ some s
    → get_station sta (handle_eapol e f (a, out)).0.stations ≡ some s'
    → s.associated ≡ true
    → take (key_len s.pairwise_cipher) s'.pairwise_tk
      ≡ take (key_len s.pairwise_cipher) s.pairwise_tk
    → (s'.client_pn ≡ s.client_pn)
      × (s'.last_rx_pn ≡ s.last_rx_pn)
      × (s'.last_rx_mgmt_pn ≡ s.last_rx_mgmt_pn)
station_ptk_not_reinstalled e f a out sta s s' h h' =
    Steps-at NotReinstalled sta a.stations (handle_eapol e f (a, out)).0.stations s s' h h'
      (handle_eapol-NotReinstalled e f a out)
