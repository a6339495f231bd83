-- ===== src/Client/Management/GroupDeauth.antt =====
-- A group-addressed deauthentication frame from its builder in src/group_keys/handshake.rs to the
-- station's `handle_robust_mgmt` in src/client/management.rs.
use oxwifid.Base.{
  ℕ, ◌^◌, ◌<◌, ◌≡◌, ◌∙◌, ap, refl, arith, true, some, Octets, length, length-take, lt→ltb, le_bytes,
  le_value, replicate, is_some, List,
}
use mathlib.Core.Option
use oxwifid.Eapol.Received.{Widths}
use oxwifid.Frames.{type_mgmt, fc0, dot11_header}
use oxwifid.Frames.Dot11.{Dot11, parse, subtype}
use oxwifid.Frames.Dot11.Built.{Header, IsPlain, parse-octets}
use oxwifid.Frames.Management.{subtype_deauth}
use oxwifid.GroupKeys.Bip.{bip_protect, build_group_deauth_bip}
use oxwifid.GroupKeys.Bip.RoundTrip.{bip_verify-bip_protect}
use oxwifid.Client.{Client, Env, disconnect}
use oxwifid.Client.Management.{accepts_end, client_robust_mgmt}

abbrev deauth_header : Octets → ℕ → Header
deauth_header bssid sc = record {
  frame_type = type_mgmt;
  subtype = subtype_deauth;
  flags = 0;
  a1 = replicate 6 255;
  a2 = bssid;
  a3 = bssid;
  sc = sc;
}

deauth_header-IsPlain :
    (bssid : Octets) (sc : ℕ) → length bssid ≡ 6 → sc < 2 ^ 16 → IsPlain (deauth_header bssid sc)
deauth_header-IsPlain bssid sc l h = record {
  type_fits = omega arith;
  subtype_fits = omega arith;
  no_qos = refl;
  three_addresses = refl;
  a1_fits = refl;
  a2_fits = l;
  a3_fits = l;
  sc_fits = h;
}

-- Where the CMAC gives 16 octets: a station under management frame protection that holds the access
-- point's IGTK, and has seen only smaller packet numbers, ends its session at a group-addressed
-- deauthentication frame that the access point builds under that key.
pub group_deauth_ends_session :
    (e : Env) (c : Client) (out : List Octets) (bssid igtk ipn : Octets) (key_id reason sc : ℕ)
    → Widths e.digests
    → length bssid ≡ 6
    → length ipn ≡ 6
    → sc < 2 ^ 16
    → is_some c.sae_pmk ≡ true
    → c.igtk ≡ some igtk
    → c.last_rx_igtk_ipn < le_value ipn
    → Option.map
        (λ (f : Dot11). (client_robust_mgmt e f (c, out)).0)
        (parse (build_group_deauth_bip e.digests bssid igtk key_id ipn reason sc))
      ≡ some (disconnect c)
unfolding build_group_deauth_bip dot11_header client_robust_mgmt accepts_end subtype fc0
group_deauth_ends_session e c out bssid igtk ipn key_id reason sc w hb hi hs pmf key fresh =
    let (valid, number) =
      bip_verify-bip_protect e.digests igtk key_id (fc0 type_mgmt subtype_deauth) 0 ipn
        (replicate 6 255) bssid bssid (le_bytes 2 reason)
        (λ k m. omega (arith, length-take 8 (e.digests.cmac k m), w.cmac_width k m)) hi in
    let body : Octets =
      bip_protect e.digests igtk key_id ipn (fc0 type_mgmt subtype_deauth) 0 (replicate 6 255) bssid
        bssid (le_bytes 2 reason) in
    ap (Option.map (λ (f : Dot11). (client_robust_mgmt e f (c, out)).0))
      (parse-octets (deauth_header bssid sc) (deauth_header-IsPlain bssid sc hb hs) body)
    ∙ rw (pmf, key, valid, number, lt→ltb c.last_rx_igtk_ipn (le_value ipn) fresh) refl
