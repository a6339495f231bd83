-- ===== src/AccessPoint/Management/Kept.antt =====
-- What it takes to end a session under management frame protection: `Ap::handle_robust_mgmt` of
-- src/ap/management.rs.
use oxwifid.Base.{
  ℕ, ◌<◌, ◌≡◌, ◌⊎◌, inl, inr, refl, arith, true, not, Option, none, some, Octets, take, leb,
  if_split,
}
use oxwifid.Security.{key_len}
use oxwifid.Frames.Dot11.{Dot11, protected, ccmp_pn}
use oxwifid.Frames.Management.{decrypt_protected_mgmt_sec}
use oxwifid.AccessPoint.State.{Ap, Env, Station}
use oxwifid.AccessPoint.State.Stations.{get_station}
use oxwifid.AccessPoint.Lifecycle.{report_failure}
use oxwifid.AccessPoint.Mld.{mld_mgmt_rx_sec_addrs}
use oxwifid.AccessPoint.Management.{
  ManagementRx, end_protected, opened_body, checked_body, protected_mgmt_body, handle_robust_mgmt,
}
use ManagementRx.{userspace}

-- What the station's key makes of the frame.
abbrev pub opened_by : Env → Dot11 → Station → Ap → Option Octets
opened_by e f s a =
    decrypt_protected_mgmt_sec e.ciphers s.pairwise_cipher f
      (take (key_len s.pairwise_cipher) s.pairwise_tk) (mld_mgmt_rx_sec_addrs f.addr2 a)

-- The frame is protected under the key of the authorized station, and newer than every one before.
abbrev pub Authentic : Env → Dot11 → Station → Ap → Type 0
Authentic e f s a =
    (protected f ≡ true)
    × (s.associated ≡ true)
    × (pn : ℕ) × (plain : Octets) × (ccmp_pn f ≡ some pn)
    × (s.last_rx_mgmt_pn < pn)
    × (opened_by e f s a ≡ some plain)

module _ (e : Env) (f : Dot11) (a : Ap) (s : Station)
    (h : get_station f.addr2 a.stations ≡ some s) where
  abbrev Ended : Ap × Option Octets → Type 0
  Ended r = (get_station f.addr2 (end_protected f.addr2 r).stations ≡ some s) ⊎ Authentic e f s a

  Ended-opened :
      (pn : ℕ) (o : Option Octets)
      → protected f ≡ true
      → s.associated ≡ true
      → ccmp_pn f ≡ some pn
      → s.last_rx_mgmt_pn < pn
      → opened_by e f s a ≡ o
      → Ended (opened_body f.addr2 pn o a)
  unfolding report_failure
  Ended-opened pn none p t n l o = inl h
  Ended-opened pn (some plain) p t n l o = inr (p, t, pn, plain, n, l, o)

  Ended-checked :
      (o : Option ℕ)
      → protected f ≡ true
      → s.associated ≡ true
      → ccmp_pn f ≡ o
      → Ended (checked_body e f s o a)
  Ended-checked none p t n = inl h
  Ended-checked (some pn) p t n =
      if_split Ended (leb pn s.last_rx_mgmt_pn) (λ old. inl h)
        (λ new. Ended-opened pn (opened_by e f s a) p t n (ground arith) refl)

  ended : Ended (protected_mgmt_body e f userspace a)
  unfolding protected_mgmt_body
  ended =
      if_split Ended (not (protected f)) (λ p. inl h)
        (λ p. rw h (
          if_split Ended s.associated (λ t. Ended-checked (ccmp_pn f) (ground arith) t refl)
            (λ t. inl h)))

-- Where the access point checks frames itself: a deauthentication or disassociation frame in the name
-- of a station under management frame protection leaves that station as it is, or the station is
-- authorized, and the frame is protected, opens under the station's pairwise key, and has a greater
-- packet number than the management frames before it.
pub pmf_session_kept :
    (e : Env) (f : Dot11) (a : Ap) (s : Station)
    → get_station f.addr2 a.stations ≡ some s
    → s.pmf ≡ true
    → (get_station f.addr2 (handle_robust_mgmt e f userspace a).stations ≡ some s)
      ⊎ Authentic e f s a
unfolding handle_robust_mgmt
pmf_session_kept e f a s h pmf = rw h (
    if_split (λ (r : Ap). (get_station f.addr2 r.stations ≡ some s) ⊎ Authentic e f s a) (not s.pmf)
      (λ unset. absurd (cc)) (λ set. ended e f a s h))
