-- ===== src/Client/GroupKeys/Reinstall.antt =====
-- Reinstallation of a group key: `install_group_keys` in src/client/group_keys.rs.
use oxwifid.Base.{
  ℕ, ◌≡◌, ◌≢◌, refl, ap, ◌∙◌, true, false, Option, none, some, Octets, if_split, OnSome,
  OnSome-bind, bytes_eq, bytes_eq_refl, ltb, is_some, ◌&&◌, not,
}
use oxwifid.Client.{Client}
use oxwifid.Client.GroupKeys.{
  install_gtk, install_igtk, install_bigtk, install_received, install_group_keys, received_gtk,
  received_igtk, received_bigtk, same_key, packet_number,
}

-- Only the group keys and their replay windows differ.
abbrev pub GroupOnly : Client → Client → Type 0
GroupOnly c c' = c' ≡ record c {
  gtk = c'.gtk;
  gtk_set = c'.gtk_set;
  gtk_key_id = c'.gtk_key_id;
  last_rx_gpn = c'.last_rx_gpn;
  igtk = c'.igtk;
  igtk_key_id = c'.igtk_key_id;
  last_rx_igtk_ipn = c'.last_rx_igtk_ipn;
  bigtk = c'.bigtk;
}

-- A key that is still installed has kept its replay window.
abbrev pub KeepsWindows : Client → Client → Type 0
KeepsWindows c c' =
    ((c.gtk_set ≡ true) → (c'.gtk ≡ c.gtk) → c'.last_rx_gpn ≡ c.last_rx_gpn)
    × ((key : Octets)
        → (c.igtk ≡ some key)
        → (c'.igtk ≡ some key)
        → c'.last_rx_igtk_ipn ≡ c.last_rx_igtk_ipn)

abbrev pub Regrouped : Client → Client → Type 0
Regrouped c c' = GroupOnly c c' × KeepsWindows c c'

Regrouped-refl : (c : Client) → Regrouped c c
Regrouped-refl c = (refl, (λ s e. refl, λ k e f. refl))

-- The first stage, which leaves the IGTK alone.
abbrev GtkStage : Client → Client → Type 0
GtkStage c c' = Regrouped c c' × (c'.igtk ≡ c.igtk) × (c'.last_rx_igtk_ipn ≡ c.last_rx_igtk_ipn)

install_gtk-GtkStage : (c : Client) (g : ℕ × ℕ × Octets) → GtkStage c (install_gtk g c)
unfolding install_gtk
install_gtk-GtkStage c (id, rsc, gtk) =
    if_split (GtkStage c) (c.gtk_set && bytes_eq c.gtk gtk) (λ h. (Regrouped-refl c, refl, refl))
      (λ h. ((refl, (λ s e. absurd (differs s e h), λ k e f. refl)), refl, refl))
  where
    differs : (c.gtk_set ≡ true) → (gtk ≡ c.gtk) → (c.gtk_set && bytes_eq c.gtk gtk) ≢ false
    differs s e h =
        let t : (c.gtk_set && bytes_eq c.gtk gtk) ≡ true = rw (s, e, bytes_eq_refl c.gtk) refl in cc

install_igtk-Regrouped :
    (c c1 : Client) (i : Option (ℕ × Octets × Octets))
    → GtkStage c c1
    → Regrouped c (install_igtk i c1)
unfolding install_igtk
install_igtk-Regrouped c c1 none ((g, w), k, n) = (g, w)
install_igtk-Regrouped c c1 (some (id, ipn, igtk)) ((g, w), k, n) =
    if_split (Regrouped c) (same_key c1.igtk igtk) (λ h. (g, w))
      (λ h. (
        ap
            (λ (x : Client). record x {
              igtk = some igtk;
              igtk_key_id = some id;
              last_rx_igtk_ipn = packet_number ipn;
            })
            g,
        (w.0, λ key e f. absurd (differs key e f h)),
      ))
  where
    differs :
        (key : Octets)
        → (c.igtk ≡ some key)
        → (some igtk ≡ some key)
        → same_key c1.igtk igtk ≢ false
    differs key e f h =
        let same : igtk ≡ key = cc in
        let t : same_key c1.igtk igtk ≡ true = rw (k ∙ e, same) (bytes_eq_refl key) in cc

install_bigtk-Regrouped :
    (c c1 : Client) (b : Option Octets) → Regrouped c c1 → Regrouped c (install_bigtk b c1)
unfolding install_bigtk
install_bigtk-Regrouped c c1 none r = r
install_bigtk-Regrouped c c1 (some bigtk) (g, w) =
    if_split (Regrouped c) (same_key c1.bigtk bigtk) (λ h. (g, w))
      (λ h. (ap (λ (x : Client). record x { bigtk = some bigtk }) g, w))

install_received-Regrouped :
    (c : Client) (i : Option (ℕ × Octets × Octets)) (b : Option Octets) (g : ℕ × ℕ × Octets)
    → OnSome (Regrouped c) (install_received c i b g)
install_received-Regrouped c i b g =
    if_split (OnSome (Regrouped c)) (is_some c.sae_pmk && not (is_some i)) (λ h. tt)
      (λ h. install_bigtk-Regrouped c _ b (install_igtk-Regrouped c _ i (install_gtk-GtkStage c g)))

-- An installation touches the group keys alone, and a key that arrives again keeps its window.
pub install_group_keys-Regrouped :
    (c : Client) (unwrapped : Octets) (key_rsc : ℕ)
    → OnSome (Regrouped c) (install_group_keys unwrapped key_rsc c)
unfolding install_group_keys
install_group_keys-Regrouped c unwrapped key_rsc =
    if_split (OnSome (Regrouped c)) (ltb 0x0000ffffffffffff key_rsc) (λ h. tt)
      (λ h.
        OnSome-bind (Regrouped c) (received_gtk unwrapped key_rsc) _
          (install_received-Regrouped c (received_igtk unwrapped) (received_bigtk unwrapped)))
