-- ===== src/AccessPoint/GroupKeys/Rotation.antt =====
-- The group key and its packet numbers in `Ap::rekey_gtk` of src/ap/group_keys.rs.
use oxwifid.Base.{
  ℕ, ◌+◌, ◌≡◌, ◌⊎◌, inl, inr, refl, ◌∙◌, Option, none, some, List, [], ◌∷◌, Octets, take, is_some,
  if_split,
}
use oxwifid.AccessPoint.State.{Ap, Env, Station}
use oxwifid.AccessPoint.State.Stations.{any_station}
use oxwifid.AccessPoint.Configuration.{ap_next_sc, next_eapol_replay}
use oxwifid.AccessPoint.Lifecycle.{arm_station, arm_eapol_timer}
use oxwifid.AccessPoint.GroupKeys.{
  GroupKey, send_group_m1, rekey_found, rekey_station, rekey_private_found, rekey_private,
  rekey_all, rekey_private_all, rekey_gtk_per_sta, rekey_gtk, rotate_gtk, rotate_igtk,
  rotate_shared, associated_macs, is_rekeying, rekeyed,
}

-- The group key and the packet number that comes next are as before.
abbrev Same : Ap → Ap → Type 0
Same a b = (b.gtk ≡ a.gtk) × (b.group_pn ≡ a.group_pn)

Same-arm_station : (sta : Octets) (a : Ap) (o : Option Station) → Same a (arm_station sta a o)
Same-arm_station sta a none = (refl, refl)
Same-arm_station sta a (some s) =
    if_split (Same a) (is_some s.pending_eapol) (λ p. (refl, refl)) (λ p. (refl, refl))

Same-send_group_m1 :
    (e : Env) (sta : Octets) (s : Station) (k : GroupKey) (rsc : ℕ) (links : List ℕ) (replay : ℕ)
    (a : Ap)
    → Same a (send_group_m1 e sta s k rsc links replay a).0
unfolding send_group_m1 arm_eapol_timer ap_next_sc
Same-send_group_m1 e sta s k rsc links replay a = Same-arm_station sta _ _

Same-rekey_found :
    (e : Env) (sta : Octets) (k : GroupKey) (rsc : ℕ) (links : List ℕ) (replay : ℕ) (a : Ap)
    (o : Option Station)
    → Same a (rekey_found e sta k rsc links replay a o).0
Same-rekey_found e sta k rsc links replay a none = (refl, refl)
Same-rekey_found e sta k rsc links replay a (some s) =
    Same-send_group_m1 e sta s k rsc links replay a

Same-rekey_private_found :
    (e : Env) (sta : Octets) (rsc : ℕ) (links : List ℕ) (replay : ℕ) (a : Ap) (o : Option Station)
    → Same a (rekey_private_found e sta rsc links replay a o).0
Same-rekey_private_found e sta rsc links replay a none = (refl, refl)
Same-rekey_private_found e sta rsc links replay a (some s) =
    Same-send_group_m1 e sta s _ rsc links replay a

Same-trans : (a b c : Ap) → Same a b → Same b c → Same a c
Same-trans a b c (g, n) (g', n') = (g' ∙ g, n' ∙ n)

Same-rekey_all :
    (e : Env) (k : GroupKey) (rsc : ℕ) (macs : List Octets) (a : Ap)
    → Same a (rekey_all e k rsc macs a).0
unfolding rekey_all rekey_station next_eapol_replay
Same-rekey_all e k rsc [] a = (refl, refl)
Same-rekey_all e k rsc (m ∷ ms) a =
    Same-trans a (rekey_station e k rsc m a).0
      (rekey_all e k rsc ms (rekey_station e k rsc m a).0).0 (Same-rekey_found e m k rsc _ _ _ _)
      (Same-rekey_all e k rsc ms (rekey_station e k rsc m a).0)

Same-rekey_private_all :
    (e : Env) (i rsc : ℕ) (macs : List Octets) (a : Ap)
    → Same a (rekey_private_all e i rsc macs a).0
unfolding rekey_private_all rekey_private next_eapol_replay
Same-rekey_private_all e i rsc [] a = (refl, refl)
Same-rekey_private_all e i rsc (m ∷ ms) a =
    Same-trans a (rekey_private e i rsc m a).0
      (rekey_private_all e (i + 1) rsc ms (rekey_private e i rsc m a).0).0
      (Same-rekey_private_found e m rsc _ _ _ _)
      (Same-rekey_private_all e (i + 1) rsc ms (rekey_private e i rsc m a).0)

-- The key was drawn anew, and its packet numbers start.
abbrev pub Fresh : Env → Ap → Type 0
Fresh e a = (a.gtk ≡ take 16 (e.random 0 32)) × (a.group_pn ≡ 1)

-- A group rekey keeps the group key and the packet number that comes next, or draws a new key, under
-- which the packet numbers start at 1; and this whether the stations share a group or each has its own.
pub gtk_with_pn :
    (e : Env) (a : Ap)
    → (((rekey_gtk e a).0.gtk ≡ a.gtk) × ((rekey_gtk e a).0.group_pn ≡ a.group_pn))
      ⊎ Fresh e (rekey_gtk e a).0
unfolding rekey_gtk rekey_gtk_per_sta rotate_shared rotate_gtk rotate_igtk
gtk_with_pn e a =
    if_split P (any_station is_rekeying a.stations) (λ busy. inl (refl, refl))
      (λ calm.
        if_split P a.per_sta_vif
          (λ private. inr (
            Same-rekey_private_all e 1 _ (associated_macs a.stations)
              (rekeyed e (rotate_gtk e (rotate_igtk e a)))))
          (λ shared. inr (Same-rekey_all e _ _ (associated_macs a.stations) (rotate_shared e a))))
  where
    P : Ap × List Octets → Type 0
    P r = ((r.0.gtk ≡ a.gtk) × (r.0.group_pn ≡ a.group_pn)) ⊎ Fresh e r.0
