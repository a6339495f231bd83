-- ===== src/Client/Rekey/Safety.antt =====
-- Key reinstallation and the replay counter in `handle_group_rekey` of src/client/group_keys.rs.
use oxwifid.Base.{
  ◌≤◌, refl, sym, arith, Bool, not, ◌||◌, Option, none, some, List, Octets, ltb, if_split, OnSome,
  OnSome-bind, OnSome-map, OnSome-imp,
}
use mathlib.Core.Path.{subst}
use oxwifid.Security.EapolKey.{EapolKey}
use oxwifid.Crypto.KeyWrap.{aes_unwrap}
use oxwifid.Client.{Client, Env, key_mic, next_sc}
use oxwifid.Client.GroupKeys.{install_group_keys}
use oxwifid.Client.GroupKeys.Reinstall.{Regrouped, install_group_keys-Regrouped}
use oxwifid.Client.Uplink.Counters.{tx_eapol-Sends}
use oxwifid.Client.Handshake.{mic_valid}
use oxwifid.Client.Rekey.{
  answer_group, install_unwrapped, install_group_m1, answer_group_installed, handle_group_rekey_to,
  handle_group_rekey,
}
use oxwifid.Client.Handshake.Safety.{Safe, Safe-refl, Safe-Sends}

install_group_m1-Safe :
    (e : Env) (ek : EapolKey) (c : Client) → OnSome (Safe c) (install_group_m1 e ek c)
unfolding install_group_m1
install_group_m1-Safe e ek c =
    if_split (OnSome (Safe c)) (ltb c.eapol_replay ek.key_replay_counter)
      (λ newer.
        OnSome-bind (Safe c) (aes_unwrap e.ciphers.aes c.kek ek.key_data) (install_unwrapped ek c)
          (λ unwrapped. OnSome-map (Safe c) _ (install_group_keys unwrapped ek.key_rsc c) (
            OnSome-imp (Regrouped c) _ (install_group_keys unwrapped ek.key_rsc c)
              (λ c1 (gw : Regrouped c c1). moved c1 gw (ground arith))
              (install_group_keys-Regrouped c unwrapped ek.key_rsc))))
      (λ same. Safe-refl c)
  where
    moved :
        (c1 : Client)
        → Regrouped c c1
        → c.eapol_replay ≤ ek.key_replay_counter
        → Safe c (record c1 { eapol_replay = ek.key_replay_counter })
    moved c1 (g, w) le =
        subst (λ (x : Client). Safe c (record x { eapol_replay = ek.key_replay_counter })) (sym g)
          (λ i e. (omega arith, refl, refl), w, λ p. le)

answer_group_installed-Safe :
    (e : Env) (bssid : Octets) (ek : EapolKey) (protected : Bool) (c : Client) (out : List Octets)
    (o : Option Client)
    → OnSome (Safe c) o
    → Safe c (answer_group_installed e bssid ek protected c out o).0
unfolding answer_group next_sc
answer_group_installed-Safe e bssid ek protected c out none h = Safe-refl c
answer_group_installed-Safe e bssid ek protected c out (some c1) h =
    Safe-Sends c (next_sc c1).0 _ h (tx_eapol-Sends e _ protected (next_sc c1).0 out)

handle_group_rekey_to-Safe :
    (e : Env) (frame : Octets) (ek : EapolKey) (protected : Bool) (c : Client) (out : List Octets)
    (bssid : Option Octets)
    → Safe c (handle_group_rekey_to e frame ek protected c out bssid).0
handle_group_rekey_to-Safe e frame ek protected c out none = Safe-refl c
handle_group_rekey_to-Safe e frame ek protected c out (some bssid) =
    if_split (λ (r : Client × List Octets). Safe c r.0)
      (not (mic_valid e (key_mic c) c.kck frame ek) || ltb ek.key_replay_counter c.eapol_replay)
      (λ h. Safe-refl c)
      (λ h.
        answer_group_installed-Safe e bssid ek protected c out (install_group_m1 e ek c)
          (install_group_m1-Safe e ek c))

pub handle_group_rekey-Safe :
    (e : Env) (frame : Octets) (ek : EapolKey) (protected : Bool) (c : Client) (out : List Octets)
    → Safe c (handle_group_rekey e frame ek protected (c, out)).0
unfolding handle_group_rekey
handle_group_rekey-Safe e frame ek protected c out =
    handle_group_rekey_to-Safe e frame ek protected c out c.bssid
