-- ===== src/Client/Dispatch/Cases.antt =====
-- The handlers that `handle_eapol_key` in src/client/receive.rs can end in.
use oxwifid.Base.{
  ◌≡◌, refl, Bool, true, false, if◌then◌else◌, not, ◌&&◌, List, Octets, leb, ◌==◌, if_split,
}
use oxwifid.Security.EapolKey.{EapolKey, is_pairwise}
use oxwifid.Client.{Client, Env}
use oxwifid.Client.Classify.{valid_m1, valid_m3, is_m1_retry, is_m1_fresh, valid_group_m1}
use oxwifid.Client.Handshake.{send_eapol2, send_eapol2_retry, send_eapol4}
use oxwifid.Client.Rekey.{handle_group_rekey}
use oxwifid.Client.Dispatch.{
  note_answer, forged_m1, handle_established, handle_handshake, handle_message, handle_eapol_key,
}

and_left : (a b : Bool) → (a && b) ≡ true → a ≡ true
and_left true b h = refl
and_left false b h = h

module _ (e : Env) (eapol : Octets) (ek : EapolKey) (protected : Bool) (c : Client)
    (out : List Octets) (P : Client × List Octets → Type 0) (same : P (c, out))
    (m2 : (valid_m1 c ek ≡ true) → P (send_eapol2 e ek protected (c, out)))
    (again : (valid_m1 c ek ≡ true) → P (send_eapol2_retry e ek protected (c, out)))
    (m3 : (valid_m3 c ek ≡ true) → P (send_eapol4 e eapol ek protected (c, out)))
    (group : (valid_group_m1 c ek ≡ true) → P (handle_group_rekey e eapol ek protected (c, out)))
    (noted : (r : Client × List Octets) → P r → P (note_answer e out r)) where
  if_fresh :
      P (
        if valid_m1 c ek && is_m1_fresh c ek then send_eapol2 e ek protected (c, out) else (c, out))
  if_fresh = if_split P (valid_m1 c ek && is_m1_fresh c ek) (λ f. m2 (and_left _ _ f)) (λ f. same)

  handle_established_cases : P (handle_established e eapol ek protected (c, out))
  unfolding handle_established
  handle_established_cases = if_split P (valid_m3 c ek) m3 (λ h. if_fresh)

  handle_handshake_cases : P (handle_handshake e eapol ek protected (c, out))
  unfolding handle_handshake
  handle_handshake_cases =
      if_split P (c.eapol_state == 0) (λ s. if_split P (valid_m1 c ek) m2 (λ v. same))
        (λ s.
          if_split P (not (c.eapol_state == 1)) (λ t. same)
            (λ t. if_split P (valid_m3 c ek) m3 (λ v.
              if_split P (valid_m1 c ek && is_m1_retry c ek) (λ r. again (and_left _ _ r))
                (λ r. if_fresh))))

  handle_message_cases : P (handle_message e eapol ek protected (c, out))
  unfolding handle_message
  handle_message_cases =
      if_split P (leb 4 c.connected && not (is_pairwise ek))
        (λ h. if_split P (valid_group_m1 c ek) group (λ v. same))
        (λ h.
          if_split P (leb 4 c.connected && c.eapol_state == 2) (λ s. handle_established_cases)
            (λ s. handle_handshake_cases))

  -- What holds of the state before and of each handler's result holds of the result.
  pub handle_eapol_key_cases : P (handle_eapol_key e eapol ek protected (c, out))
  unfolding handle_eapol_key
  handle_eapol_key_cases =
      if_split P (forged_m1 c ek protected) (λ h. same) (λ h. noted _ handle_message_cases)
