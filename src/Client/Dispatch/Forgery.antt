-- ===== src/Client/Dispatch/Forgery.antt =====
-- Key messages with a wrong MIC over `handle_eapol_key` in src/client/receive.rs.
use oxwifid.Base.{
  ◌≡◌, refl, Bool, true, false, not, ◌&&◌, List, Octets, Option, none, some, length, ==_refl,
  if_split,
}
use mathlib.Core.Option
use oxwifid.Security.EapolKey.{EapolKey, has_key_mic}
use oxwifid.Client.{Client, PendingPtk, Env, key_mic}
use oxwifid.Client.Classify.{valid_m1, authenticated-valid_m1}
use oxwifid.Client.Handshake.{
  mic_valid, m3_kck, retry_m3, fresh_m3, m3_authentic, authentic_under, send_eapol4_to, send_eapol4,
}
use oxwifid.Client.Rekey.{handle_group_rekey_to, handle_group_rekey}
use oxwifid.Client.Dispatch.Cases.{handle_eapol_key_cases}
use oxwifid.Client.Dispatch.{note_answer, handle_eapol_key}

-- The MIC fails under the key of the pending candidate, where there is one.
abbrev pub PendingFails : Env → Octets → EapolKey → Client → Type 0
PendingFails e frame ek c =
    (p : PendingPtk) → (c.pending_ptk ≡ some p) → mic_valid e (key_mic c) p.kck frame ek ≡ false

module _ (e : Env) (frame : Octets) (ek : EapolKey) (c : Client)
    (live_fails : mic_valid e (key_mic c) c.kck frame ek ≡ false)
    (pending_fails : PendingFails e frame ek c) where
  pending_not_authentic :
      (o : Option PendingPtk)
      → (c.pending_ptk ≡ o)
      → authentic_under e frame ek c (Option.map (λ (p : PendingPtk). p.kck) o) ≡ false
  pending_not_authentic none h = refl
  pending_not_authentic (some p) h = pending_fails p h

  not_authentic : m3_authentic e frame ek c ≡ false
  unfolding m3_kck
  not_authentic =
      if_split (λ o. authentic_under e frame ek c o ≡ false) (retry_m3 c ek) (λ h. live_fails)
        (λ h. pending_not_authentic c.pending_ptk refl)

  send_eapol4-same :
      (protected : Bool) (out : List Octets) (bssid : Option Octets)
      → send_eapol4_to e frame ek protected c out bssid ≡ (c, out)
  send_eapol4-same protected out none = refl
  send_eapol4-same protected out (some bssid) = rw not_authentic (
      if_split (λ (r : Client × List Octets). r ≡ (c, out))
        (not c.pause_m3 && (not (retry_m3 c ek) && not (fresh_m3 c ek))) (λ h. refl) (λ h. refl))

  handle_group_rekey-same :
      (protected : Bool) (out : List Octets) (bssid : Option Octets)
      → handle_group_rekey_to e frame ek protected c out bssid ≡ (c, out)
  handle_group_rekey-same protected out none = refl
  handle_group_rekey-same protected out (some bssid) = rw live_fails refl

note_answer-same :
    (e : Env) (c : Client) (out : List Octets) (r : Client × List Octets)
    → r ≡ (c, out)
    → note_answer e out r ≡ (c, out)
unfolding note_answer
note_answer-same e c out r h = rw (h, ==_refl (length out)) refl

-- A key message that carries a MIC which is wrong under the station's key, and under the key of
-- the pending candidate if there is one, changes nothing and is not answered.
pub wrong_mic_ignored :
    (e : Env) (frame : Octets) (ek : EapolKey) (protected : Bool) (c : Client) (out : List Octets)
    → (has_key_mic ek ≡ true)
    → (mic_valid e (key_mic c) c.kck frame ek ≡ false)
    → PendingFails e frame ek c
    → handle_eapol_key e frame ek protected (c, out) ≡ (c, out)
unfolding send_eapol4 handle_group_rekey
wrong_mic_ignored e frame ek protected c out has live_fails pending_fails =
    handle_eapol_key_cases e frame ek protected c out (λ r. r ≡ (c, out)) refl
      (λ (h : valid_m1 c ek ≡ true). let n = authenticated-valid_m1 c ek has in absurd (cc))
      (λ (h : valid_m1 c ek ≡ true). let n = authenticated-valid_m1 c ek has in absurd (cc))
      (λ h. send_eapol4-same e frame ek c live_fails pending_fails protected out c.bssid)
      (λ h. handle_group_rekey-same e frame ek c live_fails pending_fails protected out c.bssid)
      (note_answer-same e c out)
