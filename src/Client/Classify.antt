-- ===== src/Client/Classify.antt =====
-- src/client/session.rs: which EAPOL-Key message a frame is.
use oxwifid.Base.{
  Bool, true, false, not, ◌&&◌, ◌||◌, Option, none, some, ◌≡◌, refl, length, ltb, leb, ◌==◌,
  bytes_eq, replicate,
}
use oxwifid.Security.{version, key_len}
use oxwifid.Security.EapolKey.{
  EapolKey, descriptor_version, is_pairwise, install, key_ack, has_key_mic, secure, error, request,
  encrypted_key_data,
}
use oxwifid.Client.{Client, PendingPtk, key_mic}

unfoldable pub valid_m1 : Client → EapolKey → Bool
valid_m1 c ek =
    is_pairwise ek
    && (key_ack ek
        && (not (install ek)
            && (not (has_key_mic ek)
                && (not (secure ek)
                    && (not (error ek)
                        && (not (request ek)
                            && (not (encrypted_key_data ek)
                                && (descriptor_version ek == version (key_mic c)
                                    && (ek.key_length == key_len c.pairwise_cipher
                                        && not (bytes_eq ek.key_nonce (replicate 32 0)))))))))))

-- The nonce of the pending candidate, where there is one.
abbrev pub pending_nonce : EapolKey → Option PendingPtk → Bool
pending_nonce ek none = false
pending_nonce ek (some p) = bytes_eq ek.key_nonce p.anonce

unfoldable pub nonce_matches : Client → EapolKey → Bool
nonce_matches c ek =
    pending_nonce ek c.pending_ptk || (c.ptk_installed && bytes_eq ek.key_nonce c.anonce)

unfoldable pub valid_m3 : Client → EapolKey → Bool
valid_m3 c ek =
    is_pairwise ek
    && (key_ack ek
        && (install ek
            && (has_key_mic ek
                && (secure ek
                    && (not (error ek)
                        && (not (request ek)
                            && (encrypted_key_data ek
                                && (descriptor_version ek == version (key_mic c)
                                    && (ek.key_length == key_len c.pairwise_cipher
                                        && (nonce_matches c ek
                                            && not (length ek.key_data == 0)))))))))))

abbrev retries : EapolKey → Option PendingPtk → Bool
retries ek none = false
retries ek (some p) = leb p.replay ek.key_replay_counter && bytes_eq ek.key_nonce p.anonce

unfoldable pub is_m1_retry : Client → EapolKey → Bool
is_m1_retry c ek = retries ek c.pending_ptk

unfoldable pub is_m1_fresh : Client → EapolKey → Bool
is_m1_fresh c ek = ltb c.eapol_replay ek.key_replay_counter

unfoldable pub valid_group_m1 : Client → EapolKey → Bool
valid_group_m1 c ek =
    not (is_pairwise ek)
    && (key_ack ek
        && (not (install ek)
            && (has_key_mic ek
                && (secure ek
                    && (not (error ek)
                        && (not (request ek)
                            && (encrypted_key_data ek
                                && (descriptor_version ek == version (key_mic c)
                                    && (bytes_eq ek.key_nonce (replicate 32 0)
                                        && not (length ek.key_data == 0))))))))))

and-false : (b : Bool) → (b && false) ≡ false
and-false true = refl
and-false false = refl

-- A message without a MIC is neither message 3 nor a group message.
pub unauthenticated-valid_m3 :
    (c : Client) (ek : EapolKey) → has_key_mic ek ≡ false → valid_m3 c ek ≡ false
unfolding valid_m3
unauthenticated-valid_m3 c ek h =
    rw (h, and-false (install ek), and-false (key_ack ek), and-false (is_pairwise ek)) refl

pub unauthenticated-valid_group_m1 :
    (c : Client) (ek : EapolKey) → has_key_mic ek ≡ false → valid_group_m1 c ek ≡ false
unfolding valid_group_m1
unauthenticated-valid_group_m1 c ek h =
    rw (h, and-false (not (install ek)), and-false (key_ack ek), and-false (not (is_pairwise ek)))
      refl

-- A message with a MIC is not message 1.
pub authenticated-valid_m1 :
    (c : Client) (ek : EapolKey) → has_key_mic ek ≡ true → valid_m1 c ek ≡ false
unfolding valid_m1
authenticated-valid_m1 c ek h =
    rw (h, and-false (not (install ek)), and-false (key_ack ek), and-false (is_pairwise ek)) refl
