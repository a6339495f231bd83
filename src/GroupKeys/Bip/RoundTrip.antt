-- ===== src/GroupKeys/Bip/RoundTrip.antt =====
-- What `bip_protect` of src/group_keys/management.rs gives, `bip_verify` and `bip_ipn` accept.
use oxwifid.Base.{
  ℕ, ◌+◌, ◌≡◌, ◌∙◌, ap, refl, arith, true, false, some, ◌++◌, Octets, length, take, drop, slice,
  ltb, leb_not_ltb, bytes_eq, bytes_eq_refl, le_bytes, le_value, take-append, drop-append,
  drop-append_skip, take_all, length-append, replicate,
}
use mathlib.Core.List.{append_assoc}
use oxwifid.Security.{Digests}
use oxwifid.GroupKeys.Bip.{
  bip_aad, mme_head, mme_offset, ends_with_mme, bip_protect, bip_verify, bip_ipn,
}

module _ (body : Octets) (key_id : ℕ) (ipn mic : Octets) (l : length ipn ≡ 6)
    (m : length mic ≡ 8) where
  abbrev sealed : Octets
  sealed = (body ++ mme_head key_id ipn) ++ mic

  length-head : length (body ++ mme_head key_id ipn) ≡ length body + 10
  unfolding le_bytes
  length-head = omega (arith, l, length-append body (mme_head key_id ipn))

  length-sealed : length sealed ≡ length body + 18
  length-sealed = omega (arith, m, length-head, length-append (body ++ mme_head key_id ipn) mic)

  offset_lem : mme_offset sealed ≡ length body
  offset_lem = omega (arith, length-sealed)

  long : ltb (length sealed) 18 ≡ false
  long = leb_not_ltb (length sealed) 18 (omega (arith, length-sealed))

  behind : (n : ℕ) → drop (length body + n) sealed ≡ drop n (mme_head key_id ipn ++ mic)
  behind n =
      ap (drop (length body + n)) (append_assoc body (mme_head key_id ipn) mic)
      ∙ drop-append_skip body (mme_head key_id ipn ++ mic) (length body) n refl

  ends : ends_with_mme sealed ≡ true
  unfolding bytes_eq le_bytes
  ends = rw offset_lem (
      rw
        (
          append_assoc body (mme_head key_id ipn) mic,
          drop-append body (mme_head key_id ipn ++ mic) (length body) refl,
        )
        refl)

  before_mic : take (mme_offset sealed + 10) sealed ≡ body ++ mme_head key_id ipn
  before_mic =
      rw offset_lem (take-append (body ++ mme_head key_id ipn) mic (length body + 10) length-head)

  mic_of : slice (mme_offset sealed + 10) 8 sealed ≡ mic
  mic_of = rw offset_lem (
      ap (take 8) (drop-append (body ++ mme_head key_id ipn) mic (length body + 10) length-head)
      ∙ take_all mic 8 m)

  ipn_of : slice (mme_offset sealed + 4) 6 sealed ≡ ipn
  unfolding le_bytes
  ipn_of = rw offset_lem (ap (take 6) (behind 4) ∙ take-append ipn mic 6 l)

  bip_ipn-sealed : bip_ipn sealed ≡ some (le_value ipn)
  unfolding bip_ipn
  bip_ipn-sealed = rw (long, ends, ipn_of) refl

-- Where the CMAC has at least eight octets: a body that is protected under a key with a packet number
-- of six octets verifies under that key and the same header, and shows that packet number.
pub bip_verify-bip_protect :
    (d : Digests) (igtk : Octets) (key_id fc0 fc1 : ℕ) (ipn a1 a2 a3 body : Octets)
    → ((key msg : Octets) → length (take 8 (d.cmac key msg)) ≡ 8)
    → length ipn ≡ 6
    → (let b : Octets = bip_protect d igtk key_id ipn fc0 fc1 a1 a2 a3 body in
        (bip_verify d igtk fc0 fc1 a1 a2 a3 b ≡ true) × (bip_ipn b ≡ some (le_value ipn)))
unfolding bip_protect bip_verify
bip_verify-bip_protect d igtk key_id fc0 fc1 ipn a1 a2 a3 body w l =
    let mic : Octets = take 8 (
      d.cmac igtk (bip_aad fc0 fc1 a1 a2 a3 ++ ((body ++ mme_head key_id ipn) ++ replicate 8 0))) in
    let m : length mic ≡ 8 = w igtk _ in
    (
      rw
          (
            long body key_id ipn mic l m,
            ends body key_id ipn mic l m,
            before_mic body key_id ipn mic l m,
            mic_of body key_id ipn mic l m,
          )
          (bytes_eq_refl mic),
      bip_ipn-sealed body key_id ipn mic l m,
    )
