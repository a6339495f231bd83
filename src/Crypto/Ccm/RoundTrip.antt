-- ===== src/Crypto/Ccm/RoundTrip.antt =====
-- `run_ccmp_decrypt_with_tag` of `run_ccmp_encrypt_with_tag` in src/auth/crypto.rs.
use oxwifid.Base.{
  ℕ, zero, suc, ◌+◌, ◌≤◌, ◌<◌, ◌≡◌, refl, ap, ◌∙◌, arith, true, [], ◌∷◌, ◌++◌, Octets, inl, inr,
  length, length-append, length-take, length-drop, take, drop, take-append, drop-append,
  take-append-drop, replicate, lt_or_ge, bytes_eq_refl, ==_refl,
}
use mathlib.Core.List.{append-nil}
use oxwifid.Crypto.Xor.{bit_xor_cancel}
use oxwifid.Crypto.KeyWrap.{BlockCipher}
use oxwifid.Crypto.Ccm.{
  xor_octets, ctr_keystream_block, a0_block, ctr_loop, ctr_encrypt, cbc_loop, mac_blocks, cbc_mac,
  valid_tag_len, run_ccmp_encrypt_with_tag, run_ccmp_decrypt_with_tag,
}

length-xor_octets : (bs ks : Octets) → length bs ≤ length ks → length (xor_octets bs ks) ≡ length bs
unfolding xor_octets
length-xor_octets [] ks h = refl
length-xor_octets (b ∷ bs) [] h = absurd (omega arith)
length-xor_octets (b ∷ bs) (k ∷ ks) h = omega (arith, length-xor_octets bs ks (omega arith))

xor_octets_cancel : (bs ks : Octets) → length bs ≤ length ks → xor_octets (xor_octets bs ks) ks ≡ bs
unfolding xor_octets
xor_octets_cancel [] ks h = refl
xor_octets_cancel (b ∷ bs) [] h = absurd (omega arith)
xor_octets_cancel (b ∷ bs) (k ∷ ks) h =
    rw (bit_xor_cancel b k, xor_octets_cancel bs ks (omega arith)) refl

drop_all : (n : ℕ) (xs : Octets) → length xs ≤ n → drop n xs ≡ []
drop_all zero [] h = refl
drop_all zero (x ∷ xs) h = absurd (omega arith)
drop_all (suc n) [] h = refl
drop_all (suc n) (x ∷ xs) h = drop_all n xs (omega arith)

take_short : (n : ℕ) (xs : Octets) → length xs ≤ n → take n xs ≡ xs
take_short zero [] h = refl
take_short zero (x ∷ xs) h = absurd (omega arith)
take_short (suc n) [] h = refl
take_short (suc n) (x ∷ xs) h = ap (◌∷◌ x) (take_short n xs (omega arith))

-- A chunk before the rest is cut off again when it is whole, or when nothing is behind it.
take_chunk :
    (n : ℕ) (x xs : Octets) → length x ≤ n → ((length x < n) → xs ≡ []) → take n (x ++ xs) ≡ x
take_chunk n x xs h e = elim (lt_or_ge (length x) n) [
  | inl lt ↦ rw (e lt, append-nil x) (take_short n x h)
  | inr le ↦ take-append x xs n (omega arith)
]

drop_chunk :
    (n : ℕ) (x xs : Octets) → length x ≤ n → ((length x < n) → xs ≡ []) → drop n (x ++ xs) ≡ xs
drop_chunk n x xs h e = elim (lt_or_ge (length x) n) [
  | inl lt ↦ rw (e lt, append-nil x) (drop_all n x h)
  | inr le ↦ drop-append x xs n (omega arith)
]

module _ (c : BlockCipher) (key : Octets)
    (width : (b : Octets) → length (c.encrypt key b) ≡ 16) where
  ctr_loop-nil : (a0 : Octets) (fuel i : ℕ) → ctr_loop c key a0 fuel i [] ≡ []
  unfolding ctr_loop
  ctr_loop-nil a0 zero i = refl
  ctr_loop-nil a0 (suc fuel) i = refl

  -- One round, for the empty text too.
  ctr_loop_step :
      (a0 : Octets) (fuel i : ℕ) (data' : Octets)
      → ctr_loop c key a0 (suc fuel) i data'
        ≡ xor_octets (take 16 data') (ctr_keystream_block c key a0 (i + 1))
          ++ ctr_loop c key a0 fuel (suc i) (drop 16 data')
  unfolding ctr_loop xor_octets
  ctr_loop_step a0 fuel i [] = rw (ctr_loop-nil a0 fuel (suc i)) refl
  ctr_loop_step a0 fuel i (d ∷ ds) = refl

  chunk_width :
      (a0 : Octets) (i : ℕ) (data' : Octets)
      → length (take 16 data') ≤ length (ctr_keystream_block c key a0 (i + 1))
  unfolding ctr_keystream_block
  chunk_width a0 i data' = omega (arith, width _, length-take 16 data')

  -- Encrypting twice under the same counters gives the text back.
  ctr_loop_twice :
      (a0 : Octets) (f g i : ℕ) (data' : Octets)
      → length data' ≤ f
      → length data' ≤ g
      → ctr_loop c key a0 g i (ctr_loop c key a0 f i data') ≡ data'
  ctr_loop_twice a0 zero g i [] hf hg = rw (ctr_loop-nil a0 zero i) (ctr_loop-nil a0 g i)
  ctr_loop_twice a0 zero g i (d ∷ ds) hf hg = absurd (omega arith)
  ctr_loop_twice a0 (suc f) zero i [] hf hg =
      rw (ctr_loop-nil a0 (suc f) i) (ctr_loop-nil a0 zero i)
  ctr_loop_twice a0 (suc f) zero i (d ∷ ds) hf hg = absurd (omega arith)
  ctr_loop_twice a0 (suc f) (suc g) i data' hf hg =
      let ks = ctr_keystream_block c key a0 (i + 1) in
      let x = xor_octets (take 16 data') ks in
      let rest = ctr_loop c key a0 f (suc i) (drop 16 data') in
      let long = chunk_width a0 i data' in
      let short : length x ≤ 16 =
        omega (arith, length-xor_octets (take 16 data') ks long, length-take 16 data') in
      let last : length x < 16 → rest ≡ [] = λ lt.
        rw
          (drop_all 16 data'
            (omega (arith, length-xor_octets (take 16 data') ks long, length-take 16 data', lt)))
          (ctr_loop-nil a0 f (suc i)) in
      rw
        (
          ctr_loop_step a0 f i data',
          ctr_loop_step a0 g i (x ++ rest),
          take_chunk 16 x rest short last,
          drop_chunk 16 x rest short last,
          xor_octets_cancel (take 16 data') ks long,
          ctr_loop_twice a0 f g (suc i) (drop 16 data') (omega (arith, length-drop 16 data'))
              (omega (arith, length-drop 16 data')),
        )
        (take-append-drop 16 data')

  length-ctr_loop :
      (a0 : Octets) (f i : ℕ) (data' : Octets)
      → length data' ≤ f
      → length (ctr_loop c key a0 f i data') ≡ length data'
  length-ctr_loop a0 zero i [] h = rw (ctr_loop-nil a0 zero i) refl
  length-ctr_loop a0 zero i (d ∷ ds) h = absurd (omega arith)
  length-ctr_loop a0 (suc f) i data' h =
      ap length (ctr_loop_step a0 f i data')
      ∙ omega (
        arith,
        length-append (xor_octets (take 16 data') (ctr_keystream_block c key a0 (i + 1)))
            (ctr_loop c key a0 f (suc i) (drop 16 data')),
        length-xor_octets (take 16 data') _ (chunk_width a0 i data'),
        length-take 16 data',
        length-drop 16 data',
        length-ctr_loop a0 f (suc i) (drop 16 data') (omega (arith, length-drop 16 data')),
      )

  ctr_encrypt_twice :
      (nonce data' : Octets) → ctr_encrypt c key nonce (ctr_encrypt c key nonce data') ≡ data'
  unfolding ctr_encrypt
  ctr_encrypt_twice nonce data' =
      ctr_loop_twice (a0_block nonce) (length data') _ 0 data' (omega arith)
        (omega (arith, length-ctr_loop (a0_block nonce) (length data') 0 data' (omega arith)))

  cbc_loop_width :
      (fuel : ℕ) (prev rest : Octets)
      → length prev ≡ 16
      → length (cbc_loop c key fuel prev rest) ≡ 16
  unfolding cbc_loop
  cbc_loop_width zero prev rest h = h
  cbc_loop_width (suc fuel) prev [] h = h
  cbc_loop_width (suc fuel) prev (x ∷ xs) h = cbc_loop_width fuel _ _ (width _)

  pub length-cbc_mac :
      (plaintext aad nonce : Octets) (mac_len : ℕ)
      → valid_tag_len mac_len ≡ true
      → length (cbc_mac c key plaintext aad nonce mac_len) ≡ mac_len
  unfolding cbc_mac
  length-cbc_mac plaintext aad nonce mac_len h =
      let blocks = mac_blocks plaintext aad nonce mac_len in
      let prev = cbc_loop c key (length blocks) (replicate 16 0) blocks in
      let s0 = c.encrypt key (a0_block nonce) in
      let last : length prev ≡ 16 = cbc_loop_width (length blocks) (replicate 16 0) blocks refl in
      let short : mac_len ≤ 16 = ground arith in
      rw h (
        length-take mac_len (xor_octets s0 prev)
        ∙ omega (
          arith,
          length-xor_octets s0 prev (omega (arith, last, width (a0_block nonce))),
          width (a0_block nonce),
          short,
        ))

  -- Where the block function gives blocks of 16 octets, and the tag length is an even number from 4 to
  -- 16: a text sealed under a key, a nonce and an AAD opens under the same ones, which is to say that
  -- the plaintext comes back and the tag is valid.
  pub decrypt-encrypt_with_tag :
      (nonce aad plaintext : Octets) (tag_len : ℕ)
      → valid_tag_len tag_len ≡ true
      → run_ccmp_decrypt_with_tag c key nonce aad
          (run_ccmp_encrypt_with_tag c key nonce aad plaintext tag_len).0
          (run_ccmp_encrypt_with_tag c key nonce aad plaintext tag_len).1
          tag_len
        ≡ (plaintext, true)
  unfolding run_ccmp_encrypt_with_tag run_ccmp_decrypt_with_tag
  decrypt-encrypt_with_tag nonce aad plaintext tag_len h =
      rw
        (
          h,
          ctr_encrypt_twice nonce plaintext,
          length-cbc_mac plaintext aad nonce tag_len h,
          ==_refl tag_len,
          bytes_eq_refl (cbc_mac c key plaintext aad nonce tag_len),
        )
        refl
