-- ===== src/Crypto/Ccm.antt =====
-- src/auth/crypto.rs: CCM over the AES block function, and AES-GCM by the `aes-gcm` crate.
pub mod RoundTrip
use oxwifid.Base.{
  ℕ, zero, suc, ◌+◌, ◌-◌, ◌*◌, ◌/◌, ◌%◌, ◌^◌, Bool, true, false, not, ◌&&◌, Option, none, [], ◌∷◌,
  ◌++◌, Octets, length, take, drop, leb, ◌==◌, if◌then◌else◌, be_bytes, be_value, bytes_eq,
  replicate,
}
use Prim.Native.Nat.{bit_xor}
use oxwifid.Security.{as_u16}
use oxwifid.Crypto.KeyWrap.{BlockCipher}

-- `b ^ k` over two octet strings, up to the end of the shorter one.
unfoldable pub xor_octets : Octets → Octets → Octets
xor_octets [] ks = []
xor_octets (b ∷ bs) [] = []
xor_octets (b ∷ bs) (k ∷ ks) = bit_xor b k ∷ xor_octets bs ks

-- The counter is a 128-bit number that wraps.
unfoldable pub ctr_keystream_block : BlockCipher → Octets → Octets → ℕ → Octets
ctr_keystream_block c key a0 j = c.encrypt key (be_bytes 16 ((be_value a0 + j) % 2 ^ 128))

unfoldable pub a0_block : Octets → Octets
a0_block nonce = 0x01 ∷ (nonce ++ (0 ∷ 0 ∷ []))

-- The loop over the chunks of 16 octets; `i` is the number of the chunk at the head.
unfoldable pub ctr_loop : BlockCipher → Octets → Octets → ℕ → ℕ → Octets → Octets
unfolding ctr_keystream_block xor_octets
ctr_loop c key a0 zero i data' = []
ctr_loop c key a0 (suc fuel) i [] = []
ctr_loop c key a0 (suc fuel) i (d ∷ ds) =
    xor_octets (take 16 (d ∷ ds)) (ctr_keystream_block c key a0 (i + 1))
    ++ ctr_loop c key a0 fuel (suc i) (drop 16 (d ∷ ds))

-- A chunk has an octet at least, so as many chunks as octets suffice.
unfoldable pub ctr_encrypt : BlockCipher → Octets → Octets → Octets → Octets
unfolding a0_block ctr_loop
ctr_encrypt c key nonce data' = ctr_loop c key (a0_block nonce) (length data') 0 data'

-- Zeros up to a multiple of 16 octets.
abbrev pub pad16 : Octets → Octets
pad16 xs = xs ++ replicate ((16 - length xs % 16) % 16) 0

-- The loop over the blocks of the MAC.
unfoldable pub cbc_loop : BlockCipher → Octets → ℕ → Octets → Octets → Octets
unfolding xor_octets
cbc_loop c key zero prev rest = prev
cbc_loop c key (suc fuel) prev [] = prev
cbc_loop c key (suc fuel) prev (x ∷ xs) =
    cbc_loop c key fuel (c.encrypt key (xor_octets (take 16 (x ∷ xs)) prev)) (drop 16 (x ∷ xs))

-- `(4..=16).contains(&n) && n.is_multiple_of(2)`.
abbrev pub valid_tag_len : ℕ → Bool
valid_tag_len n = leb 4 n && (leb n 16 && n % 2 == 0)

-- The blocks of the MAC: flags, nonce and length; the AAD; the plaintext.
unfoldable pub mac_blocks : Octets → Octets → Octets → ℕ → Octets
mac_blocks plaintext aad nonce mac_len =
    let flags = 64 * as_u16 (not (length aad == 0)) + 8 * ((mac_len - 2) / 2) + 1 in
    pad16 (
      (flags % 256)
      ∷ (nonce
          ++ (be_bytes 2 (length plaintext)
              ++ (pad16 (be_bytes 2 (length aad) ++ aad) ++ plaintext))))

unfoldable pub cbc_mac : BlockCipher → Octets → Octets → Octets → Octets → ℕ → Octets
unfolding mac_blocks cbc_loop a0_block xor_octets
cbc_mac c key plaintext aad nonce mac_len =
    let blocks = mac_blocks plaintext aad nonce mac_len in
    let prev = cbc_loop c key (length blocks) (replicate 16 0) blocks in
    let s0 = c.encrypt key (a0_block nonce) in
    if valid_tag_len mac_len then take mac_len (xor_octets s0 prev) else []

unfoldable pub run_ccmp_encrypt_with_tag :
    BlockCipher → Octets → Octets → Octets → Octets → ℕ → Octets × Octets
run_ccmp_encrypt_with_tag c key nonce aad plaintext tag_len =
    if valid_tag_len tag_len
    then (ctr_encrypt c key nonce plaintext, cbc_mac c key plaintext aad nonce tag_len)
    else ([], [])

unfoldable pub run_ccmp_decrypt_with_tag :
    BlockCipher → Octets → Octets → Octets → Octets → Octets → ℕ → Octets × Bool
run_ccmp_decrypt_with_tag c key nonce aad ciphertext known_tag tag_len =
    let plaintext = ctr_encrypt c key nonce ciphertext in
    if valid_tag_len tag_len && length known_tag == tag_len
    then (plaintext, bytes_eq (cbc_mac c key plaintext aad nonce tag_len) known_tag)
    else (plaintext, false)

-- AES-GCM of the `aes-gcm` crate: `key → nonce → aad → data`, and the tag to check.
pub record Gcm : Type 0 where
  pub seal : Octets → Octets → Octets → Octets → Option (Octets × Octets)
  pub open_sealed : Octets → Octets → Octets → Octets → Octets → Option Octets

abbrev pub gcm_key : Octets → Bool
gcm_key key = if length key == 16 then true else length key == 32

unfoldable pub run_gcmp_encrypt : Gcm → Octets → Octets → Octets → Octets → Option (Octets × Octets)
run_gcmp_encrypt g key nonce aad plaintext =
    if gcm_key key then g.seal key nonce aad plaintext else none

unfoldable pub run_gcmp_decrypt : Gcm → Octets → Octets → Octets → Octets → Octets → Option Octets
run_gcmp_decrypt g key nonce aad ciphertext tag =
    if not (length tag == 16)
    then none
    else if gcm_key key
    then g.open_sealed key nonce aad ciphertext tag
    else none
