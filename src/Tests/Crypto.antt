-- ===== src/Tests/Crypto.antt =====
-- Key wrap, CCM and key derivation at concrete inputs, with stand-ins for the block function and the
-- digests that have the properties the theorems ask for.
use oxwifid.Base.{
  ◌≡◌, refl, arith, Bool, true, ltb, ◌&&◌, All, IsOctet, some, [], ◌∷◌, Octets, length, replicate,
  be_bytes, be_value, le_bytes, le_value,
}
use oxwifid.Security.{Digests}
use oxwifid.Crypto.KeyWrap.{BlockCipher, aes_wrap, aes_unwrap}
use oxwifid.Crypto.KeyWrap.RoundTrip.{aes_unwrap-aes_wrap}
use oxwifid.Crypto.Ccm.{run_ccmp_encrypt_with_tag, run_ccmp_decrypt_with_tag}
use oxwifid.Crypto.Ccm.RoundTrip.{decrypt-encrypt_with_tag}
use oxwifid.Crypto.Cmac.{aes_cmac, subkey, last_block}
use oxwifid.Crypto.Ccm.{xor_octets, cbc_loop}
use mathlib.Core.Option
use oxwifid.Crypto.Kdf.{derive_ptk_sha256_len, custom_prf512}
use oxwifid.Crypto.Kdf.Symmetry.{ptk_comm, length-derive_ptk_sha256_len}

-- A permutation of the blocks.
abbrev plain_blocks : BlockCipher
plain_blocks = record { encrypt = λ key b. b; decrypt = λ key b. b }

abbrev sixteen : Octets
sixteen = 1 ∷ 2 ∷ 3 ∷ 4 ∷ 5 ∷ 6 ∷ 7 ∷ 8 ∷ 9 ∷ 10 ∷ 11 ∷ 12 ∷ 13 ∷ 14 ∷ 15 ∷ 16 ∷ []

all_octets : Octets → Bool
all_octets [] = true
all_octets (b ∷ bs) = ltb b 256 && all_octets bs

below_256 : (bs : Octets) → all_octets bs ≡ true → All IsOctet bs
unfolding all_octets
below_256 [] h = tt
below_256 (b ∷ bs) h = (ground arith, below_256 bs (ground arith))

aes_unwrap-aes_wrap_example :
    aes_unwrap plain_blocks (replicate 16 0) (aes_wrap plain_blocks (replicate 16 0) sixteen)
    ≡ some sixteen
unfolding all_octets
aes_unwrap-aes_wrap_example =
    aes_unwrap-aes_wrap plain_blocks (replicate 16 0) (λ b h. h) (λ b h. refl) 2 sixteen
      (omega arith) (omega arith) refl (below_256 sixteen refl)

-- A keystream of one repeated block.
abbrev constant_blocks : BlockCipher
constant_blocks = record { encrypt = λ key b. replicate 16 0x55; decrypt = λ key b. b }

decrypt-encrypt_with_tag_example :
    run_ccmp_decrypt_with_tag constant_blocks
      (replicate 16 1)
      (replicate 13 2)
      (7 ∷ [])
      (run_ccmp_encrypt_with_tag constant_blocks
        (replicate 16 1)
        (replicate 13 2)
        (7 ∷ [])
        sixteen
        8).0
      (run_ccmp_encrypt_with_tag constant_blocks
        (replicate 16 1)
        (replicate 13 2)
        (7 ∷ [])
        sixteen
        8).1
      8
    ≡ (sixteen, true)
decrypt-encrypt_with_tag_example =
    decrypt-encrypt_with_tag constant_blocks (replicate 16 1) (λ b. refl) (replicate 13 2) (7 ∷ [])
      sixteen 8 refl

abbrev constant_digests : Digests
constant_digests = record {
  sha1 = λ key m. replicate 20 1;
  sha256 = λ key m. replicate 32 2;
  cmac = λ key m. replicate 16 3;
}

ptk_comm_example :
    (derive_ptk_sha256_len constant_digests sixteen (1 ∷ []) (2 ∷ []) (3 ∷ []) (4 ∷ []) 48
      ≡ derive_ptk_sha256_len constant_digests sixteen (2 ∷ []) (1 ∷ []) (4 ∷ []) (3 ∷ []) 48)
    × (custom_prf512 constant_digests sixteen (1 ∷ []) (2 ∷ []) (3 ∷ []) (4 ∷ [])
        ≡ custom_prf512 constant_digests sixteen (2 ∷ []) (1 ∷ []) (4 ∷ []) (3 ∷ []))
ptk_comm_example = ptk_comm constant_digests sixteen (1 ∷ []) (2 ∷ []) (3 ∷ []) (4 ∷ []) 48

length-derive_ptk_sha256_len_example :
    Option.map length
      (derive_ptk_sha256_len constant_digests sixteen (1 ∷ []) (2 ∷ []) (3 ∷ []) (4 ∷ []) 64)
    ≡ some 64
length-derive_ptk_sha256_len_example =
    length-derive_ptk_sha256_len constant_digests (λ key m. refl) sixteen (1 ∷ []) (2 ∷ []) (3 ∷ [])
      (4 ∷ []) 64

-- The empty message is one padded block.
aes_cmac_empty : aes_cmac plain_blocks (replicate 16 0) [] ≡ 0x80 ∷ replicate 15 0
unfolding aes_cmac subkey last_block xor_octets cbc_loop be_bytes be_value le_bytes le_value
aes_cmac_empty = refl
