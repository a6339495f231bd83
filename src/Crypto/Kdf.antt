-- ===== src/Crypto/Kdf.antt =====
-- src/auth/crypto.rs: the PRFs that expand the PMK into the PTK.
pub mod Symmetry
use oxwifid.Base.{
  ℕ, zero, suc, ◌+◌, ◌-◌, ◌*◌, ◌%◌, ◌^◌, Bool, true, false, Option, none, some, [], ◌∷◌, ◌++◌,
  Octets, length, take, ltb, ◌==◌, ◌||◌, ◌&&◌, if◌then◌else◌, le_bytes,
}
use Prim.Native.Nat.{min}
use oxwifid.Security.{Digests}

-- "Pairwise key expansion".
abbrev pub pairwise_label : Octets
pairwise_label =
    0x50 ∷ 0x61 ∷ 0x69 ∷ 0x72 ∷ 0x77 ∷ 0x69 ∷ 0x73 ∷ 0x65 ∷ 0x20 ∷ 0x6b ∷ 0x65 ∷ 0x79 ∷ 0x20 ∷ 0x65
    ∷ 0x78 ∷ 0x70 ∷ 0x61 ∷ 0x6e ∷ 0x73 ∷ 0x69 ∷ 0x6f ∷ 0x6e ∷ []

-- `a <= b` on octet strings, which compares them as words.
unfoldable pub bytes_le : Octets → Octets → Bool
bytes_le [] b = true
bytes_le (x ∷ xs) [] = false
bytes_le (x ∷ xs) (y ∷ ys) = ltb x y || (x == y && bytes_le xs ys)

-- The `while out.len() < out_len` loop. A round adds an octet at least, so `out_len` rounds suffice.
unfoldable pub sha256_prf_loop : Digests → Octets → Octets → Octets → ℕ → ℕ → Octets → ℕ → Octets
sha256_prf_loop d key label context out_len zero out counter = out
sha256_prf_loop d key label context out_len (suc fuel) out counter =
    let block =
      d.sha256 key
        (le_bytes 2 counter ++ (label ++ (context ++ le_bytes 2 (out_len * 8 % 2 ^ 16)))) in
    let more =
      sha256_prf_loop d key label context out_len fuel
        (out ++ take (min (out_len - length out) 32) block) (counter + 1) in
    if ltb (length out) out_len then more else out

unfoldable pub sha256_prf : Digests → Octets → Octets → Octets → ℕ → Octets
sha256_prf d key label context out_len = sha256_prf_loop d key label context out_len out_len [] 1

-- The smaller string before the larger one.
abbrev pub sorted_pair : Octets → Octets → Octets
sorted_pair a b = if bytes_le a b then a ++ b else b ++ a

-- `none` stands for the panic where the assertion on `out_len` fails.
unfoldable pub derive_ptk_sha256_len :
    Digests → Octets → Octets → Octets → Octets → Octets → ℕ → Option Octets
derive_ptk_sha256_len d pmk aa spa anonce snonce out_len =
    if out_len == 48 || out_len == 64
    then some
        (sha256_prf d pmk pairwise_label (sorted_pair aa spa ++ sorted_pair anonce snonce) out_len)
    else none

-- One round of PRF-512: label, a zero octet, `b`, and the round's number.
abbrev pub prf512_block : Digests → Octets → Octets → ℕ → Octets
prf512_block d key b i = d.sha1 key (pairwise_label ++ (0 ∷ (b ++ (i ∷ []))))

unfoldable pub custom_prf512 : Digests → Octets → Octets → Octets → Octets → Octets → Octets
custom_prf512 d key amac smac anonce snonce =
    let b = sorted_pair amac smac ++ sorted_pair anonce snonce in
    take 64 (
      prf512_block d key b 0
      ++ (prf512_block d key b 1 ++ (prf512_block d key b 2 ++ prf512_block d key b 3)))
