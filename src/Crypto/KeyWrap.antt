-- ===== src/Crypto/KeyWrap.antt =====
-- src/auth/crypto.rs: AES Key Wrap (RFC 3394) and the padding of the Key Data.
pub mod RoundTrip
use oxwifid.Base.{
  ℕ, zero, suc, ◌+◌, ◌-◌, ◌*◌, ◌/◌, ◌%◌, Option, none, some, not, ◌||◌, List, [], ◌∷◌, ◌++◌, Octets,
  length, take, drop, ltb, ◌==◌, if◌then◌else◌, be_bytes, be_value, join, replicate,
}
use Prim.Native.Nat.{bit_xor}

-- The AES-128 block functions of the `aes` crate: `key → block → block`.
pub record BlockCipher : Type 0 where
  pub encrypt : Octets → Octets → Octets
  pub decrypt : Octets → Octets → Octets

abbrev pub key_wrap_iv : ℕ
key_wrap_iv = 0xa6a6a6a6a6a6a6a6

-- `n` blocks of eight octets.
unfoldable pub blocks : ℕ → Octets → List Octets
blocks zero xs = []
blocks (suc n) xs = take 8 xs ∷ blocks n (drop 8 xs)

-- The inner loop, `i` from 1 to `n`; `t` is `n * j + i` for the block at the head.
unfoldable pub wrap_round : BlockCipher → Octets → ℕ → ℕ → List Octets → ℕ × List Octets
wrap_round c kek t a [] = (a, [])
wrap_round c kek t a (r ∷ rs) =
    let b = c.encrypt kek (be_bytes 8 a ++ r) in
    let (a', rs') = wrap_round c kek (t + 1) (bit_xor (be_value (take 8 b)) t) rs in
    (a', drop 8 b ∷ rs')

-- The outer loop; the first argument is the number of rounds left, `j` the round.
unfoldable pub wrap_rounds : BlockCipher → Octets → ℕ → ℕ → ℕ → ℕ × List Octets → ℕ × List Octets
unfolding wrap_round
wrap_rounds c kek n zero j s = s
wrap_rounds c kek n (suc k) j (a, rs) =
    wrap_rounds c kek n k (j + 1) (wrap_round c kek (n * j + 1) a rs)

unfoldable pub aes_wrap : BlockCipher → Octets → Octets → Octets
unfolding wrap_rounds blocks
aes_wrap c kek plain =
    let n = length plain / 8 in
    let (a, rs) = wrap_rounds c kek n 6 0 (key_wrap_iv, blocks n plain) in be_bytes 8 a ++ join rs

-- The inner loop, `i` from `n` down to 1: the blocks behind the head come first.
unfoldable pub unwrap_round : BlockCipher → Octets → ℕ → ℕ → List Octets → ℕ × List Octets
unwrap_round c kek t a [] = (a, [])
unwrap_round c kek t a (r ∷ rs) =
    let (a', rs') = unwrap_round c kek (t + 1) a rs in
    let b = c.decrypt kek (be_bytes 8 (bit_xor a' t) ++ r) in (be_value (take 8 b), drop 8 b ∷ rs')

-- The outer loop, `j` from the first argument less one down to 0.
unfoldable pub unwrap_rounds : BlockCipher → Octets → ℕ → ℕ → ℕ × List Octets → ℕ × List Octets
unfolding unwrap_round
unwrap_rounds c kek n zero s = s
unwrap_rounds c kek n (suc j) (a, rs) =
    unwrap_rounds c kek n j (unwrap_round c kek (n * j + 1) a rs)

unfoldable pub aes_unwrap : BlockCipher → Octets → Octets → Option Octets
unfolding unwrap_rounds blocks
aes_unwrap c kek wrapped =
    let n = length wrapped / 8 - 1 in
    let (a, rs) = unwrap_rounds c kek n 6 (be_value (take 8 wrapped), blocks n (drop 8 wrapped)) in
    if ltb (length wrapped) 16 || not (length wrapped % 8 == 0)
    then none
    else if not (a == key_wrap_iv)
    then none
    else some (join rs)

-- One octet 0xdd and then zeros, up to a multiple of eight octets.
unfoldable pub pad_key_data : Octets → Octets
pad_key_data plain =
    if length plain % 8 == 0
    then plain
    else plain ++ (0xdd ∷ replicate ((8 - (length plain + 1) % 8) % 8) 0)
