-- ===== src/Crypto/Kdf/Symmetry.antt =====
-- Both ends of a handshake derive the same PTK, of the length asked for.
use oxwifid.Base.{
  ℕ, zero, suc, ◌+◌, ◌-◌, ◌*◌, ◌%◌, ◌^◌, le_bytes, ◌≤◌, ◌≡◌, refl, true, false, inl, inr, [], ◌∷◌,
  ◌++◌, arith, Octets, length, take, length-append, length-take, ltb, ap, is_some, none, some, ◌==◌,
  ◌||◌, if◌then◌else◌, ltb→lt, Bool-cases,
}
use Prim.Native.Nat.{min}
use mathlib.Core.Option
use oxwifid.Security.{Digests, DataCipher, key_len}
use DataCipher.{ccmp128, gcmp128, ccmp256, gcmp256}
use oxwifid.Crypto.Kdf.{
  bytes_le, sorted_pair, sha256_prf_loop, sha256_prf, derive_ptk_sha256_len, custom_prf512,
}

bytes_le_total : (a b : Octets) → bytes_le a b ≡ false → bytes_le b a ≡ true
unfolding bytes_le
bytes_le_total [] b h = cc
bytes_le_total (x ∷ xs) [] h = refl
bytes_le_total (x ∷ xs) (y ∷ ys) h = ground (arith, bytes_le_total xs ys)

bytes_le_antisym : (a b : Octets) → bytes_le a b ≡ true → bytes_le b a ≡ true → a ≡ b
unfolding bytes_le
bytes_le_antisym [] [] h k = refl
bytes_le_antisym [] (y ∷ ys) h k = cc
bytes_le_antisym (x ∷ xs) [] h k = cc
bytes_le_antisym (x ∷ xs) (y ∷ ys) h k = ground (arith, bytes_le_antisym xs ys)

sorted_pair_comm : (a b : Octets) → sorted_pair a b ≡ sorted_pair b a
sorted_pair_comm a b = elim (Bool-cases (bytes_le a b)) [
  | inl le ↦ elim (Bool-cases (bytes_le b a)) [
    | inl ge ↦ let same : a ≡ b = bytes_le_antisym a b le ge in rw same
    | inr gt ↦ rw (le, gt)
  ]
  | inr gt ↦ rw (gt, bytes_le_total a b gt)
]

-- The authenticator and the supplicant derive the same key block: exchanging the two addresses and
-- the two nonces changes neither the SHA-256 PTK, of 48 or 64 octets, nor PRF-512; and of another
-- length neither derives a SHA-256 PTK, as the assertion on the length fails on both sides.
pub ptk_comm :
    (d : Digests) (pmk aa spa anonce snonce : Octets) (out_len : ℕ)
    → (derive_ptk_sha256_len d pmk aa spa anonce snonce out_len
        ≡ derive_ptk_sha256_len d pmk spa aa snonce anonce out_len)
      × (custom_prf512 d pmk aa spa anonce snonce ≡ custom_prf512 d pmk spa aa snonce anonce)
unfolding derive_ptk_sha256_len custom_prf512
ptk_comm d pmk aa spa anonce snonce out_len = (
  rw (sorted_pair_comm aa spa, sorted_pair_comm anonce snonce),
  rw (sorted_pair_comm aa spa, sorted_pair_comm anonce snonce),
)

-- The lengths that the two sides of a handshake ask for are supported.
is_some-derive_ptk_sha256_len :
    (d : Digests) (pmk aa spa anonce snonce : Octets) (c : DataCipher)
    → is_some (derive_ptk_sha256_len d pmk aa spa anonce snonce (32 + key_len c)) ≡ true
unfolding derive_ptk_sha256_len key_len
is_some-derive_ptk_sha256_len d pmk aa spa anonce snonce ccmp128 = refl
is_some-derive_ptk_sha256_len d pmk aa spa anonce snonce gcmp128 = refl
is_some-derive_ptk_sha256_len d pmk aa spa anonce snonce ccmp256 = refl
is_some-derive_ptk_sha256_len d pmk aa spa anonce snonce gcmp256 = refl

module _ (d : Digests) (full : (key m : Octets) → length (d.sha256 key m) ≡ 32) where
  length-sha256_prf_loop :
      (key label context : Octets) (out_len fuel : ℕ) (out : Octets) (counter : ℕ)
      → length out ≤ out_len
      → out_len ≤ length out + fuel
      → length (sha256_prf_loop d key label context out_len fuel out counter) ≡ out_len
  unfolding sha256_prf_loop
  length-sha256_prf_loop key label context out_len zero out counter h k = omega arith
  length-sha256_prf_loop key label context out_len (suc fuel) out counter h k =
      elim (Bool-cases (ltb (length out) out_len)) [
        | inl more ↦
            let grown = length-append out (take (min (out_len - length out) 32) (block counter)) in
            let taken = length-take (min (out_len - length out) 32) (block counter) in
            let whole = full key (seed counter) in
            rw more (
              length-sha256_prf_loop key label context out_len fuel _ (counter + 1)
                (omega (arith, grown, taken, whole, ltb→lt (length out) out_len more))
                (omega (arith, grown, taken, whole, ltb→lt (length out) out_len more)))
        | inr done ↦ rw done (ground arith)
      ]
    where
      seed : ℕ → Octets
      seed c = le_bytes 2 c ++ (label ++ (context ++ le_bytes 2 (out_len * 8 % 2 ^ 16)))

      block : ℕ → Octets
      block c = d.sha256 key (seed c)

  -- Where SHA-256 digests have 32 octets: the SHA-256 PTK has exactly the length asked for, where that
  -- is one of the two supported lengths, 48 and 64; for every other length there is none.
  pub length-derive_ptk_sha256_len :
      (pmk aa spa anonce snonce : Octets) (out_len : ℕ)
      → Option.map length (derive_ptk_sha256_len d pmk aa spa anonce snonce out_len)
        ≡ (if out_len == 48 || out_len == 64 then some out_len else none)
  unfolding derive_ptk_sha256_len sha256_prf
  length-derive_ptk_sha256_len pmk aa spa anonce snonce out_len =
      elim (Bool-cases (out_len == 48 || out_len == 64)) [
        | inl supported ↦ rw supported (
            ap some
              (length-sha256_prf_loop pmk _ _ out_len out_len [] 1 (omega arith) (omega arith)))
        | inr other ↦ rw other refl
      ]
