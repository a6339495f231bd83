-- ===== src/Crypto/KeyWrap/RoundTrip.antt =====
-- `aes_unwrap` of `aes_wrap` in src/auth/crypto.rs.
use oxwifid.Base.{
  ℕ, zero, suc, ◌+◌, ◌-◌, ◌*◌, ◌/◌, ◌%◌, ◌^◌, ◌<◌, ◌≡◌, refl, ap, ◌∙◌, arith, some, List, [], ◌∷◌,
  ◌++◌, Octets, IsOctet, All, All-append, All-take, All-drop, length, length-append, length-take,
  length-drop, take, drop, take-append, drop-append, take-append-drop, be_bytes, be_value,
  length-be_bytes, be_value-be_bytes, be_bytes-be_value, be_bytes-IsOctet, be_value_bound, join,
  ltb, ◌==◌, true, false,
}
use Prim.Native.Nat.{bit_xor}
use native.Mathlib.Nat.{mul-add, mul-suc, add-zero}
use oxwifid.Crypto.Xor.{bit_xor_cancel, bit_xor_bound}
use oxwifid.Crypto.KeyWrap.{
  BlockCipher, key_wrap_iv, blocks, wrap_round, wrap_rounds, aes_wrap, unwrap_round, unwrap_rounds,
  aes_unwrap,
}

-- A block of `n` octets.
abbrev pub IsBlock : ℕ → Octets → Type 0
IsBlock n b = (length b ≡ n) × All IsOctet b

join-blocks : (n : ℕ) (xs : Octets) → length xs ≡ 8 * n → join (blocks n xs) ≡ xs
unfolding blocks
join-blocks zero [] h = refl
join-blocks zero (x ∷ xs) h = absurd (omega arith)
join-blocks (suc n) xs h =
    ap (λ (r : Octets). take 8 xs ++ r)
      (join-blocks n (drop 8 xs) (omega (arith, length-drop 8 xs)))
    ∙ take-append-drop 8 xs

blocks-IsBlock :
    (n : ℕ) (xs : Octets) → length xs ≡ 8 * n → All IsOctet xs → All (IsBlock 8) (blocks n xs)
unfolding blocks
blocks-IsBlock zero xs h o = tt
blocks-IsBlock (suc n) xs h o = (
  (omega (arith, length-take 8 xs), All-take IsOctet 8 xs o),
  blocks-IsBlock n (drop 8 xs) (omega (arith, length-drop 8 xs)) (All-drop IsOctet 8 xs o),
)

length-blocks : (n : ℕ) (xs : Octets) → length (blocks n xs) ≡ n
unfolding blocks
length-blocks zero xs = refl
length-blocks (suc n) xs = ap suc (length-blocks n (drop 8 xs))

length-join_blocks : (rs : List Octets) → All (IsBlock 8) rs → length (join rs) ≡ 8 * length rs
length-join_blocks [] h = refl
length-join_blocks (r ∷ rs) ((l, o), h) =
    omega (arith, length-append r (join rs), length-join_blocks rs h)

blocks-join :
    (n : ℕ) (rs : List Octets) → length rs ≡ n → All (IsBlock 8) rs → blocks n (join rs) ≡ rs
unfolding blocks
blocks-join zero [] m h = refl
blocks-join zero (r ∷ rs) m h = absurd (omega arith)
blocks-join (suc n) [] m h = absurd (omega arith)
blocks-join (suc n) (r ∷ rs) m ((l, o), h) =
    rw (take-append r (join rs) 8 l, drop-append r (join rs) 8 l, blocks-join n rs (omega arith) h)
      refl

-- The eight octets at the head of a block are a 64-bit number.
head_bound : (b : Octets) → IsBlock 16 b → be_value (take 8 b) < 2 ^ 64
head_bound b (l, o) =
    let eight : length (take 8 b) ≡ 8 = omega (arith, length-take 8 b) in
    omega (arith, be_value_bound (take 8 b) (All-take IsOctet 8 b o), ap (λ (n : ℕ). 256 ^ n) eight)

-- The state of the two registers: a 64-bit number, and `n` blocks of eight octets.
abbrev Fits : ℕ → ℕ × List Octets → Type 0
Fits n s = (s.0 < 2 ^ 64) × (length s.1 ≡ n) × All (IsBlock 8) s.1

module _ (c : BlockCipher) (kek : Octets)
    (width : (b : Octets) → IsBlock 16 b → IsBlock 16 (c.encrypt kek b))
    (inverse : (b : Octets) → IsBlock 16 b → c.decrypt kek (c.encrypt kek b) ≡ b) where
  input_IsBlock : (a : ℕ) (r : Octets) → IsBlock 8 r → IsBlock 16 (be_bytes 8 a ++ r)
  input_IsBlock a r (l, o) = (
    omega (arith, length-append (be_bytes 8 a) r, length-be_bytes 8 a),
    All-append IsOctet (be_bytes 8 a) r (be_bytes-IsOctet 8 a) o,
  )

  wrap_round-Fits :
      (t a : ℕ) (rs : List Octets)
      → t + length rs < 2 ^ 64
      → a < 2 ^ 64
      → All (IsBlock 8) rs
      → Fits (length rs) (wrap_round c kek t a rs)
  unfolding wrap_round
  wrap_round-Fits t a [] h fa frs = (fa, refl, frs)
  wrap_round-Fits t a (r ∷ rs) h fa (fr, frs) =
      let b = c.encrypt kek (be_bytes 8 a ++ r) in
      let fb : IsBlock 16 b = width _ (input_IsBlock a r fr) in
      let next : bit_xor (be_value (take 8 b)) t < 2 ^ 64 =
        bit_xor_bound 64 _ t (head_bound b fb) (omega arith) in
      let later = wrap_round-Fits (t + 1) _ rs (omega arith) next frs in
      (
        later.0,
        ap suc later.1,
        ((omega (arith, length-drop 8 b, fb.0), All-drop IsOctet 8 b fb.1), later.2),
      )

  unwrap-wrap_round :
      (t a : ℕ) (rs : List Octets)
      → t + length rs < 2 ^ 64
      → a < 2 ^ 64
      → All (IsBlock 8) rs
      → unwrap_round c kek t (wrap_round c kek t a rs).0 (wrap_round c kek t a rs).1 ≡ (a, rs)
  unfolding wrap_round unwrap_round
  unwrap-wrap_round t a [] h fa frs = refl
  unwrap-wrap_round t a (r ∷ rs) h fa (fr, frs) =
      let b = c.encrypt kek (be_bytes 8 a ++ r) in
      let fi = input_IsBlock a r fr in
      let fb : IsBlock 16 b = width _ fi in
      let next : bit_xor (be_value (take 8 b)) t < 2 ^ 64 =
        bit_xor_bound 64 _ t (head_bound b fb) (omega arith) in
      let eight : length (take 8 b) ≡ 8 = omega (arith, length-take 8 b, fb.0) in
      let whole : be_bytes 8 (be_value (take 8 b)) ++ drop 8 b ≡ b =
        ap (λ (x : Octets). x ++ drop 8 b)
          (be_bytes-be_value (take 8 b) 8 (All-take IsOctet 8 b fb.1) eight)
        ∙ take-append-drop 8 b in
      rw
        (
          unwrap-wrap_round (t + 1) _ rs (omega arith) next frs,
          bit_xor_cancel (be_value (take 8 b)) t,
          whole,
          inverse _ fi,
          take-append (be_bytes 8 a) r 8 (length-be_bytes 8 a),
          drop-append (be_bytes 8 a) r 8 (length-be_bytes 8 a),
          be_value-be_bytes 8 a fa,
        )
        refl

  -- The counter of a round and the rounds behind it.
  later_rounds : (n j k : ℕ) → n * (j + suc k) ≡ n * j + n + n * k
  later_rounds n j k = omega (arith, mul-add n j (suc k), mul-suc n k)

  round-Fits :
      (n k j : ℕ) (s : ℕ × List Octets)
      → n * (j + suc k) + 1 < 2 ^ 64
      → Fits n s
      → Fits n (wrap_round c kek (n * j + 1) s.0 s.1)
  round-Fits n k j s h (fa, fl, frs) = rw (← fl) (
      wrap_round-Fits (length s.1 * j + 1) s.0 s.1
        (omega (arith, later_rounds (length s.1) j k, h, ap (λ (m : ℕ). m * (j + suc k)) fl)) fa
        frs)

  unwrap-wrap_rounds :
      (n k j : ℕ) (s : ℕ × List Octets)
      → n * (j + k) + 1 < 2 ^ 64
      → Fits n s
      → unwrap_rounds c kek n (j + k) (wrap_rounds c kek n k j s) ≡ unwrap_rounds c kek n j s
  unfolding wrap_rounds unwrap_rounds
  unwrap-wrap_rounds n zero j s h f = rw (add-zero j) refl
  unwrap-wrap_rounds n (suc k) j s h f =
      let s' = wrap_round c kek (n * j + 1) s.0 s.1 in
      let moved : j + suc k ≡ (j + 1) + k = omega arith in
      let h' : n * ((j + 1) + k) + 1 < 2 ^ 64 = rw (← moved) h in
      let one : j + 1 ≡ suc j = omega arith in
      rw moved (
        unwrap-wrap_rounds n k (j + 1) s' h' (round-Fits n k j s h f)
        ∙ rw one (
            ap (unwrap_rounds c kek n j) (
              unwrap-wrap_round (n * j + 1) s.0 s.1 (omega (arith, later_rounds n j k, h, f.1)) f.0
                f.2)))

  wrap_rounds-Fits :
      (n k j : ℕ) (s : ℕ × List Octets)
      → n * (j + k) + 1 < 2 ^ 64
      → Fits n s
      → Fits n (wrap_rounds c kek n k j s)
  unfolding wrap_rounds
  wrap_rounds-Fits n zero j s h f = f
  wrap_rounds-Fits n (suc k) j s h f =
      let moved : j + suc k ≡ (j + 1) + k = omega arith in
      let h' : n * ((j + 1) + k) + 1 < 2 ^ 64 = rw (← moved) h in
      wrap_rounds-Fits n k (j + 1) (wrap_round c kek (n * j + 1) s.0 s.1) h'
        (round-Fits n k j s h f)

  -- Where the block function maps blocks of 16 octets to such blocks, and its inverse undoes it on
  -- them, Key Data of `n` blocks of eight octets, with 0 < n < 2 ^ 60, comes back from its wrapped
  -- form.
  pub aes_unwrap-aes_wrap :
      (n : ℕ) (plain : Octets)
      → n < 2 ^ 60
      → 0 < n
      → length plain ≡ 8 * n
      → All IsOctet plain
      → aes_unwrap c kek (aes_wrap c kek plain) ≡ some plain
  unfolding aes_wrap aes_unwrap
  aes_unwrap-aes_wrap n plain big one len o =
      let start : Fits n (key_wrap_iv, blocks n plain) =
        (omega arith, length-blocks n plain, blocks-IsBlock n plain len o) in
      let done = wrap_rounds c kek n 6 0 (key_wrap_iv, blocks n plain) in
      let f : Fits n done = wrap_rounds-Fits n 6 0 _ (omega arith) start in
      let eighth : length plain / 8 ≡ n = omega arith in
      let width' : length (be_bytes 8 done.0 ++ join done.1) ≡ 8 + 8 * n =
        length-append (be_bytes 8 done.0) (join done.1)
        ∙ omega (arith, length-be_bytes 8 done.0, length-join_blocks done.1 f.2, f.1) in
      let count : (8 + 8 * n) / 8 - 1 ≡ n = omega arith in
      let whole : ((8 + 8 * n) % 8 == 0) ≡ true = ground arith in
      let long : ltb (8 + 8 * n) 16 ≡ false = ground arith in
      let same : blocks n (join done.1) ≡ done.1 = blocks-join n done.1 f.1 f.2 in
      let back : unwrap_rounds c kek n 6 done ≡ (key_wrap_iv, blocks n plain) =
        unwrap-wrap_rounds n 6 0 _ (omega arith) start in
      rw
        (
          eighth,
          width',
          count,
          long,
          whole,
          take-append (be_bytes 8 done.0) (join done.1) 8 (length-be_bytes 8 done.0),
          drop-append (be_bytes 8 done.0) (join done.1) 8 (length-be_bytes 8 done.0),
          be_value-be_bytes 8 done.0 f.0,
          same,
          back,
          join-blocks n plain len,
        )
        refl
