-- ===== src/Base/Bytes.antt =====
-- Octet strings: equality, and integers in little-endian and big-endian order.
use Prim.Native.Nat.{ℕ, zero, suc, ◌+◌, ◌*◌, ◌/◌, ◌%◌, ◌^◌, ◌<◌}
use mathlib.Core.Path.{◌≡◌, refl, ap, ◌∙◌}
use mathlib.Core.Bool.{Bool, true, false, ◌&&◌}
use mathlib.Core.Logic.{◌↔◌}
use mathlib.Core.List.{List, [], ◌∷◌, ◌++◌, reverse, reverse-reverse, reverse-cons}
use native.Mathlib.Omega.{arith}
use native.Mathlib.Nat.{pow-suc}
use oxwifid.Base.Tests.{◌==◌}
use oxwifid.Base.Lists.{length, length-append, All, take, drop}

-- A `Vec<u8>`, a slice `&[u8]` or an array `[u8; N]`.
abbrev pub Octets : Type 0
Octets = List ℕ

abbrev pub IsOctet : ℕ → Type 0
IsOctet b = b < 256

-- `a == b` on octet strings. `constant_time_eq` has this value too.
unfoldable pub bytes_eq : Octets → Octets → Bool
bytes_eq [] [] = true
bytes_eq [] (b ∷ bs) = false
bytes_eq (a ∷ as') [] = false
bytes_eq (a ∷ as') (b ∷ bs) = (a == b) && bytes_eq as' bs

pub bytes_eq_refl : (a : Octets) → bytes_eq a a ≡ true
unfolding bytes_eq
bytes_eq_refl [] = refl
bytes_eq_refl (a ∷ as') = ground (arith, bytes_eq_refl as')

pub bytes_eq→eq : (a b : Octets) → bytes_eq a b ≡ true → a ≡ b
unfolding bytes_eq
bytes_eq→eq [] [] h = refl
bytes_eq→eq [] (b ∷ bs) h = cc
bytes_eq→eq (a ∷ as') [] h = cc
bytes_eq→eq (a ∷ as') (b ∷ bs) h = ground (arith, bytes_eq→eq as' bs)

pub bytes_eq_iff : (a b : Octets) → (bytes_eq a b ≡ true) ↔ (a ≡ b)
bytes_eq_iff a b = (bytes_eq→eq a b, λ e. rw e (bytes_eq_refl b))

-- `x.to_le_bytes()` of an integer of `k` octets, and `from_le_bytes`.
unfoldable pub le_bytes : ℕ → ℕ → Octets
le_bytes zero n = []
le_bytes (suc k) n = (n % 256) ∷ le_bytes k (n / 256)

unfoldable pub le_value : Octets → ℕ
le_value [] = 0
le_value (b ∷ bs) = b + 256 * le_value bs

-- `x.to_be_bytes()` of an integer of `k` octets, and `from_be_bytes`.
unfoldable pub be_bytes : ℕ → ℕ → Octets
unfolding le_bytes
be_bytes k n = reverse (le_bytes k n)

unfoldable pub be_value : Octets → ℕ
unfolding le_value
be_value bs = le_value (reverse bs)

pub length-le_bytes : (k n : ℕ) → length (le_bytes k n) ≡ k
unfolding le_bytes
length-le_bytes zero n = refl
length-le_bytes (suc k) n = ap suc (length-le_bytes k (n / 256))

pub length-reverse {ℓ} : {A : Type ℓ} (xs : List A) → length (reverse xs) ≡ length xs
length-reverse [] = refl
length-reverse (x ∷ xs) =
    omega
      (arith, ap length (reverse-cons x xs), length-append (reverse xs) (x ∷ []), length-reverse xs)

pub length-be_bytes : (k n : ℕ) → length (be_bytes k n) ≡ k
unfolding be_bytes
length-be_bytes k n = length-reverse (le_bytes k n) ∙ length-le_bytes k n

pub le_value-le_bytes : (k n : ℕ) → n < 256 ^ k → le_value (le_bytes k n) ≡ n
unfolding le_bytes le_value
le_value-le_bytes zero n h = omega arith
le_value-le_bytes (suc k) n h =
    omega (arith, le_value-le_bytes k (n / 256) (omega (arith, pow-suc 256 k)))

pub be_value-be_bytes : (k n : ℕ) → n < 256 ^ k → be_value (be_bytes k n) ≡ n
unfolding be_bytes be_value
be_value-be_bytes k n h = ap le_value (reverse-reverse (le_bytes k n)) ∙ le_value-le_bytes k n h

pub le_bytes-IsOctet : (k n : ℕ) → All IsOctet (le_bytes k n)
unfolding le_bytes
le_bytes-IsOctet zero n = tt
le_bytes-IsOctet (suc k) n = (omega arith, le_bytes-IsOctet k (n / 256))

-- What is read from octets fits the width.
pub le_value_bound : (bs : Octets) → All IsOctet bs → le_value bs < 256 ^ length bs
unfolding le_value
le_value_bound [] h = omega arith
le_value_bound (b ∷ bs) h = omega (arith, le_value_bound bs h.1, h.0, pow-suc 256 (length bs))

pub le_bytes-le_value :
    (bs : Octets) (k : ℕ) → All IsOctet bs → length bs ≡ k → le_bytes k (le_value bs) ≡ bs
unfolding le_bytes le_value
le_bytes-le_value [] zero h l = refl
le_bytes-le_value [] (suc k) h l = absurd (omega arith)
le_bytes-le_value (b ∷ bs) zero h l = absurd (omega arith)
le_bytes-le_value (b ∷ bs) (suc k) (o, os) l =
    let low : (b + 256 * le_value bs) % 256 ≡ b = omega arith in
    let high : (b + 256 * le_value bs) / 256 ≡ le_value bs = omega arith in
    rw (low, high, le_bytes-le_value bs k os (omega arith)) refl

module _ {ℓ κ} {A : Type ℓ} (P : A → Type κ) where
  pub All-append : (xs ys : List A) → All P xs → All P ys → All P (xs ++ ys)
  All-append [] ys h g = g
  All-append (x ∷ xs) ys (p, h) g = (p, All-append xs ys h g)

  pub All-reverse : (xs : List A) → All P xs → All P (reverse xs)
  All-reverse [] h = tt
  All-reverse (x ∷ xs) (p, h) =
      rw (reverse-cons x xs) (All-append (reverse xs) (x ∷ []) (All-reverse xs h) (p, tt))

  pub All-take : (n : ℕ) (xs : List A) → All P xs → All P (take n xs)
  All-take zero xs h = tt
  All-take (suc n) [] h = tt
  All-take (suc n) (x ∷ xs) (p, h) = (p, All-take n xs h)

  pub All-drop : (n : ℕ) (xs : List A) → All P xs → All P (drop n xs)
  All-drop zero xs h = h
  All-drop (suc n) [] h = tt
  All-drop (suc n) (x ∷ xs) (p, h) = All-drop n xs h

pub be_bytes-be_value :
    (bs : Octets) (k : ℕ) → All IsOctet bs → length bs ≡ k → be_bytes k (be_value bs) ≡ bs
unfolding be_bytes be_value
be_bytes-be_value bs k h l =
    ap reverse (le_bytes-le_value (reverse bs) k (All-reverse IsOctet bs h) (length-reverse bs ∙ l))
    ∙ reverse-reverse bs

pub be_bytes-IsOctet : (k n : ℕ) → All IsOctet (be_bytes k n)
unfolding be_bytes
be_bytes-IsOctet k n = All-reverse IsOctet (le_bytes k n) (le_bytes-IsOctet k n)

pub be_value_bound : (bs : Octets) → All IsOctet bs → be_value bs < 256 ^ length bs
unfolding be_value
be_value_bound bs h =
    rw (← length-reverse bs) (le_value_bound (reverse bs) (All-reverse IsOctet bs h))
