-- ===== src/GroupKeys/Find/Elements.antt =====
-- `find_vendor_kde` against the list of elements that the Key Data encodes.
use oxwifid.Base.{
  ℕ, zero, suc, ◌≤◌, ◌<◌, ◌≡◌, ◌∙◌, ap, sym, refl, true, Option, none, some, List, [], ◌∷◌, ◌++◌,
  arith, Octets, length, take, drop, length-append, length-drop, take-append, drop-append, ltb,
  lt→ltb, if◌then◌else◌, leb_not_ltb,
}
use mathlib.Core.List.{append_assoc}
use oxwifid.GroupKeys.Find.{is_vendor_kde, find_loop, find_vendor_kde}

-- One information element or KDE.
pub record Element : Type 0 where
  pub id : ℕ
  pub body : Octets

abbrev pub encode : Element → Octets
encode e = e.id ∷ length e.body ∷ e.body

abbrev pub encode_all : List Element → Octets
encode_all [] = []
encode_all (e ∷ es) = encode e ++ encode_all es

-- The body of the first KDE of a type in a list of elements, or else what `rest` gives.
abbrev pub first_kde : List Element → ℕ → Option Octets → Option Octets
first_kde [] t rest = rest
first_kde (e ∷ es) t rest = if is_vendor_kde e.id e.body t then some e.body else first_kde es t rest

short : (fuel : ℕ) (rest : Octets) (t : ℕ) → length rest < 2 → find_loop fuel rest t ≡ none
unfolding find_loop
short zero rest t h = refl
short (suc fuel) rest t h = rw (lt→ltb (length rest) 2 h)

step :
    (fuel id len : ℕ) (xs : Octets) (t : ℕ)
    → find_loop (suc fuel) (id ∷ len ∷ xs) t ≡ (
        if ltb (length xs) len
        then none
        else if is_vendor_kde id (take len xs) t
        then some (take len xs)
        else find_loop fuel (drop len xs) t)
unfolding find_loop
step fuel id len xs t = ground arith

-- More fuel than octets makes no difference.
find_loop_fuel :
    (m n : ℕ) (rest : Octets) (t : ℕ)
    → length rest ≤ m
    → length rest ≤ n
    → find_loop m rest t ≡ find_loop n rest t
find_loop_fuel m n [] t hm hn = short m [] t (omega arith) ∙ sym (short n [] t (omega arith))
find_loop_fuel m n (x ∷ []) t hm hn =
    short m (x ∷ []) t (omega arith) ∙ sym (short n (x ∷ []) t (omega arith))
find_loop_fuel zero n (x ∷ y ∷ xs) t hm hn = absurd (omega arith)
find_loop_fuel (suc m) zero (x ∷ y ∷ xs) t hm hn = absurd (omega arith)
find_loop_fuel (suc m) (suc n) (x ∷ len ∷ xs) t hm hn =
    rw (step m x len xs t, step n x len xs t)
      (rw (
        find_loop_fuel m n (drop len xs) t (omega (arith, length-drop len xs))
          (omega (arith, length-drop len xs))))

find_step :
    (e : Element) (rest : Octets) (t : ℕ)
    → find_vendor_kde (encode e ++ rest) t
      ≡ (if is_vendor_kde e.id e.body t then some e.body else find_vendor_kde rest t)
unfolding find_vendor_kde
find_step e rest t =
    step (suc (length (e.body ++ rest))) e.id (length e.body) (e.body ++ rest) t
    ∙ rw
        (
          leb_not_ltb (length (e.body ++ rest)) (length e.body)
              (omega (arith, length-append e.body rest)),
          take-append e.body rest (length e.body) refl,
          drop-append e.body rest (length e.body) refl,
        )
        (rw (
          find_loop_fuel (suc (length (e.body ++ rest))) (length rest) rest t
            (omega (arith, length-append e.body rest)) (omega arith)))

-- On Key Data that starts with the encodings of `es`, the search gives the body of the first KDE of
-- that type among `es`, and goes on in the rest if there is none.
pub find-encode_all :
    (es : List Element) (rest : Octets) (t : ℕ)
    → find_vendor_kde (encode_all es ++ rest) t ≡ first_kde es t (find_vendor_kde rest t)
find-encode_all [] rest t = refl
find-encode_all (e ∷ es) rest t =
    ap (λ l. find_vendor_kde l t) (append_assoc (encode e) (encode_all es) rest)
    ∙ find_step e (encode_all es ++ rest) t
    ∙ rw (find-encode_all es rest t)

first_kde-none :
    (es : List Element) (t : ℕ) (r : Option Octets)
    → first_kde es t none ≡ none
    → first_kde es t r ≡ r
first_kde-none [] t r h = refl
first_kde-none (e ∷ es) t r h = ground (arith, first_kde-none es t r)

-- Behind elements that hold no KDE of a type, the first one of that type is found.
pub found_after :
    (es : List Element) (e : Element) (rest : Octets) (t : ℕ)
    → first_kde es t none ≡ none
    → is_vendor_kde e.id e.body t ≡ true
    → find_vendor_kde (encode_all es ++ (encode e ++ rest)) t ≡ some e.body
found_after es e rest t fresh hit =
    find-encode_all es (encode e ++ rest) t
    ∙ first_kde-none es t _ fresh
    ∙ find_step e rest t
    ∙ rw hit

-- The vendor element 00-0F-AC:`t` is taken for the KDE of type `t`.
pub kde_hit : (t : ℕ) (xs : Octets) → is_vendor_kde 0xdd (0x00 ∷ 0x0f ∷ 0xac ∷ t ∷ xs) t ≡ true
unfolding is_vendor_kde
kde_hit t xs = ground arith
