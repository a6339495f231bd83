-- ===== src/Frames/Elements/Agreement.antt =====
-- The strict searches of src/frames/information_elements/common.rs against the lenient one.
use oxwifid.Base.{
  ℕ, zero, suc, ◌≡◌, sym, arith, Bool, false, Option, none, some, Octets, length, drop, slice,
  get_or, bytes_eq→eq, bytes_eq, Bool-cases, inl, inr, ◌⊎◌,
}
use oxwifid.Frames.Elements.{
  find_ie_loop, find_ie, strict_loop, repeated, conflicting, find_ie_strict, find_ie_consistent,
}

-- A clash is reported for every second value but the same one.
abbrev Strict : (Option Octets → Octets → Bool) → Type 0
Strict clash = (v value : Octets) → clash (some v) value ≡ false → value ≡ v

repeated-Strict : Strict repeated
repeated-Strict v value h = absurd (cc)

conflicting-Strict : Strict conflicting
conflicting-Strict v value h = elim (Bool-cases (bytes_eq v value)) [
  | inl e ↦ sym (bytes_eq→eq v value e)
  | inr e ↦ absurd (ground arith)
]

module _ (clash : Option Octets → Octets → Bool) (strict : Strict clash) (id : ℕ) where
  -- What was found first is what is returned.
  strict_found :
      (fuel : ℕ) (v : Octets) (rest : Octets) (o : Option Octets)
      → strict_loop clash fuel id (some v) rest ≡ some o
      → some v ≡ o
  unfolding strict_loop
  strict_found zero v rest o h = cc
  strict_found (suc fuel) v rest o h =
      let len : ℕ = get_or rest 1 0 in
      let next : Octets = drop len (drop 2 rest) in
      ground (
        arith,
        strict v (slice 2 len rest),
        strict_found fuel v next o,
        strict_found fuel (slice 2 len rest) next o,
      )

  strict_agrees :
      (fuel : ℕ) (rest : Octets) (o : Option Octets)
      → strict_loop clash fuel id none rest ≡ some o
      → find_ie_loop fuel id rest ≡ o
  unfolding strict_loop find_ie_loop
  strict_agrees zero rest o h = cc
  strict_agrees (suc fuel) rest o h =
      let len : ℕ = get_or rest 1 0 in
      let next : Octets = drop len (drop 2 rest) in
      ground (arith, strict_agrees fuel next o, strict_found fuel (slice 2 len rest) next o)

-- An element search of association requests and of message 2 that succeeds, be it the one that
-- refuses repeated elements or the one that refuses conflicting ones, gives what the lenient search
-- gives.
pub strict_agreement :
    (ies : Octets) (id : ℕ) (o : Option Octets)
    → (find_ie_strict ies id ≡ some o) ⊎ (find_ie_consistent ies id ≡ some o)
    → find_ie ies id ≡ o
unfolding find_ie_strict find_ie_consistent find_ie
strict_agreement ies id o (inl h) = strict_agrees repeated repeated-Strict id (length ies) ies o h
strict_agreement ies id o (inr h) =
    strict_agrees conflicting conflicting-Strict id (length ies) ies o h
