-- ===== src/Base/Chunks.antt =====
-- An octet string as the chunks it was written from: where each chunk starts, and reading it back.
use Prim.Native.Nat.{ℕ, zero, suc, ◌+◌}
use mathlib.Core.Path.{◌≡◌, refl, ap, ◌∙◌}
use mathlib.Core.List.{List, [], ◌∷◌, ◌++◌}
use mathlib.Core.Option.{some}
use native.Mathlib.Omega.{arith}
use oxwifid.Base.Lists.{length, get_elem?, slice, slice_skip, take-append, length-append}
use oxwifid.Base.Bytes.{Octets}

abbrev pub join : List Octets → Octets
join [] = []
join (c ∷ cs) = c ++ join cs

-- The octets before chunk `i`.
abbrev pub offset : List Octets → ℕ → ℕ
offset cs zero = 0
offset [] (suc i) = 0
offset (c ∷ cs) (suc i) = length c + offset cs i

pub slice-join :
    (cs : List Octets) (i start len : ℕ) (c : Octets)
    → get_elem? cs i ≡ some c
    → offset cs i ≡ start
    → length c ≡ len
    → slice start len (join cs) ≡ c
slice-join [] i start len c e o l = cc
slice-join (d ∷ cs) zero start len c e o l =
    let same : d ≡ c = cc in rw (← o) (take-append d (join cs) len (ap length same ∙ l) ∙ same)
slice-join (d ∷ cs) (suc i) start len c e o l = rw (← o) (
    slice_skip d (join cs) (length d) (offset cs i) len refl
    ∙ slice-join cs i (offset cs i) len c e refl l)

abbrev pub total : List Octets → ℕ
total [] = 0
total (c ∷ cs) = length c + total cs

pub length-join : (cs : List Octets) → length (join cs) ≡ total cs
length-join [] = refl
length-join (c ∷ cs) = omega (arith, length-append c (join cs), length-join cs)
