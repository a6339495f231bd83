-- ===== src/Frames/Elements.antt =====
-- src/frames/information_elements/common.rs: the walks over the information elements of a frame. A
-- `Result` is an option, `none` for the error.
pub mod Agreement
use oxwifid.Base.{
  ℕ, zero, suc, ◌+◌, ◌%◌, Bool, true, false, ◌&&◌, Option, none, some, List, [], ◌∷◌, Octets,
  length, take, drop, slice, get_or, ltb, leb, ◌==◌, if◌then◌else◌, bytes_eq, is_some,
}

unfoldable pub ie : ℕ → Octets → Octets
ie id info = id ∷ (length info % 256) ∷ info

-- In each loop the list is `ies[i..]`, and a turn takes two octets at least.
unfoldable pub find_ie_loop : ℕ → ℕ → Octets → Option Octets
find_ie_loop zero id rest = none
find_ie_loop (suc fuel) id rest =
    let len = get_or rest 1 0 in
    let later = find_ie_loop fuel id (drop len (drop 2 rest)) in
    if ltb (length rest) 2
    then none
    else if ltb (length rest) (2 + len)
    then none
    else if get_or rest 0 0 == id
    then some (slice 2 len rest)
    else later

unfoldable pub find_ie : Octets → ℕ → Option Octets
find_ie ies id = find_ie_loop (length ies) id ies

-- `find_ssid` copies the body of the first element with id 0.
unfoldable pub find_ssid : Octets → Option Octets
find_ssid ies = find_ie_loop (length ies) 0 ies

-- The loop that both strict searches share: whether an element that is found besides `found` is an
-- error differs between them.
unfoldable pub strict_loop :
    (Option Octets → Octets → Bool) → ℕ → ℕ → Option Octets → Octets → Option (Option Octets)
strict_loop clash zero id found rest = some found
strict_loop clash (suc fuel) id found rest =
    let len = get_or rest 1 0 in
    let value = slice 2 len rest in
    let next = drop len (drop 2 rest) in
    let kept = strict_loop clash fuel id found next in
    let replaced = strict_loop clash fuel id (some value) next in
    if length rest == 0
    then some found
    else if ltb (length rest) 2
    then none
    else if ltb (length rest) (2 + len)
    then none
    else if get_or rest 0 0 == id
    then (if clash found value then none else replaced)
    else kept

-- `found.is_some()`, and `found.is_some_and(|previous| previous != value)`.
abbrev pub repeated : Option Octets → Octets → Bool
repeated found value = is_some found

abbrev pub conflicting : Option Octets → Octets → Bool
conflicting none value = false
conflicting (some previous) value = if bytes_eq previous value then false else true

unfoldable pub find_ie_strict : Octets → ℕ → Option (Option Octets)
find_ie_strict ies id = strict_loop repeated (length ies) id none ies

unfoldable pub find_ie_consistent : Octets → ℕ → Option (Option Octets)
find_ie_consistent ies id = strict_loop conflicting (length ies) id none ies

abbrev all_zero : Octets → Bool
all_zero [] = true
all_zero (b ∷ bs) = b == 0 && all_zero bs

-- How many octets stay in front of the padding `0xdd 00...`.
unfoldable pub unpadded : ℕ → Octets → ℕ
unpadded zero rest = length rest
unpadded (suc fuel) rest =
    let len = get_or rest 1 0 in
    let later = unpadded fuel (drop len (drop 2 rest)) in
    if ltb (length rest) 2
    then length rest
    else if ltb (length rest) (2 + len)
    then length rest
    else if get_or rest 0 0 == 0xdd && (len == 0 && all_zero (drop 2 rest))
    then 0
    else 2 + len + later

unfoldable pub trim_key_data_padding : Octets → Octets
trim_key_data_padding key_data = take (unpadded (length key_data) key_data) key_data

-- `has_wmm_ie`: a vendor element 00:50:F2 of type 2.
unfoldable pub wmm_loop : ℕ → Octets → Bool
wmm_loop zero rest = false
wmm_loop (suc fuel) rest =
    let len = get_or rest 1 0 in
    let later = wmm_loop fuel (drop len (drop 2 rest)) in
    if ltb (length rest) 2
    then false
    else if ltb (length rest) (2 + len)
    then false
    else if get_or rest 0 0 == 221
        && (leb 4 len && bytes_eq (slice 2 4 rest) (0x00 ∷ 0x50 ∷ 0xf2 ∷ 0x02 ∷ []))
    then true
    else later

unfoldable pub has_wmm_ie : Octets → Bool
has_wmm_ie ies = wmm_loop (length ies) ies
