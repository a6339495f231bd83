-- ===== src/GroupKeys/Find.antt =====
-- src/group_keys/kde.rs: `find_vendor_kde`, the walk over the elements of the Key Data.
pub mod Elements
use oxwifid.Base.{
  ℕ, zero, suc, ◌+◌, Bool, ◌&&◌, Option, none, some, [], ◌∷◌, Octets, length, take, drop, slice,
  get_or, ltb, leb, ◌==◌, if◌then◌else◌, bytes_eq,
}

-- Does the element hold the KDE of this type (00-0F-AC:type)?
unfoldable pub is_vendor_kde : ℕ → Octets → ℕ → Bool
unfolding bytes_eq
is_vendor_kde id body kde_type =
    id == 0xdd
    && (leb 4 (length body)
        && (bytes_eq (take 3 body) (0x00 ∷ 0x0f ∷ 0xac ∷ []) && get_or body 3 0 == kde_type))

-- The `while` loop; the list is `key_data[offset..]`, and `end` is `len` past its second octet. Each
-- round takes two octets at least, so the length of the Key Data is fuel enough.
unfoldable pub find_loop : ℕ → Octets → ℕ → Option Octets
find_loop zero rest kde_type = none
find_loop (suc fuel) rest kde_type =
    let id = get_or rest 0 0 in
    let len = get_or rest 1 0 in
    let body = slice 2 len rest in
    let later = find_loop fuel (drop len (drop 2 rest)) kde_type in
    if ltb (length rest) 2
    then none
    else if ltb (length rest) (2 + len)
    then none
    else if is_vendor_kde id body kde_type
    then some body
    else later

unfoldable pub find_vendor_kde : Octets → ℕ → Option Octets
find_vendor_kde key_data kde_type = find_loop (length key_data) key_data kde_type
