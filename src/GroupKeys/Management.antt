-- ===== src/GroupKeys/Management.antt =====
-- src/group_keys/management.rs: the IGTK and BIGTK KDEs, with and without a link id.
pub mod RoundTrip
use oxwifid.Base.{
  ℕ, ◌+◌, ◌*◌, ◌/◌, ◌%◌, Bool, true, false, Option, none, some, [], ◌∷◌, ◌++◌, Octets, length,
  slice, get_or, ltb, if◌then◌else◌, ◌>>=◌, le_bytes, le_value,
}
use oxwifid.Security.{as_u16}
use mathlib.Core.Option
use oxwifid.GroupKeys.Find.{find_vendor_kde}

-- The octet of the link id, where there is one.
abbrev pub link_octets : Option ℕ → Octets
link_octets none = []
link_octets (some link_id) = (link_id % 16 * 16) ∷ []

abbrev pub management_key_body : ℕ → ℕ → Octets → Option ℕ → Octets → Octets
management_key_body kde_type key_id ipn link_id key =
    0x00 ∷ 0x0f ∷ 0xac ∷ kde_type ∷ (le_bytes 2 key_id ++ (ipn ++ (link_octets link_id ++ key)))

unfoldable pub management_key_kde : ℕ → ℕ → Octets → Option ℕ → Octets → Octets
unfolding le_bytes
management_key_kde kde_type key_id ipn link_id key =
    let body = management_key_body kde_type key_id ipn link_id key in
    0xdd ∷ (length body % 256) ∷ body

unfoldable pub igtk_kde : ℕ → Octets → Octets → Octets
unfolding management_key_kde
igtk_kde key_id ipn igtk = management_key_kde 0x09 key_id ipn none igtk

unfoldable pub bigtk_kde : ℕ → Octets → Octets → Octets
unfolding management_key_kde
bigtk_kde key_id ipn bigtk = management_key_kde 0x0e key_id ipn none bigtk

unfoldable pub mlo_igtk_kde : ℕ → ℕ → Octets → Octets → Octets
unfolding management_key_kde
mlo_igtk_kde link_id key_id ipn igtk = management_key_kde 0x11 key_id ipn (some link_id) igtk

unfoldable pub mlo_bigtk_kde : ℕ → ℕ → Octets → Octets → Octets
unfolding management_key_kde
mlo_bigtk_kde link_id key_id ipn bigtk = management_key_kde 0x12 key_id ipn (some link_id) bigtk

-- What the body of a management-key KDE holds.
unfoldable pub read_management_key : Bool → Octets → Option (ℕ × ℕ × Octets × Octets)
read_management_key mlo body =
    let key_id = le_value (slice 4 2 body) in
    let ipn = slice 6 6 body in
    if ltb (length body) (28 + as_u16 mlo)
    then none
    else if mlo
    then some (get_or body 12 0 / 16 % 16, key_id, ipn, slice 13 16 body)
    else some (0, key_id, ipn, slice 12 16 body)

unfoldable pub parse_management_key_kde : Octets → ℕ → Bool → Option (ℕ × ℕ × Octets × Octets)
unfolding read_management_key
parse_management_key_kde key_data kde_type mlo =
    find_vendor_kde key_data kde_type >>= read_management_key mlo

-- What the callers that have no link id drop.
abbrev without_link : ℕ × ℕ × Octets × Octets → ℕ × Octets × Octets
without_link (link_id, key_id, ipn, key) = (key_id, ipn, key)

unfoldable pub parse_igtk_kde : Octets → Option (ℕ × Octets × Octets)
unfolding parse_management_key_kde
parse_igtk_kde key_data = Option.map without_link (parse_management_key_kde key_data 0x09 false)

unfoldable pub parse_bigtk_kde : Octets → Option (ℕ × Octets × Octets)
unfolding parse_management_key_kde
parse_bigtk_kde key_data = Option.map without_link (parse_management_key_kde key_data 0x0e false)

unfoldable pub parse_mlo_igtk_kde : Octets → Option (ℕ × ℕ × Octets × Octets)
unfolding parse_management_key_kde
parse_mlo_igtk_kde key_data = parse_management_key_kde key_data 0x11 true

unfoldable pub parse_mlo_bigtk_kde : Octets → Option (ℕ × ℕ × Octets × Octets)
unfolding parse_management_key_kde
parse_mlo_bigtk_kde key_data = parse_management_key_kde key_data 0x12 true
