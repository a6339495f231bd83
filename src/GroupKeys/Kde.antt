-- ===== src/GroupKeys/Kde.antt =====
-- src/group_keys/kde.rs: the GTK KDE and the MLO GTK KDE.
pub mod RoundTrip
use oxwifid.Base.{
  ℕ, ◌+◌, ◌*◌, ◌/◌, ◌%◌, Option, none, some, ◌∷◌, ◌++◌, Octets, length, drop, slice, get_or, ltb,
  replicate, if◌then◌else◌, ◌>>=◌,
}
use mathlib.Core.Option
use oxwifid.GroupKeys.Find.{find_vendor_kde}

unfoldable pub gtk_kde : ℕ → Octets → Octets
gtk_kde key_id gtk =
    0xdd ∷ ((length gtk + 6) % 256) ∷ 0x00 ∷ 0x0f ∷ 0xac ∷ 0x01 ∷ (key_id % 4) ∷ 0x00 ∷ gtk

-- The key id and the link id are joined by `|` in separate bits, so the octet is their sum.
unfoldable pub mlo_gtk_kde_with_pn : ℕ → ℕ → Octets → Octets → Octets
mlo_gtk_kde_with_pn link_id key_id pn gtk =
    0xdd
    ∷ ((11 + length gtk) % 256)
    ∷ 0x00
    ∷ 0x0f
    ∷ 0xac
    ∷ 0x10
    ∷ (key_id % 4 + link_id % 16 * 16)
    ∷ (pn ++ gtk)

unfoldable pub mlo_gtk_kde : ℕ → ℕ → Octets → Octets
unfolding mlo_gtk_kde_with_pn
mlo_gtk_kde link_id key_id gtk = mlo_gtk_kde_with_pn link_id key_id (replicate 6 0) gtk

-- What the body of a GTK KDE holds.
unfoldable pub read_gtk : Octets → Option (ℕ × Octets)
read_gtk body = if ltb (length body) 22 then none else some (get_or body 4 0 % 4, drop 6 body)

unfoldable pub parse_gtk_kde_full : Octets → Option (ℕ × Octets)
unfolding read_gtk
parse_gtk_kde_full key_data = find_vendor_kde key_data 0x01 >>= read_gtk

unfoldable pub parse_gtk_kde : Octets → Option Octets
parse_gtk_kde key_data = Option.map (λ p. p.1) (parse_gtk_kde_full key_data)

-- What the body of an MLO GTK KDE holds.
unfoldable pub read_mlo_gtk : Octets → Option (ℕ × ℕ × Octets × Octets)
read_mlo_gtk body =
    if ltb (length body) 12
    then none
    else some (get_or body 4 0 / 16 % 16, get_or body 4 0 % 4, slice 5 6 body, drop 11 body)

unfoldable pub parse_mlo_gtk_kde_full : Octets → Option (ℕ × ℕ × Octets × Octets)
unfolding read_mlo_gtk
parse_mlo_gtk_kde_full key_data = find_vendor_kde key_data 0x10 >>= read_mlo_gtk
