-- ===== src/Client/GroupKeys.antt =====
-- src/client/group_keys.rs: the installation of group keys.
pub mod Reinstall
use oxwifid.Base.{
  ℕ, Bool, true, false, not, ◌&&◌, Option, none, some, Octets, length, ltb, ◌==◌, if◌then◌else◌,
  ◌>>=◌, is_some, bytes_eq, le_value, replicate, ◌++◌,
}
use mathlib.Core.Option
use oxwifid.GroupKeys.Kde.{parse_gtk_kde_full, parse_mlo_gtk_kde_full}
use oxwifid.GroupKeys.Management.{
  parse_igtk_kde, parse_bigtk_kde, parse_mlo_igtk_kde, parse_mlo_bigtk_kde,
}
use oxwifid.Client.{Client}

unfoldable pub packet_number : Octets → ℕ
packet_number bytes = le_value (bytes ++ replicate 2 0)

-- `a.or_else(|| b)`.
abbrev pub or_else {ℓ} : {A : Type ℓ} → Option A → Option A → Option A
or_else none b = b
or_else (some a) b = some a

-- The key id, the packet number and the key of a GTK of 16 octets.
abbrev plain_gtk : ℕ → ℕ × Octets → Option (ℕ × ℕ × Octets)
plain_gtk key_rsc (key_id, gtk) = if length gtk == 16 then some (key_id, key_rsc, gtk) else none

abbrev mlo_gtk : ℕ × ℕ × Octets × Octets → Option (ℕ × ℕ × Octets)
mlo_gtk (link_id, key_id, pn, gtk) =
    if length gtk == 16 then some (key_id, packet_number pn, gtk) else none

unfoldable pub received_gtk : Octets → ℕ → Option (ℕ × ℕ × Octets)
received_gtk unwrapped key_rsc =
    or_else (parse_gtk_kde_full unwrapped >>= plain_gtk key_rsc)
      (parse_mlo_gtk_kde_full unwrapped >>= mlo_gtk)

abbrev without_link : ℕ × ℕ × Octets × Octets → ℕ × Octets × Octets
without_link (link_id, id, ipn, key) = (id, ipn, key)

unfoldable pub received_igtk : Octets → Option (ℕ × Octets × Octets)
received_igtk unwrapped =
    or_else (parse_igtk_kde unwrapped) (Option.map without_link (parse_mlo_igtk_kde unwrapped))

abbrev key_of : ℕ × Octets × Octets → Octets
key_of (id, ipn, key) = key

abbrev mlo_key_of : ℕ × ℕ × Octets × Octets → Octets
mlo_key_of (link_id, id, ipn, key) = key

unfoldable pub received_bigtk : Octets → Option Octets
received_bigtk unwrapped =
    or_else (Option.map key_of (parse_bigtk_kde unwrapped))
      (Option.map mlo_key_of (parse_mlo_bigtk_kde unwrapped))

-- `held == Some(key)`.
abbrev pub same_key : Option Octets → Octets → Bool
same_key none key = false
same_key (some held) key = bytes_eq held key

-- A key that is already installed leaves its replay window alone.
unfoldable pub install_gtk : ℕ × ℕ × Octets → Client → Client
install_gtk (key_id, rsc, gtk) c =
    if c.gtk_set && bytes_eq c.gtk gtk
    then c
    else record c { gtk = gtk; gtk_set = true; gtk_key_id = key_id; last_rx_gpn = replicate 17 rsc }

unfoldable pub install_igtk : Option (ℕ × Octets × Octets) → Client → Client
install_igtk none c = c
install_igtk (some (id, ipn, igtk)) c =
    if same_key c.igtk igtk
    then c
    else record c { igtk = some igtk; igtk_key_id = some id; last_rx_igtk_ipn = packet_number ipn }

unfoldable pub install_bigtk : Option Octets → Client → Client
install_bigtk none c = c
install_bigtk (some bigtk) c = if same_key c.bigtk bigtk then c else record c { bigtk = some bigtk }

abbrev pub install_received :
    Client → Option (ℕ × Octets × Octets) → Option Octets → ℕ × ℕ × Octets → Option Client
install_received c igtk bigtk gtk =
    if is_some c.sae_pmk && not (is_some igtk)
    then none
    else some (install_bigtk bigtk (install_igtk igtk (install_gtk gtk c)))

-- `none` is the result `false`, before which nothing is written.
unfoldable pub install_group_keys : Octets → ℕ → Client → Option Client
install_group_keys unwrapped key_rsc c =
    if ltb 0x0000ffffffffffff key_rsc
    then none
    else (received_gtk unwrapped key_rsc
        >>= install_received c (received_igtk unwrapped) (received_bigtk unwrapped))
