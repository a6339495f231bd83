-- ===== src/Rsn.antt =====
-- src/auth/rsn.rs and src/auth/wpa3/owe.rs: the RSN elements that a station sends, and the
-- Operating Channel Information KDE.
pub mod Parse
pub mod Tails
pub mod Negotiation
use oxwifid.Base.{
  ℕ, zero, suc, ◌+◌, ◌%◌, Bool, ◌&&◌, Option, none, some, [], ◌∷◌, Octets, length, take, drop,
  slice, get_or, ltb, leb, ◌==◌, if◌then◌else◌, bytes_eq,
}
use oxwifid.Frames.Channels.{is_5ghz}

abbrev pub rsn_head : ℕ → Octets → Octets
rsn_head len rest =
    0x30 ∷ len ∷ 0x01 ∷ 0x00 ∷ 0x00 ∷ 0x0f ∷ 0xac ∷ 0x04 ∷ 0x01 ∷ 0x00 ∷ 0x00 ∷ 0x0f ∷ 0xac ∷ 0x04
    ∷ 0x01 ∷ 0x00 ∷ 0x00 ∷ 0x0f ∷ 0xac ∷ rest

abbrev pub rsn : Octets
rsn = rsn_head 0x14 (0x02 ∷ 0x00 ∷ 0x00 ∷ [])

abbrev pub rsn_psk_sha256 : Octets
rsn_psk_sha256 = rsn_head 0x14 (0x06 ∷ 0x00 ∷ 0x00 ∷ [])

abbrev pub rsn_owe : Octets
rsn_owe = rsn_head 0x14 (0x12 ∷ 0xc0 ∷ 0x00 ∷ [])

abbrev pub rsn_wpa3 : Octets
rsn_wpa3 = rsn_head 0x1a (0x08 ∷ 0xc0 ∷ 0x00 ∷ 0x00 ∷ 0x00 ∷ 0x00 ∷ 0x0f ∷ 0xac ∷ 0x06 ∷ [])

-- src/mlo/handshake.rs
abbrev pub amld_rsn_sae : Octets
amld_rsn_sae = rsn_head 0x1a (0x08 ∷ 0xcc ∷ 0x00 ∷ 0x00 ∷ 0x00 ∷ 0x00 ∷ 0x0f ∷ 0xac ∷ 0x0c ∷ [])

abbrev pub rsnxe_h2e : Octets
rsnxe_h2e = 0xf4 ∷ 0x01 ∷ 0x20 ∷ []

unfoldable pub oci_kde : ℕ → ℕ → Octets
oci_kde op_class channel = 0xdd ∷ 7 ∷ 0x00 ∷ 0x0f ∷ 0xac ∷ 0x0d ∷ op_class ∷ channel ∷ 0x00 ∷ []

-- The `while` loop of `parse_oci_kde`; the list is `key_data[i..]`.
unfoldable pub parse_oci_loop : ℕ → Octets → Option (ℕ × ℕ)
unfolding bytes_eq
parse_oci_loop zero rest = none
parse_oci_loop (suc fuel) rest =
    let len = get_or rest 1 0 in
    let body = slice 2 len rest in
    let later = parse_oci_loop fuel (drop len (drop 2 rest)) in
    if ltb (length rest) 2
    then none
    else if ltb (length rest) (2 + len)
    then none
    else if get_or rest 0 0 == 0xdd
        && (leb 7 len
            && (bytes_eq (take 3 body) (0x00 ∷ 0x0f ∷ 0xac ∷ []) && get_or body 3 0 == 0x0d))
    then some (get_or body 4 0, get_or body 5 0)
    else later

unfoldable pub parse_oci_kde : Octets → Option (ℕ × ℕ)
unfolding parse_oci_loop
parse_oci_kde key_data = parse_oci_loop (length key_data) key_data

abbrev pub within : ℕ → ℕ → ℕ → Bool
within lo hi x = leb lo x && leb x hi

-- Class numbers for 40 MHz channels at 5 GHz. `rem_euclid(8)` of `channel - 36`, which may be
-- negative, is that of `channel + 4`.
unfoldable pub class_40mhz : ℕ → ℕ
class_40mhz channel =
    let lower = (channel + 4) % 8 == 0 in
    if within 36 48 channel
    then if lower then 116 else 117
    else if within 52 64 channel
    then if lower then 119 else 120
    else if within 100 144 channel
    then if lower then 122 else 123
    else if lower
    then 126
    else 127

unfoldable pub operating_class : ℕ → ℕ → Bool → ℕ
unfolding is_5ghz class_40mhz
operating_class channel width band6 =
    if band6
    then if width == 320
      then 137
      else if width == 160
      then 134
      else if width == 80
      then 133
      else if width == 40
      then 132
      else 131
    else if is_5ghz channel
    then if width == 160
      then 129
      else if width == 80
      then 128
      else if width == 40
      then class_40mhz channel
      else if within 36 48 channel
      then 115
      else if within 52 64 channel
      then 118
      else if within 100 144 channel
      then 121
      else 124
    else if width == 40
    then 83
    else 81

unfoldable pub oci_class_matches_band : ℕ → ℕ → Bool → Bool
unfolding is_5ghz
oci_class_matches_band op_class channel band6 =
    if band6
    then within 131 137 op_class
    else if is_5ghz channel
    then within 115 130 op_class
    else within 81 84 op_class
