-- ===== src/GroupKeys/Bip.antt =====
-- src/group_keys/management.rs and handshake.rs: BIP, the protection of group-addressed management
-- frames by an element with a packet number and a MIC.
pub mod RoundTrip
use oxwifid.Base.{
  ℕ, ◌+◌, ◌-◌, Bool, true, false, not, Option, none, some, [], ◌∷◌, ◌++◌, Octets, length, take,
  drop, slice, ltb, if◌then◌else◌, bytes_eq, le_bytes, le_value, get_or, replicate,
}
use Prim.Native.Nat.{bit_and}
use oxwifid.Security.{Digests}
use oxwifid.Frames.{type_mgmt, dot11_header}
use oxwifid.Frames.Management.{subtype_deauth}

unfoldable pub bip_aad : ℕ → ℕ → Octets → Octets → Octets → Octets
bip_aad fc0 fc1 a1 a2 a3 = fc0 ∷ bit_and fc1 0xc7 ∷ (a1 ++ (a2 ++ a3))

-- The element before its MIC: type, length, key id and packet number.
abbrev pub mme_head : ℕ → Octets → Octets
mme_head key_id ipn = 76 ∷ 16 ∷ (le_bytes 2 key_id ++ ipn)

unfoldable pub bip_protect :
    Digests → Octets → ℕ → Octets → ℕ → ℕ → Octets → Octets → Octets → Octets → Octets
unfolding le_bytes
bip_protect d igtk key_id ipn fc0 fc1 a1 a2 a3 body =
    let head = body ++ mme_head key_id ipn in
    head ++ take 8 (d.cmac igtk (bip_aad fc0 fc1 a1 a2 a3 ++ (head ++ replicate 8 0)))

abbrev pub mme_offset : Octets → ℕ
mme_offset b = length b - 18

abbrev pub ends_with_mme : Octets → Bool
ends_with_mme b = bytes_eq (slice (mme_offset b) 2 b) (76 ∷ 16 ∷ [])

unfoldable pub bip_verify : Digests → Octets → ℕ → ℕ → Octets → Octets → Octets → Octets → Bool
bip_verify d igtk fc0 fc1 a1 a2 a3 b =
    let zeroed = take (mme_offset b + 10) b ++ replicate 8 0 in
    if ltb (length b) 18
    then false
    else if not (ends_with_mme b)
    then false
    else bytes_eq (take 8 (d.cmac igtk (bip_aad fc0 fc1 a1 a2 a3 ++ zeroed)))
        (slice (mme_offset b + 10) 8 b)

unfoldable pub bip_ipn : Octets → Option ℕ
bip_ipn b =
    if ltb (length b) 18
    then none
    else if not (ends_with_mme b)
    then none
    else some (le_value (slice (mme_offset b + 4) 6 b))

unfoldable pub build_group_deauth_bip : Digests → Octets → Octets → ℕ → Octets → ℕ → ℕ → Octets
unfolding le_bytes
build_group_deauth_bip d bssid igtk key_id ipn reason sc =
    let bcast = replicate 6 255 in
    let hdr = dot11_header type_mgmt subtype_deauth 0 bcast bssid bssid sc in
    hdr
    ++ bip_protect d igtk key_id ipn (get_or hdr 0 0) (get_or hdr 1 0) bcast bssid bssid
        (le_bytes 2 reason)
