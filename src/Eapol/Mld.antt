-- ===== src/Eapol/Mld.antt =====
-- src/mlo/keys.rs, src/auth/eapol.rs and src/group_keys/handshake.rs: the KDEs and the key messages of
-- a multi-link access point, and message 1 of the group-key handshake.
use oxwifid.Base.{
  ℕ, zero, suc, ◌+◌, ◌%◌, Bool, true, ◌&&◌, ◌||◌, false, Option, none, some, List, [], ◌∷◌, ◌++◌,
  Octets, length, take, drop, slice, get_or, ltb, leb, ◌==◌, if◌then◌else◌, bytes_eq, replicate,
  le_bytes,
}
use oxwifid.Security.{KeyInfo, KeyMic, Digests, default_key_info, version}
use oxwifid.Eapol.{build_eapol_key_body_with_rsc, eapol_wrap}
use oxwifid.Eapol.Messages.{
  eapol_data_header, with_mic, oci_octets, mac_addr_kde, key_octets, m3_key_info,
}
use oxwifid.Crypto.KeyWrap.{BlockCipher, aes_wrap, pad_key_data}
use oxwifid.GroupKeys.Kde.{gtk_kde, mlo_gtk_kde_with_pn}
use oxwifid.GroupKeys.Management.{igtk_kde, mlo_igtk_kde, mlo_bigtk_kde}

-- The list is `key_data[i..]`; a turn takes two octets at least.
unfoldable pub mac_addr_loop : ℕ → Octets → Option Octets
mac_addr_loop zero rest = none
mac_addr_loop (suc fuel) rest =
    let len = get_or rest 1 0 in
    let body = slice 2 len rest in
    let later = mac_addr_loop fuel (drop len (drop 2 rest)) in
    if ltb (length rest) 2
    then none
    else if ltb (length rest) (2 + len)
    then none
    else if get_or rest 0 0 == 0xdd
        && (leb 10 len
            && (bytes_eq (take 3 body) (0x00 ∷ 0x0f ∷ 0xac ∷ []) && get_or body 3 0 == 0x03))
    then some (slice 4 6 body)
    else later

unfoldable pub parse_mac_addr_kde : Octets → Option Octets
parse_mac_addr_kde key_data = mac_addr_loop (length key_data) key_data

-- Whether an element of this id is among the elements at the start of the list.
unfoldable pub has_element : ℕ → ℕ → Octets → Bool
has_element zero id rest = false
has_element (suc fuel) id rest =
    let len = get_or rest 1 0 in
    let later = has_element fuel id (drop len (drop 2 rest)) in
    if ltb (length rest) 2
    then false
    else if ltb (length rest) (2 + len)
    then false
    else get_or rest 0 0 == id || later

-- The bits that `|=` sets are apart, so they are added.
unfoldable pub mlo_link_kde : ℕ → Octets → Octets → Octets
mlo_link_kde link_id link_mac link_rsne =
    let rsne = if has_element (length link_rsne) 48 link_rsne then 0x10 else 0 in
    let rsnxe = if has_element (length link_rsne) 0xf4 link_rsne then 0x20 else 0 in
    0xdd
    ∷ ((11 + length link_rsne) % 256)
    ∷ 0x00
    ∷ 0x0f
    ∷ 0xac
    ∷ 0x13
    ∷ (link_id % 16 + rsne + rsnxe)
    ∷ (link_mac ++ link_rsne)

-- A link: its id, its address and the RSN elements of its access point.
abbrev pub Link : Type 0
Link = ℕ × Octets × Octets

-- One KDE for each link id.
abbrev pub per_link : (ℕ → Octets) → List ℕ → Octets
per_link kde [] = []
per_link kde (l ∷ ls) = kde l ++ per_link kde ls

abbrev pub link_kdes : List Link → Octets
link_kdes [] = []
link_kdes ((id, mac, rsne) ∷ ls) = mlo_link_kde id mac rsne ++ link_kdes ls

abbrev pub link_ids : List Link → List ℕ
link_ids [] = []
link_ids ((id, mac, rsne) ∷ ls) = id ∷ link_ids ls

-- The KDEs of a key for every link, where there is a key.
abbrev pub keys_per_link :
    (ℕ → ℕ → Octets → Octets → Octets) → List ℕ → Option (ℕ × Octets × Octets) → Octets
keys_per_link kde links none = []
keys_per_link kde links (some (key_id, ipn, key)) = per_link (λ l. kde l key_id ipn key) links

-- The group keys for every link: the GTK with its packet number, the IGTK and the BIGTK.
abbrev pub group_kdes :
    List ℕ → ℕ → Octets → ℕ → Option (ℕ × Octets × Octets) → Option (ℕ × Octets × Octets) → Octets
group_kdes links gtk_key_id gtk key_rsc igtk bigtk =
    per_link (λ l. mlo_gtk_kde_with_pn l gtk_key_id (take 6 (le_bytes 8 key_rsc)) gtk) links
    ++ (keys_per_link mlo_igtk_kde links igtk ++ keys_per_link mlo_bigtk_kde links bigtk)

abbrev pub m3_mld_key_data :
    Octets
    → List Link
    → ℕ
    → Octets
    → Option (ℕ × Octets × Octets)
    → Option (ℕ × Octets × Octets)
    → Option (ℕ × ℕ)
    → ℕ
    → Octets
m3_mld_key_data ap_mld_mac links gtk_key_id gtk igtk bigtk oci key_rsc =
    oci_octets oci
    ++ (mac_addr_kde ap_mld_mac
        ++ (link_kdes links ++ group_kdes (link_ids links) gtk_key_id gtk key_rsc igtk bigtk))

unfoldable pub build_eapol_m3_mld_links_with_rsc :
    Digests
    → BlockCipher
    → Octets
    → Octets
    → Octets
    → Octets
    → Octets
    → Octets
    → ℕ
    → ℕ
    → ℕ
    → KeyMic
    → Octets
unfolding eapol_data_header
build_eapol_m3_mld_links_with_rsc d c bssid sta anonce kck kek plain key_rsc replay_counter sc mic =
    let keydata = aes_wrap c kek (pad_key_data plain) in
    eapol_data_header bssid sta sc
    ++ eapol_wrap (
        with_mic d mic kck (λ m.
          build_eapol_key_body_with_rsc (m3_key_info mic) 16 replay_counter anonce key_rsc m
            keydata))

abbrev pub group_key_info : KeyMic → KeyInfo
group_key_info mic = record default_key_info {
  encrypted_key_data = true;
  secure = true;
  has_key_mic = true;
  key_ack = true;
  key_descriptor_type_version = version mic;
}

-- Message 1 of the group-key handshake around its Key Data.
unfoldable pub group_key_msg1 :
    Digests → BlockCipher → Octets → Octets → Octets → Octets → Octets → ℕ → ℕ → ℕ → KeyMic → Octets
unfolding eapol_data_header
group_key_msg1 d c bssid sta kck kek plain key_rsc replay sc mic =
    let keydata = aes_wrap c kek (pad_key_data plain) in
    eapol_data_header bssid sta sc
    ++ eapol_wrap (
        with_mic d mic kck (λ m.
          build_eapol_key_body_with_rsc (group_key_info mic) 0 replay (replicate 32 0) key_rsc m
            keydata))

unfoldable pub build_group_key_msg1_with_rsc :
    Digests
    → BlockCipher
    → Octets
    → Octets
    → Octets
    → Octets
    → ℕ
    → Octets
    → ℕ
    → Option (ℕ × Octets × Octets)
    → ℕ
    → ℕ
    → KeyMic
    → Octets
build_group_key_msg1_with_rsc d c bssid sta kck kek gtk_key_id gtk key_rsc igtk replay sc mic =
    group_key_msg1 d c bssid sta kck kek (gtk_kde gtk_key_id gtk ++ key_octets igtk_kde igtk)
      key_rsc replay sc mic

unfoldable pub build_group_key_msg1_mld_with_rsc :
    Digests
    → BlockCipher
    → Octets
    → Octets
    → Octets
    → Octets
    → List ℕ
    → ℕ
    → Octets
    → ℕ
    → Option (ℕ × Octets × Octets)
    → Option (ℕ × Octets × Octets)
    → ℕ
    → ℕ
    → KeyMic
    → Octets
build_group_key_msg1_mld_with_rsc d c bssid sta kck kek links gtk_key_id gtk key_rsc igtk bigtk
      replay sc mic =
    group_key_msg1 d c bssid sta kck kek (group_kdes links gtk_key_id gtk key_rsc igtk bigtk)
      key_rsc replay sc mic
