-- ===== src/Eapol/Messages.antt =====
-- src/auth/eapol.rs, src/mlo/keys.rs and src/group_keys/handshake.rs: the EAPOL-Key messages.
use oxwifid.Base.{ℕ, true, Option, none, some, [], ◌∷◌, ◌++◌, Octets, replicate}
use oxwifid.Security.{KeyInfo, KeyMic, Digests, default_key_info, version, compute}
use oxwifid.Frames.{dot11_header, llc_snap, type_data, fc_fromds, fc_tods, ethertype_eapol}
use oxwifid.Eapol.{build_eapol_key_body, build_eapol_key_body_with_rsc, eapol_wrap}
use oxwifid.Rsn.{oci_kde}
use oxwifid.Crypto.KeyWrap.{BlockCipher, aes_wrap, pad_key_data}
use oxwifid.GroupKeys.Kde.{gtk_kde}
use oxwifid.GroupKeys.Management.{igtk_kde, bigtk_kde}

unfoldable pub eapol_data_header : Octets → Octets → ℕ → Octets
unfolding dot11_header llc_snap
eapol_data_header bssid sta sc =
    dot11_header type_data 0 fc_fromds sta bssid bssid sc ++ llc_snap ethertype_eapol

unfoldable pub eapol_data_header_tods : Octets → Octets → ℕ → Octets
unfolding dot11_header llc_snap
eapol_data_header_tods bssid sta sc =
    dot11_header type_data 0 fc_tods bssid sta bssid sc ++ llc_snap ethertype_eapol

-- A body built with a zero MIC, and again with the MIC of the first one in its EAPOL header.
abbrev pub with_mic : Digests → KeyMic → Octets → (Octets → Octets) → Octets
with_mic d mic kck body = body (compute d mic kck (eapol_wrap (body (replicate 16 0))))

abbrev pub oci_octets : Option (ℕ × ℕ) → Octets
oci_octets none = []
oci_octets (some (op_class, channel)) = oci_kde op_class channel

unfoldable pub mac_addr_kde : Octets → Octets
mac_addr_kde mac = 0xdd ∷ 10 ∷ 0x00 ∷ 0x0f ∷ 0xac ∷ 0x03 ∷ mac

unfoldable pub build_eapol_m1_with_key_data :
    Octets → Octets → Octets → ℕ → ℕ → KeyMic → ℕ → Octets → Octets
unfolding eapol_data_header
build_eapol_m1_with_key_data bssid sta anonce replay_counter sc mic key_length key_data =
    let ki : KeyInfo = record default_key_info {
      key_ack = true;
      key_type = true;
      key_descriptor_type_version = version mic;
    } in
    eapol_data_header bssid sta sc
    ++ eapol_wrap
        (build_eapol_key_body ki key_length replay_counter anonce (replicate 16 0) key_data)

unfoldable pub build_eapol_m2 :
    Digests → Octets → Octets → Octets → Octets → Octets → ℕ → ℕ → KeyMic → Option (ℕ × ℕ) → Octets
unfolding eapol_data_header_tods
build_eapol_m2 d bssid sta snonce kck supp_rsn replay_counter sc mic oci =
    let ki : KeyInfo = record default_key_info {
      has_key_mic = true;
      key_type = true;
      key_descriptor_type_version = version mic;
    } in
    let key_data = supp_rsn ++ oci_octets oci in
    eapol_data_header_tods bssid sta sc
    ++ eapol_wrap
        (with_mic d mic kck (λ m. build_eapol_key_body ki 0 replay_counter snonce m key_data))

-- The MAC Address KDE of an MLD station.
abbrev pub mld_octets : Option Octets → Octets
mld_octets none = []
mld_octets (some mld) = mac_addr_kde mld

unfoldable pub build_eapol_m4_mld :
    Digests → Octets → Octets → Octets → ℕ → ℕ → KeyMic → Option Octets → Octets
unfolding eapol_data_header_tods
build_eapol_m4_mld d bssid sta kck replay_counter sc mic mld_mac =
    let ki : KeyInfo = record default_key_info {
      secure = true;
      has_key_mic = true;
      key_type = true;
      key_descriptor_type_version = version mic;
    } in
    eapol_data_header_tods bssid sta sc
    ++ eapol_wrap (
        with_mic d mic kck
          (λ m. build_eapol_key_body ki 0 replay_counter (replicate 32 0) m (mld_octets mld_mac)))

unfoldable pub build_group_key_msg2 : Digests → Octets → Octets → Octets → ℕ → ℕ → KeyMic → Octets
unfolding eapol_data_header_tods
build_group_key_msg2 d bssid sta kck replay sc mic =
    let ki : KeyInfo = record default_key_info {
      secure = true;
      has_key_mic = true;
      key_descriptor_type_version = version mic;
    } in
    eapol_data_header_tods bssid sta sc
    ++ eapol_wrap (with_mic d mic kck (λ m. build_eapol_key_body ki 0 replay (replicate 32 0) m []))

-- The KDE of an IGTK or a BIGTK, where there is one: key id, packet number and key.
abbrev pub key_octets : (ℕ → Octets → Octets → Octets) → Option (ℕ × Octets × Octets) → Octets
key_octets kde none = []
key_octets kde (some (key_id, ipn, key)) = kde key_id ipn key

-- Message 3 as a bit pattern, and its Key Data before the padding.
abbrev pub m3_key_info : KeyMic → KeyInfo
m3_key_info mic = record {
  encrypted_key_data = true;
  secure = true;
  has_key_mic = true;
  key_ack = true;
  install = true;
  key_type = true;
  key_descriptor_type_version = version mic;
}

abbrev pub m3_key_data :
    Octets
    → ℕ
    → Octets
    → Option (ℕ × Octets × Octets)
    → Option (ℕ × Octets × Octets)
    → Option (ℕ × ℕ)
    → Octets
m3_key_data ap_rsn gtk_key_id gtk igtk bigtk oci =
    ap_rsn
    ++ (gtk_kde gtk_key_id gtk
        ++ (key_octets igtk_kde igtk ++ (key_octets bigtk_kde bigtk ++ oci_octets oci)))

unfoldable pub build_eapol_m3_for_key_length_with_rsc :
    Digests
    → BlockCipher
    → Octets
    → Octets
    → Octets
    → Octets
    → Octets
    → Octets
    → ℕ
    → ℕ
    → ℕ
    → KeyMic
    → ℕ
    → Octets
unfolding eapol_data_header
build_eapol_m3_for_key_length_with_rsc d c bssid sta anonce kck kek plain key_rsc replay_counter sc
      mic key_length =
    let keydata = aes_wrap c kek (pad_key_data plain) in
    eapol_data_header bssid sta sc
    ++ eapol_wrap (
        with_mic d mic kck (λ m.
          build_eapol_key_body_with_rsc (m3_key_info mic) key_length replay_counter anonce key_rsc m
            keydata))
