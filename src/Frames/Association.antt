-- ===== src/Frames/Association.antt =====
-- The association requests of src/auth/frames.rs with an explicit pairwise cipher, the WMM element
-- that src/client/configuration.rs puts behind them, and the part of `handle_assoc_req` in
-- src/ap/association.rs that chooses the cipher.
pub mod Verdict
pub mod Offers
pub mod Message2
use oxwifid.Base.{
  ℕ, Bool, ◌&&◌, Option, none, some, [], ◌∷◌, ◌++◌, ◌⊎◌, inl, inr, Octets, length, drop, set, ltb,
  ◌==◌, if◌then◌else◌, le_bytes,
}
use oxwifid.Security.{DataCipher, suite_type}
use oxwifid.Frames.{type_mgmt, dot11_header}
use oxwifid.Frames.Dot11.{Dot11, subtype}
use oxwifid.Frames.Elements.{ie, find_ie_strict}
use oxwifid.Rsn.{rsn_psk_sha256}
use oxwifid.Rsn.Tails.{SecurityMode, security_tail_for_cipher}
use SecurityMode.{wpa2, wpa3_sae}
use oxwifid.Rsn.Negotiation.{negotiate_assoc_pairwise_cipher, status_invalid_ie}
use oxwifid.AccessPoint.State.{Ap}
use oxwifid.AccessPoint.Configuration.{security_mode, pairwise_ciphers}

abbrev pub subtype_assoc_req : ℕ
subtype_assoc_req = 0

abbrev subtype_reassoc_req : ℕ
subtype_reassoc_req = 2

-- The station's fixed capabilities and its listen interval.
abbrev pub cap_3101 : Octets
cap_3101 = 0x31 ∷ 0x01 ∷ []

abbrev pub sta_listen_interval : ℕ
sta_listen_interval = 0x00c8

-- What the three builders share: the header, the fixed fields, the SSID and the rates.
abbrev pub assoc_req : Octets → Octets → Octets → ℕ → Octets → Octets
assoc_req bssid sta ssid sc tail =
    dot11_header type_mgmt subtype_assoc_req 0 bssid sta bssid sc
    ++ (cap_3101 ++ (le_bytes 2 sta_listen_interval ++ (ie 0 ssid ++ (ie 1 (0x0c ∷ []) ++ tail))))

unfoldable pub build_assoc_req_for_cipher : Octets → Octets → Octets → ℕ → DataCipher → Octets
build_assoc_req_for_cipher bssid sta ssid sc cipher =
    assoc_req bssid sta ssid sc (security_tail_for_cipher wpa2 cipher)

unfoldable pub build_assoc_req_psk_sha256_for_cipher :
    Octets → Octets → Octets → ℕ → DataCipher → Octets
build_assoc_req_psk_sha256_for_cipher bssid sta ssid sc cipher =
    assoc_req bssid sta ssid sc (set rsn_psk_sha256 13 (suite_type cipher))

unfoldable pub build_assoc_req_sae_for_cipher : Octets → Octets → Octets → ℕ → DataCipher → Octets
build_assoc_req_sae_for_cipher bssid sta ssid sc cipher =
    assoc_req bssid sta ssid sc (security_tail_for_cipher wpa3_sae cipher)

unfoldable pub wmm_information : Octets
wmm_information = ie 221 (0x00 ∷ 0x50 ∷ 0xf2 ∷ 0x02 ∷ 0x00 ∷ 0x01 ∷ 0x00 ∷ [])

-- `Client::with_wmm`; the first two arguments are `self.wmm` and `self.ap_wmm`.
unfoldable pub with_wmm : Bool → Bool → Octets → Octets
with_wmm wmm ap_wmm frame = if wmm && ap_wmm then frame ++ wmm_information else frame

-- The element 48 that the strict search finds; without one the request is refused.
abbrev pub negotiated_from : Ap → Option (Option Octets) → DataCipher ⊎ ℕ
negotiated_from ap (some (some rsn)) =
    negotiate_assoc_pairwise_cipher rsn (security_mode ap) (pairwise_ciphers ap)
negotiated_from ap _ = inr status_invalid_ie

-- The cipher that a request for association or reassociation gets, or the status that refuses it.
unfoldable pub assoc_pairwise : Dot11 → Ap → DataCipher ⊎ ℕ
assoc_pairwise frame ap =
    let ie_off = if subtype frame == subtype_reassoc_req then 10 else 4 in
    if ltb (length frame.body) ie_off
    then inr status_invalid_ie
    else negotiated_from ap (find_ie_strict (drop ie_off frame.body) 48)
