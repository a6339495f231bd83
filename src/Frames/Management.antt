-- ===== src/Frames/Management.antt =====
-- src/frames/management.rs and src/frames/data.rs: authentication and deauthentication frames, and
-- the protection of management frames under the pairwise key.
pub mod RoundTrip
use oxwifid.Base.{
  ℕ, ◌-◌, ◌%◌, ◌^◌, Option, none, some, [], ◌∷◌, ◌++◌, Octets, length, take, drop, get_or, ltb,
  if◌then◌else◌, ◌>>=◌, le_bytes,
}
use mathlib.Core.Option
use Prim.Native.Nat.{bit_or}
use oxwifid.Security.{DataCipher}
use oxwifid.Frames.{type_mgmt, dot11_header}
use oxwifid.Frames.Dot11.{Dot11, priority, ccmp_pn, ccmp_data}
use oxwifid.Frames.Data.{
  Ciphers, ccmp_get_aad, ccmp_header, ccm_tag_len, encrypt_data_payload, decrypt_data_payload,
}

abbrev pub subtype_auth : ℕ
subtype_auth = 11

abbrev pub subtype_deauth : ℕ
subtype_deauth = 12

abbrev pub subtype_action : ℕ
subtype_action = 13

abbrev pub fc_protected : ℕ
fc_protected = 0x40

unfoldable pub build_auth : Octets → Octets → ℕ → Octets
unfolding dot11_header le_bytes
build_auth bssid dst sc =
    dot11_header type_mgmt subtype_auth 0 dst bssid bssid sc
    ++ (le_bytes 2 0 ++ (le_bytes 2 2 ++ le_bytes 2 0))

unfoldable pub build_auth_reject : Octets → Octets → ℕ → ℕ → Octets
unfolding dot11_header le_bytes
build_auth_reject bssid dst sc status =
    dot11_header type_mgmt subtype_auth 0 dst bssid bssid sc
    ++ (le_bytes 2 0 ++ (le_bytes 2 2 ++ le_bytes 2 status))

unfoldable pub build_deauth : Octets → Octets → ℕ → Octets
unfolding dot11_header le_bytes
build_deauth bssid dst reason =
    dot11_header type_mgmt subtype_deauth 0 dst bssid bssid 0 ++ le_bytes 2 reason

-- The addresses of the nonce and the AAD.
abbrev pub sec_or :
    Option (Octets × Octets × Octets) → Octets → Octets → Octets → Octets × Octets × Octets
sec_or none a1 a2 a3 = (a1, a2, a3)
sec_or (some sec) a1 a2 a3 = sec

-- The code panics where the cipher refuses the key's length; here the result is `none`.
unfoldable pub build_protected_mgmt_sec :
    Ciphers
    → DataCipher
    → ℕ
    → Octets
    → Octets
    → Octets
    → Option (Octets × Octets × Octets)
    → ℕ
    → ℕ
    → ℕ
    → ℕ
    → Octets
    → Octets
    → Option Octets
build_protected_mgmt_sec c cipher subtype a1 a2 a3 sec_addrs extra_flags sc pn key_id tk body =
    let frame = dot11_header type_mgmt subtype (bit_or extra_flags fc_protected) a1 a2 a3 sc in
    let (sa1, sa2, sa3) = sec_or sec_addrs a1 a2 a3 in
    let aad = ccmp_get_aad (get_or frame 0 0) (get_or frame 1 0) sa1 sa2 sa3 sc none in
    Option.map (λ e. frame ++ (ccmp_header pn key_id ++ (e.0 ++ e.1)))
      (encrypt_data_payload c cipher tk 0 sa2 pn aad body)

-- The body of a protected management frame, from the octets behind the CCMP header.
unfoldable pub open_mgmt :
    Ciphers → DataCipher → Dot11 → Octets → Octets × Octets × Octets → ℕ → Octets → Option Octets
open_mgmt c cipher f tk (sa1, sa2, sa3) pn protected_data =
    let aad =
      ccmp_get_aad f.fc0 f.fc1 sa1 sa2 sa3 f.sc (Option.map (λ (q : ℕ). priority f) f.qos) in
    let n = length protected_data - ccm_tag_len cipher in
    if ltb (length protected_data) (ccm_tag_len cipher)
    then none
    else decrypt_data_payload c cipher tk (priority f) sa2 pn aad (take n protected_data)
        (drop n protected_data)

unfoldable pub decrypt_protected_mgmt_sec :
    Ciphers → DataCipher → Dot11 → Octets → Option (Octets × Octets × Octets) → Option Octets
decrypt_protected_mgmt_sec c cipher f tk sec_addrs = do
  pn ← ccmp_pn f
  protected_data ← ccmp_data f
  open_mgmt c cipher f tk (sec_or sec_addrs f.addr1 f.addr2 f.addr3) pn protected_data

unfoldable pub build_protected_deauth_for_cipher_sec :
    Ciphers
    → DataCipher
    → Octets
    → Octets
    → ℕ
    → ℕ
    → ℕ
    → Octets
    → Option (Octets × Octets × Octets)
    → Option Octets
unfolding le_bytes
build_protected_deauth_for_cipher_sec c cipher bssid sta reason sc pn tk sec_addrs =
    build_protected_mgmt_sec c cipher subtype_deauth sta bssid bssid sec_addrs 0 sc pn 0 tk
      (le_bytes 2 reason)
