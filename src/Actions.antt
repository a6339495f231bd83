-- ===== src/Actions.antt =====
-- src/action_frames and src/roaming: action frames, their bodies, and the elements they carry.
pub mod RoundTrip
pub mod Twt
use oxwifid.Base.{
  ℕ, ◌*◌, Bool, ◌&&◌, Option, none, some, [], ◌∷◌, ◌++◌, Octets, length, slice, get_or, leb, ◌==◌,
  if◌then◌else◌, le_bytes, le_value, replicate,
}
use oxwifid.Security.{DataCipher}
use oxwifid.Frames.{fc_tods}
use oxwifid.Frames.Data.{Ciphers}
use oxwifid.Frames.Elements.{ie}
use oxwifid.Frames.Management.{build_protected_mgmt_sec, subtype_action}

-- `SUBTYPE_ACTION << 4 | TYPE_MGMT << 2` is 0xd0.
unfoldable pub build_action_frame : Octets → Octets → Octets → ℕ → Octets → Octets
unfolding le_bytes
build_action_frame a1 a2 a3 sc body =
    0xd0 ∷ 0 ∷ 0 ∷ 0 ∷ (a1 ++ (a2 ++ (a3 ++ (le_bytes 2 sc ++ body))))

abbrev pub category_sa_query : ℕ
category_sa_query = 8

abbrev pub sa_query_request : ℕ
sa_query_request = 0

abbrev pub sa_query_response : ℕ
sa_query_response = 1

-- The body of a query with its transaction identifier.
unfoldable pub sa_query_body : Bool → ℕ → Octets
unfolding le_bytes
sa_query_body response transaction_id =
    category_sa_query
    ∷ (if response then sa_query_response else sa_query_request)
    ∷ le_bytes 2 transaction_id

unfoldable pub build_protected_sa_query_for_cipher_sec :
    Ciphers
    → DataCipher
    → Octets
    → Octets
    → Bool
    → Bool
    → ℕ
    → ℕ
    → ℕ
    → Octets
    → Option (Octets × Octets × Octets)
    → Option Octets
build_protected_sa_query_for_cipher_sec c cipher bssid peer to_ds response transaction_id sc pn tk
      sec_addrs =
    let a1 = if to_ds then bssid else peer in
    let a2 = if to_ds then peer else bssid in
    build_protected_mgmt_sec c cipher subtype_action a1 a2 bssid sec_addrs
      (if to_ds then fc_tods else 0) sc pn 0 tk (sa_query_body response transaction_id)

unfoldable pub parse_sa_query : Octets → Option (ℕ × ℕ)
parse_sa_query body =
    if leb 4 (length body) && get_or body 0 0 == category_sa_query
    then some (get_or body 1 0, le_value (slice 2 2 body))
    else none

abbrev pub category_wnm : ℕ
category_wnm = 10

abbrev pub wnm_btm_request : ℕ
wnm_btm_request = 7

abbrev pub wnm_btm_response : ℕ
wnm_btm_response = 8

unfoldable pub btm_request_body : ℕ → ℕ → ℕ → ℕ → Octets → Octets
unfolding le_bytes
btm_request_body dialog_token request_mode disassociation_timer validity candidates =
    category_wnm
    ∷ wnm_btm_request
    ∷ dialog_token
    ∷ request_mode
    ∷ (le_bytes 2 disassociation_timer ++ (validity ∷ candidates))

unfoldable pub parse_btm_response : Octets → Option (ℕ × ℕ)
parse_btm_response body =
    if leb 4 (length body)
      && (get_or body 0 0 == category_wnm && get_or body 1 0 == wnm_btm_response)
    then some (get_or body 2 0, get_or body 3 0)
    else none

unfoldable pub build_protected_btm_request_for_cipher_sec :
    Ciphers
    → DataCipher
    → Octets
    → Octets
    → ℕ
    → Bool
    → ℕ
    → ℕ
    → ℕ
    → Octets
    → Option (Octets × Octets × Octets)
    → Option Octets
unfolding le_bytes
build_protected_btm_request_for_cipher_sec c cipher bssid sta dialog disassoc_imminent
      disassoc_timer sc pn tk sec_addrs =
    let mode = if disassoc_imminent then 0x04 else 0x00 in
    build_protected_mgmt_sec c cipher subtype_action sta bssid bssid sec_addrs 0 sc pn 0 tk
      (category_wnm ∷ wnm_btm_request ∷ dialog ∷ mode ∷ (le_bytes 2 disassoc_timer ++ (0 ∷ [])))

unfoldable pub neighbor_report_element : Octets → ℕ → ℕ → Octets
unfolding ie
neighbor_report_element bssid operating_class channel =
    ie 52 (bssid ++ (0 ∷ 0 ∷ 0 ∷ 0 ∷ operating_class ∷ channel ∷ 0x09 ∷ []))

unfoldable pub build_protected_neighbor_report_for_cipher_sec :
    Ciphers
    → DataCipher
    → Octets
    → Octets
    → ℕ
    → Octets
    → ℕ
    → ℕ
    → Octets
    → Option (Octets × Octets × Octets)
    → Option Octets
build_protected_neighbor_report_for_cipher_sec c cipher bssid sta dialog neighbors sc pn tk
      sec_addrs =
    build_protected_mgmt_sec c cipher subtype_action sta bssid bssid sec_addrs 0 sc pn 0 tk
      (5 ∷ 5 ∷ dialog ∷ neighbors)

unfoldable pub reduced_neighbor_report : Octets → ℕ → ℕ → Octets
unfolding ie
reduced_neighbor_report neighbor_bssid op_class channel =
    ie 201 (
      0x00
      ∷ 13
      ∷ op_class
      ∷ channel
      ∷ 0xff
      ∷ (neighbor_bssid ++ (0 ∷ 0 ∷ 0 ∷ 0 ∷ 0x00 ∷ 0x00 ∷ [])))
