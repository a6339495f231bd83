-- ===== src/Rsn/Negotiation.antt =====
-- src/auth/rsn.rs: what an access point makes of the RSN element in an association request. A
-- `Result<_, u16>` is a sum of the value and the status code.
pub mod Spec
pub mod Soundness
use oxwifid.Base.{
  ℕ, zero, suc, ◌+◌, ◌*◌, ◌-◌, ◌/◌, ◌%◌, Bool, true, false, not, ◌&&◌, ◌||◌, Option, none, some,
  List, [], ◌∷◌, ◌++◌, ◌⊎◌, inl, inr, Octets, length, take, drop, slice, get_or, set, ltb, leb,
  ◌==◌, if◌then◌else◌, ◌>>=◌, is_some, bytes_eq, le_bytes, le_value,
}
use mathlib.Core.Option
use oxwifid.Security.{DataCipher, suite_type}
use DataCipher.{ccmp128, ccmp256}
use oxwifid.Security.EapolKey.{bit_set}
use oxwifid.Rsn.Parse.{RsnInfo, parse_rsn, rsn_suite}
use oxwifid.Rsn.Tails.{SecurityMode}
use SecurityMode.{wpa2, wpa2_psk_sha256, wpa3_sae, transition, owe}

abbrev pub contains : List Octets → Octets → Bool
contains [] suite = false
contains (s ∷ ss) suite = bytes_eq s suite || contains ss suite

abbrev pub status_invalid_ie : ℕ
status_invalid_ie = 40

abbrev pub status_invalid_akmp : ℕ
status_invalid_akmp = 43

-- The first of the access point's ciphers that the element offers.
unfoldable pub first_common : List Octets → List DataCipher → Option DataCipher
first_common pairwise [] = none
first_common pairwise (c ∷ cs) =
    if contains pairwise (rsn_suite (suite_type c)) then some c else first_common pairwise cs

-- Whether the key management suites of the element serve in the mode.
unfoldable pub akm_supported : SecurityMode → List Octets → Bool
akm_supported wpa2 akms = contains akms (rsn_suite 2)
akm_supported wpa2_psk_sha256 akms = contains akms (rsn_suite 2) || contains akms (rsn_suite 6)
akm_supported wpa3_sae akms = contains akms (rsn_suite 8)
akm_supported transition akms =
    contains akms (rsn_suite 2) || (contains akms (rsn_suite 6) || contains akms (rsn_suite 8))
akm_supported owe akms = contains akms (rsn_suite 18)

unfoldable pub needs_pmf : SecurityMode → List Octets → Bool
needs_pmf wpa3_sae akms = true
needs_pmf owe akms = true
needs_pmf transition akms = contains akms (rsn_suite 8) && not (contains akms (rsn_suite 2))
needs_pmf _ akms = false

-- `caps & 0x00c0 == 0x00c0`.
abbrev pub requires_pmf : Option ℕ → Bool
requires_pmf none = false
requires_pmf (some caps) = bit_set caps 6 && bit_set caps 7

abbrev pub check_selected : RsnInfo → SecurityMode → DataCipher → DataCipher ⊎ ℕ
check_selected info mode selected =
    if not (bytes_eq info.group (rsn_suite 4))
    then inr status_invalid_ie
    else if not (akm_supported mode info.akms)
    then inr status_invalid_akmp
    else if needs_pmf mode info.akms && not (requires_pmf info.capabilities)
    then inr status_invalid_ie
    else inl selected

abbrev pub check_common : RsnInfo → SecurityMode → Option DataCipher → DataCipher ⊎ ℕ
check_common info mode none = inr status_invalid_ie
check_common info mode (some selected) = check_selected info mode selected

abbrev pub check_info : SecurityMode → List DataCipher → Option RsnInfo → DataCipher ⊎ ℕ
check_info mode supported none = inr status_invalid_ie
check_info mode supported (some info) =
    check_common info mode (first_common info.pairwise supported)

unfoldable pub negotiate_assoc_pairwise_cipher :
    Octets → SecurityMode → List DataCipher → DataCipher ⊎ ℕ
negotiate_assoc_pairwise_cipher body mode supported =
    if bytes_eq body (1 ∷ 0 ∷ [])
    then inr status_invalid_akmp
    else check_info mode supported (parse_rsn body)

abbrev check_psk_sha256 : DataCipher → Option RsnInfo → Option ℕ
check_psk_sha256 cipher none = some status_invalid_ie
check_psk_sha256 cipher (some info) =
    if not (bytes_eq info.group (rsn_suite 4))
      || not (contains info.pairwise (rsn_suite (suite_type cipher)))
    then some status_invalid_ie
    else if not (contains info.akms (rsn_suite 6))
    then some status_invalid_akmp
    else none

-- The error of `validate_psk_sha256_rsn_for_cipher`, if there is one.
unfoldable pub validate_psk_sha256_rsn_for_cipher : Octets → DataCipher → Option ℕ
validate_psk_sha256_rsn_for_cipher body cipher = check_psk_sha256 cipher (parse_rsn body)

-- `caps & 0x20 != 0` of the first octet.
unfoldable pub rsnxe_has_sae_h2e : Octets → Bool
rsnxe_has_sae_h2e [] = false
rsnxe_has_sae_h2e (b ∷ bs) = bit_set b 5

abbrev lists_eq : List Octets → List Octets → Bool
lists_eq [] [] = true
lists_eq (a ∷ as') (b ∷ bs) = bytes_eq a b && lists_eq as' bs
lists_eq _ _ = false

abbrev numbers_eq : Option ℕ → Option ℕ → Bool
numbers_eq none none = true
numbers_eq (some a) (some b) = a == b
numbers_eq _ _ = false

abbrev pub octets_eq : Option Octets → Option Octets → Bool
octets_eq none none = true
octets_eq (some a) (some b) = bytes_eq a b
octets_eq _ _ = false

abbrev infos_match : Option RsnInfo → Option RsnInfo → Bool
infos_match (some a) (some m2) =
    bytes_eq a.group m2.group
    && (lists_eq a.pairwise m2.pairwise
        && (lists_eq a.akms m2.akms
            && (numbers_eq a.capabilities m2.capabilities && octets_eq a.group_mgmt m2.group_mgmt)))
infos_match _ _ = false

unfoldable pub rsn_negotiation_matches : Octets → Octets → Bool
rsn_negotiation_matches association message_2 =
    infos_match (parse_rsn association) (parse_rsn message_2)
