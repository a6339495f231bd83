-- ===== src/Frames/Association/Verdict.antt =====
-- The RSN elements of a station's association requests, and how an access point negotiates them.
use oxwifid.Base.{
  ℕ, ◌≡◌, refl, Bool, true, false, Option, none, some, [], ◌∷◌, ◌⊎◌, inl, inr, Octets,
  if◌then◌else◌, bytes_eq, le_value,
}
use oxwifid.Security.{DataCipher, suite_type}
use DataCipher.{ccmp128, gcmp128, ccmp256, gcmp256}
use oxwifid.Frames.Association.{
  build_assoc_req_for_cipher, build_assoc_req_psk_sha256_for_cipher, build_assoc_req_sae_for_cipher,
}
use oxwifid.Rsn.Parse.{
  RsnInfo, parse_rsn, rsn_suite, take_u16, take_suite, take_suites, counted_suites, take_group_mgmt,
}
use oxwifid.Rsn.Tails.{SecurityMode}
use SecurityMode.{wpa2, wpa2_psk_sha256, wpa3_sae, transition, owe}
use oxwifid.Rsn.Negotiation.{
  first_common, akm_supported, needs_pmf, check_common, negotiate_assoc_pairwise_cipher,
}
use oxwifid.AccessPoint.State.{Ap}
use oxwifid.AccessPoint.Configuration.{security_mode, pairwise_ciphers, with_fallback}

-- The key management that a request asks for.
pub data Offer : Type 0 where
  psk psk_sha256 sae : Offer

abbrev pub request : Offer → Octets → Octets → Octets → ℕ → DataCipher → Octets
request psk = build_assoc_req_for_cipher
request psk_sha256 = build_assoc_req_psk_sha256_for_cipher
request sae = build_assoc_req_sae_for_cipher

-- An access point serves its own cipher, and one that is set to CCMP-256 also CCMP-128.
abbrev serves : DataCipher → DataCipher → Bool
serves ccmp128 ccmp128 = true
serves gcmp128 gcmp128 = true
serves gcmp256 gcmp256 = true
serves ccmp256 ccmp256 = true
serves ccmp256 ccmp128 = true
serves _ _ = false

-- The requests that each mode takes.
abbrev takes : SecurityMode → Offer → Bool
takes wpa2 psk = true
takes wpa2_psk_sha256 psk = true
takes wpa2_psk_sha256 psk_sha256 = true
takes wpa3_sae sae = true
takes transition _ = true
takes _ _ = false

-- The RSN element of each request, and what the parser reads from its body.
abbrev akm : Offer → ℕ
akm psk = 2
akm psk_sha256 = 6
akm sae = 8

abbrev capabilities : Offer → ℕ
capabilities psk = 0
capabilities psk_sha256 = 0
capabilities sae = 0xc0

abbrev group_mgmt : Offer → Octets
group_mgmt psk = []
group_mgmt psk_sha256 = []
group_mgmt sae = 0x00 ∷ 0x00 ∷ 0x00 ∷ 0x0f ∷ 0xac ∷ 0x06 ∷ []

abbrev pub rsn_body : Offer → DataCipher → Octets
rsn_body k d =
    0x01
    ∷ 0x00
    ∷ 0x00
    ∷ 0x0f
    ∷ 0xac
    ∷ 0x04
    ∷ 0x01
    ∷ 0x00
    ∷ 0x00
    ∷ 0x0f
    ∷ 0xac
    ∷ suite_type d
    ∷ 0x01
    ∷ 0x00
    ∷ 0x00
    ∷ 0x0f
    ∷ 0xac
    ∷ akm k
    ∷ capabilities k
    ∷ 0x00
    ∷ group_mgmt k

abbrev read_mgmt : Offer → Option Octets
read_mgmt psk = none
read_mgmt psk_sha256 = none
read_mgmt sae = some (0x00 ∷ 0x0f ∷ 0xac ∷ 0x06 ∷ [])

abbrev pub rsn_info : Offer → DataCipher → RsnInfo
rsn_info k d = record {
  group = 0x00 ∷ 0x0f ∷ 0xac ∷ 4 ∷ [];
  pairwise = (0x00 ∷ 0x0f ∷ 0xac ∷ suite_type d ∷ []) ∷ [];
  akms = (0x00 ∷ 0x0f ∷ 0xac ∷ akm k ∷ []) ∷ [];
  capabilities = some (capabilities k);
  group_mgmt = read_mgmt k;
}

pub parse_rsn-rsn_body :
    (k : Offer) (d : DataCipher) → parse_rsn (rsn_body k d) ≡ some (rsn_info k d)
unfolding parse_rsn take_u16 take_suite take_suites counted_suites take_group_mgmt le_value
    rsn_suite bytes_eq
parse_rsn-rsn_body psk d = refl
parse_rsn-rsn_body psk_sha256 d = refl
parse_rsn-rsn_body sae d = refl

first_common-serves :
    (p d : DataCipher)
    → first_common ((0x00 ∷ 0x0f ∷ 0xac ∷ suite_type d ∷ []) ∷ []) (with_fallback p)
      ≡ (if serves p d then some d else none)
unfolding first_common suite_type rsn_suite bytes_eq
first_common-serves ccmp128 ccmp128 = refl
first_common-serves ccmp128 gcmp128 = refl
first_common-serves ccmp128 ccmp256 = refl
first_common-serves ccmp128 gcmp256 = refl
first_common-serves gcmp128 ccmp128 = refl
first_common-serves gcmp128 gcmp128 = refl
first_common-serves gcmp128 ccmp256 = refl
first_common-serves gcmp128 gcmp256 = refl
first_common-serves ccmp256 ccmp128 = refl
first_common-serves ccmp256 gcmp128 = refl
first_common-serves ccmp256 ccmp256 = refl
first_common-serves ccmp256 gcmp256 = refl
first_common-serves gcmp256 ccmp128 = refl
first_common-serves gcmp256 gcmp128 = refl
first_common-serves gcmp256 ccmp256 = refl
first_common-serves gcmp256 gcmp256 = refl

-- The answer to a request: status 40 for the cipher, 43 for the key management.
abbrev pub verdict : Ap → Offer → DataCipher → DataCipher ⊎ ℕ
verdict point k d =
    if serves point.pairwise_cipher d
    then (if takes (security_mode point) k then inl d else inr 43)
    else inr 40

check_common-takes :
    (m : SecurityMode) (k : Offer) (d : DataCipher) (b : Bool)
    → check_common (rsn_info k d) m (if b then some d else none)
      ≡ (if b then (if takes m k then inl d else inr 43) else inr 40)
unfolding akm_supported needs_pmf rsn_suite bytes_eq
check_common-takes m k d false = refl
check_common-takes wpa2 psk d true = refl
check_common-takes wpa2 psk_sha256 d true = refl
check_common-takes wpa2 sae d true = refl
check_common-takes wpa2_psk_sha256 psk d true = refl
check_common-takes wpa2_psk_sha256 psk_sha256 d true = refl
check_common-takes wpa2_psk_sha256 sae d true = refl
check_common-takes wpa3_sae psk d true = refl
check_common-takes wpa3_sae psk_sha256 d true = refl
check_common-takes wpa3_sae sae d true = refl
check_common-takes transition psk d true = refl
check_common-takes transition psk_sha256 d true = refl
check_common-takes transition sae d true = refl
check_common-takes owe psk d true = refl
check_common-takes owe psk_sha256 d true = refl
check_common-takes owe sae d true = refl

pub negotiate-rsn_body :
    (point : Ap) (k : Offer) (d : DataCipher)
    → negotiate_assoc_pairwise_cipher (rsn_body k d) (security_mode point) (pairwise_ciphers point)
      ≡ verdict point k d
unfolding negotiate_assoc_pairwise_cipher bytes_eq pairwise_ciphers
negotiate-rsn_body point k d =
    rw (parse_rsn-rsn_body k d, first_common-serves point.pairwise_cipher d)
      (check_common-takes (security_mode point) k d (serves point.pairwise_cipher d))
