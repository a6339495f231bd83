-- ===== src/Frames/Association/Offers.antt =====
-- What an access point makes of the association requests that a station builds.
use oxwifid.Base.{
  Option, ℕ, suc, ◌-◌, ◌≤◌, ◌%◌, ◌^◌, ◌<◌, ◌≡◌, ◌∙◌, ap, refl, arith, Bool, true, false, ◌&&◌, none,
  some, [], ◌∷◌, ◌++◌, Octets, length, drop, ◌==◌, if◌then◌else◌, le_bytes, length-append,
  drop-append,
}
use mathlib.Core.Option
use mathlib.Core.List.{append_assoc}
use oxwifid.Security.{DataCipher}
use oxwifid.Frames.Dot11.{parse, subtype}
use oxwifid.Frames.Dot11.Built.{Header, IsPlain, octets, frame_of, parse-octets}
use oxwifid.Frames.Elements.{ie, find_ie_strict, strict_loop, repeated}
use oxwifid.Frames.Association.{
  build_assoc_req_for_cipher, build_assoc_req_psk_sha256_for_cipher, build_assoc_req_sae_for_cipher,
  with_wmm, wmm_information,
}
use oxwifid.Rsn.Tails.{security_tail_for_cipher}
use oxwifid.Frames.Association.Verdict.{Offer, request, rsn_body}
use Offer.{psk, psk_sha256, sae}

-- A search that has found nothing passes over an element with another id.
pub strict_loop-ie :
    (clash : Option Octets → Octets → Bool) (target fuel id : ℕ) (value rest : Octets)
    → length value < 256
    → (id == target) ≡ false
    → strict_loop clash (suc fuel) target none (ie id value ++ rest)
      ≡ strict_loop clash fuel target none rest
unfolding strict_loop ie
strict_loop-ie clash target fuel id value rest h other =
    let small : length value % 256 ≡ length value = omega (arith, h) in
    let behind : drop (length value) (value ++ rest) ≡ rest =
      drop-append value rest (length value) refl in
    rw (small, other, behind, length-append value rest) (ground arith)

-- What follows the SSID: the rates, the RSN element, and the elements behind it.
abbrev behind_rsn : Offer → Bool → Octets
behind_rsn psk b = if b then wmm_information else []
behind_rsn psk_sha256 b = if b then wmm_information else []
behind_rsn sae b = 0xf4 ∷ 0x01 ∷ 0x20 ∷ (if b then wmm_information else [])

abbrev pub behind_ssid : Offer → DataCipher → Bool → Octets
behind_ssid k d b =
    0x01 ∷ 0x01 ∷ 0x0c ∷ 0x30 ∷ length (rsn_body k d) ∷ (rsn_body k d ++ behind_rsn k b)

strict_loop-behind_ssid :
    (fuel : ℕ) (k : Offer) (d : DataCipher) (b : Bool)
    → strict_loop repeated (suc (suc (suc (suc (suc fuel))))) 48 none (behind_ssid k d b)
      ≡ some (some (rsn_body k d))
unfolding strict_loop wmm_information ie
strict_loop-behind_ssid fuel psk d true = refl
strict_loop-behind_ssid fuel psk d false = refl
strict_loop-behind_ssid fuel psk_sha256 d true = refl
strict_loop-behind_ssid fuel psk_sha256 d false = refl
strict_loop-behind_ssid fuel sae d true = refl
strict_loop-behind_ssid fuel sae d false = refl

six_more : (n : ℕ) → 6 ≤ n → n ≡ suc (suc (suc (suc (suc (suc (n - 6))))))
six_more n h = omega (arith, h)

-- A search behind the fixed fields comes to what follows the SSID with fuel for five turns.
pub past_ssid :
    (clash : Option Octets → Octets → Bool) (target : ℕ) (ssid : Octets) (k : Offer)
    (d : DataCipher) (b : Bool) (r : Option (Option Octets))
    → length ssid < 256
    → (0 == target) ≡ false
    → ((fuel : ℕ)
        → strict_loop clash (suc (suc (suc (suc (suc fuel))))) target none (behind_ssid k d b) ≡ r)
    → strict_loop clash
        (length (ie 0 ssid ++ behind_ssid k d b))
        target
        none
        (ie 0 ssid ++ behind_ssid k d b)
      ≡ r
unfolding ie
past_ssid clash target ssid k d b r h other rest =
    let n : ℕ = length (ie 0 ssid ++ behind_ssid k d b) in
    ap (λ m. strict_loop clash m target none (ie 0 ssid ++ behind_ssid k d b)) (six_more n long)
    ∙ (strict_loop-ie clash target _ 0 ssid (behind_ssid k d b) h other ∙ rest _)
  where
    long : 6 ≤ length (ie 0 ssid ++ behind_ssid k d b)
    long = rw (length-append ssid (behind_ssid k d b)) (omega arith)

pub find_ie_strict-request :
    (ssid : Octets) (k : Offer) (d : DataCipher) (b : Bool)
    → length ssid < 256
    → find_ie_strict (ie 0 ssid ++ behind_ssid k d b) 48 ≡ some (some (rsn_body k d))
unfolding find_ie_strict
find_ie_strict-request ssid k d b h =
    past_ssid repeated 48 ssid k d b _ h refl (λ fuel. strict_loop-behind_ssid fuel k d b)

abbrev pub header_of : Octets → Octets → ℕ → Header
header_of bssid sta sc = record {
  frame_type = 0;
  subtype = 0;
  flags = 0;
  a1 = bssid;
  a2 = sta;
  a3 = bssid;
  sc = sc;
}

abbrev pub request_body : Octets → Offer → DataCipher → Bool → Octets
request_body ssid k d b = 0x31 ∷ 0x01 ∷ 0xc8 ∷ 0x00 ∷ (ie 0 ssid ++ behind_ssid k d b)

built :
    (k : Offer) (d : DataCipher) (bssid sta ssid : Octets) (sc : ℕ)
    → request k bssid sta ssid sc d ≡ octets (header_of bssid sta sc) ++ request_body ssid k d false
unfolding build_assoc_req_for_cipher build_assoc_req_psk_sha256_for_cipher
    build_assoc_req_sae_for_cipher security_tail_for_cipher le_bytes ie
built psk d bssid sta ssid sc = refl
built psk_sha256 d bssid sta ssid sc = refl
built sae d bssid sta ssid sc = refl

behind_ssid-wmm :
    (k : Offer) (d : DataCipher) → behind_ssid k d false ++ wmm_information ≡ behind_ssid k d true
behind_ssid-wmm psk d = refl
behind_ssid-wmm psk_sha256 d = refl
behind_ssid-wmm sae d = refl

-- The frame as its header and its body.
built_with :
    (k : Offer) (d : DataCipher) (b : Bool) (bssid sta ssid : Octets) (sc : ℕ)
    → (if b
        then request k bssid sta ssid sc d ++ wmm_information
        else request k bssid sta ssid sc d)
      ≡ octets (header_of bssid sta sc) ++ request_body ssid k d b
built_with k d false bssid sta ssid sc = built k d bssid sta ssid sc
built_with k d true bssid sta ssid sc =
    let h : Octets = octets (header_of bssid sta sc) in
    let tail : (ie 0 ssid ++ behind_ssid k d false) ++ wmm_information
        ≡ ie 0 ssid ++ behind_ssid k d true =
      append_assoc (ie 0 ssid) (behind_ssid k d false) wmm_information
      ∙ ap (λ t. ie 0 ssid ++ t) (behind_ssid-wmm k d) in
    ap (λ f. f ++ wmm_information) (built k d bssid sta ssid sc)
    ∙ (append_assoc h (request_body ssid k d false) wmm_information
        ∙ ap (λ t. h ++ (0x31 ∷ 0x01 ∷ 0xc8 ∷ 0x00 ∷ t)) tail)

header_of-IsPlain :
    (bssid sta : Octets) (sc : ℕ)
    → length bssid ≡ 6
    → length sta ≡ 6
    → sc < 2 ^ 16
    → IsPlain (header_of bssid sta sc)
header_of-IsPlain bssid sta sc hb hs hc = record {
  type_fits = omega arith;
  subtype_fits = omega arith;
  no_qos = refl;
  three_addresses = refl;
  a1_fits = hb;
  a2_fits = hs;
  a3_fits = hb;
  sc_fits = hc;
}

-- A request parses to its header and body.
pub parse-request :
    (k : Offer) (d : DataCipher) (wmm ap_wmm : Bool) (bssid sta ssid : Octets) (sc : ℕ)
    → length bssid ≡ 6
    → length sta ≡ 6
    → sc < 2 ^ 16
    → parse (with_wmm wmm ap_wmm (request k bssid sta ssid sc d))
      ≡ some (frame_of (header_of bssid sta sc) (request_body ssid k d (wmm && ap_wmm)))
unfolding with_wmm
parse-request k d wmm ap_wmm bssid sta ssid sc hb hs hc =
    rw (built_with k d (wmm && ap_wmm) bssid sta ssid sc) (
      parse-octets (header_of bssid sta sc) (header_of-IsPlain bssid sta sc hb hs hc)
        (request_body ssid k d (wmm && ap_wmm)))
