-- ===== src/Frames/Association/Message2.antt =====
-- The elements that a station repeats in message 2 against those of its association request, as
-- `message_2_security_matches` in src/ap/mod.rs compares them.
use oxwifid.Base.{
  ℕ, suc, ◌^◌, ◌<◌, ◌≡◌, ap, refl, Bool, true, false, ◌&&◌, ◌||◌, Option, none, some, [], ◌∷◌, ◌++◌,
  Octets, length, drop, set, if◌then◌else◌, is_some, bytes_eq, ==_refl,
}
use mathlib.Core.Option
use oxwifid.Security.{DataCipher, suite_type}
use oxwifid.Frames.Dot11.{Dot11, parse}
use oxwifid.Frames.Elements.{ie, find_ie_strict, find_ie_consistent, strict_loop, conflicting}
use oxwifid.Frames.Association.{with_wmm, wmm_information}
use oxwifid.Frames.Association.Verdict.{Offer, request, rsn_body, parse_rsn-rsn_body}
use Offer.{psk, psk_sha256, sae}
use oxwifid.Frames.Association.Offers.{
  behind_ssid, past_ssid, find_ie_strict-request, parse-request,
}
use oxwifid.Rsn.{oci_kde, rsn, rsn_psk_sha256, rsn_wpa3, rsnxe_h2e}
use oxwifid.Rsn.Negotiation.{rsn_negotiation_matches}
use oxwifid.Eapol.Messages.{oci_octets}
use oxwifid.Client.{Client}
use oxwifid.Client.Handshake.{supp_rsn, uses_sha256}
use oxwifid.AccessPoint.Handshake.Checks.{message_2_security_matches, both_equal}

-- The key management that a station asks for.
abbrev pub offer_of : Client → Offer
offer_of c = if c.psk_sha256 then psk_sha256 else if is_some c.sae_pmk then sae else psk

-- The RSNXE of the request, and the elements of message 2.
abbrev rsnxe_body : Offer → Option Octets
rsnxe_body psk = none
rsnxe_body psk_sha256 = none
rsnxe_body sae = some (0x20 ∷ [])

abbrev rsnxe : Offer → Octets
rsnxe psk = []
rsnxe psk_sha256 = []
rsnxe sae = 0xf4 ∷ 0x01 ∷ 0x20 ∷ []

abbrev repeated_elements : Offer → DataCipher → Octets
repeated_elements k d = 0x30 ∷ length (rsn_body k d) ∷ (rsn_body k d ++ rsnxe k)

elements_set :
    (p s : Bool) (d : DataCipher)
    → set
        (if p then rsn_psk_sha256 else if s || p then rsn_wpa3 ++ rsnxe_h2e else rsn)
        13
        (suite_type d)
      ≡ repeated_elements (if p then psk_sha256 else if s then sae else psk) d
elements_set true s d = refl
elements_set false true d = refl
elements_set false false d = refl

supp_rsn-elements :
    (c : Client)
    → c.mld_mac ≡ none
    → c.owe ≡ false
    → supp_rsn c ≡ repeated_elements (offer_of c) c.pairwise_cipher
unfolding supp_rsn uses_sha256
supp_rsn-elements c single closed =
    rw (single, closed) (elements_set c.psk_sha256 (is_some c.sae_pmk) c.pairwise_cipher)

find_ie_strict-elements :
    (k : Offer) (d : DataCipher) (oci : Option (ℕ × ℕ))
    → find_ie_strict (repeated_elements k d ++ oci_octets oci) 48 ≡ some (some (rsn_body k d))
unfolding find_ie_strict strict_loop oci_kde
find_ie_strict-elements psk d none = refl
find_ie_strict-elements psk d (some (o, ch)) = refl
find_ie_strict-elements psk_sha256 d none = refl
find_ie_strict-elements psk_sha256 d (some (o, ch)) = refl
find_ie_strict-elements sae d none = refl
find_ie_strict-elements sae d (some (o, ch)) = refl

find_ie_consistent-elements :
    (k : Offer) (d : DataCipher) (oci : Option (ℕ × ℕ))
    → find_ie_consistent (repeated_elements k d ++ oci_octets oci) 0xf4 ≡ some (rsnxe_body k)
unfolding find_ie_consistent strict_loop oci_kde
find_ie_consistent-elements psk d none = refl
find_ie_consistent-elements psk d (some (o, ch)) = refl
find_ie_consistent-elements psk_sha256 d none = refl
find_ie_consistent-elements psk_sha256 d (some (o, ch)) = refl
find_ie_consistent-elements sae d none = refl
find_ie_consistent-elements sae d (some (o, ch)) = refl

strict_loop-rsnxe :
    (fuel : ℕ) (k : Offer) (d : DataCipher) (b : Bool)
    → strict_loop conflicting (suc (suc (suc (suc (suc fuel))))) 0xf4 none (behind_ssid k d b)
      ≡ some (rsnxe_body k)
unfolding strict_loop wmm_information ie
strict_loop-rsnxe fuel psk d true = refl
strict_loop-rsnxe fuel psk d false = refl
strict_loop-rsnxe fuel psk_sha256 d true = refl
strict_loop-rsnxe fuel psk_sha256 d false = refl
strict_loop-rsnxe fuel sae d true = refl
strict_loop-rsnxe fuel sae d false = refl

find_ie_consistent-request :
    (ssid : Octets) (k : Offer) (d : DataCipher) (b : Bool)
    → length ssid < 256
    → find_ie_consistent (ie 0 ssid ++ behind_ssid k d b) 0xf4 ≡ some (rsnxe_body k)
unfolding find_ie_consistent
find_ie_consistent-request ssid k d b h =
    past_ssid conflicting 0xf4 ssid k d b _ h refl (λ fuel. strict_loop-rsnxe fuel k d b)

rsn_negotiation_matches_refl :
    (k : Offer) (d : DataCipher)
    → rsn_negotiation_matches (rsn_body k d) (rsn_body k d)
        && both_equal (some (rsnxe_body k)) (some (rsnxe_body k))
      ≡ true
unfolding rsn_negotiation_matches bytes_eq
rsn_negotiation_matches_refl psk d = rw (parse_rsn-rsn_body psk d, ==_refl (suite_type d)) refl
rsn_negotiation_matches_refl psk_sha256 d =
    rw (parse_rsn-rsn_body psk_sha256 d, ==_refl (suite_type d)) refl
rsn_negotiation_matches_refl sae d = rw (parse_rsn-rsn_body sae d, ==_refl (suite_type d)) refl

-- A station that is no multi-link device and does not use OWE repeats in message 2, with or without
-- its operating channel behind, elements that the access point's comparison finds to match those of
-- the association request for the station's cipher and its key management, with or without the WMM
-- element behind it: PSK-SHA256 if that is set, else SAE if there is a key of SAE, else PSK. Addresses
-- have six octets, the SSID has fewer than 256, and the sequence control field fits in 16 bits.
pub message_2_matches :
    (c : Client) (wmm ap_wmm : Bool) (oci : Option (ℕ × ℕ)) (bssid sta ssid : Octets) (sc : ℕ)
    → c.mld_mac ≡ none
    → c.owe ≡ false
    → length bssid ≡ 6
    → length sta ≡ 6
    → length ssid < 256
    → sc < 2 ^ 16
    → Option.map
        (λ (f : Dot11). message_2_security_matches (drop 4 f.body) (supp_rsn c ++ oci_octets oci))
        (parse (with_wmm wmm ap_wmm (request (offer_of c) bssid sta ssid sc c.pairwise_cipher)))
      ≡ some true
unfolding message_2_security_matches
message_2_matches c wmm ap_wmm oci bssid sta ssid sc single closed hb hs hi hc =
    let k : Offer = offer_of c in
    let d : DataCipher = c.pairwise_cipher in
    rw
      (
        parse-request k d wmm ap_wmm bssid sta ssid sc hb hs hc,
        supp_rsn-elements c single closed,
        find_ie_strict-request ssid k d (wmm && ap_wmm) hi,
        find_ie_strict-elements k d oci,
        find_ie_consistent-request ssid k d (wmm && ap_wmm) hi,
        find_ie_consistent-elements k d oci,
      )
      (ap some (rsn_negotiation_matches_refl k d))
