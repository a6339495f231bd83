-- ===== src/Tests/Frames.antt =====
-- Elements, their negotiation, and protected management frames at concrete inputs.
use mathlib.Core.Option
use oxwifid.Base.{
  le_value, ◌≡◌, ◌↔◌, inl, refl, arith, true, false, none, some, [], ◌∷◌, Octets, replicate, ◌>>=◌,
}
use oxwifid.Security.{DataCipher, key_len}
use DataCipher.{ccmp128, gcmp256}
use oxwifid.Frames.Data.{Ciphers}
use oxwifid.Frames.Dot11.{parse}
use oxwifid.Frames.Dot11.Built.{IsPlain}
use oxwifid.Frames.Elements.{find_ie, find_ie_strict, strict_loop}
use oxwifid.Frames.Elements.Agreement.{strict_agreement}
use oxwifid.Frames.Management.{build_protected_mgmt_sec, decrypt_protected_mgmt_sec}
use oxwifid.Frames.Management.RoundTrip.{decrypt-build_protected_mgmt, mgmt_header}
use oxwifid.Actions.{build_protected_sa_query_for_cipher_sec}
use oxwifid.Actions.RoundTrip.{receive_sa_query, receive-build_protected_sa_query}
use oxwifid.Rsn.Tails.{SecurityMode}
use SecurityMode.{wpa2}
use oxwifid.Rsn.Negotiation.{negotiate_assoc_pairwise_cipher}
use oxwifid.Rsn.Negotiation.Spec.{Acceptable}
use oxwifid.Rsn.Negotiation.Soundness.{negotiated}
use oxwifid.Security.{Digests}
use oxwifid.Eapol.Received.{Widths}
use oxwifid.Frames.Dot11.{Dot11}
use oxwifid.GroupKeys.Bip.{build_group_deauth_bip}
use oxwifid.Client.{Client, Env, disconnect}
use oxwifid.Client.Management.{client_robust_mgmt}
use oxwifid.Client.Management.GroupDeauth.{group_deauth_ends_session}
use oxwifid.Tests.Station.{station, toy_env}

-- An SSID and a vendor element.
abbrev two_elements : Octets
two_elements = 0 ∷ 3 ∷ 97 ∷ 98 ∷ 99 ∷ 0xdd ∷ 2 ∷ 1 ∷ 2 ∷ []

strict_agreement_example : find_ie two_elements 0 ≡ some (97 ∷ 98 ∷ 99 ∷ [])
unfolding find_ie_strict strict_loop
strict_agreement_example = strict_agreement two_elements 0 (some (97 ∷ 98 ∷ 99 ∷ [])) (inl refl)

-- The body of an RSN element for CCMP-128 and a pre-shared key.
abbrev psk_body : Octets
psk_body =
    1 ∷ 0 ∷ 0 ∷ 0x0f ∷ 0xac ∷ 4 ∷ 1 ∷ 0 ∷ 0 ∷ 0x0f ∷ 0xac ∷ 4 ∷ 1 ∷ 0 ∷ 0 ∷ 0x0f ∷ 0xac ∷ 2 ∷ 0 ∷ 0
    ∷ []

negotiated_example :
    (negotiate_assoc_pairwise_cipher psk_body wpa2 (gcmp256 ∷ ccmp128 ∷ []) ≡ inl ccmp128)
    ↔ Acceptable psk_body wpa2 (gcmp256 ∷ ccmp128 ∷ []) ccmp128
negotiated_example = negotiated psk_body wpa2 (gcmp256 ∷ ccmp128 ∷ []) ccmp128

-- A keystream of zeros.
abbrev zero_ciphers : Ciphers
zero_ciphers = record {
  aes = record { encrypt = λ key b. replicate 16 0; decrypt = λ key b. b };
  gcm = record { seal = λ k n a m. none; open_sealed = λ k n a m t. none };
}

abbrev two : Octets
two = replicate 6 2

abbrev four : Octets
four = replicate 6 4

-- A deauthentication frame.
deauth-IsPlain : IsPlain (mgmt_header 12 0 160 two four four)
deauth-IsPlain = record {
  type_fits = omega arith;
  subtype_fits = omega arith;
  no_qos = refl;
  three_addresses = refl;
  a1_fits = refl;
  a2_fits = refl;
  a3_fits = refl;
  sc_fits = omega arith;
}

decrypt-build_protected_mgmt_example :
    (build_protected_mgmt_sec zero_ciphers ccmp128 12 two four four none 0 160 301 0
        (replicate 16 7)
        (3 ∷ 0 ∷ [])
      >>= parse
      >>= (λ f. decrypt_protected_mgmt_sec zero_ciphers ccmp128 f (replicate 16 7) none))
    ≡ some (3 ∷ 0 ∷ [])
unfolding key_len
decrypt-build_protected_mgmt_example =
    decrypt-build_protected_mgmt zero_ciphers (λ key b. refl) ccmp128 tt (replicate 16 7) refl 12 0
      160 301 0 two four four none (3 ∷ 0 ∷ []) deauth-IsPlain (omega arith)

receive-build_protected_sa_query_example :
    (build_protected_sa_query_for_cipher_sec zero_ciphers ccmp128 four two false true 513 160 301
        (replicate 16 7)
        none
      >>= receive_sa_query zero_ciphers ccmp128 (replicate 16 7) none)
    ≡ some (1, 513)
unfolding key_len
receive-build_protected_sa_query_example =
    receive-build_protected_sa_query zero_ciphers (λ key b. refl) ccmp128 tt (replicate 16 7) refl
      four two false true 513 160 301 none refl refl (omega arith) (omega arith) (omega arith)

-- A station under management frame protection.
abbrev guarded : Client
guarded = record station { sae_pmk = some (replicate 32 3) }

abbrev wide_digests : Digests
wide_digests = record {
  sha1 = λ key m. replicate 20 1;
  sha256 = λ key m. replicate 32 2;
  cmac = λ key m. replicate 16 3;
}

wide_digests-Widths : Widths wide_digests
wide_digests-Widths = record {
  sha1_width = λ key m. refl;
  sha256_width = λ key m. refl;
  cmac_width = λ key m. refl;
}

abbrev wide_env : Env
wide_env = record toy_env { digests = wide_digests }

-- The packet number 11, where the last one was 10.
group_deauth_ends_session_example :
    Option.map
      (λ (f : Dot11). (client_robust_mgmt wide_env f (guarded, [])).0)
      (parse
        (build_group_deauth_bip wide_digests four (replicate 16 12) 4 (11 ∷ replicate 5 0) 7 160))
    ≡ some (disconnect guarded)
unfolding le_value
group_deauth_ends_session_example =
    group_deauth_ends_session wide_env guarded [] four (replicate 16 12) (11 ∷ replicate 5 0) 4 7
      160 wide_digests-Widths refl refl (omega arith) refl refl (omega arith)
