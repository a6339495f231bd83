-- ===== src/Actions/RoundTrip.antt =====
-- SA queries of src/action_frames/sa_query.rs, from the builder to the parser of the receiver.
use oxwifid.Base.{
  ℕ, ◌+◌, ◌*◌, ◌/◌, ◌%◌, ◌^◌, ◌<◌, ◌≡◌, ◌∙◌, ap, refl, arith, Bool, true, false, Option, none, some,
  Octets, length, if◌then◌else◌, ◌>>=◌, le_bytes, le_value,
}
use oxwifid.Security.{DataCipher, key_len}
use oxwifid.Frames.{fc_tods}
use oxwifid.Frames.Dot11.{Dot11, parse}
use oxwifid.Frames.Dot11.Built.{IsPlain}
use oxwifid.Frames.Data.{Ciphers}
use oxwifid.Frames.Management.{decrypt_protected_mgmt_sec, subtype_action}
use oxwifid.Frames.Management.RoundTrip.{IsCcm, mgmt_header, decrypt-build_protected_mgmt}
use oxwifid.Actions.{
  sa_query_request, sa_query_response, sa_query_body, build_protected_sa_query_for_cipher_sec,
  parse_sa_query,
}

parse-sa_query_body :
    (response : Bool) (id : ℕ)
    → id < 2 ^ 16
    → parse_sa_query (sa_query_body response id)
      ≡ some ((if response then sa_query_response else sa_query_request), id)
unfolding parse_sa_query sa_query_body le_bytes le_value
parse-sa_query_body response id h =
    let back : id % 256 + 256 * (id / 256 % 256 + 256 * 0) ≡ id = omega arith in rw back refl

-- Three steps in a row.
bind_three :
    (o : Option Octets) (f : Octets → Option Dot11) (g : Dot11 → Option Octets)
    (h : Octets → Option (ℕ × ℕ))
    → (o >>= (λ x. f x >>= g >>= h)) ≡ (o >>= f >>= g >>= h)
bind_three none f g h = refl
bind_three (some x) f g h = refl

-- What a receiver with the key makes of an octet string.
abbrev pub receive_sa_query :
    Ciphers → DataCipher → Octets → Option (Octets × Octets × Octets) → Octets → Option (ℕ × ℕ)
receive_sa_query c cipher tk sec_addrs frame =
    parse frame >>= (λ f. decrypt_protected_mgmt_sec c cipher f tk sec_addrs) >>= parse_sa_query

received :
    (c : Ciphers)
    → ((key b : Octets) → length (c.aes.encrypt key b) ≡ 16)
    → (cipher : DataCipher) → IsCcm cipher
    → (tk : Octets) → length tk ≡ key_len cipher
    → (bssid peer : Octets) (to_ds response : Bool) (id sc pn : ℕ)
      (sec_addrs : Option (Octets × Octets × Octets))
    → pn < 2 ^ 16
    → IsPlain (
        mgmt_header subtype_action
          (if to_ds then fc_tods else 0)
          sc
          (if to_ds then bssid else peer)
          (if to_ds then peer else bssid)
          bssid)
    → id < 2 ^ 16
    → (build_protected_sa_query_for_cipher_sec c cipher bssid peer to_ds response id sc pn tk
          sec_addrs
        >>= receive_sa_query c cipher tk sec_addrs)
      ≡ some ((if response then sa_query_response else sa_query_request), id)
unfolding build_protected_sa_query_for_cipher_sec
received c width cipher ccm tk fits bssid peer to_ds response id sc pn sec_addrs hpn plain hid =
    bind_three _ parse (λ f. decrypt_protected_mgmt_sec c cipher f tk sec_addrs) parse_sa_query
    ∙ ap (λ o. o >>= parse_sa_query)
        (decrypt-build_protected_mgmt c width cipher ccm tk fits subtype_action
          (if to_ds then fc_tods else 0) sc pn 0 (if to_ds then bssid else peer)
          (if to_ds then peer else bssid) bssid sec_addrs (sa_query_body response id) plain hpn)
    ∙ parse-sa_query_body response id hid

-- Where the block function gives blocks of 16 octets: under a CCM suite with a key of its length and
-- a packet number below 65536, an SA query or an answer to one, sent in either direction between
-- addresses of six octets, is received with its action and its transaction identifier.
pub receive-build_protected_sa_query :
    (c : Ciphers)
    → ((key b : Octets) → length (c.aes.encrypt key b) ≡ 16)
    → (cipher : DataCipher) → IsCcm cipher
    → (tk : Octets) → length tk ≡ key_len cipher
    → (bssid peer : Octets) (to_ds response : Bool) (id sc pn : ℕ)
      (sec_addrs : Option (Octets × Octets × Octets))
    → length bssid ≡ 6
    → length peer ≡ 6
    → id < 2 ^ 16
    → sc < 2 ^ 16
    → pn < 2 ^ 16
    → (build_protected_sa_query_for_cipher_sec c cipher bssid peer to_ds response id sc pn tk
          sec_addrs
        >>= receive_sa_query c cipher tk sec_addrs)
      ≡ some ((if response then sa_query_response else sa_query_request), id)
receive-build_protected_sa_query c width cipher ccm tk fits bssid peer true response id sc pn
      sec_addrs hb hp hid hsc hpn =
    received c width cipher ccm tk fits bssid peer true response id sc pn sec_addrs hpn
      record {
        type_fits = omega arith;
        subtype_fits = omega arith;
        no_qos = refl;
        three_addresses = refl;
        a1_fits = hb;
        a2_fits = hp;
        a3_fits = hb;
        sc_fits = hsc;
      }
      hid
receive-build_protected_sa_query c width cipher ccm tk fits bssid peer false response id sc pn
      sec_addrs hb hp hid hsc hpn =
    received c width cipher ccm tk fits bssid peer false response id sc pn sec_addrs hpn
      record {
        type_fits = omega arith;
        subtype_fits = omega arith;
        no_qos = refl;
        three_addresses = refl;
        a1_fits = hp;
        a2_fits = hb;
        a3_fits = hb;
        sc_fits = hsc;
      }
      hid
