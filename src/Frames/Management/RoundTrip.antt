-- ===== src/Frames/Management/RoundTrip.antt =====
-- Protected management frames of src/frames/data.rs, from the builder through `Dot11::parse` to the
-- receiver.
use oxwifid.Base.{
  ℕ, ◌-◌, ◌^◌, ◌<◌, ◌≡◌, refl, arith, Option, none, some, [], ◌++◌, Octets, length, length-append,
  take-append, drop-append, ◌>>=◌, leb_not_ltb,
}
use Prim.Native.Nat.{bit_or}
use oxwifid.Security.{DataCipher, key_len}
use DataCipher.{ccmp128, ccmp256, gcmp128, gcmp256}
use oxwifid.Crypto.Ccm.{run_ccmp_encrypt_with_tag}
use oxwifid.Crypto.Ccm.RoundTrip.{decrypt-encrypt_with_tag, length-cbc_mac}
use oxwifid.Frames.{type_mgmt, fc0, dot11_header}
use oxwifid.Frames.Dot11.{Dot11, parse, ccmp_data, priority}
use oxwifid.Frames.Dot11.Built.{Header, IsPlain, frame_of, parse-octets}
use oxwifid.Frames.Data.{
  Ciphers, ccm_tag_len, ccmp_get_aad, ccmp_get_nonce, ccmp_header, encrypt_data_payload,
  decrypt_data_payload,
}
use oxwifid.Frames.Data.PacketNumber.{framed, ccmp_pn-ccmp_header_small}
use oxwifid.Frames.Management.{
  sec_or, open_mgmt, build_protected_mgmt_sec, decrypt_protected_mgmt_sec, fc_protected,
}

-- The suites that are modes of CCM.
abbrev pub IsCcm : DataCipher → Type 0
IsCcm ccmp128 = Unit
IsCcm ccmp256 = Unit
IsCcm _ = ⊥

ccmp_data-ccmp_header :
    (f : Dot11) (pn key_id : ℕ) (rest : Octets) → ccmp_data (framed f pn key_id rest) ≡ some rest
unfolding ccmp_data ccmp_header
ccmp_data-ccmp_header f pn key_id rest =
    rw (leb_not_ltb (length (ccmp_header pn key_id ++ rest)) 8 (omega arith)) refl

abbrev pub mgmt_header : ℕ → ℕ → ℕ → Octets → Octets → Octets → Header
mgmt_header subtype extra_flags sc a1 a2 a3 = record {
  frame_type = type_mgmt;
  subtype = subtype;
  flags = bit_or extra_flags fc_protected;
  a1 = a1;
  a2 = a2;
  a3 = a3;
  sc = sc;
}

module _ (c : Ciphers) (width : (key b : Octets) → length (c.aes.encrypt key b) ≡ 16) where
  -- The ciphertext and the tag.
  sealed : DataCipher → Octets → Octets → ℕ → Octets → Octets → Octets × Octets
  sealed cipher tk addr pn aad body =
      run_ccmp_encrypt_with_tag c.aes tk (ccmp_get_nonce 0 addr pn) aad body (ccm_tag_len cipher)

  seals :
      (cipher : DataCipher) (tk addr : Octets) (pn : ℕ) (aad body : Octets)
      → IsCcm cipher
      → length tk ≡ key_len cipher
      → encrypt_data_payload c cipher tk 0 addr pn aad body
        ≡ some (sealed cipher tk addr pn aad body)
  unfolding encrypt_data_payload sealed key_len
  seals ccmp128 tk addr pn aad body k l = rw l refl
  seals ccmp256 tk addr pn aad body k l = rw l refl
  seals gcmp128 tk addr pn aad body k l = absurd k
  seals gcmp256 tk addr pn aad body k l = absurd k

  opens :
      (cipher : DataCipher) (tk addr : Octets) (pn : ℕ) (aad body : Octets)
      → IsCcm cipher
      → length tk ≡ key_len cipher
      → decrypt_data_payload c cipher tk 0 addr pn aad
          (sealed cipher tk addr pn aad body).0
          (sealed cipher tk addr pn aad body).1
        ≡ some body
  unfolding decrypt_data_payload sealed key_len
  opens ccmp128 tk addr pn aad body k l =
      rw
        (l, decrypt-encrypt_with_tag c.aes tk (width tk) (ccmp_get_nonce 0 addr pn) aad body 8 refl)
        refl
  opens ccmp256 tk addr pn aad body k l =
      rw
        (
          l,
          decrypt-encrypt_with_tag c.aes tk (width tk) (ccmp_get_nonce 0 addr pn) aad body 16 refl,
        )
        refl
  opens gcmp128 tk addr pn aad body k l = absurd k
  opens gcmp256 tk addr pn aad body k l = absurd k

  length-tag :
      (cipher : DataCipher) (tk addr : Octets) (pn : ℕ) (aad body : Octets)
      → IsCcm cipher
      → length (sealed cipher tk addr pn aad body).1 ≡ ccm_tag_len cipher
  unfolding sealed run_ccmp_encrypt_with_tag
  length-tag ccmp128 tk addr pn aad body k =
      length-cbc_mac c.aes tk (width tk) body aad (ccmp_get_nonce 0 addr pn) 8 refl
  length-tag ccmp256 tk addr pn aad body k =
      length-cbc_mac c.aes tk (width tk) body aad (ccmp_get_nonce 0 addr pn) 16 refl
  length-tag gcmp128 tk addr pn aad body k = absurd k
  length-tag gcmp256 tk addr pn aad body k = absurd k

  module _ (cipher : DataCipher) (ccm : IsCcm cipher) (tk : Octets)
      (fits : length tk ≡ key_len cipher) where
    -- A frame without QoS field whose data is the sealed body.
    open-sealed :
        (f : Dot11) (sec : Octets × Octets × Octets) (pn : ℕ) (body : Octets)
        → f.qos ≡ none
        → (let s : Octets × Octets =
              sealed cipher tk sec.1 pn
                (ccmp_get_aad f.fc0 f.fc1 sec.0 sec.1 sec.2 f.sc none)
                body in
            open_mgmt c cipher f tk sec pn (s.0 ++ s.1) ≡ some body)
    unfolding open_mgmt priority
    open-sealed f (sa1, sa2, sa3) pn body q =
        let aad = ccmp_get_aad f.fc0 f.fc1 sa1 sa2 sa3 f.sc none in
        let s = sealed cipher tk sa2 pn aad body in
        let n : length (s.0 ++ s.1) - ccm_tag_len cipher ≡ length s.0 =
          omega (arith, length-append s.0 s.1, length-tag cipher tk sa2 pn aad body ccm) in
        rw
          (
            q,
            n,
            leb_not_ltb (length (s.0 ++ s.1)) (ccm_tag_len cipher)
                (omega (arith, length-append s.0 s.1, length-tag cipher tk sa2 pn aad body ccm)),
            take-append s.0 s.1 (length s.0) refl,
            drop-append s.0 s.1 (length s.0) refl,
          )
          (opens cipher tk sa2 pn aad body ccm fits)

    -- The receiver's side of a frame that holds the CCMP header and the sealed body.
    receive-sealed :
        (h : Header) (pn key_id : ℕ) (sec_addrs : Option (Octets × Octets × Octets)) (body : Octets)
        → pn < 2 ^ 16
        → (let sec : Octets × Octets × Octets = sec_or sec_addrs h.a1 h.a2 h.a3 in
            let s : Octets × Octets =
              sealed cipher tk sec.1 pn
                (ccmp_get_aad (fc0 h.frame_type h.subtype) h.flags sec.0 sec.1 sec.2 h.sc none)
                body in
            decrypt_protected_mgmt_sec c cipher
              (frame_of h (ccmp_header pn key_id ++ (s.0 ++ s.1)))
              tk
              sec_addrs
            ≡ some body)
    unfolding decrypt_protected_mgmt_sec
    receive-sealed h pn key_id sec_addrs body small =
        let sec : Octets × Octets × Octets = sec_or sec_addrs h.a1 h.a2 h.a3 in
        let s : Octets × Octets =
          sealed cipher tk sec.1 pn
            (ccmp_get_aad (fc0 h.frame_type h.subtype) h.flags sec.0 sec.1 sec.2 h.sc none) body in
        rw
          (
            ccmp_pn-ccmp_header_small (frame_of h []) pn key_id (s.0 ++ s.1) small,
            ccmp_data-ccmp_header (frame_of h []) pn key_id (s.0 ++ s.1),
          )
          (open-sealed (frame_of h (ccmp_header pn key_id ++ (s.0 ++ s.1))) sec pn body refl)

    -- Where the block function gives blocks of 16 octets: under a CCM suite with a key of its
    -- length, a protected management frame with a packet number below 65536 parses, and the receiver
    -- that has the key, and the same addresses for the nonce, reads its body.
    pub decrypt-build_protected_mgmt :
        (subtype extra_flags sc pn key_id : ℕ) (a1 a2 a3 : Octets)
        (sec_addrs : Option (Octets × Octets × Octets)) (body : Octets)
        → IsPlain (mgmt_header subtype extra_flags sc a1 a2 a3)
        → pn < 2 ^ 16
        → (build_protected_mgmt_sec c cipher subtype a1 a2 a3 sec_addrs extra_flags sc pn key_id tk
              body
            >>= parse
            >>= (λ f. decrypt_protected_mgmt_sec c cipher f tk sec_addrs))
          ≡ some body
    unfolding build_protected_mgmt_sec dot11_header
    decrypt-build_protected_mgmt subtype extra_flags sc pn key_id a1 a2 a3 sec_addrs body plain
          small =
        let h : Header = mgmt_header subtype extra_flags sc a1 a2 a3 in
        let sec : Octets × Octets × Octets = sec_or sec_addrs a1 a2 a3 in
        let aad : Octets = ccmp_get_aad (fc0 type_mgmt subtype) h.flags sec.0 sec.1 sec.2 sc none in
        let s : Octets × Octets = sealed cipher tk sec.1 pn aad body in
        rw
          (
            seals cipher tk sec.1 pn aad body ccm fits,
            parse-octets h plain (ccmp_header pn key_id ++ (s.0 ++ s.1)),
          )
          (receive-sealed h pn key_id sec_addrs body small)
