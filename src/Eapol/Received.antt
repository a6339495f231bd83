-- ===== src/Eapol/Received.antt =====
-- A key message from its builder in src/auth/eapol.rs to what the receiver reads and checks: the frame
-- parser of src/structures/common.rs, `EapolKey::parse`, and the check of the MIC.
use oxwifid.Base.{
  ℕ, ◌+◌, ◌%◌, ◌^◌, ◌<◌, ◌≡◌, ◌∙◌, ap, sym, refl, true, some, arith, ◌∷◌, ◌++◌, Octets, length,
  take, drop, slice, replicate, be_bytes, le_bytes, le_value, be_value, length-append, length-take,
  take-append, drop-append, drop-append_skip, leb_not_ltb, take_all, bytes_eq,
}
use mathlib.Core.List.{append_assoc}
use oxwifid.Security.{KeyMic, Digests, to_u16, compute}
use KeyMic.{hmac_sha1, hmac_sha256, aes_cmac, aes_cmac_v3}
use oxwifid.Frames.{llc_snap, ethertype_eapol, type_data, fc0, fc_tods}
use oxwifid.Frames.Dot11.{
  Dot11, is_eapol, frame_type, protected, eapol_frame, key_body, eapol_key_body,
}
use oxwifid.Frames.Dot11.Built.{Header, frame_of}
use oxwifid.Eapol.{build_eapol_key_body_with_rsc, eapol_wrap}
use oxwifid.Eapol.RoundTrip.{Fields, built, Fits, length-built}

-- The digests have the widths of SHA-1, SHA-256 and AES.
pub record Widths (d : Digests) : Type 0 where
  pub sha1_width : (key m : Octets) → length (d.sha1 key m) ≡ 20
  pub sha256_width : (key m : Octets) → length (d.sha256 key m) ≡ 32
  pub cmac_width : (key m : Octets) → length (d.cmac key m) ≡ 16

pub length-compute :
    (d : Digests) → Widths d → (mic : KeyMic) (kck m : Octets) → length (compute d mic kck m) ≡ 16
unfolding compute
length-compute d w hmac_sha1 kck m =
    omega (arith, length-take 16 (d.sha1 kck m), w.sha1_width kck m)
length-compute d w hmac_sha256 kck m =
    omega (arith, length-take 16 (d.sha256 kck m), w.sha256_width kck m)
length-compute d w aes_cmac kck m = w.cmac_width kck m
length-compute d w aes_cmac_v3 kck m = w.cmac_width kck m

-- The octets before and behind the MIC field.
abbrev before_mic : Fields → Octets
before_mic f =
    2
    ∷ (be_bytes 2 (to_u16 f.info)
        ++ (be_bytes 2 f.len
            ++ (be_bytes 8 f.replay
                ++ (f.nonce ++ (replicate 16 0 ++ (le_bytes 8 f.rsc ++ replicate 8 0))))))

abbrev behind_mic : Fields → Octets
behind_mic f = be_bytes 2 (length f.key_data % 2 ^ 16) ++ f.key_data

built-split : (f : Fields) → built f ≡ before_mic f ++ (f.mic ++ behind_mic f)
unfolding build_eapol_key_body_with_rsc
built-split f =
    rw
      (append_assoc f.nonce (replicate 16 0 ++ (le_bytes 8 f.rsc ++ replicate 8 0))
        (f.mic ++ behind_mic f))
      refl

length-before_mic : (f : Fields) → Fits f → length (before_mic f) ≡ 77
unfolding be_bytes
length-before_mic f fits = omega (
  arith,
  length-append f.nonce (replicate 16 0 ++ (le_bytes 8 f.rsc ++ replicate 8 0)),
  fits.nonce_fits,
)

-- The fields with another MIC.
abbrev pub with_mic_field : Octets → Fields → Fields
with_mic_field mic f = record f { mic = mic }

abbrev front : Fields → Octets
front f = 2 ∷ 3 ∷ (be_bytes 2 ((95 + length f.key_data) % 2 ^ 16) ++ before_mic f)

wrap-split : (f : Fields) → Fits f → eapol_wrap (built f) ≡ front f ++ (f.mic ++ behind_mic f)
unfolding eapol_wrap
wrap-split f fits = rw (length-built f fits, built-split f) refl

zero_mic-Fits : (f : Fields) → Fits f → Fits (with_mic_field (replicate 16 0) f)
zero_mic-Fits f fits = record {
  info_fits = fits.info_fits;
  len_fits = fits.len_fits;
  replay_fits = fits.replay_fits;
  nonce_fits = fits.nonce_fits;
  rsc_fits = fits.rsc_fits;
  mic_fits = refl;
  key_data_fits = fits.key_data_fits;
}

-- Sixteen octets behind the first 81 are set to zero.
zeroed :
    (before mic behind : Octets)
    → length before ≡ 81
    → length mic ≡ 16
    → take 81 (before ++ (mic ++ behind)) ++ (replicate 16 0 ++ drop 97 (before ++ (mic ++ behind)))
      ≡ before ++ (replicate 16 0 ++ behind)
zeroed before mic behind l m =
    rw
      (
        take-append before (mic ++ behind) 81 l,
        drop-append_skip before (mic ++ behind) 81 16 l,
        drop-append mic behind 16 m,
      )
      refl

length-front : (f : Fields) → Fits f → length (front f) ≡ 81
unfolding be_bytes
length-front f fits = omega (arith, length-before_mic f fits)

-- Zeroing the MIC field of a message gives the message with a zero MIC.
pub zeroed-wrap :
    (f : Fields)
    → Fits f
    → take 81 (eapol_wrap (built f)) ++ (replicate 16 0 ++ drop 97 (eapol_wrap (built f)))
      ≡ eapol_wrap (built (with_mic_field (replicate 16 0) f))
zeroed-wrap f fits =
    ap (λ w. take 81 w ++ (replicate 16 0 ++ drop 97 w)) (wrap-split f fits)
    ∙ zeroed (front f) f.mic (behind_mic f) (length-front f fits) fits.mic_fits
    ∙ sym (wrap-split (with_mic_field (replicate 16 0) f) (zero_mic-Fits f fits))

pub length-wrap : (f : Fields) → Fits f → length (eapol_wrap (built f)) ≡ 99 + length f.key_data
unfolding eapol_wrap
length-wrap f fits = omega (arith, length-built f fits)

length-carried :
    (f : Fields)
    → Fits f
    → length (llc_snap ethertype_eapol ++ eapol_wrap (built f)) ≡ 107 + length f.key_data
unfolding llc_snap be_bytes
length-carried f fits = omega (arith, length-wrap f fits)

key_body-wrap : (f : Fields) → Fits f → key_body (eapol_wrap (built f)) ≡ some (built f)
unfolding eapol_wrap be_bytes
key_body-wrap f fits = ground arith

-- A data frame of a station to its access point, with the message behind the LLC header.
abbrev pub up_header : Octets → Octets → ℕ → Header
up_header bssid sta sc = record {
  frame_type = type_data;
  subtype = 0;
  flags = fc_tods;
  a1 = bssid;
  a2 = sta;
  a3 = bssid;
  sc = sc;
}

abbrev pub carried : Octets → Octets → ℕ → Fields → Dot11
carried bssid sta sc f =
    frame_of (up_header bssid sta sc) (llc_snap ethertype_eapol ++ eapol_wrap (built f))

module _ (bssid sta : Octets) (sc : ℕ) (f : Fields) (fits : Fits f)
    (short : 95 + length f.key_data < 2 ^ 16) where
  carried-is_eapol : is_eapol (carried bssid sta sc f) ≡ true
  unfolding is_eapol frame_type protected fc0 llc_snap be_bytes eapol_wrap bytes_eq
  carried-is_eapol = ground arith

  declared :
      be_value (slice 10 2 (llc_snap ethertype_eapol ++ eapol_wrap (built f)))
      ≡ 95 + length f.key_data
  unfolding llc_snap be_bytes eapol_wrap be_value le_value
  declared = omega (arith, length-built f fits)

  -- The message behind the LLC header, cut to its declared length.
  cut :
      slice 8 (4 + (95 + length f.key_data)) (llc_snap ethertype_eapol ++ eapol_wrap (built f))
      ≡ eapol_wrap (built f)
  unfolding llc_snap be_bytes
  cut = take_all (eapol_wrap (built f)) _ (omega (arith, length-wrap f fits))

  pub eapol_frame-carried : eapol_frame (carried bssid sta sc f) ≡ some (eapol_wrap (built f))
  unfolding eapol_frame
  eapol_frame-carried =
      let size : length (llc_snap ethertype_eapol ++ eapol_wrap (built f))
          ≡ 107 + length f.key_data =
        length-carried f fits in
      rw
        (
          carried-is_eapol,
          leb_not_ltb (length (llc_snap ethertype_eapol ++ eapol_wrap (built f))) 12
              (omega (arith, size)),
          declared,
          leb_not_ltb (length (llc_snap ethertype_eapol ++ eapol_wrap (built f)))
              (12 + (95 + length f.key_data)) (omega (arith, size)),
          cut,
        )
        refl

  pub eapol_key_body-carried : eapol_key_body (carried bssid sta sc f) ≡ some (built f)
  unfolding eapol_key_body
  eapol_key_body-carried = rw eapol_frame-carried (key_body-wrap f fits)
