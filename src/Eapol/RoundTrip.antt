-- ===== src/Eapol/RoundTrip.antt =====
-- `EapolKey::parse` reads back what the EAPOL-Key builders write.
use oxwifid.Base.{
  ℕ, ◌+◌, ◌%◌, ◌^◌, ◌<◌, ◌≡◌, ◌∙◌, ap, sym, refl, some, arith, List, [], ◌∷◌, Octets, length, slice,
  replicate, be_bytes, le_bytes, be_value, le_value, be_value-be_bytes, le_value-le_bytes,
  length-be_bytes, length-le_bytes, join, offset, slice-join, length-join, get_elem?, get_or,
}
use mathlib.Core.List.{append-nil}
use oxwifid.Security.{KeyInfo, to_u16}
use oxwifid.Security.EapolKey.{EapolKey, parse, eapol_fields, parse_passes}
use oxwifid.Eapol.{build_eapol_key_body_with_rsc}

-- What one call of the builder is given.
pub record Fields : Type 0 where
  pub info : KeyInfo
  pub len : ℕ
  pub replay : ℕ
  pub nonce : Octets
  pub rsc : ℕ
  pub mic : Octets
  pub key_data : Octets

abbrev pub built : Fields → Octets
built f = build_eapol_key_body_with_rsc f.info f.len f.replay f.nonce f.rsc f.mic f.key_data

-- What `EapolKey::parse` should give back.
abbrev pub read_back : Fields → EapolKey
read_back f = record {
  key_info = to_u16 f.info;
  key_length = f.len;
  key_replay_counter = f.replay;
  key_nonce = f.nonce;
  key_rsc = f.rsc;
  key_mic = f.mic;
  key_data = f.key_data;
  mic_offset = 77;
}

-- The widths of the Rust types, and Key Data that the 16-bit length field can count.
pub record Fits (f : Fields) : Type 0 where
  pub info_fits : to_u16 f.info < 2 ^ 16
  pub len_fits : f.len < 2 ^ 16
  pub replay_fits : f.replay < 2 ^ 64
  pub nonce_fits : length f.nonce ≡ 32
  pub rsc_fits : f.rsc < 2 ^ 64
  pub mic_fits : length f.mic ≡ 16
  pub key_data_fits : length f.key_data < 2 ^ 16

abbrev chunks : Fields → List Octets
chunks f =
    (2 ∷ [])
    ∷ be_bytes 2 (to_u16 f.info)
    ∷ be_bytes 2 f.len
    ∷ be_bytes 8 f.replay
    ∷ f.nonce
    ∷ replicate 16 0
    ∷ le_bytes 8 f.rsc
    ∷ replicate 8 0
    ∷ f.mic
    ∷ be_bytes 2 (length f.key_data % 2 ^ 16)
    ∷ f.key_data
    ∷ []

built-join : (f : Fields) → built f ≡ join (chunks f)
unfolding build_eapol_key_body_with_rsc
built-join f = rw (append-nil f.key_data) refl

ruleset widths = (arith, length-be_bytes, length-le_bytes)

module _ (f : Fields) (fits : Fits f) where
  pub length-built : length (built f) ≡ 95 + length f.key_data
  length-built =
      ap length (built-join f)
      ∙ length-join (chunks f)
      ∙ omega (widths, fits.nonce_fits, fits.mic_fits)

  field :
      (i start len : ℕ) (c : Octets)
      → get_elem? (chunks f) i ≡ some c
      → offset (chunks f) i ≡ start
      → length c ≡ len
      → slice start len (built f) ≡ c
  field i start len c e o l =
      ap (slice start len) (built-join f) ∙ slice-join (chunks f) i start len c e o l

  key_data_length : be_value (slice 93 2 (built f)) ≡ length f.key_data
  key_data_length =
      ap be_value
        (field 9 93 2 _ refl (omega (widths, fits.nonce_fits, fits.mic_fits)) (length-be_bytes 2 _))
      ∙ be_value-be_bytes 2 (length f.key_data % 2 ^ 16) (omega arith)
      ∙ omega (arith, fits.key_data_fits)

  read_fields : eapol_fields (built f) ≡ read_back f
  read_fields = λ i. record {
    key_info = info_eq i;
    key_length = len_eq i;
    key_replay_counter = replay_eq i;
    key_nonce = nonce_eq i;
    key_rsc = rsc_eq i;
    key_mic = mic_eq i;
    key_data = data_eq i;
    mic_offset = 77;
  }
    where
      info_eq : be_value (slice 1 2 (built f)) ≡ to_u16 f.info
      info_eq =
          ap be_value (field 1 1 2 _ refl refl (length-be_bytes 2 _))
          ∙ be_value-be_bytes 2 _ (omega (arith, fits.info_fits))

      len_eq : be_value (slice 3 2 (built f)) ≡ f.len
      len_eq =
          ap be_value (field 2 3 2 _ refl (omega widths) (length-be_bytes 2 _))
          ∙ be_value-be_bytes 2 _ (omega (arith, fits.len_fits))

      replay_eq : be_value (slice 5 8 (built f)) ≡ f.replay
      replay_eq =
          ap be_value (field 3 5 8 _ refl (omega widths) (length-be_bytes 8 _))
          ∙ be_value-be_bytes 8 _ (omega (arith, fits.replay_fits))

      nonce_eq : slice 13 32 (built f) ≡ f.nonce
      nonce_eq = field 4 13 32 _ refl (omega widths) fits.nonce_fits

      rsc_eq : le_value (slice 61 8 (built f)) ≡ f.rsc
      rsc_eq =
          ap le_value (field 6 61 8 _ refl (omega (widths, fits.nonce_fits)) (length-le_bytes 8 _))
          ∙ le_value-le_bytes 8 _ (omega (arith, fits.rsc_fits))

      mic_eq : slice 77 16 (built f) ≡ f.mic
      mic_eq = field 8 77 16 _ refl (omega (widths, fits.nonce_fits)) fits.mic_fits

      data_eq : slice 95 (be_value (slice 93 2 (built f))) (built f) ≡ f.key_data
      data_eq =
          field 10 95 _ _ refl (omega (widths, fits.nonce_fits, fits.mic_fits))
            (sym key_data_length)

  first_octet : get_or (built f) 0 0 ≡ 2
  unfolding build_eapol_key_body_with_rsc
  first_octet = refl

-- An EAPOL-Key body built from fields of the Rust types' widths, with Key Data that the 16-bit length
-- field can count, parses to exactly those fields: the Key Information word, the key length, the
-- replay counter, the nonce, the RSC, the MIC and the Key Data.
pub parse-built : (f : Fields) → Fits f → parse (built f) ≡ some (read_back f)
parse-built f fits =
    parse_passes (built f) (omega (arith, length-built f fits)) (first_octet f fits)
      (omega (arith, key_data_length f fits, length-built f fits))
    ∙ ap some (read_fields f fits)
