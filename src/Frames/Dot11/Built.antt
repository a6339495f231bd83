-- ===== src/Frames/Dot11/Built.antt =====
-- `Dot11::parse` reads back the header that `dot11_header` in src/frames/management.rs writes.
use oxwifid.Base.{
  ℕ, ◌+◌, ◌*◌, ◌/◌, ◌%◌, ◌^◌, ◌<◌, ◌≡◌, ◌∙◌, ap, refl, arith, false, ◌&&◌, none, some, List, [],
  ◌∷◌, ◌++◌, Octets, length, slice, get_elem?, le_bytes, le_value, le_value-le_bytes,
  length-le_bytes, join, offset, slice-join, length-join, length-append, drop-append, leb_not_ltb,
  ◌==◌,
}
use mathlib.Core.List.{append-nil, append_assoc}
use oxwifid.Security.EapolKey.{bit_set}
use oxwifid.Frames.{type_data, fc0, dot11_header}
use oxwifid.Frames.Dot11.{Dot11, parse, frame_fields}

-- The header's arguments. The frame has three addresses and no QoS field.
pub record Header : Type 0 where
  pub frame_type : ℕ
  pub subtype : ℕ
  pub flags : ℕ
  pub a1 : Octets
  pub a2 : Octets
  pub a3 : Octets
  pub sc : ℕ

pub record IsPlain (h : Header) : Type 0 where
  pub type_fits : h.frame_type < 4
  pub subtype_fits : h.subtype < 16
  pub no_qos : (h.frame_type == type_data && bit_set h.subtype 3) ≡ false
  pub three_addresses : (bit_set h.flags 0 && bit_set h.flags 1) ≡ false
  pub a1_fits : length h.a1 ≡ 6
  pub a2_fits : length h.a2 ≡ 6
  pub a3_fits : length h.a3 ≡ 6
  pub sc_fits : h.sc < 2 ^ 16

abbrev pub octets : Header → Octets
octets h = dot11_header h.frame_type h.subtype h.flags h.a1 h.a2 h.a3 h.sc

abbrev pub frame_of : Header → Octets → Dot11
frame_of h body = record {
  fc0 = fc0 h.frame_type h.subtype;
  fc1 = h.flags;
  addr1 = h.a1;
  addr2 = h.a2;
  addr3 = h.a3;
  sc = h.sc;
  qos = none;
  body = body;
}

abbrev chunks : Header → Octets → List Octets
chunks h body =
    (fc0 h.frame_type h.subtype ∷ h.flags ∷ 0 ∷ 0 ∷ [])
    ∷ h.a1
    ∷ h.a2
    ∷ h.a3
    ∷ le_bytes 2 h.sc
    ∷ body
    ∷ []

module _ (h : Header) (plain : IsPlain h) (body : Octets) where
  octets-join : octets h ++ body ≡ join (chunks h body)
  unfolding dot11_header
  octets-join =
      rw
        (
          append_assoc h.a1 (h.a2 ++ (h.a3 ++ le_bytes 2 h.sc)) body,
          append_assoc h.a2 (h.a3 ++ le_bytes 2 h.sc) body,
          append_assoc h.a3 (le_bytes 2 h.sc) body,
          append-nil body,
        )
        refl

  field :
      (i start len : ℕ) (c : Octets)
      → get_elem? (chunks h body) i ≡ some c
      → offset (chunks h body) i ≡ start
      → length c ≡ len
      → slice start len (octets h ++ body) ≡ c
  field i start len c e o l =
      ap (slice start len) octets-join ∙ slice-join (chunks h body) i start len c e o l

  length-octets : length (octets h ++ body) ≡ 24 + length body
  length-octets =
      ap length octets-join
      ∙ length-join (chunks h body)
      ∙ omega (arith, plain.a1_fits, plain.a2_fits, plain.a3_fits, length-le_bytes 2 h.sc)

  length-header : length (octets h) ≡ 24
  length-header = omega (arith, length-octets, length-append (octets h) body)

  read_fields : frame_fields (octets h ++ body) none 24 ≡ frame_of h body
  unfolding dot11_header
  read_fields = λ i. record {
    fc0 = fc0 h.frame_type h.subtype;
    fc1 = h.flags;
    addr1 = field 1 4 6 h.a1 refl refl plain.a1_fits i;
    addr2 = field 2 10 6 h.a2 refl (omega (arith, plain.a1_fits)) plain.a2_fits i;
    addr3 = field 3 16 6 h.a3 refl (omega (arith, plain.a1_fits, plain.a2_fits)) plain.a3_fits i;
    sc = sc_eq i;
    qos = none;
    body = drop-append (octets h) body 24 length-header i;
  }
    where
      sc_eq : le_value (slice 22 2 (octets h ++ body)) ≡ h.sc
      sc_eq =
          ap le_value (
            field 4 22 2 (le_bytes 2 h.sc) refl
              (omega (arith, plain.a1_fits, plain.a2_fits, plain.a3_fits)) (length-le_bytes 2 h.sc))
          ∙ le_value-le_bytes 2 h.sc (omega (arith, plain.sc_fits))

  -- A frame behind a header of three addresses parses to the header's fields and what follows it.
  pub parse-octets : parse (octets h ++ body) ≡ some (frame_of h body)
  unfolding parse dot11_header fc0
  parse-octets =
      let kind : (h.subtype * 16 + h.frame_type * 4) % 256 / 4 % 4 ≡ h.frame_type =
        omega (arith, plain.type_fits, plain.subtype_fits) in
      let sub : (h.subtype * 16 + h.frame_type * 4) % 256 / 16 % 16 ≡ h.subtype =
        omega (arith, plain.type_fits, plain.subtype_fits) in
      rw
        (
          kind,
          sub,
          plain.no_qos,
          plain.three_addresses,
          leb_not_ltb (length (octets h ++ body)) 24 (omega (arith, length-octets)),
        )
        (ap some read_fields)
