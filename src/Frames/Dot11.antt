-- ===== src/Frames/Dot11.antt =====
-- src/structures/common.rs: `Dot11`, a parsed 802.11 frame.
pub mod Built
use oxwifid.Base.{
  ℕ, ◌+◌, ◌*◌, ◌/◌, ◌%◌, ◌^◌, Bool, false, not, ◌&&◌, ◌||◌, Option, none, some, [], ◌∷◌, Octets,
  length, drop, slice, take, get_or, ltb, leb, ◌==◌, if◌then◌else◌, ◌>>=◌, bytes_eq, be_bytes,
  be_value, le_value,
}
use oxwifid.Security.EapolKey.{bit_set}
use oxwifid.Frames.{type_data, ethertype_eapol}

pub record Dot11 : Type 0 where
  pub fc0 : ℕ
  pub fc1 : ℕ
  pub addr1 : Octets
  pub addr2 : Octets
  pub addr3 : Octets
  pub sc : ℕ
  pub qos : Option ℕ
  pub body : Octets

unfoldable pub frame_type : Dot11 → ℕ
frame_type f = f.fc0 / 4 % 4

unfoldable pub subtype : Dot11 → ℕ
subtype f = f.fc0 / 16 % 16

unfoldable pub to_ds : Dot11 → Bool
to_ds f = bit_set f.fc1 0

unfoldable pub from_ds : Dot11 → Bool
from_ds f = bit_set f.fc1 1

unfoldable pub protected : Dot11 → Bool
protected f = bit_set f.fc1 6

-- The frame whose body starts at `off`.
abbrev pub frame_fields : Octets → Option ℕ → ℕ → Dot11
frame_fields buf qos off = record {
  fc0 = get_or buf 0 0;
  fc1 = get_or buf 1 0;
  addr1 = slice 4 6 buf;
  addr2 = slice 10 6 buf;
  addr3 = slice 16 6 buf;
  sc = le_value (slice 22 2 buf);
  qos = qos;
  body = drop off buf;
}

unfoldable pub parse : Octets → Option Dot11
parse buf =
    let fc0 = get_or buf 0 0 in
    let fc1 = get_or buf 1 0 in
    let off = if bit_set fc1 0 && bit_set fc1 1 then 30 else 24 in
    if ltb (length buf) 24
    then none
    else if fc0 / 4 % 4 == type_data && bit_set (fc0 / 16 % 16) 3
    then (if ltb (length buf) (off + 2)
        then none
        else some (frame_fields buf (some (le_value (slice off 2 buf))) (off + 2)))
    else if ltb (length buf) off
    then none
    else some (frame_fields buf none off)

-- `q & 0x000F`, or 0 where there is no QoS field.
unfoldable pub priority : Dot11 → ℕ
priority f = elim f.qos [ none ↦ 0 | some q ↦ q % 16 ]

unfoldable pub is_amsdu : Dot11 → Bool
is_amsdu f = elim f.qos [ none ↦ false | some q ↦ bit_set q 7 ]

unfoldable pub is_fragment : Dot11 → Bool
is_fragment f = bit_set f.fc1 2 || not (f.sc % 16 == 0)

unfoldable pub is_eapol : Dot11 → Bool
unfolding frame_type protected
is_eapol f =
    frame_type f == type_data
    && (not (protected f)
        && (leb 8 (length f.body)
            && (bytes_eq (take 6 f.body) (0xaa ∷ 0xaa ∷ 0x03 ∷ 0 ∷ 0 ∷ 0 ∷ [])
                && bytes_eq (slice 6 2 f.body) (be_bytes 2 ethertype_eapol))))

unfoldable pub eapol_frame : Dot11 → Option Octets
eapol_frame f =
    let declared = be_value (slice 10 2 f.body) in
    if not (is_eapol f) || ltb (length f.body) 12
    then none
    else if ltb (length f.body) (12 + declared)
    then none
    else some (slice 8 (4 + declared) f.body)

-- The body of an EAPOL frame of type 3, EAPOL-Key.
abbrev pub key_body : Octets → Option Octets
key_body eapol =
    if leb (length eapol) 1
    then none
    else if not (get_or eapol 1 0 == 3)
    then none
    else if ltb (length eapol) 4
    then none
    else some (drop 4 eapol)

unfoldable pub eapol_key_body : Dot11 → Option Octets
eapol_key_body f = eapol_frame f >>= key_body

-- The shifted octets have separate bits, so `|` adds them.
unfoldable pub ccmp_pn : Dot11 → Option ℕ
ccmp_pn f =
    let b = λ (i : ℕ). get_or f.body i 0 in
    if ltb (length f.body) 8
    then none
    else some (b 0 + b 1 * 2 ^ 8 + b 7 * 2 ^ 16 + b 6 * 2 ^ 24 + b 5 * 2 ^ 32 + b 4 * 2 ^ 40)

unfoldable pub ccmp_key_id : Dot11 → ℕ
ccmp_key_id f = if ltb (length f.body) 4 then 0 else get_or f.body 3 0 / 64 % 4

unfoldable pub ccmp_data : Dot11 → Option Octets
ccmp_data f = if ltb (length f.body) 8 then none else some (drop 8 f.body)
