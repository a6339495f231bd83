-- ===== src/Frames/Data/PacketNumber.antt =====
-- The packet number of a protected frame, from `ccmp_header` in src/frames/data.rs to
-- `Dot11::ccmp_pn` in src/structures/common.rs.
use oxwifid.Base.{
  ℕ, ◌+◌, ◌*◌, ◌/◌, ◌%◌, ◌^◌, ◌<◌, ◌≡◌, ap, ◌∙◌, arith, some, ◌++◌, Octets, le_bytes, leb_not_ltb,
  length,
}
use oxwifid.Frames.Dot11.{Dot11, ccmp_pn}
use oxwifid.Frames.Data.{pn2bytes, ccmp_header}

-- A frame whose body starts with the CCMP header of `pn`.
abbrev pub framed : Dot11 → ℕ → ℕ → Octets → Dot11
framed f pn key_id rest = record f { body = ccmp_header pn key_id ++ rest }

-- Reading the packet number of a frame whose body starts with the CCMP header of a number gives its
-- low sixteen bits, and its next four octets in the opposite order.
pub ccmp_pn-ccmp_header :
    (f : Dot11) (pn key_id : ℕ) (rest : Octets)
    → ccmp_pn (framed f pn key_id rest)
      ≡ some (
          pn % 2 ^ 16
          + pn / 2 ^ 40 % 256 * 2 ^ 16
          + pn / 2 ^ 32 % 256 * 2 ^ 24
          + pn / 2 ^ 24 % 256 * 2 ^ 32
          + pn / 2 ^ 16 % 256 * 2 ^ 40)
unfolding ccmp_pn ccmp_header pn2bytes le_bytes
ccmp_pn-ccmp_header f pn key_id rest =
    rw (leb_not_ltb (length (ccmp_header pn key_id ++ rest)) 8 (omega arith))
      (ap some (omega arith))

-- A packet number below 65536 is read back as it was sent.
pub ccmp_pn-ccmp_header_small :
    (f : Dot11) (pn key_id : ℕ) (rest : Octets)
    → pn < 2 ^ 16
    → ccmp_pn (framed f pn key_id rest) ≡ some pn
ccmp_pn-ccmp_header_small f pn key_id rest h =
    ccmp_pn-ccmp_header f pn key_id rest ∙ ap some (omega arith)
