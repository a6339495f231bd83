-- ===== src/Frames.antt =====
-- src/frames/management.rs: the 802.11 MAC header and the LLC/SNAP header.
pub mod Association
pub mod Channels
pub mod Dot11
pub mod Elements
pub mod Management
pub mod Data
use oxwifid.Base.{ℕ, ◌+◌, ◌*◌, ◌%◌, [], ◌∷◌, ◌++◌, Octets, le_bytes, be_bytes}

abbrev pub type_mgmt : ℕ
type_mgmt = 0

abbrev pub type_data : ℕ
type_data = 2

abbrev pub fc_tods : ℕ
fc_tods = 0x01

abbrev pub fc_fromds : ℕ
fc_fromds = 0x02

abbrev pub ethertype_eapol : ℕ
ethertype_eapol = 0x888e

-- The header that `sendp` puts before each frame.
abbrev pub radiotap_tx : Octets
radiotap_tx = 0x00 ∷ 0x00 ∷ 0x08 ∷ 0x00 ∷ 0x00 ∷ 0x00 ∷ 0x00 ∷ 0x00 ∷ []

-- `(subtype << 4) | (frame_type << 2)` in eight bits; a type has two bits, so `|` adds.
unfoldable pub fc0 : ℕ → ℕ → ℕ
fc0 frame_type subtype = (subtype * 16 + frame_type * 4) % 256

unfoldable pub dot11_header : ℕ → ℕ → ℕ → Octets → Octets → Octets → ℕ → Octets
unfolding fc0 le_bytes
dot11_header frame_type subtype flags a1 a2 a3 sc =
    fc0 frame_type subtype ∷ flags ∷ 0 ∷ 0 ∷ (a1 ++ (a2 ++ (a3 ++ le_bytes 2 sc)))

unfoldable pub llc_snap : ℕ → Octets
unfolding be_bytes
llc_snap ethertype = 0xaa ∷ 0xaa ∷ 0x03 ∷ 0 ∷ 0 ∷ 0 ∷ be_bytes 2 ethertype
