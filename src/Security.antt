-- ===== src/Security.antt =====
-- src/structures/security.rs: the pairwise cipher suites, the Key Information bits and the choice
-- of the EAPOL-Key MIC.
pub mod EapolKey
pub mod Flags
use oxwifid.Base.{
  ℕ, ◌+◌, ◌*◌, ◌%◌, ◌^◌, Bool, true, false, not, Option, none, some, ◌==◌, if◌then◌else◌, Octets,
  take,
}

pub data DataCipher : Type 0 where
  ccmp128 gcmp128 ccmp256 gcmp256 : DataCipher

unfoldable pub from_suite_type : ℕ → Option DataCipher
from_suite_type t =
    if t == 4
    then some ccmp128
    else if t == 8
    then some gcmp128
    else if t == 9
    then some gcmp256
    else if t == 10
    then some ccmp256
    else none

unfoldable pub suite_type : DataCipher → ℕ
suite_type ccmp128 = 4
suite_type gcmp128 = 8
suite_type gcmp256 = 9
suite_type ccmp256 = 10

unfoldable pub key_len : DataCipher → ℕ
key_len ccmp128 = 16
key_len gcmp128 = 16
key_len ccmp256 = 32
key_len gcmp256 = 32

-- A Boolean as the number 0 or 1, as in `flag as u16`.
abbrev pub as_u16 : Bool → ℕ
as_u16 true = 1
as_u16 false = 0

pub record KeyInfo : Type 0 where
  pub encrypted_key_data : Bool
  pub secure : Bool
  pub has_key_mic : Bool
  pub key_ack : Bool
  pub install : Bool
  pub key_type : Bool
  pub key_descriptor_type_version : ℕ

-- Each `|=` sets bits that no other one sets, so it adds its value.
unfoldable pub to_u16 : KeyInfo → ℕ
to_u16 k =
    as_u16 k.encrypted_key_data * 2 ^ 12
    + as_u16 k.secure * 2 ^ 9
    + as_u16 k.has_key_mic * 2 ^ 8
    + as_u16 k.key_ack * 2 ^ 7
    + as_u16 k.install * 2 ^ 6
    + as_u16 k.key_type * 2 ^ 3
    + k.key_descriptor_type_version % 8

-- `KeyInfo { ..Default::default() }`.
abbrev pub default_key_info : KeyInfo
default_key_info = record {
  encrypted_key_data = false;
  secure = false;
  has_key_mic = false;
  key_ack = false;
  install = false;
  key_type = false;
  key_descriptor_type_version = 0;
}

pub data KeyMic : Type 0 where
  hmac_sha1 aes_cmac hmac_sha256 aes_cmac_v3 : KeyMic

unfoldable pub select : Bool → Bool → KeyMic
select sha256 owe = if not sha256 then hmac_sha1 else if owe then hmac_sha256 else aes_cmac

unfoldable pub version : KeyMic → ℕ
version hmac_sha1 = 2
version aes_cmac_v3 = 3
version _ = 0

-- The keyed digests, `key → message → digest`: HMAC of the `hmac`, `sha1` and `sha2` crates, and the
-- CMAC of crypto.rs, which `Crypto.Cmac` models over the block function of the `aes` crate.
pub record Digests : Type 0 where
  pub sha1 : Octets → Octets → Octets
  pub sha256 : Octets → Octets → Octets
  pub cmac : Octets → Octets → Octets

unfoldable pub compute : Digests → KeyMic → Octets → Octets → Octets
compute d hmac_sha1 kck body = take 16 (d.sha1 kck body)
compute d aes_cmac kck body = d.cmac kck body
compute d aes_cmac_v3 kck body = d.cmac kck body
compute d hmac_sha256 kck body = take 16 (d.sha256 kck body)
