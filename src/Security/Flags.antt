-- ===== src/Security/Flags.antt =====
-- The Key Information word: what `KeyInfo::to_u16` writes, the accessors of `EapolKey` read.
use oxwifid.Base.{ℕ, ◌/◌, ◌%◌, ◌^◌, ◌≤◌, ◌<◌, ◌≡◌, refl, Bool, true, false, arith}
use oxwifid.Security.{KeyInfo, to_u16, as_u16, DataCipher, ccmp128, from_suite_type, suite_type}
use oxwifid.Security.EapolKey.{
  EapolKey, bit_set, descriptor_version, is_pairwise, install, key_ack, has_key_mic, secure, error,
  request, encrypted_key_data,
}
use mathlib.Core.Option.{some}

as_u16_small : (b : Bool) → as_u16 b ≤ 1
as_u16_small true = omega arith
as_u16_small false = omega arith

small :
    (i : KeyInfo)
    → (as_u16 i.encrypted_key_data ≤ 1)
      × (as_u16 i.secure ≤ 1)
      × (as_u16 i.has_key_mic ≤ 1)
      × (as_u16 i.key_ack ≤ 1)
      × (as_u16 i.install ≤ 1)
      × (as_u16 i.key_type ≤ 1)
small i = (
  as_u16_small i.encrypted_key_data,
  as_u16_small i.secure,
  as_u16_small i.has_key_mic,
  as_u16_small i.key_ack,
  as_u16_small i.install,
  as_u16_small i.key_type,
)

bit_of : (n i : ℕ) (b : Bool) → n / 2 ^ i % 2 ≡ as_u16 b → bit_set n i ≡ b
bit_of n i true e = rw e
bit_of n i false e = rw e

-- What the accessors say of a message.
pub record Shows (k : EapolKey) (i : KeyInfo) : Type 0 where
  pub shows_encrypted : encrypted_key_data k ≡ i.encrypted_key_data
  pub shows_secure : secure k ≡ i.secure
  pub shows_mic : has_key_mic k ≡ i.has_key_mic
  pub shows_ack : key_ack k ≡ i.key_ack
  pub shows_install : install k ≡ i.install
  pub shows_pairwise : is_pairwise k ≡ i.key_type
  pub shows_version : descriptor_version k ≡ i.key_descriptor_type_version
  pub shows_no_error : error k ≡ false
  pub shows_no_request : request k ≡ false

-- A message whose Key Information word is `to_u16 i`, with a descriptor version of three bits,
-- shows every flag and the version of `i`, and neither the Error nor the Request bit.
pub Shows-to_u16 :
    (k : EapolKey) (i : KeyInfo)
    → i.key_descriptor_type_version < 8
    → k.key_info ≡ to_u16 i
    → Shows k i
unfolding to_u16 encrypted_key_data secure has_key_mic key_ack install is_pairwise
    descriptor_version error request
Shows-to_u16 k i h e = record {
  shows_encrypted = bit_of k.key_info 12 i.encrypted_key_data (omega (arith, e, small i));
  shows_secure = bit_of k.key_info 9 i.secure (omega (arith, e, small i));
  shows_mic = bit_of k.key_info 8 i.has_key_mic (omega (arith, e, small i));
  shows_ack = bit_of k.key_info 7 i.key_ack (omega (arith, e, small i));
  shows_install = bit_of k.key_info 6 i.install (omega (arith, e, small i));
  shows_pairwise = bit_of k.key_info 3 i.key_type (omega (arith, e, small i));
  shows_version = omega (arith, e, small i);
  shows_no_error = bit_of k.key_info 10 false (omega (arith, e, small i));
  shows_no_request = bit_of k.key_info 11 false (omega (arith, e, small i));
}

-- The suite types of the four ciphers are told apart by `from_suite_type`.
pub from_suite_type-suite_type : (c : DataCipher) → from_suite_type (suite_type c) ≡ some c
unfolding from_suite_type suite_type
from_suite_type-suite_type ccmp128 = refl
from_suite_type-suite_type _ = refl
