-- ===== src/Security/EapolKey.antt =====
-- src/structures/security.rs: `EapolKey`, its flag accessors and `EapolKey::parse`.
use oxwifid.Base.{
  ℕ, ◌≤◌, ◌≡◌, refl, ==_iff, leb_not_ltb, ◌+◌, ◌/◌, ◌%◌, ◌^◌, Bool, not, Option, none, some, ltb,
  ◌==◌, if◌then◌else◌, Octets, length, get_or, slice, be_value, le_value,
}

pub record EapolKey : Type 0 where
  pub key_info : ℕ
  pub key_length : ℕ
  pub key_replay_counter : ℕ
  pub key_nonce : Octets
  pub key_rsc : ℕ
  pub key_mic : Octets
  pub key_data : Octets
  pub mic_offset : ℕ

-- `(key_info >> i) & 1 != 0`.
abbrev pub bit_set : ℕ → ℕ → Bool
bit_set n i = not (n / 2 ^ i % 2 == 0)

unfoldable pub descriptor_version : EapolKey → ℕ
descriptor_version k = k.key_info % 8

unfoldable pub is_pairwise : EapolKey → Bool
is_pairwise k = bit_set k.key_info 3

unfoldable pub install : EapolKey → Bool
install k = bit_set k.key_info 6

unfoldable pub key_ack : EapolKey → Bool
key_ack k = bit_set k.key_info 7

unfoldable pub has_key_mic : EapolKey → Bool
has_key_mic k = bit_set k.key_info 8

unfoldable pub secure : EapolKey → Bool
secure k = bit_set k.key_info 9

unfoldable pub error : EapolKey → Bool
error k = bit_set k.key_info 10

unfoldable pub request : EapolKey → Bool
request k = bit_set k.key_info 11

unfoldable pub encrypted_key_data : EapolKey → Bool
encrypted_key_data k = bit_set k.key_info 12

-- The fields of a body of at least 95 octets.
abbrev pub eapol_fields : Octets → EapolKey
eapol_fields body = record {
  key_info = be_value (slice 1 2 body);
  key_length = be_value (slice 3 2 body);
  key_replay_counter = be_value (slice 5 8 body);
  key_nonce = slice 13 32 body;
  key_rsc = le_value (slice 61 8 body);
  key_mic = slice 77 16 body;
  key_data = slice 95 (be_value (slice 93 2 body)) body;
  mic_offset = 77;
}

-- `95 + key_data_len` cannot pass `usize::MAX`, so `checked_add` is plain addition.
unfoldable pub parse : Octets → Option EapolKey
parse body =
    if ltb (length body) 95
    then none
    else if not (get_or body 0 0 == 2)
    then none
    else if not (95 + be_value (slice 93 2 body) == length body)
    then none
    else some (eapol_fields body)

-- The three tests that `parse` makes, and what it gives when they pass.
pub parse_passes :
    (body : Octets)
    → 95 ≤ length body
    → get_or body 0 0 ≡ 2
    → 95 + be_value (slice 93 2 body) ≡ length body
    → parse body ≡ some (eapol_fields body)
unfolding parse
parse_passes body h t e = rw (leb_not_ltb (length body) 95 h, t, (==_iff _ (length body)).1 e) refl
