-- ===== src/Rsn/Tails.antt =====
-- src/auth/rsn.rs: the RSN elements that an access point advertises.
use oxwifid.Base.{
  ℕ, suc, ◌+◌, ◌*◌, Bool, true, false, List, [], ◌∷◌, ◌++◌, Octets, length, take, drop, get_or, set,
  ltb, if◌then◌else◌, le_bytes,
}
use oxwifid.Security.{DataCipher, suite_type}
use DataCipher.{ccmp128, ccmp256}
use oxwifid.Rsn.{rsn, rsn_owe, rsn_wpa3, rsnxe_h2e}
use oxwifid.Rsn.Parse.{rsn_suite}

-- src/structures/security.rs
pub data SecurityMode : Type 0 where
  wpa2 wpa2_psk_sha256 wpa3_sae transition owe : SecurityMode

-- The elements with two key management suites.
abbrev pub rsn_two_akms : ℕ → Octets → Octets
rsn_two_akms len rest =
    0x30 ∷ len ∷ 0x01 ∷ 0x00 ∷ 0x00 ∷ 0x0f ∷ 0xac ∷ 0x04 ∷ 0x01 ∷ 0x00 ∷ 0x00 ∷ 0x0f ∷ 0xac ∷ 0x04
    ∷ 0x02 ∷ 0x00 ∷ 0x00 ∷ 0x0f ∷ 0xac ∷ rest

abbrev pub rsn_psk_sha256_mixed : Octets
rsn_psk_sha256_mixed = rsn_two_akms 0x18 (0x02 ∷ 0x00 ∷ 0x0f ∷ 0xac ∷ 0x06 ∷ 0x00 ∷ 0x00 ∷ [])

abbrev pub rsn_transition : Octets
rsn_transition =
    rsn_two_akms 0x1e (
      0x08 ∷ 0x00 ∷ 0x0f ∷ 0xac ∷ 0x02 ∷ 0x80 ∷ 0x00 ∷ 0x00 ∷ 0x00 ∷ 0x00 ∷ 0x0f ∷ 0xac ∷ 0x06 ∷ [])

abbrev mode_tail : SecurityMode → Octets
mode_tail wpa2 = rsn
mode_tail wpa2_psk_sha256 = rsn_psk_sha256_mixed
mode_tail wpa3_sae = rsn_wpa3 ++ rsnxe_h2e
mode_tail transition = rsn_transition ++ rsnxe_h2e
mode_tail owe = rsn_owe

unfoldable pub security_tail_for_cipher : SecurityMode → DataCipher → Octets
unfolding suite_type
security_tail_for_cipher mode cipher = set (mode_tail mode) 13 (suite_type cipher)

abbrev strong_first : SecurityMode → List DataCipher → Bool
strong_first transition (ccmp256 ∷ ccmp128 ∷ []) = true
strong_first _ _ = false

-- `tail[1].saturating_add(4)` of an octet.
abbrev grown : ℕ → ℕ
grown len = if ltb 255 (len + 4) then 255 else len + 4

-- The `for` loop over the ciphers behind the first one, of which `done` are in the element.
unfoldable pub insert_suites : ℕ → List DataCipher → Octets → Octets
insert_suites done [] tail = tail
insert_suites done (c ∷ cs) tail =
    let offset = 14 + done * 4 in
    let wider = take offset tail ++ (rsn_suite (suite_type c) ++ drop offset tail) in
    insert_suites (done + 1) cs (set wider 1 (grown (get_or wider 1 0)))

-- `tail[8..10].copy_from_slice(&(n as u16).to_le_bytes())`.
abbrev with_count : ℕ → Octets → Octets
with_count n tail = take 8 tail ++ (le_bytes 2 n ++ drop 10 tail)

abbrev strong_tail : Octets
strong_tail =
    0x30 ∷ 0x20 ∷ 0x01 ∷ 0x00 ∷ 0x00 ∷ 0x0f ∷ 0xac ∷ 0x04 ∷ 0x02 ∷ 0x00 ∷ 0x00 ∷ 0x0f ∷ 0xac ∷ 0x0a
    ∷ 0x00 ∷ 0x0f ∷ 0xac ∷ 0x04 ∷ 0x03 ∷ 0x00 ∷ 0x00 ∷ 0x0f ∷ 0xac ∷ 0x02 ∷ 0x00 ∷ 0x0f ∷ 0xac
    ∷ 0x06 ∷ 0x00 ∷ 0x0f ∷ 0xac ∷ 0x08 ∷ 0x8c ∷ 0x00 ∷ 0xf4 ∷ 0x01 ∷ 0x20 ∷ []

abbrev tail_of : SecurityMode → List DataCipher → Octets
tail_of mode [] = security_tail_for_cipher mode ccmp128
tail_of mode (c ∷ cs) =
    with_count (suc (length cs)) (insert_suites 0 cs (security_tail_for_cipher mode c))

unfoldable pub security_tail_for_ciphers : SecurityMode → List DataCipher → Octets
security_tail_for_ciphers mode ciphers =
    if strong_first mode ciphers then strong_tail else tail_of mode ciphers
