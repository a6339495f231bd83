-- ===== src/Frames/Data.antt =====
-- src/frames/data.rs: the CCMP and GCMP protection of data frames.
pub mod PacketNumber
use oxwifid.Base.{
  ℕ, ◌+◌, ◌-◌, ◌*◌, ◌/◌, ◌%◌, ◌==◌, Bool, not, Option, none, some, [], ◌∷◌, ◌++◌, Octets, length,
  take, drop, get_or, ltb, if◌then◌else◌, ◌>>=◌, le_bytes, be_bytes, bytes_eq,
}
use mathlib.Core.Option
use Prim.Native.Nat.{bit_and}
use oxwifid.Security.{DataCipher, key_len}
use DataCipher.{ccmp128, gcmp128, ccmp256, gcmp256}
use oxwifid.Crypto.KeyWrap.{BlockCipher}
use oxwifid.Crypto.Ccm.{
  Gcm, run_ccmp_encrypt_with_tag, run_ccmp_decrypt_with_tag, run_gcmp_encrypt, run_gcmp_decrypt,
}
use oxwifid.Frames.{type_data, dot11_header, llc_snap}
use oxwifid.Frames.Dot11.{Dot11, priority, ccmp_pn, ccmp_data}

-- The ciphers that the payload is protected with.
pub record Ciphers : Type 0 where
  pub aes : BlockCipher
  pub gcm : Gcm

unfoldable pub pn2bin : ℕ → Octets
pn2bin pn = drop 2 (be_bytes 8 pn)

unfoldable pub pn2bytes : ℕ → Octets
pn2bytes pn = le_bytes 6 pn

unfoldable pub ccmp_get_nonce : ℕ → Octets → ℕ → Octets
ccmp_get_nonce priority' addr pn = priority' ∷ (addr ++ pn2bin pn)

unfoldable pub gcmp_get_nonce : Octets → ℕ → Octets
gcmp_get_nonce addr pn = addr ++ pn2bin pn

abbrev pub tid_octets : Option ℕ → Octets
tid_octets none = []
tid_octets (some tid) = le_bytes 2 tid

unfoldable pub ccmp_get_aad : ℕ → ℕ → Octets → Octets → Octets → ℕ → Option ℕ → Octets
ccmp_get_aad fc0 fc1 a1 a2 a3 sc qos_tid =
    (if fc0 / 4 % 4 == type_data then bit_and fc0 0x8f else fc0)
    ∷ bit_and fc1 0xc7
    ∷ (a1 ++ (a2 ++ (a3 ++ (le_bytes 2 (sc % 16) ++ tid_octets qos_tid))))

-- `(key_id << 6) | 0x20` in eight bits; the two have separate bits.
unfoldable pub ccmp_header : ℕ → ℕ → Octets
ccmp_header pn key_id =
    let p = λ (i : ℕ). get_or (pn2bytes pn) i 0 in
    p 0 ∷ p 1 ∷ 0 ∷ (key_id * 64 % 256 + 0x20) ∷ p 2 ∷ p 3 ∷ p 4 ∷ p 5 ∷ []

abbrev pub ccm_tag_len : DataCipher → ℕ
ccm_tag_len ccmp128 = 8
ccm_tag_len _ = 16

unfoldable pub encrypt_data_payload :
    Ciphers → DataCipher → Octets → ℕ → Octets → ℕ → Octets → Octets → Option (Octets × Octets)
encrypt_data_payload c cipher tk priority' transmitter pn aad plaintext =
    let ccm = some (
      run_ccmp_encrypt_with_tag c.aes tk (ccmp_get_nonce priority' transmitter pn) aad plaintext
        (ccm_tag_len cipher)) in
    let gcm = run_gcmp_encrypt c.gcm tk (gcmp_get_nonce transmitter pn) aad plaintext in
    if not (length tk == key_len cipher)
    then none
    else elim cipher [ ccmp128 ↦ ccm | ccmp256 ↦ ccm | gcmp128 ↦ gcm | gcmp256 ↦ gcm ]

-- `valid.then_some(plaintext)`.
abbrev pub then_some : Octets × Bool → Option Octets
then_some (plaintext, valid) = if valid then some plaintext else none

unfoldable pub decrypt_data_payload :
    Ciphers → DataCipher → Octets → ℕ → Octets → ℕ → Octets → Octets → Octets → Option Octets
decrypt_data_payload c cipher tk priority' transmitter pn aad ciphertext tag =
    let ccm = then_some (
      run_ccmp_decrypt_with_tag c.aes tk (ccmp_get_nonce priority' transmitter pn) aad ciphertext
        tag (ccm_tag_len cipher)) in
    let gcm = run_gcmp_decrypt c.gcm tk (gcmp_get_nonce transmitter pn) aad ciphertext tag in
    if not (length tk == key_len cipher)
    then none
    else elim cipher [ ccmp128 ↦ ccm | ccmp256 ↦ ccm | gcmp128 ↦ gcm | gcmp256 ↦ gcm ]

abbrev qos_subtype : Option ℕ → ℕ
qos_subtype none = 0
qos_subtype (some tid) = 0x08

abbrev qos_octets : Option ℕ → Octets
qos_octets none = []
qos_octets (some tid) = (tid % 16) ∷ 0 ∷ []

-- The code panics where the cipher refuses the key's length; here the result is `none`.
unfoldable pub build_protected_data_sec :
    Ciphers
    → DataCipher
    → Octets
    → Octets
    → Octets
    → Octets
    → Octets
    → Octets
    → ℕ
    → ℕ
    → ℕ
    → ℕ
    → Octets
    → ℕ
    → Octets
    → Option ℕ
    → Option Octets
build_protected_data_sec c cipher a1 a2 a3 sec_a1 sec_a2 sec_a3 flags sc pn key_id tk ethertype
      inner_payload qos_tid =
    let frame =
      dot11_header type_data (qos_subtype qos_tid) flags a1 a2 a3 sc ++ qos_octets qos_tid in
    let prio : ℕ = elim qos_tid [ none ↦ 0 | some tid ↦ tid ] in
    let aad =
      ccmp_get_aad (get_or frame 0 0) (get_or frame 1 0) sec_a1 sec_a2 sec_a3 sc
        (Option.map (λ tid. tid % 16) qos_tid) in
    Option.map (λ e. frame ++ (ccmp_header pn key_id ++ (e.0 ++ e.1)))
      (encrypt_data_payload c cipher tk prio sec_a2 pn aad (llc_snap ethertype ++ inner_payload))

abbrev data_tag_len : DataCipher → ℕ
data_tag_len ccmp128 = 8
data_tag_len _ = 16

-- What a decrypted payload becomes: an Ethernet frame, when it has an RFC 1042 header.
unfoldable pub decapsulate : Octets → Octets → Octets → Option Octets
decapsulate da sa plaintext =
    if ltb (length plaintext) 8
    then none
    else if not (bytes_eq (take 6 plaintext) (0xaa ∷ 0xaa ∷ 0x03 ∷ 0 ∷ 0 ∷ 0 ∷ []))
    then none
    else some (da ++ (sa ++ drop 6 plaintext))

-- The payload and the tag behind it.
unfoldable pub open_payload :
    Ciphers
    → DataCipher
    → Dot11
    → Octets
    → Bool
    → Octets × Octets × Octets
    → ℕ
    → Octets
    → Option Octets
open_payload c cipher f tk from_ap (sa1, sa2, sa3) pn data' =
    let qos_tid = Option.map (λ q. priority f) f.qos in
    let aad = ccmp_get_aad f.fc0 f.fc1 sa1 sa2 sa3 f.sc qos_tid in
    let cut = length data' - data_tag_len cipher in
    if ltb (length data') (data_tag_len cipher)
    then none
    else (decrypt_data_payload c cipher tk (priority f) sa2 pn aad (take cut data') (drop cut data')
        >>= (if from_ap then decapsulate f.addr1 f.addr3 else decapsulate f.addr3 f.addr2))

abbrev sec_or : Dot11 → Option (Octets × Octets × Octets) → Octets × Octets × Octets
sec_or f none = (f.addr1, f.addr2, f.addr3)
sec_or f (some sec) = sec

unfoldable pub decrypt_protected_data_sec :
    Ciphers → DataCipher → Dot11 → Octets → Bool → Option (Octets × Octets × Octets) → Option Octets
decrypt_protected_data_sec c cipher f tk from_ap sec_addrs =
    ccmp_pn f >>= (λ pn. ccmp_data f >>= open_payload c cipher f tk from_ap (sec_or f sec_addrs) pn)
