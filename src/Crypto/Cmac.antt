-- ===== src/Crypto/Cmac.antt =====
-- src/auth/crypto.rs: AES-CMAC (RFC 4493) over the AES block function.
use oxwifid.Base.{
  ◌+◌, ◌-◌, ◌*◌, ◌/◌, ◌%◌, ◌^◌, Bool, not, ◌&&◌, ◌∷◌, ◌++◌, Octets, length, take, drop, set, get_or,
  ◌==◌, if◌then◌else◌, be_bytes, be_value, replicate,
}
use Prim.Native.Nat.{bit_xor, max}
use oxwifid.Security.{Digests}
use oxwifid.Crypto.KeyWrap.{BlockCipher}
use oxwifid.Crypto.Ccm.{xor_octets, cbc_loop}

-- `shl1` and what follows it: 16 octets shifted left by one bit, with the constant added where a bit
-- falls out.
unfoldable pub subkey : Octets → Octets
subkey b =
    let shifted = be_bytes 16 (be_value b * 2 % 2 ^ 128) in
    if be_value b / 2 ^ 127 % 2 == 0
    then shifted
    else set shifted 15 (bit_xor (get_or shifted 15 0) 0x87)

-- The last block, padded where it is not complete.
unfoldable pub last_block : Octets → Octets → Bool → Octets → Octets
last_block k1 k2 complete rem =
    if complete
    then xor_octets rem k1
    else xor_octets (rem ++ (0x80 ∷ replicate (15 - length rem) 0)) k2

unfoldable pub aes_cmac : BlockCipher → Octets → Octets → Octets
aes_cmac c key msg =
    let k1 = subkey (c.encrypt key (replicate 16 0)) in
    let k2 = subkey k1 in
    let n = max ((length msg + 15) / 16) 1 in
    let complete = not (length msg == 0) && length msg % 16 == 0 in
    let last_start = (n - 1) * 16 in
    let x = cbc_loop c key last_start (replicate 16 0) (take last_start msg) in
    c.encrypt key (xor_octets x (last_block k1 k2 complete (drop last_start msg)))

-- The digests whose CMAC is this one.
abbrev pub with_cmac : BlockCipher → Digests → Digests
with_cmac c d = record d { cmac = aes_cmac c }
