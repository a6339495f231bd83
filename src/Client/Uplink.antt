-- ===== src/Client/Uplink.antt =====
-- src/client/data.rs: `encrypt_uplink`; src/client/handshake.rs: `tx_eapol`; and the WMM priority
-- of src/frames/information_elements/common.rs.
pub mod Counters
use oxwifid.Base.{
  ℕ, ◌+◌, ◌*◌, ◌/◌, ◌%◌, Bool, true, false, Option, none, some, List, [], ◌∷◌, ◌++◌, Octets, length,
  take, drop, slice, get_or, ltb, ◌==◌, ◌||◌, if◌then◌else◌, ◌>>=◌, be_bytes, be_value, bytes_eq,
}
use mathlib.Core.Option
use oxwifid.Security.{key_len}
use oxwifid.Frames.{radiotap_tx, ethertype_eapol}
use oxwifid.Frames.Dot11.{parse, eapol_frame}
use oxwifid.Frames.Data.{build_protected_data_sec}
use oxwifid.Client.{Client, Env, next_sc, next_client_pn}

-- IPv4 has its ToS at octet 15; the Traffic Class of IPv6 spans octets 14 and 15.
unfoldable pub wmm_tid : Octets → ℕ
wmm_tid eth =
    let ethertype = be_value (slice 12 2 eth) in
    if ltb (length eth) 16
    then 0
    else if ethertype == 0x0800
    then get_or eth 15 0 / 32
    else if ethertype == 0x86dd
    then (get_or eth 14 0 % 16 * 16 + get_or eth 15 0 / 16) / 32
    else 0

unfoldable pub uplink_tid : Client → Octets → Option ℕ
unfolding wmm_tid
uplink_tid c eth =
    if c.wmm_negotiated
    then some (elim c.wmm_tid_override [ none ↦ wmm_tid eth | some tid ↦ tid ])
    else none

-- The MLD address of a link address that is the access point's.
abbrev translated : Octets → Octets → Octets → Octets
translated bssid ap_mld dst = if bytes_eq dst bssid then ap_mld else dst

-- The addresses of the nonce and the AAD.
unfoldable pub uplink_sec : Client → Octets → Octets → Octets × Octets × Octets
uplink_sec c bssid dst = elim c.mld_mac [
  | none ↦ (bssid, c.mac, dst)
  | some mld ↦ elim c.ap_mld_mac [
    | none ↦ (bssid, c.mac, dst)
    | some ap_mld ↦ (ap_mld, mld, translated bssid ap_mld dst)
  ]
]

-- The frame, from the sequence and packet numbers that the counters gave.
abbrev protect : Env → Client → Octets → Octets → ℕ → ℕ → Octets × Octets × Octets → Option Octets
protect e c bssid eth sc pn (sec_a1, sec_a2, sec_a3) =
    Option.map (λ f. radiotap_tx ++ f)
      (build_protected_data_sec e.ciphers c.pairwise_cipher bssid c.mac (take 6 eth) sec_a1 sec_a2
        sec_a3 0x41 sc pn 0 (take (key_len c.pairwise_cipher) c.pairwise_tk)
        (be_value (slice 12 2 eth)) (drop 14 eth) (uplink_tid c eth))

-- What follows `next_client_pn`.
unfoldable pub encrypt_with : Env → Octets → Octets → Client × Option ℕ → Client × Option Octets
unfolding uplink_sec
encrypt_with e bssid eth (c, none) = (c, none)
encrypt_with e bssid eth (c, some pn) =
    let (c', sc) = next_sc c in
    (c', protect e c' bssid eth sc pn (uplink_sec c' bssid (take 6 eth)))

-- `let bssid = self.bssid?` and what follows it.
unfoldable pub encrypt_to : Env → Octets → Client → Option Octets → Client × Option Octets
encrypt_to e eth c none = (c, none)
encrypt_to e eth c (some bssid) = encrypt_with e bssid eth (next_client_pn c)

unfoldable pub encrypt_uplink : Env → Octets → Client → Client × Option Octets
encrypt_uplink e eth c =
    if ltb c.connected 4 || ltb (length eth) 14 then (c, none) else encrypt_to e eth c c.bssid

-- `if let Some(encrypted) = ... { out.frames.push(encrypted) }`.
abbrev pub push : List Octets → Client × Option Octets → Client × List Octets
push out (c, none) = (c, out)
push out (c, some frame) = (c, out ++ (frame ∷ []))

-- The EAPOL frame in an Ethernet frame to the access point.
abbrev pub ethernet : Octets → Octets → Octets → Octets
ethernet bssid mac eapol = bssid ++ (mac ++ (be_bytes 2 ethertype_eapol ++ eapol))

abbrev pub tx_protected : Env → Octets → Client → List Octets → Option Octets → Client × List Octets
tx_protected e bssid c out none = (c, out)
tx_protected e bssid c out (some eapol) = push out (encrypt_uplink e (ethernet bssid c.mac eapol) c)

abbrev pub tx_to : Env → Octets → Client → List Octets → Option Octets → Client × List Octets
tx_to e frame c out none = (c, out)
tx_to e frame c out (some bssid) = tx_protected e bssid c out (parse frame >>= eapol_frame)

-- A state and the frames queued for transmission.
unfoldable pub tx_eapol : Env → Octets → Bool → Client × List Octets → Client × List Octets
tx_eapol e frame false (c, out) = (c, out ++ ((radiotap_tx ++ frame) ∷ []))
tx_eapol e frame true (c, out) = tx_to e frame c out c.bssid
