-- ===== src/Client/Uplink/Counters.antt =====
-- What sending does to the state: `encrypt_uplink` in src/client/data.rs, `tx_eapol` in
-- src/client/handshake.rs and the counters of src/client/configuration.rs.
use oxwifid.Base.{
  ℕ, ◌+◌, ◌^◌, ◌≤◌, ◌<◌, ◌≡◌, refl, arith, Bool, true, false, Option, none, some, List, Octets,
  length, ltb, if_split, ◌||◌,
}
use oxwifid.Client.{Client, Env, next_sc, next_client_pn}
use oxwifid.Client.Uplink.{
  encrypt_with, encrypt_to, encrypt_uplink, push, tx_protected, tx_to, tx_eapol, ethernet,
}

-- Only the sequence number and the packet number move, and the packet number does not go back.
abbrev pub Sends : Client → Client → Type 0
Sends c c' = (c' ≡ record c { client_pn = c'.client_pn; sc = c'.sc }) × (c.client_pn ≤ c'.client_pn)

Sends-refl : (c : Client) → Sends c c
Sends-refl c = (refl, omega arith)

-- A packet number that is given out is the counter's value and fits 48 bits, and the counter moves
-- past it.
pub next_client_pn_lem :
    (c : Client) (pn : ℕ)
    → (next_client_pn c).1 ≡ some pn
    → (pn ≡ c.client_pn) × (pn < 2 ^ 48) × ((next_client_pn c).0.client_pn ≡ pn + 1)
unfolding next_client_pn
next_client_pn_lem c pn =
    if_split
      (λ (r : Client × Option ℕ).
        (r.1 ≡ some pn) → (pn ≡ c.client_pn) × (pn < 2 ^ 48) × (r.0.client_pn ≡ pn + 1))
      (ltb 0x0000ffffffffffff c.client_pn) (λ full h. absurd (cc))
      (λ left h.
        let given : c.client_pn ≡ pn = cc in
        let fits : c.client_pn < 2 ^ 48 = ground arith in (omega arith, omega arith, omega arith))

encrypt_with-Sends :
    (e : Env) (bssid eth : Octets) (c : Client) (pn : Option ℕ)
    → Sends c (encrypt_with e bssid eth (c, pn)).0
unfolding encrypt_with next_sc
encrypt_with-Sends e bssid eth c none = Sends-refl c
encrypt_with-Sends e bssid eth c (some pn) = (refl, omega arith)

after_pn :
    (e : Env) (bssid eth : Octets) (c : Client)
    → Sends c (encrypt_with e bssid eth (next_client_pn c)).0
unfolding next_client_pn encrypt_with next_sc
after_pn e bssid eth c =
    if_split (λ p. Sends c (encrypt_with e bssid eth p).0) (ltb 0x0000ffffffffffff c.client_pn)
      (λ h. Sends-refl c) (λ h. (refl, omega arith))

encrypt_to-Sends :
    (e : Env) (eth : Octets) (c : Client) (bssid : Option Octets)
    → Sends c (encrypt_to e eth c bssid).0
unfolding encrypt_to
encrypt_to-Sends e eth c none = Sends-refl c
encrypt_to-Sends e eth c (some bssid) = after_pn e bssid eth c

pub encrypt_uplink-Sends :
    (e : Env) (eth : Octets) (c : Client) → Sends c (encrypt_uplink e eth c).0
unfolding encrypt_uplink
encrypt_uplink-Sends e eth c =
    if_split (λ (p : Client × Option Octets). Sends c p.0)
      (ltb c.connected 4 || ltb (length eth) 14) (λ h. Sends-refl c)
      (λ h. encrypt_to-Sends e eth c c.bssid)

push-Sends :
    (c : Client) (out : List Octets) (r : Client × Option Octets)
    → Sends c r.0
    → Sends c (push out r).0
push-Sends c out (c', none) h = h
push-Sends c out (c', some frame) h = h

tx_protected-Sends :
    (e : Env) (bssid : Octets) (c : Client) (out : List Octets) (eapol : Option Octets)
    → Sends c (tx_protected e bssid c out eapol).0
tx_protected-Sends e bssid c out none = Sends-refl c
tx_protected-Sends e bssid c out (some eapol) =
    push-Sends c out _ (encrypt_uplink-Sends e (ethernet bssid c.mac eapol) c)

tx_to-Sends :
    (e : Env) (frame : Octets) (c : Client) (out : List Octets) (bssid : Option Octets)
    → Sends c (tx_to e frame c out bssid).0
tx_to-Sends e frame c out none = Sends-refl c
tx_to-Sends e frame c out (some bssid) = tx_protected-Sends e bssid c out _

pub tx_eapol-Sends :
    (e : Env) (frame : Octets) (protected : Bool) (c : Client) (out : List Octets)
    → Sends c (tx_eapol e frame protected (c, out)).0
unfolding tx_eapol
tx_eapol-Sends e frame false c out = Sends-refl c
tx_eapol-Sends e frame true c out = tx_to-Sends e frame c out c.bssid
