-- ===== src/Client/Downlink/Replay.antt =====
-- A data frame that arrives again, in `handle_incoming` of src/client/receive.rs.
use oxwifid.Base.{
  ℕ, get-set, leb_refl, ◌<◌, ◌≡◌, refl, ◌∙◌, arith, Bool, true, false, Option, none, some, List, [],
  ◌∷◌, ◌++◌, Octets, length, leb, if_split,
}
use oxwifid.Frames.Dot11.{Dot11, ccmp_pn}
use oxwifid.Client.{Client, Env, note_ap_activity}
use oxwifid.Client.Downlink.{
  Received, is_protected_data, data_key, qos_index, replay_index, last_pn, advance, open_data,
  is_eapol_ethernet, deliver, receive_opened, receive_pn, receive_under, receive_data,
}

qos_index_bound : (q : Option ℕ) → qos_index q < 17
qos_index_bound none = omega arith
qos_index_bound (some q) = omega arith

-- Both replay windows have their seventeen slots.
abbrev pub Windowed : Client → Type 0
Windowed c = (length c.last_rx_pn ≡ 17) × (length c.last_rx_gpn ≡ 17)

-- The state behind a delivery under a key and a packet number.
abbrev after : Env → Dot11 → Bool → ℕ → Client → Client
after e f use_group pn c = note_ap_activity e (advance use_group f pn c)

last_pn-after :
    (e : Env) (f : Dot11) (use_group : Bool) (pn : ℕ) (c : Client)
    → Windowed c
    → last_pn use_group (after e f use_group pn c) f ≡ pn
unfolding last_pn advance note_ap_activity replay_index
last_pn-after e f true pn c (p, g) =
    get-set c.last_rx_gpn (qos_index f.qos) pn 0 (omega (arith, g, qos_index_bound f.qos))
last_pn-after e f false pn c (p, g) =
    get-set c.last_rx_pn (qos_index f.qos) pn 0 (omega (arith, p, qos_index_bound f.qos))

same_choice :
    (e : Env) (f : Dot11) (use_group : Bool) (pn : ℕ) (c : Client)
    → data_key (after e f use_group pn c) f ≡ data_key c f
unfolding data_key advance note_ap_activity
same_choice e f true pn c = refl
same_choice e f false pn c = refl

-- A packet number that is the last one of its window is dropped.
dropped :
    (e : Env) (f : Dot11) (use_group : Bool) (pn : ℕ) (c : Client) (out net : List Octets)
    → data_key c f ≡ some use_group
    → ccmp_pn f ≡ some pn
    → last_pn use_group c f ≡ pn
    → receive_data e f ((c, out), net) ≡ ((c, out), net)
unfolding receive_data
dropped e f use_group pn c out net k p l =
    if_split (λ (s : Received). s ≡ ((c, out), net)) (is_protected_data c f)
      (λ h. rw (k, p, l, leb_refl pn) refl) (λ h. refl)

-- The same ciphers and another clock.
abbrev pub at_time : ℕ → Env → Env
at_time now e = record e { now = now }

-- A data frame whose payload is not a key message, received a second time at whatever later or earlier
-- time, changes nothing at a station whose replay windows have seventeen slots: neither the station,
-- its note of when it last heard the access point included, nor what is queued for the access point
-- or delivered to the network.
pub receive_data_twice :
    (e : Env) (again : ℕ) (f : Dot11) (c : Client) (out net : List Octets)
    → Windowed c
    → ((use_group : Bool) (eth : Octets)
        → (open_data e use_group c f ≡ some eth)
        → is_eapol_ethernet eth ≡ false)
    → receive_data (at_time again e) f (receive_data e f ((c, out), net))
      ≡ receive_data e f ((c, out), net)
unfolding receive_data deliver open_data
receive_data_twice e again f c out net w plain =
    if_split Fixed (is_protected_data c f) (λ h. under (data_key c f) refl)
      (λ h.
        if_split (λ (s : Received). s ≡ s0) (is_protected_data c f) (λ t. absurd (cc)) (λ t. refl))
  where
    s0 : Received
    s0 = ((c, out), net)

    Fixed : Received → Type 0
    Fixed s = receive_data (at_time again e) f s ≡ s

    skip : receive_under (at_time again e) f (data_key c f) s0 ≡ s0 → Fixed s0
    skip q = if_split (λ (s : Received). s ≡ s0) (is_protected_data c f) (λ h. q) (λ h. refl)

    opened :
        (g : Bool) (pn : ℕ)
        → data_key c f ≡ some g
        → ccmp_pn f ≡ some pn
        → leb pn (last_pn g c f) ≡ false
        → (o : Option Octets) → open_data e g c f ≡ o
        → Fixed (receive_opened e f g pn o s0)
    opened g pn k p n none o = skip (rw (k, p, n, o) refl)
    opened g pn k p n (some eth) o = rw (plain g eth o) (
        dropped (at_time again e) f g pn (after e f g pn c) out (net ++ (eth ∷ []))
          (same_choice e f g pn c ∙ k) p (last_pn-after e f g pn c w))

    at_pn :
        (g : Bool) (o : Option ℕ)
        → data_key c f ≡ some g
        → ccmp_pn f ≡ o
        → Fixed (receive_pn e f g o s0)
    at_pn g none k p = skip (rw (k, p) refl)
    at_pn g (some pn) k p =
        if_split Fixed (leb pn (last_pn g c f)) (λ r. skip (rw (k, p, r) refl))
          (λ n. opened g pn k p n (open_data e g c f) refl)

    under : (o : Option Bool) → data_key c f ≡ o → Fixed (receive_under e f o s0)
    under none k = skip (rw k refl)
    under (some g) k = at_pn g (ccmp_pn f) k refl
