-- ===== src/Client/Handshake/Safety.antt =====
-- Key reinstallation and the replay counter in src/client/handshake.rs.
use oxwifid.Base.{
  ℕ, ◌≤◌, ◌≡◌, ◌≢◌, refl, sym, arith, Bool, true, false, not, ◌&&◌, Option, none, some, List,
  Octets, take, if_split, OnSome, OnSome-bind, ◌>>=◌, OnSome-map, OnSome-imp, bytes_eq,
  bytes_eq_refl,
}
use mathlib.Core.Path.{subst}
use mathlib.Core.Option
use oxwifid.Security.{key_len}
use oxwifid.Security.EapolKey.{EapolKey}
use oxwifid.Crypto.KeyWrap.{aes_unwrap}
use oxwifid.Client.{Client, PendingPtk, Env, next_sc, set_connected_state, note_ap_activity}
use oxwifid.Client.GroupKeys.{install_group_keys}
use oxwifid.Client.GroupKeys.Reinstall.{KeepsWindows, Regrouped, install_group_keys-Regrouped}
use oxwifid.Client.Uplink.Counters.{Sends, tx_eapol-Sends}
use oxwifid.Client.Handshake.{
  answer_m1, send_eapol2_to, send_eapol2, send_eapol2_retry, retry_m3, fresh_m3, same_temporal_key,
  commit, commit_pending_ptk, oci_valid, install_m3, unwrap_and_install, answer_m3,
  answer_installed, accept_m3, m3_authentic, send_eapol4_to, send_eapol4,
}

-- A temporal key that is still installed has kept its packet number and its replay windows.
abbrev pub KeepsPtk : Client → Client → Type 0
KeepsPtk c c' =
    (c.ptk_installed ≡ true)
    → (take (key_len c.pairwise_cipher) c'.pairwise_tk
        ≡ take (key_len c.pairwise_cipher) c.pairwise_tk)
    → (c.client_pn ≤ c'.client_pn)
      × (c'.last_rx_pn ≡ c.last_rx_pn)
      × (c'.last_rx_mgmt_pn ≡ c.last_rx_mgmt_pn)

-- The replay counter does not go back, unless the station pauses at message 3.
abbrev pub KeepsReplay : Client → Client → Type 0
KeepsReplay c c' = (c.pause_m3 ≡ false) → c.eapol_replay ≤ c'.eapol_replay

abbrev pub Safe : Client → Client → Type 0
Safe c c' = KeepsPtk c c' × KeepsWindows c c' × KeepsReplay c c'

pub Safe-refl : (c : Client) → Safe c c
Safe-refl c = (λ i e. (omega arith, refl, refl), (λ s e. refl, λ k e f. refl), λ p. omega arith)

pub Safe-Sends : (c c1 c2 : Client) → Safe c c1 → Sends c1 c2 → Safe c c2
Safe-Sends c c1 c2 (k, w, r) (q, up) =
    subst (Safe c) (sym q) (λ i e. let (a, b, d) = k i e in (omega arith, b, d), w, r)

answer_m1-Safe :
    (e : Env) (bssid : Octets) (p : PendingPtk) (protected : Bool) (c : Client) (out : List Octets)
    → Safe c (answer_m1 e bssid p protected (c, out)).0
unfolding answer_m1 next_sc
answer_m1-Safe e bssid p protected c out =
    let c2 : Client = record (next_sc c).0 { pending_ptk = some p } in
    Safe-Sends c c2 _ (Safe-refl c) (tx_eapol-Sends e _ protected c2 out)

send_eapol2_to-Safe :
    (e : Env) (ek : EapolKey) (protected : Bool) (c : Client) (out : List Octets)
    (bssid : Option Octets)
    → Safe c (send_eapol2_to e ek protected c out bssid).0
send_eapol2_to-Safe e ek protected c out none = Safe-refl c
send_eapol2_to-Safe e ek protected c out (some bssid) = answer_m1-Safe e bssid _ protected c out

pub send_eapol2-Safe :
    (e : Env) (ek : EapolKey) (protected : Bool) (c : Client) (out : List Octets)
    → Safe c (send_eapol2 e ek protected (c, out)).0
unfolding send_eapol2
send_eapol2-Safe e ek protected c out = send_eapol2_to-Safe e ek protected c out c.bssid

pub send_eapol2_retry-Safe :
    (e : Env) (ek : EapolKey) (protected : Bool) (c : Client) (out : List Octets)
    → Safe c (send_eapol2_retry e ek protected (c, out)).0
unfolding send_eapol2_retry
send_eapol2_retry-Safe e ek protected c out =
    send_eapol2-Safe e ek protected
      (record c { test_snonce = Option.map (λ (p : PendingPtk). p.snonce) c.pending_ptk }) out

answer_m3-Safe :
    (e : Env) (bssid : Octets) (protected : Bool) (c c1 : Client) (out : List Octets)
    → Safe c c1
    → Safe c (answer_m3 e bssid protected (c1, out)).0
unfolding answer_m3 next_sc set_connected_state note_ap_activity
answer_m3-Safe e bssid protected c c1 out s =
    if_split (λ (r : Client × List Octets). Safe c r.0) c1.pause_m3 (λ h. s)
      (λ h. Safe-Sends c (next_sc c1).0 _ s (tx_eapol-Sends e _ protected (next_sc c1).0 out))

-- The group keys come from `c1`, everything else from `c`.
abbrev regrouped : Client → Client → Client
regrouped c c1 = record c {
  gtk = c1.gtk;
  gtk_set = c1.gtk_set;
  gtk_key_id = c1.gtk_key_id;
  last_rx_gpn = c1.last_rx_gpn;
  igtk = c1.igtk;
  igtk_key_id = c1.igtk_key_id;
  last_rx_igtk_ipn = c1.last_rx_igtk_ipn;
  bigtk = c1.bigtk;
}

-- A candidate whose temporal key is the live one leaves the counters alone.
commit-Safe :
    (c c1 : Client) (replay : ℕ) (p : Option PendingPtk)
    → KeepsWindows c c1
    → ((c.pause_m3 ≡ false) → c.eapol_replay ≤ replay)
    → Safe c (commit (record (regrouped c c1) { eapol_replay = replay }) p)
unfolding same_temporal_key
commit-Safe c c1 replay none w r = (λ i e. (omega arith, refl, refl), w, r)
commit-Safe c c1 replay (some p) w r =
    if_split (Safe c) (same_temporal_key (record (regrouped c c1) { eapol_replay = replay }) p)
      (λ h. (λ i e. (omega arith, refl, refl), w, r)) (λ h. (λ i e. absurd (differs i e h), w, r))
  where
    differs :
        (c.ptk_installed ≡ true)
        → (take (key_len c.pairwise_cipher) p.pairwise_tk
            ≡ take (key_len c.pairwise_cipher) c.pairwise_tk)
        → same_temporal_key (record (regrouped c c1) { eapol_replay = replay }) p ≢ false
    differs i e h =
        let n = key_len c.pairwise_cipher in
        let t : (c.ptk_installed && bytes_eq (take n c.pairwise_tk) (take n p.pairwise_tk)) ≡ true =
          rw (i, e, bytes_eq_refl (take n c.pairwise_tk)) refl in
        cc

install_m3-Safe :
    (ek : EapolKey) (c : Client) (unwrapped : Octets)
    → ((c.pause_m3 ≡ false) → c.eapol_replay ≤ ek.key_replay_counter)
    → OnSome (Safe c) (install_m3 ek c unwrapped)
unfolding install_m3 commit_pending_ptk
install_m3-Safe ek c unwrapped r =
    if_split (OnSome (Safe c)) (oci_valid c unwrapped)
      (λ h. OnSome-map (Safe c) _ (install_group_keys unwrapped ek.key_rsc c) (
        OnSome-imp (Regrouped c) _ (install_group_keys unwrapped ek.key_rsc c) committed
          (install_group_keys-Regrouped c unwrapped ek.key_rsc)))
      (λ h. tt)
  where
    committed :
        (c1 : Client)
        → Regrouped c c1
        → Safe c (commit (record c1 { eapol_replay = ek.key_replay_counter }) c1.pending_ptk)
    committed c1 (g, w) =
        subst
          (λ (x : Client).
            Safe c (commit (record x { eapol_replay = ek.key_replay_counter }) x.pending_ptk))
          (sym g) (commit-Safe c c1 ek.key_replay_counter c.pending_ptk w r)

unwrap_and_install-Safe :
    (e : Env) (ek : EapolKey) (c : Client)
    → ((c.pause_m3 ≡ false) → c.eapol_replay ≤ ek.key_replay_counter)
    → OnSome (Safe c) (unwrap_and_install e ek c)
unfolding unwrap_and_install
unwrap_and_install-Safe e ek c r =
    OnSome-bind (Safe c)
      (c.pending_ptk >>= (λ (p : PendingPtk). aes_unwrap e.ciphers.aes p.kek ek.key_data))
      (install_m3 ek c) (λ unwrapped. install_m3-Safe ek c unwrapped r)

answer_installed-Safe :
    (e : Env) (bssid : Octets) (protected : Bool) (c : Client) (out : List Octets)
    (o : Option Client)
    → OnSome (Safe c) o
    → Safe c (answer_installed e bssid protected c out o).0
answer_installed-Safe e bssid protected c out none h = Safe-refl c
answer_installed-Safe e bssid protected c out (some c1) h =
    answer_m3-Safe e bssid protected c c1 out h

retry_m3_counter :
    (c : Client) (ek : EapolKey) → retry_m3 c ek ≡ true → c.eapol_replay ≤ ek.key_replay_counter
unfolding retry_m3
retry_m3_counter c ek h = ground arith

fresh_m3_counter :
    (c : Client) (ek : EapolKey)
    → (not c.pause_m3 && (not (retry_m3 c ek) && not (fresh_m3 c ek))) ≡ false
    → retry_m3 c ek ≡ false
    → c.pause_m3 ≡ false
    → c.eapol_replay ≤ ek.key_replay_counter
unfolding fresh_m3
fresh_m3_counter c ek h n p = ground arith

accept_m3-Safe :
    (e : Env) (bssid : Octets) (ek : EapolKey) (protected : Bool) (c : Client) (out : List Octets)
    → (not c.pause_m3 && (not (retry_m3 c ek) && not (fresh_m3 c ek))) ≡ false
    → Safe c (accept_m3 e bssid ek protected (c, out)).0
unfolding accept_m3
accept_m3-Safe e bssid ek protected c out h =
    if_split (λ (r : Client × List Octets). Safe c r.0) (retry_m3 c ek)
      (λ t. answer_m3-Safe e bssid protected c _ out (
        λ i e. (omega arith, refl, refl),
        (λ s e. refl, λ k e f. refl),
        λ p. retry_m3_counter c ek t,
      ))
      (λ n.
        answer_installed-Safe e bssid protected c out (unwrap_and_install e ek c)
          (unwrap_and_install-Safe e ek c (fresh_m3_counter c ek h n)))

send_eapol4_to-Safe :
    (e : Env) (frame : Octets) (ek : EapolKey) (protected : Bool) (c : Client) (out : List Octets)
    (bssid : Option Octets)
    → Safe c (send_eapol4_to e frame ek protected c out bssid).0
send_eapol4_to-Safe e frame ek protected c out none = Safe-refl c
send_eapol4_to-Safe e frame ek protected c out (some bssid) =
    if_split (λ (r : Client × List Octets). Safe c r.0)
      (not c.pause_m3 && (not (retry_m3 c ek) && not (fresh_m3 c ek))) (λ h. Safe-refl c)
      (λ h.
        if_split (λ (r : Client × List Octets). Safe c r.0) (m3_authentic e frame ek c)
          (λ a. accept_m3-Safe e bssid ek protected c out h) (λ a. Safe-refl c))

pub send_eapol4-Safe :
    (e : Env) (frame : Octets) (ek : EapolKey) (protected : Bool) (c : Client) (out : List Octets)
    → Safe c (send_eapol4 e frame ek protected (c, out)).0
unfolding send_eapol4
send_eapol4-Safe e frame ek protected c out = send_eapol4_to-Safe e frame ek protected c out c.bssid
