-- ===== src/Client/Dispatch/Live.antt =====
-- Key messages without a MIC over `handle_eapol_key` in src/client/receive.rs.
use oxwifid.Base.{
  true, ℕ, ◌≤◌, ◌≡◌, refl, ap, arith, Bool, false, List, Octets, Option, some, none, length, ◌==◌,
  if_split,
}
use mathlib.Core.Option
use oxwifid.Security.EapolKey.{EapolKey, has_key_mic}
use oxwifid.Client.{Client, PendingPtk, Env, note_ap_activity, next_sc}
use oxwifid.Client.Classify.{
  valid_m3, valid_group_m1, unauthenticated-valid_m3, unauthenticated-valid_group_m1,
}
use oxwifid.Client.Uplink.Counters.{tx_eapol-Sends}
use oxwifid.Client.Handshake.{answer_m1, send_eapol2_to, send_eapol2, send_eapol2_retry}
use oxwifid.Client.Dispatch.Cases.{handle_eapol_key_cases}
use oxwifid.Client.Dispatch.{note_answer, handle_eapol_key}

-- What a session runs on: its keys, its replay windows and its replay counter.
pub record Live : Type 0 where
  pub bssid : Option Octets
  pub connected : ℕ
  pub ptk_installed : Bool
  pub nonces : Octets × Octets
  pub kck : Octets
  pub kek : Octets
  pub pairwise_tk : Octets
  pub gtk : Bool × ℕ × Octets
  pub igtk : Option ℕ × Option Octets
  pub bigtk : Option Octets
  pub sae_pmk : Option Octets
  pub data_windows : List ℕ × List ℕ
  pub management_windows : ℕ × ℕ
  pub eapol_replay : ℕ

abbrev pub live : Client → Live
live c = record {
  bssid = c.bssid;
  connected = c.connected;
  ptk_installed = c.ptk_installed;
  nonces = (c.anonce, c.snonce);
  kck = c.kck;
  kek = c.kek;
  pairwise_tk = c.pairwise_tk;
  gtk = (c.gtk_set, c.gtk_key_id, c.gtk);
  igtk = (c.igtk_key_id, c.igtk);
  bigtk = c.bigtk;
  sae_pmk = c.sae_pmk;
  data_windows = (c.last_rx_pn, c.last_rx_gpn);
  management_windows = (c.last_rx_mgmt_pn, c.last_rx_igtk_ipn);
  eapol_replay = c.eapol_replay;
}

-- The session goes on as it was, and its packet number does not go back.
abbrev pub Untouched : Client → Client → Type 0
Untouched c c' = (live c' ≡ live c) × (c.client_pn ≤ c'.client_pn)

Untouched-refl : (c : Client) → Untouched c c
Untouched-refl c = (refl, omega arith)

answer_m1-Untouched :
    (e : Env) (bssid : Octets) (p : PendingPtk) (protected : Bool) (c : Client) (out : List Octets)
    → Untouched c (answer_m1 e bssid p protected (c, out)).0
unfolding answer_m1 next_sc
answer_m1-Untouched e bssid p protected c out =
    let c2 : Client = record (next_sc c).0 { pending_ptk = some p } in
    let (q, up) = tx_eapol-Sends e _ protected c2 out in (ap live q, up)

send_eapol2_to-Untouched :
    (e : Env) (ek : EapolKey) (protected : Bool) (c : Client) (out : List Octets)
    (bssid : Option Octets)
    → Untouched c (send_eapol2_to e ek protected c out bssid).0
send_eapol2_to-Untouched e ek protected c out none = Untouched-refl c
send_eapol2_to-Untouched e ek protected c out (some bssid) =
    answer_m1-Untouched e bssid _ protected c out

send_eapol2-Untouched :
    (e : Env) (ek : EapolKey) (protected : Bool) (c : Client) (out : List Octets)
    → Untouched c (send_eapol2 e ek protected (c, out)).0
unfolding send_eapol2
send_eapol2-Untouched e ek protected c out = send_eapol2_to-Untouched e ek protected c out c.bssid

send_eapol2_retry-Untouched :
    (e : Env) (ek : EapolKey) (protected : Bool) (c : Client) (out : List Octets)
    → Untouched c (send_eapol2_retry e ek protected (c, out)).0
unfolding send_eapol2_retry
send_eapol2_retry-Untouched e ek protected c out =
    send_eapol2-Untouched e ek protected
      (record c { test_snonce = Option.map (λ (p : PendingPtk). p.snonce) c.pending_ptk }) out

note_answer-Untouched :
    (e : Env) (before : List Octets) (c : Client) (r : Client × List Octets)
    → Untouched c r.0
    → Untouched c (note_answer e before r).0
unfolding note_answer note_ap_activity
note_answer-Untouched e before c (c', out) s =
    if_split (λ (r : Client × List Octets). Untouched c r.0) (length out == length before) (λ h. s)
      (λ h. s)

abbrev Kept : Client → Client × List Octets → Type 0
Kept c r = Untouched c r.0

-- A key message that carries no MIC, which anyone can send, changes neither the keys nor the replay
-- windows nor the replay counter nor the connection state of a station, and its packet number does
-- not go back.
pub handle_eapol_key-Untouched :
    (e : Env) (eapol : Octets) (ek : EapolKey) (protected : Bool) (c : Client) (out : List Octets)
    → (has_key_mic ek ≡ false)
    → (live (handle_eapol_key e eapol ek protected (c, out)).0 ≡ live c)
      × (c.client_pn ≤ (handle_eapol_key e eapol ek protected (c, out)).0.client_pn)
handle_eapol_key-Untouched e eapol ek protected c out bare =
    handle_eapol_key_cases e eapol ek protected c out (Kept c) (Untouched-refl c)
      (λ h. send_eapol2-Untouched e ek protected c out)
      (λ h. send_eapol2_retry-Untouched e ek protected c out)
      (λ (h : valid_m3 c ek ≡ true). let n = unauthenticated-valid_m3 c ek bare in absurd (cc))
      (λ (h : valid_group_m1 c ek ≡ true).
        let n = unauthenticated-valid_group_m1 c ek bare in absurd (cc))
      (note_answer-Untouched e out c)
