-- ===== src/Client/Dispatch/Safety.antt =====
-- Key reinstallation and the replay counter over `handle_eapol_key` in src/client/receive.rs.
use oxwifid.Base.{◌≤◌, ◌≡◌, Bool, true, false, List, Octets, some, take, length, ◌==◌, if_split}
use oxwifid.Security.{key_len}
use oxwifid.Security.EapolKey.{EapolKey}
use oxwifid.Client.{Client, Env, note_ap_activity}
use oxwifid.Client.Handshake.Safety.{
  Safe, Safe-refl, send_eapol2-Safe, send_eapol2_retry-Safe, send_eapol4-Safe,
}
use oxwifid.Client.Rekey.Safety.{handle_group_rekey-Safe}
use oxwifid.Client.Dispatch.Cases.{handle_eapol_key_cases}
use oxwifid.Client.Dispatch.{note_answer, handle_eapol_key}

note_answer-Safe :
    (e : Env) (before : List Octets) (c : Client) (r : Client × List Octets)
    → Safe c r.0
    → Safe c (note_answer e before r).0
unfolding note_answer note_ap_activity
note_answer-Safe e before c (c', out) s =
    if_split (λ (r : Client × List Octets). Safe c r.0) (length out == length before) (λ h. s)
      (λ h. s)

abbrev SafeResult : Client → Client × List Octets → Type 0
SafeResult c r = Safe c r.0

handle_eapol_key-Safe :
    (e : Env) (eapol : Octets) (ek : EapolKey) (protected : Bool) (c : Client) (out : List Octets)
    → Safe c (handle_eapol_key e eapol ek protected (c, out)).0
handle_eapol_key-Safe e eapol ek protected c out =
    handle_eapol_key_cases e eapol ek protected c out (SafeResult c) (Safe-refl c)
      (λ h. send_eapol2-Safe e ek protected c out)
      (λ h. send_eapol2_retry-Safe e ek protected c out)
      (λ h. send_eapol4-Safe e eapol ek protected c out)
      (λ h. handle_group_rekey-Safe e eapol ek protected c out) (note_answer-Safe e out c)

-- Whatever key message a station handles: if a pairwise key was installed and the same key octets
-- are the pairwise key afterwards, then the packet number of the next transmission has not gone
-- back, and the replay windows for data and for management frames are those from before.
pub ptk_not_reinstalled :
    (e : Env) (eapol : Octets) (ek : EapolKey) (protected : Bool) (c : Client) (out : List Octets)
    → (c.ptk_installed ≡ true)
    → take
        (key_len c.pairwise_cipher)
        (handle_eapol_key e eapol ek protected (c, out)).0.pairwise_tk
      ≡ take (key_len c.pairwise_cipher) c.pairwise_tk
    → (c.client_pn ≤ (handle_eapol_key e eapol ek protected (c, out)).0.client_pn)
      × ((handle_eapol_key e eapol ek protected (c, out)).0.last_rx_pn ≡ c.last_rx_pn)
      × ((handle_eapol_key e eapol ek protected (c, out)).0.last_rx_mgmt_pn ≡ c.last_rx_mgmt_pn)
ptk_not_reinstalled e eapol ek protected c out =
    (handle_eapol_key-Safe e eapol ek protected c out).0

-- Whatever key message a station handles: a group key that was set and is the group key afterwards
-- keeps its replay window.
pub gtk_not_reinstalled :
    (e : Env) (eapol : Octets) (ek : EapolKey) (protected : Bool) (c : Client) (out : List Octets)
    → (c.gtk_set ≡ true)
    → (handle_eapol_key e eapol ek protected (c, out)).0.gtk ≡ c.gtk
    → (handle_eapol_key e eapol ek protected (c, out)).0.last_rx_gpn ≡ c.last_rx_gpn
gtk_not_reinstalled e eapol ek protected c out =
    (handle_eapol_key-Safe e eapol ek protected c out).1.0

-- Whatever key message a station handles: an integrity group key that is installed before and
-- afterwards keeps its last packet number.
pub igtk_not_reinstalled :
    (e : Env) (eapol : Octets) (ek : EapolKey) (protected : Bool) (c : Client) (out : List Octets)
    (key : Octets)
    → (c.igtk ≡ some key)
    → (handle_eapol_key e eapol ek protected (c, out)).0.igtk ≡ some key
    → (handle_eapol_key e eapol ek protected (c, out)).0.last_rx_igtk_ipn ≡ c.last_rx_igtk_ipn
igtk_not_reinstalled e eapol ek protected c out =
    (handle_eapol_key-Safe e eapol ek protected c out).1.1

-- The replay counter of a station that does not pause at message 3 never goes back, whatever key
-- message it handles.
pub replay_counter_monotone :
    (e : Env) (eapol : Octets) (ek : EapolKey) (protected : Bool) (c : Client) (out : List Octets)
    → (c.pause_m3 ≡ false)
    → c.eapol_replay ≤ (handle_eapol_key e eapol ek protected (c, out)).0.eapol_replay
replay_counter_monotone e eapol ek protected c out =
    (handle_eapol_key-Safe e eapol ek protected c out).2
