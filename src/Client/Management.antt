-- ===== src/Client/Management.antt =====
-- src/client/management.rs: management frames that a station receives in a session. The code panics
-- where a cipher refuses its input; here nothing is sent.
pub mod GroupDeauth
use oxwifid.Base.{
  ℕ, Bool, true, false, not, ◌&&◌, ◌||◌, Option, none, some, List, [], ◌∷◌, ◌++◌, Octets, length,
  take, get_or, leb, ltb, ◌==◌, if◌then◌else◌, is_some, ◌>>=◌,
}
use mathlib.Core.Option
use oxwifid.Security.{key_len}
use oxwifid.Security.EapolKey.{bit_set}
use oxwifid.Frames.{radiotap_tx}
use oxwifid.Frames.Dot11.{Dot11, subtype, protected, ccmp_pn}
use oxwifid.Frames.Management.{subtype_action, decrypt_protected_mgmt_sec}
use oxwifid.GroupKeys.Bip.{bip_verify, bip_ipn}
use oxwifid.Actions.{
  build_protected_sa_query_for_cipher_sec, parse_sa_query, sa_query_request, category_wnm,
  wnm_btm_request,
}
use oxwifid.Client.{Client, Env, next_sc, next_client_pn, disconnect}

unfoldable pub client_mgmt_rx_sec_addrs : Client → Option (Octets × Octets × Octets)
client_mgmt_rx_sec_addrs c = do
  sta_mld ← c.mld_mac
  ap_mld ← c.ap_mld_mac
  some (sta_mld, ap_mld, ap_mld)

unfoldable pub client_mgmt_tx_sec_addrs : Client → Option (Octets × Octets × Octets)
client_mgmt_tx_sec_addrs c = do
  sta_mld ← c.mld_mac
  ap_mld ← c.ap_mld_mac
  some (ap_mld, sta_mld, ap_mld)

unfoldable pub opened_mgmt : Env → Dot11 → Client → Option Octets
opened_mgmt e f c =
    decrypt_protected_mgmt_sec e.ciphers c.pairwise_cipher f
      (take (key_len c.pairwise_cipher) c.pairwise_tk) (client_mgmt_rx_sec_addrs c)

-- Whether a number was there and is greater than the last one.
abbrev pub newer : ℕ → Option ℕ → Bool
newer last none = false
newer last (some pn) = ltb last pn

abbrev number_or : ℕ → Option ℕ → ℕ
number_or last none = last
number_or last (some pn) = pn

abbrev queue : Option Octets → List Octets → List Octets
queue none out = out
queue (some frame) out = out ++ ((radiotap_tx ++ frame) ∷ [])

abbrev answer_with : Env → Octets → ℕ → Client × Option ℕ → List Octets → Client × List Octets
answer_with e bssid trans (c, none) out = (c, out)
answer_with e bssid trans (c, some pn) out =
    let (c1, sc) = next_sc c in
    (
      c1,
      queue
          (build_protected_sa_query_for_cipher_sec e.ciphers c1.pairwise_cipher bssid c1.mac true
            true trans sc pn (take (key_len c1.pairwise_cipher) c1.pairwise_tk)
            (client_mgmt_tx_sec_addrs c1))
          out,
    )

abbrev answer_to : Env → Option Octets → ℕ → Client × List Octets → Client × List Octets
answer_to e none trans st = st
answer_to e (some bssid) trans (c, out) = answer_with e bssid trans (next_client_pn c) out

abbrev answer_query : Env → Option (ℕ × ℕ) → Client × List Octets → Client × List Octets
answer_query e none st = st
answer_query e (some (action, trans)) (c, out) =
    if action == sa_query_request then answer_to e c.bssid trans (c, out) else (c, out)

-- A request to leave with an imminent disassociation ends the session.
abbrev act_on : Env → Octets → Client × List Octets → Client × List Octets
act_on e plain (c, out) =
    if leb 4 (length plain)
      && (get_or plain 0 0 == category_wnm && get_or plain 1 0 == wnm_btm_request)
    then (if bit_set (get_or plain 3 0) 2 then disconnect c else c, out)
    else answer_query e (parse_sa_query plain) (c, out)

abbrev action_opened : Env → Dot11 → Option Octets → Client × List Octets → Client × List Octets
action_opened e f none st = st
action_opened e f (some plain) (c, out) =
    if newer c.last_rx_mgmt_pn (ccmp_pn f)
    then act_on e plain
        (record c { last_rx_mgmt_pn = number_or c.last_rx_mgmt_pn (ccmp_pn f) }, out)
    else (c, out)

unfoldable pub client_action : Env → Dot11 → Client × List Octets → Client × List Octets
client_action e f (c, out) =
    if not (is_some c.sae_pmk) || (not (protected f) || not c.ptk_installed)
    then (c, out)
    else action_opened e f (opened_mgmt e f c) (c, out)

abbrev bip_valid : Env → Dot11 → Option Octets → Bool
bip_valid e f none = false
bip_valid e f (some igtk) = bip_verify e.digests igtk f.fc0 f.fc1 f.addr1 f.addr2 f.addr3 f.body

-- Whether the frame may end the session.
unfoldable pub accepts_end : Env → Dot11 → Client → Bool
accepts_end e f c =
    if not (is_some c.sae_pmk)
    then true
    else if bit_set (get_or f.addr1 0 0) 0
    then bip_valid e f c.igtk && newer c.last_rx_igtk_ipn (bip_ipn f.body)
    else c.ptk_installed
      && (protected f && (is_some (opened_mgmt e f c) && newer c.last_rx_mgmt_pn (ccmp_pn f)))

-- The packet number that an accepted frame leaves behind is reset by `disconnect`.
unfoldable pub client_robust_mgmt : Env → Dot11 → Client × List Octets → Client × List Octets
client_robust_mgmt e f (c, out) =
    if subtype f == subtype_action
    then client_action e f (c, out)
    else (if accepts_end e f c then disconnect c else c, out)
