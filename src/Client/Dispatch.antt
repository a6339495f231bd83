-- ===== src/Client/Dispatch.antt =====
-- src/client/receive.rs: `handle_eapol_key`.
pub mod Cases
pub mod Live
pub mod Safety
pub mod Forgery
use oxwifid.Base.{Bool, not, ◌&&◌, List, Octets, length, leb, ◌==◌, if◌then◌else◌, is_some}
use oxwifid.Security.EapolKey.{EapolKey, is_pairwise, has_key_mic}
use oxwifid.Client.{Client, Env, note_ap_activity}
use oxwifid.Client.Classify.{valid_m1, valid_m3, is_m1_retry, is_m1_fresh, valid_group_m1}
use oxwifid.Client.Handshake.{send_eapol2, send_eapol2_retry, send_eapol4}
use oxwifid.Client.Rekey.{handle_group_rekey}

-- `if out.frames.len() != before { self.note_ap_activity() }`.
unfoldable pub note_answer : Env → List Octets → Client × List Octets → Client × List Octets
note_answer e before (c, out) =
    if length out == length before then (c, out) else (note_ap_activity e c, out)

-- With PMF and an installed key, a bare pairwise message without a MIC is dropped.
unfoldable pub forged_m1 : Client → EapolKey → Bool → Bool
forged_m1 c ek protected =
    not protected
    && (c.ptk_installed && (is_some c.sae_pmk && (is_pairwise ek && not (has_key_mic ek))))

-- A key message on an established link whose last handshake is complete.
unfoldable pub handle_established :
    Env → Octets → EapolKey → Bool → Client × List Octets → Client × List Octets
handle_established e eapol ek protected (c, out) =
    if valid_m3 c ek
    then send_eapol4 e eapol ek protected (c, out)
    else if valid_m1 c ek && is_m1_fresh c ek
    then send_eapol2 e ek protected (c, out)
    else (c, out)

-- A key message while a handshake runs: `eapol_state` 0 awaits message 1, 1 awaits message 3.
unfoldable pub handle_handshake :
    Env → Octets → EapolKey → Bool → Client × List Octets → Client × List Octets
handle_handshake e eapol ek protected (c, out) =
    if c.eapol_state == 0
    then if valid_m1 c ek then send_eapol2 e ek protected (c, out) else (c, out)
    else if not (c.eapol_state == 1)
    then (c, out)
    else if valid_m3 c ek
    then send_eapol4 e eapol ek protected (c, out)
    else if valid_m1 c ek && is_m1_retry c ek
    then send_eapol2_retry e ek protected (c, out)
    else if valid_m1 c ek && is_m1_fresh c ek
    then send_eapol2 e ek protected (c, out)
    else (c, out)

-- The handler that the state and the message select.
unfoldable pub handle_message :
    Env → Octets → EapolKey → Bool → Client × List Octets → Client × List Octets
handle_message e eapol ek protected (c, out) =
    if leb 4 c.connected && not (is_pairwise ek)
    then (if valid_group_m1 c ek
        then handle_group_rekey e eapol ek protected (c, out)
        else (c, out))
    else if leb 4 c.connected && c.eapol_state == 2
    then handle_established e eapol ek protected (c, out)
    else handle_handshake e eapol ek protected (c, out)

unfoldable pub handle_eapol_key :
    Env → Octets → EapolKey → Bool → Client × List Octets → Client × List Octets
handle_eapol_key e eapol ek protected (c, out) =
    if forged_m1 c ek protected
    then (c, out)
    else note_answer e out (handle_message e eapol ek protected (c, out))
