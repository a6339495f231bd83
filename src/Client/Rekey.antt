-- ===== src/Client/Rekey.antt =====
-- src/client/group_keys.rs: `handle_group_rekey`, the answer to message 1 of the group handshake.
pub mod Safety
use oxwifid.Base.{Bool, not, ◌||◌, Option, none, some, List, Octets, ltb, if◌then◌else◌, ◌>>=◌}
use mathlib.Core.Option
use oxwifid.Security.EapolKey.{EapolKey}
use oxwifid.Crypto.KeyWrap.{aes_unwrap}
use oxwifid.Eapol.Messages.{build_group_key_msg2}
use oxwifid.Client.{Client, Env, key_mic, next_sc}
use oxwifid.Client.GroupKeys.{install_group_keys}
use oxwifid.Client.Uplink.{tx_eapol}
use oxwifid.Client.Handshake.{mic_valid}

-- Message 2 of the group handshake.
unfoldable pub answer_group :
    Env → Octets → EapolKey → Bool → Client × List Octets → Client × List Octets
answer_group e bssid ek protected (c, out) =
    let (c1, sc) = next_sc c in
    tx_eapol e
      (build_group_key_msg2 e.digests bssid c1.mac c1.kck ek.key_replay_counter sc (key_mic c))
      protected (c1, out)

-- The first delivery installs the keys and moves the replay counter.
abbrev pub install_unwrapped : EapolKey → Client → Octets → Option Client
install_unwrapped ek c unwrapped =
    Option.map (λ (c' : Client). record c' { eapol_replay = ek.key_replay_counter })
      (install_group_keys unwrapped ek.key_rsc c)

unfoldable pub install_group_m1 : Env → EapolKey → Client → Option Client
install_group_m1 e ek c =
    if ltb c.eapol_replay ek.key_replay_counter
    then aes_unwrap e.ciphers.aes c.kek ek.key_data >>= install_unwrapped ek c
    else some c

abbrev pub answer_group_installed :
    Env → Octets → EapolKey → Bool → Client → List Octets → Option Client → Client × List Octets
answer_group_installed e bssid ek protected c out none = (c, out)
answer_group_installed e bssid ek protected c out (some c') =
    answer_group e bssid ek protected (c', out)

abbrev pub handle_group_rekey_to :
    Env → Octets → EapolKey → Bool → Client → List Octets → Option Octets → Client × List Octets
handle_group_rekey_to e frame ek protected c out none = (c, out)
handle_group_rekey_to e frame ek protected c out (some bssid) =
    if not (mic_valid e (key_mic c) c.kck frame ek) || ltb ek.key_replay_counter c.eapol_replay
    then (c, out)
    else answer_group_installed e bssid ek protected c out (install_group_m1 e ek c)

unfoldable pub handle_group_rekey :
    Env → Octets → EapolKey → Bool → Client × List Octets → Client × List Octets
handle_group_rekey e frame ek protected (c, out) =
    handle_group_rekey_to e frame ek protected c out c.bssid
