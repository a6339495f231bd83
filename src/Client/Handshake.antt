-- ===== src/Client/Handshake.antt =====
-- src/client/handshake.rs: the answers to messages 1 and 3 of the four-way handshake.
pub mod Safety
use oxwifid.Base.{
  ℕ, ◌+◌, Bool, true, false, not, ◌&&◌, ◌||◌, Option, none, some, List, [], ◌∷◌, ◌++◌, Octets,
  length, take, drop, slice, set, leb, ltb, ◌==◌, if◌then◌else◌, ◌>>=◌, is_some, bytes_eq,
  replicate,
}
use mathlib.Core.Option
use oxwifid.Security.{Digests, KeyMic, compute, key_len, suite_type}
use oxwifid.Security.EapolKey.{EapolKey}
use oxwifid.Crypto.Kdf.{derive_ptk_sha256_len, custom_prf512}
use oxwifid.Crypto.KeyWrap.{aes_unwrap}
use oxwifid.Rsn.{
  rsn, rsn_psk_sha256, rsn_owe, rsn_wpa3, amld_rsn_sae, rsnxe_h2e, operating_class, parse_oci_kde,
  oci_class_matches_band,
}
use oxwifid.Eapol.Messages.{build_eapol_m2, build_eapol_m4_mld, mac_addr_kde}
use oxwifid.Client.{
  Client, PendingPtk, Env, key_mic, next_sc, set_connected_state, note_ap_activity,
}
use oxwifid.Client.GroupKeys.{install_group_keys}
use oxwifid.Client.Uplink.{tx_eapol}

-- `o.unwrap_or(d)`.
abbrev pub unwrap_or {ℓ} : {A : Type ℓ} → Option A → A → A
unwrap_or none d = d
unwrap_or (some a) d = a

-- `buf[..key.len()].copy_from_slice(key)` on 32 zero octets.
abbrev padded : Octets → Octets
padded key = key ++ drop (length key) (replicate 32 0)

unfoldable pub uses_sha256 : Client → Bool
uses_sha256 c = is_some c.sae_pmk || c.psk_sha256

-- The PTK octets that message 1 leads to. The length is one that the derivation supports, so that the
-- default of `unwrap_or` is never taken.
unfoldable pub derived_ptk : Digests → Client → Octets → Octets → Octets → Octets
derived_ptk d c bssid anonce snonce =
    let pmk = unwrap_or c.sae_pmk c.pmk in
    let aa = unwrap_or c.ap_mld_mac bssid in
    let spa = unwrap_or c.mld_mac c.mac in
    if uses_sha256 c
    then unwrap_or
        (derive_ptk_sha256_len d pmk aa spa anonce snonce (32 + key_len c.pairwise_cipher)) []
    else custom_prf512 d pmk aa spa anonce snonce

unfoldable pub derive_pending : Digests → Client → Octets → EapolKey → Octets → PendingPtk
derive_pending d c bssid ek snonce =
    let ptk = derived_ptk d c bssid ek.key_nonce snonce in
    record {
      anonce = ek.key_nonce;
      snonce = snonce;
      replay = ek.key_replay_counter;
      kck = take 16 ptk;
      kek = slice 16 16 ptk;
      tk = slice 32 16 ptk;
      pairwise_tk = padded (slice 32 (key_len c.pairwise_cipher) ptk);
    }

-- The RSN element of the association request, before the cipher is written into it.
abbrev base_rsn : Client → Octets
base_rsn c =
    if is_some c.mld_mac
    then amld_rsn_sae ++ rsnxe_h2e
    else if c.psk_sha256
    then rsn_psk_sha256
    else if c.owe
    then rsn_owe
    else if uses_sha256 c
    then rsn_wpa3 ++ rsnxe_h2e
    else rsn

abbrev link_kde : Option Octets → Octets
link_kde none = []
link_kde (some l1) = 0xdd ∷ 0x0b ∷ 0x00 ∷ 0x0f ∷ 0xac ∷ 0x13 ∷ 0x01 ∷ l1

-- What message 2 carries as Key Data, before the OCI.
unfoldable pub supp_rsn : Client → Octets
supp_rsn c = elim c.mld_mac [
  | none ↦ set (base_rsn c) 13 (suite_type c.pairwise_cipher)
  | some mld ↦ base_rsn c ++ (mac_addr_kde mld ++ link_kde c.link1_mac)
]

unfoldable pub own_oci : Client → Option (ℕ × ℕ)
own_oci c = if c.ocv then some (operating_class c.channel 20 false, c.channel) else none

-- Message 2 for a candidate: the candidate is stored, and the live keys stay.
unfoldable pub answer_m1 :
    Env → Octets → PendingPtk → Bool → Client × List Octets → Client × List Octets
answer_m1 e bssid p protected (c, out) =
    let (c1, sc) = next_sc c in
    let c2 = record c1 { pending_ptk = some p } in
    let message_2 =
      build_eapol_m2 e.digests bssid c2.mac p.snonce p.kck (supp_rsn c2) p.replay sc (key_mic c2)
        (own_oci c2) in
    let (c3, out') = tx_eapol e message_2 protected (c2, out) in
    (record c3 { eapol_state = 1 }, out')

-- `let Some(bssid) = self.bssid else { return }` and what follows it.
abbrev pub send_eapol2_to :
    Env → EapolKey → Bool → Client → List Octets → Option Octets → Client × List Octets
send_eapol2_to e ek protected c out none = (c, out)
send_eapol2_to e ek protected c out (some bssid) =
    answer_m1 e bssid (derive_pending e.digests c bssid ek (unwrap_or c.test_snonce e.random))
      protected (c, out)

unfoldable pub send_eapol2 : Env → EapolKey → Bool → Client × List Octets → Client × List Octets
send_eapol2 e ek protected (c, out) = send_eapol2_to e ek protected c out c.bssid

-- The override of the SNonce is put back behind the call.
unfoldable pub send_eapol2_retry :
    Env → EapolKey → Bool → Client × List Octets → Client × List Octets
send_eapol2_retry e ek protected (c, out) =
    let snonce = Option.map (λ (p : PendingPtk). p.snonce) c.pending_ptk in
    let (c', out') = send_eapol2 e ek protected (record c { test_snonce = snonce }, out) in
    (record c' { test_snonce = c.test_snonce }, out')

-- The frame with its MIC field zeroed.
abbrev without_mic : ℕ → Octets → Octets
without_mic off frame = take off frame ++ (replicate 16 0 ++ drop (off + 16) frame)

-- Whether the MIC field is inside the frame and holds the MIC under `kck`.
unfoldable pub mic_valid : Env → KeyMic → Octets → Octets → EapolKey → Bool
mic_valid e mic kck frame ek =
    leb (4 + ek.mic_offset + 16) (length frame)
    && bytes_eq (compute e.digests mic kck (without_mic (4 + ek.mic_offset) frame)) ek.key_mic

unfoldable pub retry_m3 : Client → EapolKey → Bool
retry_m3 c ek =
    not c.pause_m3
    && (c.eapol_state == 2 && (c.ptk_installed && leb c.eapol_replay ek.key_replay_counter))

abbrev answers : EapolKey → Option PendingPtk → Bool
answers ek none = false
answers ek (some p) = leb p.replay ek.key_replay_counter

unfoldable pub fresh_m3 : Client → EapolKey → Bool
fresh_m3 c ek = answers ek c.pending_ptk && (c.pause_m3 || ltb c.eapol_replay ek.key_replay_counter)

-- The key that message 3 must have its MIC under.
unfoldable pub m3_kck : Client → EapolKey → Option Octets
m3_kck c ek =
    if retry_m3 c ek then some c.kck else Option.map (λ (p : PendingPtk). p.kck) c.pending_ptk

unfoldable pub same_temporal_key : Client → PendingPtk → Bool
same_temporal_key c p =
    let tk_len = key_len c.pairwise_cipher in
    c.ptk_installed && bytes_eq (take tk_len c.pairwise_tk) (take tk_len p.pairwise_tk)

abbrev promote : PendingPtk → Client → Client
promote p c = record c {
  pending_ptk = none;
  anonce = p.anonce;
  snonce = p.snonce;
  kck = p.kck;
  kek = p.kek;
  tk = p.tk;
  pairwise_tk = p.pairwise_tk;
}

abbrev restart_counters : Client → Client
restart_counters c = record c { client_pn = 1; last_rx_pn = replicate 17 0; last_rx_mgmt_pn = 0 }

abbrev pub commit : Client → Option PendingPtk → Client
commit c none = c
commit c (some p) = if same_temporal_key c p then promote p c else restart_counters (promote p c)

unfoldable pub commit_pending_ptk : Client → Client
commit_pending_ptk c = commit c c.pending_ptk

-- The operating channel of the access point, when it has to be validated.
unfoldable pub oci_valid : Client → Octets → Bool
oci_valid c unwrapped = not c.ocv || elim (parse_oci_kde unwrapped) [
  | none ↦ false
  | some (oc, ch) ↦ ch == c.channel && oci_class_matches_band oc c.channel false
]

-- A fresh message 3 whose MIC is right: group keys, the replay counter, then the PTK.
unfoldable pub install_m3 : EapolKey → Client → Octets → Option Client
install_m3 ek c unwrapped =
    if oci_valid c unwrapped
    then Option.map (λ c'. commit_pending_ptk (record c' { eapol_replay = ek.key_replay_counter }))
        (install_group_keys unwrapped ek.key_rsc c)
    else none

unfoldable pub unwrap_and_install : Env → EapolKey → Client → Option Client
unwrap_and_install e ek c =
    c.pending_ptk >>= (λ p. aes_unwrap e.ciphers.aes p.kek ek.key_data) >>= install_m3 ek c

-- Message 4, unless the station is set to pause at message 3.
unfoldable pub answer_m3 : Env → Octets → Bool → Client × List Octets → Client × List Octets
answer_m3 e bssid protected (c, out) =
    let (c1, sc) = next_sc c in
    let message_4 =
      build_eapol_m4_mld e.digests bssid c1.mac c1.kck c1.eapol_replay sc (key_mic c1) c1.mld_mac in
    let (c2, out') = tx_eapol e message_4 protected (c1, out) in
    let c3 = note_ap_activity e (set_connected_state e 4 c2) in
    if c.pause_m3 then (c, out) else (record c3 { ptk_installed = true; eapol_state = 2 }, out')

-- The answer, when the keys could be installed.
abbrev pub answer_installed :
    Env → Octets → Bool → Client → List Octets → Option Client → Client × List Octets
answer_installed e bssid protected c out none = (c, out)
answer_installed e bssid protected c out (some c') = answer_m3 e bssid protected (c', out)

-- What is done with a message 3 whose MIC is right.
unfoldable pub accept_m3 :
    Env → Octets → EapolKey → Bool → Client × List Octets → Client × List Octets
accept_m3 e bssid ek protected (c, out) =
    if retry_m3 c ek
    then answer_m3 e bssid protected (record c { eapol_replay = ek.key_replay_counter }, out)
    else answer_installed e bssid protected c out (unwrap_and_install e ek c)

abbrev pub authentic_under : Env → Octets → EapolKey → Client → Option Octets → Bool
authentic_under e frame ek c none = false
authentic_under e frame ek c (some kck) = mic_valid e (key_mic c) kck frame ek

abbrev pub m3_authentic : Env → Octets → EapolKey → Client → Bool
m3_authentic e frame ek c = authentic_under e frame ek c (m3_kck c ek)

abbrev pub send_eapol4_to :
    Env → Octets → EapolKey → Bool → Client → List Octets → Option Octets → Client × List Octets
send_eapol4_to e frame ek protected c out none = (c, out)
send_eapol4_to e frame ek protected c out (some bssid) =
    if not c.pause_m3 && (not (retry_m3 c ek) && not (fresh_m3 c ek))
    then (c, out)
    else if m3_authentic e frame ek c
    then accept_m3 e bssid ek protected (c, out)
    else (c, out)

unfoldable pub send_eapol4 :
    Env → Octets → EapolKey → Bool → Client × List Octets → Client × List Octets
send_eapol4 e frame ek protected (c, out) = send_eapol4_to e frame ek protected c out c.bssid
