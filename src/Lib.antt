-- ===== src/Lib.antt =====
-- Verification of the Wi-Fi station and access point of oxwifid, and of their key management.
--
-- oxwifid is an access point and a station for 802.11 networks in user space. A station finds an
-- access point, authenticates, and then runs the four-way handshake of EAPOL-Key messages, which
-- gives it a pairwise key and the group keys; from there it encrypts its data frames and answers
-- key updates. The access point is the other side: it negotiates the ciphers of an association, drives
-- the handshake with its timers, authorizes a station at message 4, forwards its data, and replaces the
-- group keys. The parts modelled here, each with the files of the repository it follows:
--
-- - Base: lists, options, octet strings, byte order. `Base.Chunks` is for fields at fixed places.
-- - Security: src/structures/security.rs. `KeyInfo`, `DataCipher`, `KeyMic` and `EapolKey` keep their
--   names; `Security.EapolKey.parse` is `EapolKey::parse`.
-- - Eapol: src/auth/eapol.rs, with src/mlo/keys.rs and src/group_keys/handshake.rs. One function per
--   builder; `Eapol.RoundTrip` relates the builders and the parser.
-- - GroupKeys: src/group_keys/kde.rs and management.rs, the KDEs that carry group keys, and BIP.
-- - Crypto: src/auth/crypto.rs. `Crypto.Kdf` has the PRFs, `Crypto.KeyWrap` AES key wrap, `Crypto.Ccm`
--   CCM, `Crypto.Cmac` AES-CMAC; `Crypto.Xor` has the laws of exclusive or that these need.
-- - Rsn: src/auth/rsn.rs and src/auth/wpa3/owe.rs, the elements a station sends, operating channels.
--   `Rsn.Negotiation.Spec` says what the negotiation of an association request is to ask.
-- - Frames: src/structures/common.rs and src/frames. `Frames.Dot11` is the frame parser, `Frames.Data`
--   the protection of data frames. `Frames.Association` has three builders of src/auth/frames.rs for
--   association requests, and `assoc_pairwise`, the part of `handle_assoc_req` in src/ap/association.rs
--   that chooses the cipher.
-- - Client: src/client. The record `Client` is `struct Client`; a function that takes `&mut self` takes
--   and gives back the record, and one that also queues frames works on the pair of the record and
--   `ClientOut::frames`. `Client.Classify` has `valid_m1` and its kin, `Client.GroupKeys`
--   `install_group_keys`, `Client.Uplink` `encrypt_uplink` and `tx_eapol`, `Client.Handshake` the answers
--   to messages 1 and 3, `Client.Rekey` `handle_group_rekey`, `Client.Dispatch` `handle_eapol_key`, `Client.Downlink` the last branch of
--   `handle_incoming` (protected data frames), `Client.Timers` `maintenance`, `Client.Management` `handle_robust_mgmt`.
-- - Actions: src/action_frames and src/roaming, one function per builder and parser.
-- - AccessPoint: src/ap. `AccessPoint.State` has the records `Ap` and `Station`, with the fields that the
--   modelled operations use; `Requests` is the limits of runtime.rs; `Configuration` the counters and views
--   of configuration.rs; `Lifecycle` the timers and `disconnect`, `Pmksa` the PMKSA cache,
--   `Maintenance` `run_deadline_maintenance` and `Tick` `tick`, all of lifecycle.rs; `Mld` the link
--   addresses of mlo.rs; `Handshake` `handle_eapol` of handshake.rs, whose branch for message 2 is
--   `Handshake.Message2`, with message 3 in `Handshake.Message3`; `GroupKeys` `rekey_gtk` of group_keys.rs; `Data`
--   data.rs; `Roaming` roaming.rs; `Management` management.rs;
--   `Authentication` the open-system part of `handle_auth_req` of receive.rs; `Sessions` `prune_idle` and `kick`. A hash map is a
--   list of pairs in which the first entry of a key counts, and the heap of deadlines the list of its
--   entries. A theorem on what an operation does to the stations goes through `State.Steps`: each
--   station there is afterwards was there before and is related to what it was; `Handshake.Changes` shows
--   which changes `handle_eapol` is made of.
-- - Failures: src/failures.rs; `record_failure` is `FailureLog::record`.
-- - Tests: each property at concrete inputs.
--
-- An octet string is a list of numbers, and an unsigned integer a natural number with its
-- wrap-around written out. A clock is a number of milliseconds and the random source a string of
-- octets, both in `Client.Env`. A function body that returns early is split at the return: `f_to` takes
-- the access point that `let Some(bssid) = self.bssid else { return }` binds.
--
-- The AES block function, HMAC and AES-GCM come from crates; they are the parameters `BlockCipher`,
-- `Digests` and `Gcm`, and a theorem names what it asks of them: blocks of 16 octets, a decryption
-- that undoes the encryption, a digest of 32 octets. `Digests` has the CMAC too, as a field that
-- `with_cmac` fills with the one of src/auth/crypto.rs; the theorems hold of any.
--
-- Loops are recursions on the list they consume, or on fuel: `find_loop`, `parse_oci_loop`,
-- `cbc_loop` and `ctr_loop` have the length of their octets, of which each turn takes one at least; `sha256_prf_loop`
-- has the length of its output, to which each turn adds one octet at least, and the length of its
-- result is proved. `find_ie_loop`, `strict_loop`, `unpadded`, `wmm_loop`, `mac_addr_loop` and
-- `has_element` have the length of their octets too. `fire_due`, the loop of `tick`, has the length of
-- the heap of deadlines; that it leaves nothing due is proved.
--
-- Not modelled: of the access point, SAE authentication, the rest of `handle_assoc_req`, beacons and the worker for
-- SAE (`tick` is that of an access point without one); SAE and its elliptic curve; the reception of
-- frames by the station other than key messages, protected data and robust management frames; netlink and raw sockets,
-- configuration, and the programs. Lines that are printed are left out.
-- The fields of `Client` that only those parts use are left out of the record. Clearing of memory
-- (`zeroize`) is modelled where the cleared value stays in the state.
pub mod Base
pub mod Security
pub mod Crypto
pub mod Frames
pub mod Rsn
pub mod Eapol
pub mod GroupKeys
pub mod Client
pub mod Tests
pub mod AccessPoint
pub mod Failures
pub mod Actions
