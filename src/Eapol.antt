-- ===== src/Eapol.antt =====
-- src/auth/eapol.rs: the EAPOL-Key body and its EAPOL header.
pub mod RoundTrip
pub mod Messages
pub mod Mld
pub mod Received
use oxwifid.Base.{ℕ, ◌%◌, ◌^◌, ◌++◌, ◌∷◌, Octets, length, be_bytes, le_bytes, replicate}
use oxwifid.Security.{KeyInfo, to_u16}

unfoldable pub build_eapol_key_body_with_rsc :
    KeyInfo → ℕ → ℕ → Octets → ℕ → Octets → Octets → Octets
unfolding be_bytes le_bytes
build_eapol_key_body_with_rsc key_info key_length key_replay_counter key_nonce key_rsc key_mic
      key_data =
    2
    ∷ (be_bytes 2 (to_u16 key_info)
        ++ (be_bytes 2 key_length
            ++ (be_bytes 8 key_replay_counter
                ++ (key_nonce
                    ++ (replicate 16 0
                        ++ (le_bytes 8 key_rsc
                            ++ (replicate 8 0
                                ++ (key_mic
                                    ++ (be_bytes 2 (length key_data % 2 ^ 16) ++ key_data)))))))))

unfoldable pub build_eapol_key_body : KeyInfo → ℕ → ℕ → Octets → Octets → Octets → Octets
build_eapol_key_body key_info key_length key_replay_counter key_nonce key_mic key_data =
    build_eapol_key_body_with_rsc key_info key_length key_replay_counter key_nonce 0 key_mic
      key_data

-- Version 802.1X-2004, type EAPOL-Key.
unfoldable pub eapol_wrap : Octets → Octets
unfolding be_bytes
eapol_wrap body = 2 ∷ 3 ∷ (be_bytes 2 (length body % 2 ^ 16) ++ body)
