-- ===== src/Tests/Downlink.antt =====
-- A protected data frame that arrives twice.
use oxwifid.Base.{
  ◌≡◌, refl, Bool, true, false, none, some, [], ◌∷◌, ◌++◌, Octets, replicate, bytes_eq, be_bytes,
}
use oxwifid.Security.{key_len}
use oxwifid.Crypto.Ccm.{
  run_ccmp_decrypt_with_tag, ctr_encrypt, ctr_loop, ctr_keystream_block, a0_block, xor_octets,
  cbc_mac, cbc_loop, mac_blocks,
}
use oxwifid.Frames.Dot11.{Dot11, ccmp_pn, ccmp_data, priority}
use oxwifid.Frames.Data.{
  decrypt_protected_data_sec, open_payload, decrypt_data_payload, decapsulate, ccmp_get_nonce,
  pn2bin, ccmp_get_aad,
}
use oxwifid.Client.{Env}
use oxwifid.Client.Downlink.{receive_data, open_data, is_eapol_ethernet}
use oxwifid.Client.Downlink.Replay.{at_time, receive_data_twice}
use oxwifid.Tests.Station.{station, toy_env}

-- A keystream of zeros, under which a text is its own ciphertext.
abbrev zero_env : Env
zero_env = record toy_env {
  ciphers = record {
    aes = record { encrypt = λ key b. replicate 16 0; decrypt = λ key b. b };
    gcm = record { seal = λ k n a m. none; open_sealed = λ k n a m t. none };
  };
}

-- An IPv4 frame under packet number 301 and the pairwise key.
abbrev data_frame : Dot11
data_frame = record {
  fc0 = 8;
  fc1 = 0x42;
  addr1 = replicate 6 2;
  addr2 = replicate 6 4;
  addr3 = replicate 6 6;
  sc = 32;
  qos = none;
  body =
      (45 ∷ 1 ∷ 0 ∷ 0x20 ∷ 0 ∷ 0 ∷ 0 ∷ 0 ∷ [])
      ++ ((0xaa ∷ 0xaa ∷ 3 ∷ 0 ∷ 0 ∷ 0 ∷ 8 ∷ 0 ∷ 0x45 ∷ []) ++ replicate 8 0);
}

abbrev ipv4 : Octets
ipv4 = replicate 6 2 ++ (replicate 6 6 ++ (8 ∷ 0 ∷ 0x45 ∷ []))

opened : (use_group : Bool) → open_data zero_env use_group station data_frame ≡ some ipv4
unfolding open_data decrypt_protected_data_sec ccmp_pn ccmp_data open_payload decrypt_data_payload
    run_ccmp_decrypt_with_tag ctr_encrypt ctr_loop ctr_keystream_block a0_block xor_octets cbc_mac
    cbc_loop mac_blocks bytes_eq decapsulate priority key_len ccmp_get_nonce pn2bin be_bytes
    ccmp_get_aad
opened true = refl
opened false = refl

no_key_message :
    (use_group : Bool) (eth : Octets)
    → open_data zero_env use_group station data_frame ≡ some eth
    → is_eapol_ethernet eth ≡ false
unfolding is_eapol_ethernet bytes_eq be_bytes
no_key_message g eth h = let o = opened g in let q : ipv4 ≡ eth = cc in rw (← q) refl

receive_data_twice_example :
    receive_data
      (at_time 95000 zero_env)
      data_frame
      (receive_data zero_env data_frame ((station, []), []))
    ≡ receive_data zero_env data_frame ((station, []), [])
receive_data_twice_example =
    receive_data_twice zero_env 95000 data_frame station [] [] (refl, refl) no_key_message
