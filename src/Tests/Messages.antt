-- ===== src/Tests/Messages.antt =====
-- EAPOL-Key messages, KDEs and packet numbers at concrete inputs.
use oxwifid.Base.{◌≡◌, refl, arith, true, none, some, List, [], ◌∷◌, ◌++◌, replicate}
use oxwifid.Security.{KeyInfo, to_u16}
use oxwifid.Security.EapolKey.{EapolKey, parse}
use oxwifid.Security.Flags.{Shows, Shows-to_u16}
use oxwifid.Eapol.RoundTrip.{Fields, Fits, built, read_back, parse-built}
use oxwifid.GroupKeys.Find.{is_vendor_kde, find_vendor_kde}
use oxwifid.GroupKeys.Find.Elements.{Element, encode_all, first_kde, find-encode_all}
use oxwifid.GroupKeys.Kde.{gtk_kde, mlo_gtk_kde_with_pn, parse_gtk_kde_full, parse_mlo_gtk_kde_full}
use oxwifid.GroupKeys.Kde.RoundTrip.{parse_gtk_kde_full-gtk_kde, parse_mlo_gtk_kde_full-mlo_gtk_kde}
use oxwifid.GroupKeys.Management.{
  igtk_kde, bigtk_kde, mlo_igtk_kde, mlo_bigtk_kde, parse_igtk_kde, parse_bigtk_kde,
  parse_mlo_igtk_kde, parse_mlo_bigtk_kde,
}
use oxwifid.GroupKeys.Management.RoundTrip.{parse_management_kdes}
use oxwifid.Frames.Dot11.{Dot11, ccmp_pn}
use oxwifid.Frames.Data.PacketNumber.{framed, ccmp_pn-ccmp_header}

abbrev m3_info : KeyInfo
m3_info = record {
  encrypted_key_data = true;
  secure = true;
  has_key_mic = true;
  key_ack = true;
  install = true;
  key_type = true;
  key_descriptor_type_version = 2;
}

abbrev m3_key : EapolKey
m3_key = record {
  key_info = 5066;
  key_length = 16;
  key_replay_counter = 7;
  key_nonce = replicate 32 9;
  key_rsc = 0;
  key_mic = replicate 16 0;
  key_data = replicate 24 0;
  mic_offset = 77;
}

Shows-to_u16_example : Shows m3_key m3_info
unfolding to_u16
Shows-to_u16_example = Shows-to_u16 m3_key m3_info (omega arith) refl

abbrev m3_fields : Fields
m3_fields = record {
  info = m3_info;
  len = 16;
  replay = 7;
  nonce = replicate 32 9;
  rsc = 5;
  mic = replicate 16 3;
  key_data = 0xdd ∷ 0 ∷ [];
}

m3-Fits : Fits m3_fields
unfolding to_u16
m3-Fits = record {
  info_fits = omega arith;
  len_fits = omega arith;
  replay_fits = omega arith;
  nonce_fits = refl;
  rsc_fits = omega arith;
  mic_fits = refl;
  key_data_fits = omega arith;
}

parse-built_example : parse (built m3_fields) ≡ some (read_back m3_fields)
parse-built_example = parse-built m3_fields m3-Fits

-- An RSN element and a KDE of another type.
abbrev before_kdes : List Element
before_kdes =
    record { id = 0x30; body = 1 ∷ 0 ∷ [] }
    ∷ record { id = 0xdd; body = 0x00 ∷ 0x0f ∷ 0xac ∷ 0x0d ∷ 81 ∷ 6 ∷ 0 ∷ [] }
    ∷ []

find-encode_all_example :
    find_vendor_kde (encode_all before_kdes ++ (0xdd ∷ [])) 0x0d
    ≡ first_kde before_kdes 0x0d (find_vendor_kde (0xdd ∷ []) 0x0d)
find-encode_all_example = find-encode_all before_kdes (0xdd ∷ []) 0x0d

parse_gtk_kde_full-gtk_kde_example :
    parse_gtk_kde_full (encode_all before_kdes ++ (gtk_kde 2 (replicate 16 7) ++ (0xdd ∷ 0 ∷ [])))
    ≡ some (2, replicate 16 7)
unfolding is_vendor_kde
parse_gtk_kde_full-gtk_kde_example =
    parse_gtk_kde_full-gtk_kde before_kdes (0xdd ∷ 0 ∷ []) 2 (replicate 16 7) (omega arith)
      (omega arith) refl

parse_mlo_gtk_kde_full-mlo_gtk_kde_example :
    parse_mlo_gtk_kde_full
      (encode_all before_kdes ++ (mlo_gtk_kde_with_pn 1 2 (replicate 6 4) (replicate 16 7) ++ []))
    ≡ some (1, 2, replicate 6 4, replicate 16 7)
unfolding is_vendor_kde
parse_mlo_gtk_kde_full-mlo_gtk_kde_example =
    parse_mlo_gtk_kde_full-mlo_gtk_kde before_kdes [] 1 2 (replicate 6 4) (replicate 16 7) refl
      (omega arith) (omega arith) refl

parse_management_kdes_example :
    (parse_igtk_kde (encode_all before_kdes ++ (igtk_kde 4 (replicate 6 1) (replicate 16 7) ++ []))
      ≡ some (4, replicate 6 1, replicate 16 7))
    × (parse_bigtk_kde
          (encode_all before_kdes ++ (bigtk_kde 4 (replicate 6 1) (replicate 16 7) ++ []))
        ≡ some (4, replicate 6 1, replicate 16 7))
    × (parse_mlo_igtk_kde
          (encode_all before_kdes ++ (mlo_igtk_kde 3 4 (replicate 6 1) (replicate 16 7) ++ []))
        ≡ some (3, 4, replicate 6 1, replicate 16 7))
    × (parse_mlo_bigtk_kde
          (encode_all before_kdes ++ (mlo_bigtk_kde 3 4 (replicate 6 1) (replicate 16 7) ++ []))
        ≡ some (3, 4, replicate 6 1, replicate 16 7))
unfolding is_vendor_kde
parse_management_kdes_example =
    parse_management_kdes 4 (replicate 6 1) (replicate 16 7) (omega arith) refl refl before_kdes []
      3 refl refl refl refl

abbrev some_frame : Dot11
some_frame = record {
  fc0 = 8;
  fc1 = 0x41;
  addr1 = replicate 6 1;
  addr2 = replicate 6 2;
  addr3 = replicate 6 3;
  sc = 16;
  qos = none;
  body = [];
}

-- The packet number 65536 is read as 2 ^ 40.
ccmp_pn-ccmp_header_example :
    ccmp_pn (framed some_frame 65536 0 (replicate 8 0)) ≡ some 1099511627776
ccmp_pn-ccmp_header_example = ccmp_pn-ccmp_header some_frame 65536 0 (replicate 8 0)
