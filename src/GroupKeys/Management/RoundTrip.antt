-- ===== src/GroupKeys/Management/RoundTrip.antt =====
-- The four management-key KDEs are read back from any well-formed Key Data that holds them.
use oxwifid.Base.{
  ℕ, ◌*◌, ◌%◌, ◌^◌, ◌<◌, ◌≡◌, ap, true, false, Option, none, some, List, ◌∷◌, ◌++◌, arith, Octets,
  length, length-append, take-append, take_all, drop-append, le_bytes, le_value-le_bytes,
  length-le_bytes,
}
use mathlib.Core.Option
use oxwifid.GroupKeys.Find.Elements.{Element, encode, encode_all, first_kde, found_after, kde_hit}
use oxwifid.GroupKeys.Management.{
  management_key_body, management_key_kde, igtk_kde, bigtk_kde, mlo_igtk_kde, mlo_bigtk_kde,
  parse_management_key_kde, read_management_key, parse_igtk_kde, parse_bigtk_kde,
  parse_mlo_igtk_kde, parse_mlo_bigtk_kde, without_link,
}

abbrev element : ℕ → ℕ → Octets → Option ℕ → Octets → Element
element t key_id ipn link key = record {
  id = 0xdd;
  body = management_key_body t key_id ipn link key;
}

module _ (key_id : ℕ) (ipn key : Octets) (id_fits : key_id < 2 ^ 16) (ipn_fits : length ipn ≡ 6)
    (key_fits : length key ≡ 16) where
  read_plain :
      (t : ℕ)
      → read_management_key false (management_key_body t key_id ipn none key)
        ≡ some (0, key_id, ipn, key)
  unfolding read_management_key le_bytes
  read_plain t = ground (
    arith,
    length-append ipn key,
    le_value-le_bytes 2 key_id id_fits,
    take-append ipn key 6 ipn_fits,
    drop-append ipn key 6 ipn_fits,
    take_all key 16 key_fits,
  )

  read_mlo :
      (t link_id : ℕ)
      → read_management_key true (management_key_body t key_id ipn (some link_id) key)
        ≡ some (link_id % 16, key_id, ipn, key)
  unfolding read_management_key le_bytes
  read_mlo t link_id = ground (
    arith,
    length-append ipn ((link_id % 16 * 16) ∷ key),
    le_value-le_bytes 2 key_id id_fits,
    take-append ipn ((link_id % 16 * 16) ∷ key) 6 ipn_fits,
    drop-append ipn ((link_id % 16 * 16) ∷ key) 6 ipn_fits,
    take_all key 16 key_fits,
  )

  kde_encode :
      (t : ℕ) (link : Option ℕ)
      → length (management_key_body t key_id ipn link key) < 256
      → management_key_kde t key_id ipn link key ≡ encode (element t key_id ipn link key)
  unfolding management_key_kde
  kde_encode t link h =
      let short : length (management_key_body t key_id ipn link key) % 256
          ≡ length (management_key_body t key_id ipn link key) =
        omega arith in
      rw short

  parse_plain :
      (es : List Element) (rest : Octets) (t : ℕ)
      → first_kde es t none ≡ none
      → parse_management_key_kde
          (encode_all es ++ (management_key_kde t key_id ipn none key ++ rest))
          t
          false
        ≡ some (0, key_id, ipn, key)
  unfolding parse_management_key_kde
  parse_plain es rest t fresh =
      rw
        (kde_encode t none (
          omega (
            arith,
            length-append ipn key,
            length-le_bytes 2 key_id,
            length-append (le_bytes 2 key_id) (ipn ++ key),
          )))
        (rw (found_after es (element t key_id ipn none key) rest t fresh (kde_hit t _))
          (read_plain t))

  parse_mlo :
      (es : List Element) (rest : Octets) (t link_id : ℕ)
      → first_kde es t none ≡ none
      → parse_management_key_kde
          (encode_all es ++ (management_key_kde t key_id ipn (some link_id) key ++ rest))
          t
          true
        ≡ some (link_id % 16, key_id, ipn, key)
  unfolding parse_management_key_kde
  parse_mlo es rest t link_id fresh =
      rw
        (kde_encode t (some link_id) (
          omega (
            arith,
            length-append ipn ((link_id % 16 * 16) ∷ key),
            length-le_bytes 2 key_id,
            length-append (le_bytes 2 key_id) (ipn ++ ((link_id % 16 * 16) ∷ key)),
          )))
        (rw (found_after es (element t key_id ipn (some link_id) key) rest t fresh (kde_hit t _))
          (read_mlo t link_id))

  -- With a 16-bit key id, a six-octet packet number and a 16-octet key: each of the four KDEs, behind
  -- elements that hold no KDE of its type and before anything, is read back by its own parser, the
  -- link id to four bits.
  pub parse_management_kdes :
      (es : List Element) (rest : Octets) (link_id : ℕ)
      → first_kde es 0x09 none ≡ none
      → first_kde es 0x0e none ≡ none
      → first_kde es 0x11 none ≡ none
      → first_kde es 0x12 none ≡ none
      → (parse_igtk_kde (encode_all es ++ (igtk_kde key_id ipn key ++ rest))
          ≡ some (key_id, ipn, key))
        × (parse_bigtk_kde (encode_all es ++ (bigtk_kde key_id ipn key ++ rest))
            ≡ some (key_id, ipn, key))
        × (parse_mlo_igtk_kde (encode_all es ++ (mlo_igtk_kde link_id key_id ipn key ++ rest))
            ≡ some (link_id % 16, key_id, ipn, key))
        × (parse_mlo_bigtk_kde (encode_all es ++ (mlo_bigtk_kde link_id key_id ipn key ++ rest))
            ≡ some (link_id % 16, key_id, ipn, key))
  unfolding parse_igtk_kde parse_bigtk_kde parse_mlo_igtk_kde parse_mlo_bigtk_kde igtk_kde bigtk_kde
      mlo_igtk_kde mlo_bigtk_kde
  parse_management_kdes es rest link_id igtk bigtk mlo_igtk mlo_bigtk = (
    ap (Option.map without_link) (parse_plain es rest 0x09 igtk),
    ap (Option.map without_link) (parse_plain es rest 0x0e bigtk),
    parse_mlo es rest 0x11 link_id mlo_igtk,
    parse_mlo es rest 0x12 link_id mlo_bigtk,
  )
