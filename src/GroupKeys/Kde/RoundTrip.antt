-- ===== src/GroupKeys/Kde/RoundTrip.antt =====
-- The GTK KDEs are read back from any well-formed Key Data that holds them.
use oxwifid.Base.{
  ℕ, ◌+◌, ◌*◌, ◌/◌, ◌%◌, ◌≤◌, ◌≡◌, none, some, List, ◌∷◌, ◌++◌, arith, Octets, length,
  length-append, take-append, drop-append,
}
use oxwifid.GroupKeys.Find.Elements.{Element, encode, encode_all, first_kde, found_after, kde_hit}
use oxwifid.GroupKeys.Kde.{gtk_kde, mlo_gtk_kde_with_pn, parse_gtk_kde_full, parse_mlo_gtk_kde_full}

twice_mod : (n : ℕ) → n % 4 % 4 ≡ n % 4
twice_mod n = omega arith

link_of : (l k : ℕ) → (k % 4 + l % 16 * 16) / 16 % 16 ≡ l % 16
link_of l k = omega arith

key_of : (l k : ℕ) → (k % 4 + l % 16 * 16) % 4 ≡ k % 4
key_of l k = omega arith

abbrev gtk_element : ℕ → Octets → Element
gtk_element key_id gtk = record {
  id = 0xdd;
  body = 0x00 ∷ 0x0f ∷ 0xac ∷ 0x01 ∷ (key_id % 4) ∷ 0x00 ∷ gtk;
}

abbrev mlo_gtk_element : ℕ → ℕ → Octets → Octets → Element
mlo_gtk_element link_id key_id pn gtk = record {
  id = 0xdd;
  body = 0x00 ∷ 0x0f ∷ 0xac ∷ 0x10 ∷ (key_id % 4 + link_id % 16 * 16) ∷ (pn ++ gtk);
}

gtk_kde-encode :
    (key_id : ℕ) (gtk : Octets)
    → length gtk ≤ 249
    → gtk_kde key_id gtk ≡ encode (gtk_element key_id gtk)
unfolding gtk_kde
gtk_kde-encode key_id gtk h =
    let short : (length gtk + 6) % 256 ≡ length (gtk_element key_id gtk).body = omega arith in
    rw short

-- A GTK of 16 to 249 octets in a GTK KDE, behind elements none of which is a GTK KDE and before
-- anything, is read back with the low two bits of its key id.
pub parse_gtk_kde_full-gtk_kde :
    (es : List Element) (rest : Octets) (key_id : ℕ) (gtk : Octets)
    → 16 ≤ length gtk
    → length gtk ≤ 249
    → first_kde es 0x01 none ≡ none
    → parse_gtk_kde_full (encode_all es ++ (gtk_kde key_id gtk ++ rest)) ≡ some (key_id % 4, gtk)
unfolding parse_gtk_kde_full
parse_gtk_kde_full-gtk_kde es rest key_id gtk lo hi fresh =
    rw (gtk_kde-encode key_id gtk hi)
      (rw (found_after es (gtk_element key_id gtk) rest 0x01 fresh (kde_hit 0x01 _)) (ground arith))

mlo_gtk_kde-encode :
    (link_id key_id : ℕ) (pn gtk : Octets)
    → length pn ≡ 6
    → length gtk ≤ 244
    → mlo_gtk_kde_with_pn link_id key_id pn gtk ≡ encode (mlo_gtk_element link_id key_id pn gtk)
unfolding mlo_gtk_kde_with_pn
mlo_gtk_kde-encode link_id key_id pn gtk hp h =
    let short : (11 + length gtk) % 256 ≡ length (mlo_gtk_element link_id key_id pn gtk).body =
      omega (arith, length-append pn gtk) in
    rw short

-- An MLO GTK KDE with a six-octet packet number and a GTK of 1 to 244 octets, behind elements none
-- of which is an MLO GTK KDE and before anything, is read back: the link id to four bits, the key id
-- to two bits, the packet number and the GTK.
pub parse_mlo_gtk_kde_full-mlo_gtk_kde :
    (es : List Element) (rest : Octets) (link_id key_id : ℕ) (pn gtk : Octets)
    → length pn ≡ 6
    → 1 ≤ length gtk
    → length gtk ≤ 244
    → first_kde es 0x10 none ≡ none
    → parse_mlo_gtk_kde_full (encode_all es ++ (mlo_gtk_kde_with_pn link_id key_id pn gtk ++ rest))
      ≡ some (link_id % 16, key_id % 4, pn, gtk)
unfolding parse_mlo_gtk_kde_full
parse_mlo_gtk_kde_full-mlo_gtk_kde es rest link_id key_id pn gtk hp lo hi fresh =
    rw (mlo_gtk_kde-encode link_id key_id pn gtk hp hi) (
      rw (found_after es (mlo_gtk_element link_id key_id pn gtk) rest 0x10 fresh (kde_hit 0x10 _))
        (ground (arith, length-append pn gtk, take-append pn gtk 6 hp, drop-append pn gtk 6 hp)))
