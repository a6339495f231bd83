-- ===== src/Rsn/Negotiation/Soundness.antt =====
-- What a successful negotiation in src/auth/rsn.rs stands for.
use oxwifid.Base.{
  ℕ, ◌≡◌, ◌↔◌, ◌∙◌, sym, ap, refl, arith, true, false, not, ◌&&◌, Option, none, some, List, [], ◌∷◌,
  ◌⊎◌, inl, inr, Octets, if_split, bytes_eq, bytes_eq→eq, le_value,
}
use oxwifid.Security.{DataCipher, suite_type}
use oxwifid.Rsn.Parse.{RsnInfo, parse_rsn, rsn_suite, take_u16, take_suite}
use oxwifid.Rsn.Tails.{SecurityMode}
use oxwifid.Rsn.Negotiation.{
  contains, first_common, akm_supported, needs_pmf, requires_pmf, check_selected, check_common,
  check_info, negotiate_assoc_pairwise_cipher,
}
use oxwifid.Rsn.Negotiation.Spec.{
  Names, FirstOffered, Allowed, Acceptable, Decides, contains-Decides, bytes_eq-Decides, mode_test,
  mode_test-Decides,
}

first_common_offered :
    (pairwise : List Octets) (supported : List DataCipher) (c : DataCipher)
    → (first_common pairwise supported ≡ some c) ↔ FirstOffered pairwise supported c
unfolding first_common
first_common_offered pairwise [] c = (λ h. absurd (cc), λ n. absurd n)
first_common_offered pairwise (d ∷ ds) c =
    if_split
      (λ (r : Option DataCipher). (r ≡ some c) ↔ (
        (Names pairwise (suite_type d) × (c ≡ d))
        ⊎ ((¬ Names pairwise (suite_type d)) × FirstOffered pairwise ds c)))
      (contains pairwise (rsn_suite (suite_type d)))
      (λ offered. (λ h. inl (test.0 offered, cc), chosen offered))
      (λ other. (
        λ h. inr (refused other, (first_common_offered pairwise ds c).0 h),
        passed (first_common_offered pairwise ds c).1 other,
      ))
  where
    test : Decides (contains pairwise (rsn_suite (suite_type d))) (Names pairwise (suite_type d))
    test = contains-Decides pairwise (suite_type d)

    refused : contains pairwise (rsn_suite (suite_type d)) ≡ false → ¬ Names pairwise (suite_type d)
    refused other n = let e = test.1 n in cc (e, other)

    chosen :
        contains pairwise (rsn_suite (suite_type d)) ≡ true
        → (Names pairwise (suite_type d) × (c ≡ d))
          ⊎ ((¬ Names pairwise (suite_type d)) × FirstOffered pairwise ds c)
        → some d ≡ some c
    chosen offered (inl (n, same)) = ap some (sym same)
    chosen offered (inr (n, later)) = absurd (n (test.0 offered))

    passed :
        (FirstOffered pairwise ds c → first_common pairwise ds ≡ some c)
        → contains pairwise (rsn_suite (suite_type d)) ≡ false
        → (Names pairwise (suite_type d) × (c ≡ d))
          ⊎ ((¬ Names pairwise (suite_type d)) × FirstOffered pairwise ds c)
        → first_common pairwise ds ≡ some c
    passed rest other (inl (n, same)) = absurd (refused other n)
    passed rest other (inr (n, later)) = rest later

-- The tests behind the choice of the cipher.
check_selected_granted :
    (info : RsnInfo) (mode : SecurityMode) (s c : DataCipher)
    → (check_selected info mode s ≡ inl c) ↔ (
        (s ≡ c)
        × (info.group ≡ 0x00 ∷ 0x0f ∷ 0xac ∷ 4 ∷ [])
        × Allowed mode info.akms info.capabilities)
unfolding rsn_suite
check_selected_granted info mode s c = (
  if_split P (not (bytes_eq info.group (rsn_suite 4))) (λ other h. absurd (cc))
      (λ group.
        if_split P (not (akm_supported mode info.akms)) (λ other h. absurd (cc))
          (λ akm.
            if_split P (needs_pmf mode info.akms && not (requires_pmf info.capabilities))
              (λ other h. absurd (cc))
              (λ pmf h. (
                cc,
                bytes_eq→eq info.group (rsn_suite 4) (ground arith),
                (mode_test-Decides mode info.akms info.capabilities).0 (ground arith),
              )))),
  λ (same, group, allowed).
      let test : mode_test mode info.akms info.capabilities ≡ true =
        (mode_test-Decides mode info.akms info.capabilities).1 allowed in
      let here : bytes_eq info.group (rsn_suite 4) ≡ true =
        (bytes_eq-Decides info.group (rsn_suite 4)).1 group in
      ground arith,
)
  where
    P : DataCipher ⊎ ℕ → Type 0
    P r =
        r ≡ inl c
        → (s ≡ c)
          × (info.group ≡ 0x00 ∷ 0x0f ∷ 0xac ∷ 4 ∷ [])
          × Allowed mode info.akms info.capabilities

-- The same behind the parser: the element is read, and what follows it succeeds.
abbrev Accepts : Option RsnInfo → SecurityMode → List DataCipher → DataCipher → Type 0
Accepts o mode supported c =
    (info : RsnInfo) × (o ≡ some info)
    × FirstOffered info.pairwise supported c
    × (info.group ≡ 0x00 ∷ 0x0f ∷ 0xac ∷ 4 ∷ [])
    × Allowed mode info.akms info.capabilities

check_common-Accepts :
    (info : RsnInfo) (mode : SecurityMode) (supported : List DataCipher) (o : Option DataCipher)
    (c : DataCipher)
    → first_common info.pairwise supported ≡ o
    → check_common info mode o ≡ inl c
    → Accepts (some info) mode supported c
check_common-Accepts info mode supported none c e h = absurd (cc)
check_common-Accepts info mode supported (some s) c e h =
    let (same, group, allowed) = (check_selected_granted info mode s c).0 h in
    (
      info,
      refl,
      (first_common_offered info.pairwise supported c).0 (e ∙ ap some same),
      group,
      allowed,
    )

check_info-Accepts :
    (mode : SecurityMode) (supported : List DataCipher) (o : Option RsnInfo) (c : DataCipher)
    → check_info mode supported o ≡ inl c
    → Accepts o mode supported c
check_info-Accepts mode supported none c h = absurd (cc)
check_info-Accepts mode supported (some info) c h =
    check_common-Accepts info mode supported _ c refl h

check_info_granted :
    (mode : SecurityMode) (supported : List DataCipher) (o : Option RsnInfo) (c : DataCipher)
    → Accepts o mode supported c
    → check_info mode supported o ≡ inl c
check_info_granted mode supported none c (info, parsed, offered, group, allowed) = absurd (cc)
check_info_granted mode supported (some read) c (info, parsed, offered, group, allowed) =
    let same : read ≡ info = cc in
    rw (same, (first_common_offered info.pairwise supported c).1 offered)
      ((check_selected_granted info mode c c).1 (refl, group, allowed))

-- A body of a version only does not parse.
version_only : (body : Octets) → bytes_eq body (1 ∷ 0 ∷ []) ≡ true → parse_rsn body ≡ none
unfolding parse_rsn take_u16 take_suite le_value
version_only body h = rw (bytes_eq→eq body (1 ∷ 0 ∷ []) h) refl

-- The negotiation of an association request grants a cipher exactly where the body of the RSN element
-- parses, the cipher is the first of the access point's that the element offers, the group cipher is
-- CCMP-128, and the key management suites are those of the mode: PSK for WPA2; PSK or PSK-SHA256 for
-- the mode with both; SAE or OWE, with the capabilities for management frame protection both set, for
-- these two; and in transition mode PSK, or SAE with these capabilities, or PSK-SHA256 without SAE.
pub negotiated :
    (body : Octets) (mode : SecurityMode) (supported : List DataCipher) (c : DataCipher)
    → (negotiate_assoc_pairwise_cipher body mode supported ≡ inl c)
      ↔ Acceptable body mode supported c
unfolding negotiate_assoc_pairwise_cipher
negotiated body mode supported c =
    if_split (λ (r : DataCipher ⊎ ℕ). (r ≡ inl c) ↔ Acceptable body mode supported c)
      (bytes_eq body (1 ∷ 0 ∷ []))
      (λ short. (
        λ h. absurd (cc),
        λ (info, parsed, offered, group, allowed).
            let unread = version_only body short in absurd (cc),
      ))
      (λ long. (
        check_info-Accepts mode supported (parse_rsn body) c,
        check_info_granted mode supported (parse_rsn body) c,
      ))
