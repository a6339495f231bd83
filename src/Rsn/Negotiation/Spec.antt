-- ===== src/Rsn/Negotiation/Spec.antt =====
-- What the negotiation in src/auth/rsn.rs asks of an RSN element, said of the parsed suites and
-- capabilities without the tests of the code, and that these tests decide it.
use oxwifid.Base.{
  ℕ, ◌/◌, ◌%◌, ◌≡◌, refl, arith, Bool, true, false, not, ◌&&◌, ◌||◌, Option, none, some, List, [],
  ◌∷◌, ◌⊎◌, inl, inr, Octets, bytes_eq, bytes_eq→eq, bytes_eq_refl,
}
use oxwifid.Security.{DataCipher, suite_type}
use oxwifid.Rsn.Parse.{RsnInfo, parse_rsn, rsn_suite}
use oxwifid.Rsn.Tails.{SecurityMode}
use SecurityMode.{wpa2, wpa2_psk_sha256, wpa3_sae, transition, owe}
use oxwifid.Rsn.Negotiation.{contains, akm_supported, needs_pmf, requires_pmf}

-- The suite 00-0F-AC:t is in the list.
abbrev pub Names : List Octets → ℕ → Type 0
Names [] t = ⊥
Names (s ∷ ss) t = (s ≡ 0x00 ∷ 0x0f ∷ 0xac ∷ t ∷ []) ⊎ Names ss t

-- The cipher is the first of the list that the element offers.
abbrev pub FirstOffered : List Octets → List DataCipher → DataCipher → Type 0
FirstOffered pairwise [] c = ⊥
FirstOffered pairwise (d ∷ ds) c =
    (Names pairwise (suite_type d) × (c ≡ d))
    ⊎ ((¬ Names pairwise (suite_type d)) × FirstOffered pairwise ds c)

-- Capabilities are there, and both bits of management frame protection, 6 and 7, are set.
abbrev Protects : Option ℕ → Type 0
Protects none = ⊥
Protects (some caps) = caps / 64 % 4 ≡ 3

-- What each mode asks of the key management suites (2 for PSK, 6 for PSK-SHA256, 8 for SAE, 18 for
-- OWE) and of the capabilities.
abbrev pub Allowed : SecurityMode → List Octets → Option ℕ → Type 0
Allowed wpa2 akms caps = Names akms 2
Allowed wpa2_psk_sha256 akms caps = Names akms 2 ⊎ Names akms 6
Allowed wpa3_sae akms caps = Names akms 8 × Protects caps
Allowed transition akms caps =
    Names akms 2 ⊎ ((Names akms 8 × Protects caps) ⊎ (Names akms 6 × (¬ Names akms 8)))
Allowed owe akms caps = Names akms 18 × Protects caps

-- The element that gets a cipher.
abbrev pub Acceptable : Octets → SecurityMode → List DataCipher → DataCipher → Type 0
Acceptable body mode supported c =
    (info : RsnInfo) × (parse_rsn body ≡ some info)
    × FirstOffered info.pairwise supported c
    × (info.group ≡ 0x00 ∷ 0x0f ∷ 0xac ∷ 4 ∷ [])
    × Allowed mode info.akms info.capabilities

-- A test that decides a predicate.
abbrev pub Decides : Bool → Type 0 → Type 0
Decides b P = (b ≡ true → P) × (P → b ≡ true)

module _ {P Q : Type 0} where
  and-Decides : (a b : Bool) → Decides a P → Decides b Q → Decides (a && b) (P × Q)
  and-Decides true b (f, g) (h, k) = (λ e. (f refl, h e), λ (p, q). k q)
  and-Decides false b (f, g) (h, k) = (λ e. absurd (cc), λ (p, q). g p)

  or-Decides : (a b : Bool) → Decides a P → Decides b Q → Decides (a || b) (P ⊎ Q)
  or-Decides true b (f, g) (h, k) = (λ e. inl (f refl), λ s. refl)
  or-Decides false b (f, g) (h, k) = (λ e. inr (h e), either)
    where
      either : P ⊎ Q → b ≡ true
      either (inl p) = absurd (let e : false ≡ true = g p in cc)
      either (inr q) = k q

not-Decides : {P : Type 0} (a : Bool) → Decides a P → Decides (not a) (¬ P)
not-Decides true (f, g) = (λ e. absurd (cc), λ n. absurd (n (f refl)))
not-Decides false (f, g) = (λ e p. let h : false ≡ true = g p in cc, λ n. refl)

pub bytes_eq-Decides : (a b : Octets) → Decides (bytes_eq a b) (a ≡ b)
bytes_eq-Decides a b = (bytes_eq→eq a b, λ e. rw e (bytes_eq_refl b))

pub contains-Decides : (ss : List Octets) (t : ℕ) → Decides (contains ss (rsn_suite t)) (Names ss t)
unfolding rsn_suite
contains-Decides [] t = (λ h. absurd (cc), λ n. absurd n)
contains-Decides (s ∷ ss) t =
    or-Decides _ _ (bytes_eq-Decides s (0x00 ∷ 0x0f ∷ 0xac ∷ t ∷ [])) (contains-Decides ss t)

requires_pmf-Decides : (caps : Option ℕ) → Decides (requires_pmf caps) (Protects caps)
requires_pmf-Decides none = (λ h. absurd (cc), λ n. absurd n)
requires_pmf-Decides (some caps) = (λ h. ground arith, λ h. ground arith)

-- The two tests of the mode as one.
abbrev pub mode_test : SecurityMode → List Octets → Option ℕ → Bool
mode_test mode akms caps =
    akm_supported mode akms && (not (needs_pmf mode akms) || requires_pmf caps)

and_true : (a : Bool) → (a && true) ≡ a
and_true true = refl
and_true false = refl

transition_test :
    (psk sha sae pmf : Bool)
    → ((psk || (sha || sae)) && (not (sae && not psk) || pmf))
      ≡ (psk || ((sae && pmf) || (sha && not sae)))
transition_test true sha true pmf = refl
transition_test true sha false pmf = refl
transition_test false true true true = refl
transition_test false true true false = refl
transition_test false false true true = refl
transition_test false false true false = refl
transition_test false true false pmf = refl
transition_test false false false pmf = refl

pub mode_test-Decides :
    (mode : SecurityMode) (akms : List Octets) (caps : Option ℕ)
    → Decides (mode_test mode akms caps) (Allowed mode akms caps)
unfolding akm_supported needs_pmf
mode_test-Decides wpa2 akms caps =
    rw (and_true (contains akms (rsn_suite 2))) (contains-Decides akms 2)
mode_test-Decides wpa2_psk_sha256 akms caps =
    rw (and_true (contains akms (rsn_suite 2) || contains akms (rsn_suite 6)))
      (or-Decides _ _ (contains-Decides akms 2) (contains-Decides akms 6))
mode_test-Decides wpa3_sae akms caps =
    and-Decides _ _ (contains-Decides akms 8) (requires_pmf-Decides caps)
mode_test-Decides transition akms caps =
    rw
      (transition_test (contains akms (rsn_suite 2)) (contains akms (rsn_suite 6))
        (contains akms (rsn_suite 8)) (requires_pmf caps))
      (or-Decides _ _ (contains-Decides akms 2) (
        or-Decides _ _ (and-Decides _ _ (contains-Decides akms 8) (requires_pmf-Decides caps))
          (and-Decides _ _ (contains-Decides akms 6) (not-Decides _ (contains-Decides akms 8)))))
mode_test-Decides owe akms caps =
    and-Decides _ _ (contains-Decides akms 18) (requires_pmf-Decides caps)
