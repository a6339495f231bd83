-- ===== src/Rsn/Parse.antt =====
-- src/auth/rsn.rs: the parsers of the RSN element. Their argument is the body of the element, behind
-- its id and its length.
use oxwifid.Base.{
  ℕ, zero, suc, ◌+◌, ◌*◌, Bool, false, ◌||◌, Option, none, some, List, [], ◌∷◌, Octets, length,
  take, drop, slice, ltb, ◌==◌, if◌then◌else◌, ◌>>=◌, is_some, bytes_eq, le_value,
}
use mathlib.Core.Option
use oxwifid.Security.EapolKey.{bit_set}

unfoldable pub rsn_suite : ℕ → Octets
rsn_suite t = 0x00 ∷ 0x0f ∷ 0xac ∷ t ∷ []

pub record RsnInfo : Type 0 where
  pub group : Octets
  pub pairwise : List Octets
  pub akms : List Octets
  pub capabilities : Option ℕ
  pub group_mgmt : Option Octets

-- `take_u16` and `take_suite`; the list is `data[off..]`, and what is behind the value is returned.
unfoldable pub take_u16 : Octets → Option (ℕ × Octets)
take_u16 rest = if ltb (length rest) 2 then none else some (le_value (take 2 rest), drop 2 rest)

unfoldable pub take_suite : Octets → Option (Octets × Octets)
take_suite rest = if ltb (length rest) 4 then none else some (take 4 rest, drop 4 rest)

-- The `for` loop over the counted suites.
unfoldable pub take_suites : ℕ → Octets → Option (List Octets × Octets)
take_suites zero rest = some ([], rest)
take_suites (suc n) rest = do
  (suite, rest1) ← take_suite rest
  (suites, rest2) ← take_suites n rest1
  some (suite ∷ suites, rest2)

-- A counted list of suites, which must not be empty.
unfoldable pub counted_suites : Octets → Option (List Octets × Octets)
counted_suites rest = do
  (count, rest1) ← take_u16 rest
  (if count == 0 then none else take_suites count rest1)

-- The optional fields: capabilities, the list of PMKIDs, and the group management suite.
abbrev take_capabilities : Octets → Option (Option ℕ × Octets)
take_capabilities rest =
    if length rest == 0
    then some (none, rest)
    else Option.map (λ (p : ℕ × Octets). (some p.0, p.1)) (take_u16 rest)

abbrev skip_pmkids : ℕ → Octets → Option Octets
skip_pmkids count rest =
    if ltb (length rest) (16 * count) then none else some (drop (16 * count) rest)

abbrev take_last : Octets → Option (Option Octets × Octets)
take_last rest =
    if length rest == 0
    then some (none, rest)
    else Option.map (λ (p : Octets × Octets). (some p.0, p.1)) (take_suite rest)

unfoldable pub take_group_mgmt : Octets → Option (Option Octets × Octets)
take_group_mgmt rest =
    if length rest == 0
    then some (none, rest)
    else (do (count, rest1) ← take_u16 rest; rest2 ← skip_pmkids count rest1; take_last rest2)

unfoldable pub parse_rsn : Octets → Option RsnInfo
parse_rsn body = do
  (version, rest1) ← take_u16 body
  (group, rest2) ← (if version == 1 then take_suite rest1 else none)
  (pairwise, rest3) ← counted_suites rest2
  (akms, rest4) ← counted_suites rest3
  (capabilities, rest5) ← take_capabilities rest4
  (group_mgmt, rest6) ← take_group_mgmt rest5
  (if length rest6 == 0
      then some record {
        group = group;
        pairwise = pairwise;
        akms = akms;
        capabilities = capabilities;
        group_mgmt = group_mgmt;
      }
      else none)

-- `chunks_exact(16)` of `n` chunks.
abbrev chunks_16 : ℕ → Octets → List Octets
chunks_16 zero bytes = []
chunks_16 (suc n) bytes = take 16 bytes ∷ chunks_16 n (drop 16 bytes)

-- The number in the two octets at `off`, and the octets behind `off`.
abbrev u16_at : ℕ → Octets → Option ℕ
u16_at off body = if ltb (length body) (off + 2) then none else some (le_value (slice off 2 body))

abbrev pmkids_at : ℕ → ℕ → Octets → Option (List Octets)
pmkids_at off count body =
    if ltb (length body) (off + count * 16) then none else some (chunks_16 count (drop off body))

unfoldable pub parse_rsn_pmkids : Octets → Option (List Octets)
parse_rsn_pmkids body = do
  pw_count ← u16_at 6 body
  akm_count ← u16_at (8 + 4 * pw_count) body
  pmkid_count ← u16_at (12 + 4 * pw_count + 4 * akm_count) body
  pmkids_at (14 + 4 * pw_count + 4 * akm_count) pmkid_count body

-- Whether one of `n` suites from `off` on is the one sought.
abbrev any_suite : ℕ → Octets → Octets → Bool
any_suite zero suite rest = false
any_suite (suc n) suite rest = bytes_eq (take 4 rest) suite || any_suite n suite (drop 4 rest)

unfoldable pub rsn_has_akm : Octets → ℕ → Bool
rsn_has_akm body t = is_some (do
  pairwise_count ← u16_at 6 body
  akm_count ← u16_at (8 + 4 * pairwise_count) body
  (if any_suite akm_count (rsn_suite t) (drop (10 + 4 * pairwise_count) body)
      then some t
      else none))

abbrev mfpc : Option ℕ → Bool
mfpc none = false
mfpc (some caps) = bit_set caps 7

unfoldable pub rsn_has_mfpc : Octets → Bool
rsn_has_mfpc body = elim (parse_rsn body) [ none ↦ false | some info ↦ mfpc info.capabilities ]
