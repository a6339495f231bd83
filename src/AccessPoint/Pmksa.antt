-- ===== src/AccessPoint/Pmksa.antt =====
-- src/ap/lifecycle.rs: the cache of PMKs for stations that come back.
pub mod Bound
use oxwifid.Base.{
  ℕ, zero, suc, ◌+◌, ◌*◌, ◌-◌, ◌%◌, ◌^◌, Bool, true, false, not, ◌&&◌, ◌||◌, Option, none, some,
  List, [], ◌∷◌, ◌++◌, Octets, length, leb, ltb, ◌==◌, if◌then◌else◌, bytes_eq, be_value, is_some,
}
use mathlib.Core.Option
use oxwifid.Frames.Management.{build_deauth}
use oxwifid.AccessPoint.State.{
  Ap, Env, Outgoing, Station, Stations, Deadline, PendingHandshake, PmksaEntry, tx,
}
use oxwifid.AccessPoint.State.Stations.{get_station}
use oxwifid.AccessPoint.Lifecycle.{
  change_station, disconnect, eapol_timeout, max_eapol_retries, next_generation,
}

-- The cache of PMKs: its keys are a PMKID and an identity.
abbrev pub PmksaCache : Type 0
PmksaCache = List ((Octets × Octets) × PmksaEntry)

unfoldable pub live_pmksa : ℕ → PmksaCache → PmksaCache
live_pmksa now [] = []
live_pmksa now (((id, identity), entry) ∷ rest) =
    if bytes_eq identity entry.identity && ltb now entry.expires_at
    then ((id, identity), entry) ∷ live_pmksa now rest
    else live_pmksa now rest

unfoldable pub expire_pmksa : ℕ → Ap → Ap
expire_pmksa now ap = record ap { pmksa_cache = live_pmksa now ap.pmksa_cache }

abbrev pub pmksa_cache_max : ℕ
pmksa_cache_max = 256

abbrev pub pmksa_lifetime : ℕ
pmksa_lifetime = 43200000

abbrev pub same_key : Octets × Octets → Octets × Octets → Bool
same_key (id, identity) (id', identity') = bytes_eq id id' && bytes_eq identity identity'

abbrev pub cached : Octets × Octets → PmksaCache → Bool
cached key [] = false
cached key ((k, entry) ∷ rest) = same_key k key || cached key rest

-- `insert`: the entry of a key is replaced, or added.
unfoldable pub insert_pmksa : Octets × Octets → PmksaEntry → PmksaCache → PmksaCache
insert_pmksa key entry [] = (key, entry) ∷ []
insert_pmksa key entry ((k, old) ∷ rest) =
    if same_key k key then (key, entry) ∷ rest else (k, old) ∷ insert_pmksa key entry rest

-- The map's first key goes when the cache is full and the key is new.
unfoldable pub make_pmksa_room : Octets × Octets → PmksaCache → PmksaCache
make_pmksa_room key [] = []
make_pmksa_room key (first ∷ rest) =
    if leb pmksa_cache_max (length (first ∷ rest)) && not (cached key (first ∷ rest))
    then rest
    else first ∷ rest

abbrev earliest : ℕ → Option ℕ → Option ℕ
earliest deadline none = some deadline
earliest deadline (some current) = if ltb deadline current then some deadline else some current

unfoldable pub schedule_maintenance : ℕ → Ap → Ap
schedule_maintenance deadline ap = record ap {
  maintenance_deadline = earliest deadline ap.maintenance_deadline;
}

unfoldable pub cache_pmksa : ℕ → Octets → Octets → Octets → Bool → Ap → Ap
cache_pmksa now id identity pmk sha256 ap =
    let live = expire_pmksa now ap in
    let entry : PmksaEntry = record {
      identity = identity;
      pmk = pmk;
      sha256 = sha256;
      expires_at = now + pmksa_lifetime;
    } in
    schedule_maintenance (now + pmksa_lifetime) (record live {
      pmksa_cache =
          insert_pmksa (id, identity) entry (make_pmksa_room (id, identity) live.pmksa_cache);
    })
