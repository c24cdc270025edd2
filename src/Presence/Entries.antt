-- ===== src/Presence/Entries.antt =====
-- The map of one workspace: lookups, and that its keys stay distinct and name their users.
use cpp_wiki.Prelude.{
  ℕ, ◌≤◌, ◌≡◌, refl, String, false, Option, none, some, List, [], ◌∷◌, map, arith, ◌==◌, eq_iff,
  if◌then◌else◌, elem, Distinct, All, leb, ◌+◌,
}
use cpp_wiki.Presence.{
  PresenceInfo, presence_ttl, WorkspacePresenceMap, is_stale, prune_expired, assign, infos,
}

abbrev pub keys : WorkspacePresenceMap → List String
keys = map (λ (entry : String × PresenceInfo). entry.0)

unfoldable pub lookup : String → WorkspacePresenceMap → Option PresenceInfo
lookup key [] = none
lookup key ((k, i) ∷ rest) = if k == key then some i else lookup key rest

-- The information of one user in an answer of the service.
pub find_user : String → List PresenceInfo → Option PresenceInfo
find_user key [] = none
find_user key (i ∷ rest) = if i.user_id == key then some i else find_user key rest

-- What counts of a heartbeat at a clock reading: it is no older than the time to live.
pub fresh : ℕ → Option PresenceInfo → Option PresenceInfo
fresh now none = none
fresh now (some i) = if leb now (i.last_seen + presence_ttl) then some i else none

abbrev pub NamesUser : String × PresenceInfo → Type 0
NamesUser (k, i) = i.user_id ≡ k

pub record IsMap (m : WorkspacePresenceMap) : Type 0 where
  pub distinct : Distinct (keys m)
  pub named : All NamesUser m

pub fresh-fresh :
    (now later : ℕ) (o : Option PresenceInfo)
    → now ≤ later
    → fresh later (fresh now o) ≡ fresh later o
unfolding fresh
fresh-fresh now later none h = refl
fresh-fresh now later (some i) h = ground arith

pub lookup-assign :
    (key j : String) (i : PresenceInfo) (m : WorkspacePresenceMap)
    → lookup j (assign key i m) ≡ (if key == j then some i else lookup j m)
unfolding lookup assign
lookup-assign key j i [] = refl
lookup-assign key j i ((k, v) ∷ m) =
    ground (arith, eq_iff k key, eq_iff k j, eq_iff key j, lookup-assign key j i m)

lookup_absent :
    (now : ℕ) (key : String) (m : WorkspacePresenceMap)
    → elem key (keys m) ≡ false
    → (lookup key m ≡ none) × (lookup key (prune_expired now m) ≡ none)
unfolding lookup prune_expired
lookup_absent now key [] h = (refl, refl)
lookup_absent now key ((k, v) ∷ m) h =
    (ground (arith, lookup_absent now key m), ground (arith, lookup_absent now key m))

pub lookup-prune_expired :
    (now : ℕ) (key : String) (m : WorkspacePresenceMap)
    → Distinct (keys m)
    → lookup key (prune_expired now m) ≡ fresh now (lookup key m)
unfolding lookup prune_expired fresh is_stale
lookup-prune_expired now key [] d = refl
lookup-prune_expired now key ((k, v) ∷ m) d = ground (
  arith,
  eq_iff k key,
  lookup_absent now k m d.0,
  lookup_absent now key m,
  lookup-prune_expired now key m d.1,
)

elem-prune_expired :
    (now : ℕ) (key : String) (m : WorkspacePresenceMap)
    → elem key (keys m) ≡ false
    → elem key (keys (prune_expired now m)) ≡ false
unfolding prune_expired
elem-prune_expired now key [] h = refl
elem-prune_expired now key ((k, v) ∷ m) h = ground (arith, elem-prune_expired now key m)

Distinct-prune_expired :
    (now : ℕ) (m : WorkspacePresenceMap) → Distinct (keys m) → Distinct (keys (prune_expired now m))
unfolding prune_expired
Distinct-prune_expired now [] d = tt
Distinct-prune_expired now ((k, v) ∷ m) d =
    ground (arith, elem-prune_expired now k m d.0, Distinct-prune_expired now m d.1)

named-prune_expired :
    (now : ℕ) (m : WorkspacePresenceMap) → All NamesUser m → All NamesUser (prune_expired now m)
unfolding prune_expired
named-prune_expired now [] d = tt
named-prune_expired now ((k, v) ∷ m) d = ground (arith, named-prune_expired now m d.1)

pub IsMap-prune_expired :
    (now : ℕ) (m : WorkspacePresenceMap) → IsMap m → IsMap (prune_expired now m)
IsMap-prune_expired now m h = record {
  distinct = Distinct-prune_expired now m h.distinct;
  named = named-prune_expired now m h.named;
}

elem-assign :
    (key j : String) (i : PresenceInfo) (m : WorkspacePresenceMap)
    → elem j (keys m) ≡ false
    → (key == j) ≡ false
    → elem j (keys (assign key i m)) ≡ false
unfolding assign
elem-assign key j i [] h ne = ground arith
elem-assign key j i ((k, v) ∷ m) h ne = ground (arith, elem-assign key j i m)

Distinct-assign :
    (key : String) (i : PresenceInfo) (m : WorkspacePresenceMap)
    → Distinct (keys m)
    → Distinct (keys (assign key i m))
unfolding assign
Distinct-assign key i [] d = (refl, tt)
Distinct-assign key i ((k, v) ∷ m) d =
    ground
      (arith, eq_iff k key, eq_iff key k, elem-assign key k i m d.0, Distinct-assign key i m d.1)

named-assign :
    (key : String) (i : PresenceInfo) (m : WorkspacePresenceMap)
    → i.user_id ≡ key
    → All NamesUser m
    → All NamesUser (assign key i m)
unfolding assign
named-assign key i [] e d = (e, tt)
named-assign key i ((k, v) ∷ m) e d = ground (arith, named-assign key i m e d.1)

pub IsMap-assign :
    (key : String) (i : PresenceInfo) (m : WorkspacePresenceMap)
    → i.user_id ≡ key
    → IsMap m
    → IsMap (assign key i m)
IsMap-assign key i m e h = record {
  distinct = Distinct-assign key i m h.distinct;
  named = named-assign key i m e h.named;
}

-- An answer lists each user once, with the entry under the user's key.
pub find_user-infos :
    (key : String) (m : WorkspacePresenceMap)
    → All NamesUser m
    → find_user key (infos m) ≡ lookup key m
unfolding find_user lookup
find_user-infos key [] h = refl
find_user-infos key ((k, v) ∷ m) h = ground (arith, find_user-infos key m h.1)

pub user_ids-infos :
    (m : WorkspacePresenceMap)
    → All NamesUser m
    → map (λ (i : PresenceInfo). i.user_id) (infos m) ≡ keys m
user_ids-infos [] h = refl
user_ids-infos ((k, v) ∷ m) h = ground (arith, user_ids-infos m h.1)
