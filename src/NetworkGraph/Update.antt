-- ===== src/NetworkGraph/Update.antt =====
-- NetworkGraph.tsx: the update of an array of nodes or links in place, which the effect on the merged
-- data and handleIncrementalRefresh run for each of the two arrays.
pub mod Maps
pub mod Laws
use stridetastic.Prelude.{
  String, Bool, true, false, Option, none, some, is_some, List, [], ◌∷◌, ◌++◌, ◌==◌, if◌then◌else◌,
  keep_if,
}

-- The entries of a `Map` from texts, in the order of their insertion.
abbrev pub Entries {ℓ} : Type ℓ → Type ℓ
Entries A = List (String × A)

abbrev pub get_entry {ℓ} : {A : Type ℓ} → String → Entries A → Option A
get_entry k [] = none
get_entry k ((key, value) ∷ more) = if key == k then some value else get_entry k more

abbrev pub set_entry {ℓ} : {A : Type ℓ} → String → A → Entries A → Entries A
set_entry k value [] = (k, value) ∷ []
set_entry k value ((key, old) ∷ more) =
    if key == k then (key, value) ∷ more else (key, old) ∷ set_entry k value more

-- `key_of` is the text that names an object in the maps.
module _ {ℓ} {A : Type ℓ} (key_of : A → String) where
  -- `new Map(items.map(x => [key(x), x]))`, from the entries that stand already
  unfoldable pub entries_from : Entries A → List A → Entries A
  entries_from entries [] = entries
  entries_from entries (x ∷ xs) = entries_from (set_entry (key_of x) x entries) xs

  abbrev pub entries_of : List A → Entries A
  entries_of xs = entries_from [] xs

  -- The object that `currentMap.get(k)` is: the last of that key.
  unfoldable pub find_last : String → List A → Option A
  find_last k [] = none
  find_last k (x ∷ xs) = elim (find_last k xs) [
    | some y ↦ some y
    | none ↦ if key_of x == k then some x else none
  ]

  -- The loop from the end that splices out what has no new entry; it leaves the others in their order.
  unfoldable pub remove_missing : Entries A → List A → List A
  remove_missing entries items = keep_if (λ x. is_some (get_entry (key_of x) entries)) items

-- `assign old new` is what `Object.assign(old, new)` leaves of the old object, under the test that the
-- two differ as JSON.
module _ {ℓ} {A : Type ℓ} (key_of : A → String) (assign : A → A → A) where
  -- The object that the map of the old objects holds is changed where it stands in the array.
  unfoldable pub assign_last : String → A → List A → List A
  assign_last k new [] = []
  assign_last k new (x ∷ xs) = elim (find_last key_of k xs) [
    | some y ↦ x ∷ assign_last k new xs
    | none ↦ if key_of x == k then assign x new ∷ xs else x ∷ xs
  ]

  -- The loop over the new entries; `current` is the array that the map of the old objects was made of.
  unfoldable pub add_or_assign : List A → Entries A → List A → List A
  add_or_assign current [] items = items
  add_or_assign current ((k, new) ∷ more) items =
      add_or_assign current more (
        if is_some (find_last key_of k current) then assign_last k new items else items ++ new ∷ [])

  unfoldable pub update_in_place : List A → List A → List A
  update_in_place current new =
      remove_missing key_of (entries_of key_of new)
        (add_or_assign current (entries_of key_of new) current)
