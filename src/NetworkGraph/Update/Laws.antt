-- ===== src/NetworkGraph/Update/Laws.antt =====
-- NetworkGraph.tsx: the update in place, as a map by the keys.
use mathlib.Core.Option
use stridetastic.Prelude.{
  String, Bool, true, false, ◌≡◌, refl, sym, ap, ◌∙◌, Option, none, some, is_some, List, [], ◌∷◌,
  ◌++◌, ◌==◌, if◌then◌else◌, Bool-cases, Option-cases, inl, inr, eq_iff, eq_refl,
}
use stridetastic.NetworkGraph.Update.{
  Entries, get_entry, entries_of, find_last, assign_last, add_or_assign, update_in_place,
}
use stridetastic.NetworkGraph.Update.Maps.{
  get_entry-entries_from, find_last-append, find_last-remove_missing, IsMap, entries_from-IsMap,
}

module _ {ℓ} {A : Type ℓ} (key_of : A → String) (assign : A → A → A)
    (key_of-assign : (old new : A) → key_of (assign old new) ≡ key_of new) where
  find_last-assign_last :
      (k : String) (new : A) (xs : List A)
      → key_of new ≡ k
      → find_last key_of k (assign_last key_of assign k new xs)
        ≡ Option.map (λ old. assign old new) (find_last key_of k xs)
  unfolding find_last assign_last
  find_last-assign_last k new [] named = refl
  find_last-assign_last k new (x ∷ xs) named = (elim (Option-cases (find_last key_of k xs)) [
    | inl missing ↦ elim (Bool-cases (key_of x == k)) [
      | inl h ↦
          rw
            (
              find_last,
              assign_last,
              missing,
              h,
              find_last,
              missing,
              key_of-assign x new,
              named,
              eq_refl k,
            )
            refl
      | inr h ↦ rw (find_last, assign_last, missing, h, find_last, missing, h) refl
    ]
    | inr (y, found) ↦
        rw (find_last, assign_last, found, find_last, find_last-assign_last k new xs named, found)
          refl
  ])

  find_last-assign_other :
      (j k : String) (new : A) (xs : List A)
      → key_of new ≡ k
      → (k == j) ≡ false
      → find_last key_of j (assign_last key_of assign k new xs) ≡ find_last key_of j xs
  unfolding find_last assign_last
  find_last-assign_other j k new [] named apart = refl
  find_last-assign_other j k new (x ∷ xs) named apart =
      (elim (Option-cases (find_last key_of k xs)) [
        | inl missing ↦ elim (Bool-cases (key_of x == k)) [
          | inl h ↦ elim (Option-cases (find_last key_of j xs)) [
            | inl none_yet ↦
                rw
                  (
                    assign_last,
                    missing,
                    h,
                    find_last,
                    none_yet,
                    key_of-assign x new,
                    named,
                    (eq_iff (key_of x) k).0 h,
                    apart,
                  )
                  refl
            | inr (y, found) ↦ rw (assign_last, missing, h, find_last, found) refl
          ]
          | inr h ↦ rw (find_last, assign_last, missing, h) refl
        ]
        | inr (y, found) ↦
            rw
              (
                find_last,
                assign_last,
                found,
                find_last,
                find_last-assign_other j k new xs named apart,
              )
              refl
      ])

  -- What becomes of the object of a key, by whether the array had it at first, as it is by now, and by
  -- the new object.
  abbrev pub updated : Bool → Option A → Option A → Option A
  updated there old none = old
  updated true old (some new) = Option.map (λ x. assign x new) old
  updated false old (some new) = some new

  abbrev step : List A → String → A → List A → List A
  step current k new items =
      if is_some (find_last key_of k current)
      then assign_last key_of assign k new items
      else items ++ new ∷ []

  find_last-step :
      (current : List A) (k : String) (new : A) (items : List A)
      → key_of new ≡ k
      → find_last key_of k (step current k new items)
        ≡ updated (is_some (find_last key_of k current)) (find_last key_of k items) (some new)
  find_last-step current k new items named =
      elim (Bool-cases (is_some (find_last key_of k current))) [
        | inl there ↦ rw there (find_last-assign_last k new items named)
        | inr missing ↦ rw (missing, find_last-append key_of k items new, named, eq_refl k) refl
      ]

  find_last-step_other :
      (current : List A) (j k : String) (new : A) (items : List A)
      → key_of new ≡ k
      → (k == j) ≡ false
      → find_last key_of j (step current k new items) ≡ find_last key_of j items
  find_last-step_other current j k new items named apart =
      elim (Bool-cases (is_some (find_last key_of k current))) [
        | inl there ↦ rw there (find_last-assign_other j k new items named apart)
        | inr missing ↦ rw (missing, find_last-append key_of j items new, named, apart) refl
      ]

  find_last-add_or_assign :
      (current : List A) (k : String) (entries : Entries A) (items : List A)
      → IsMap key_of entries
      → find_last key_of k (add_or_assign key_of assign current entries items)
        ≡ updated
            (is_some (find_last key_of k current))
            (find_last key_of k items)
            (get_entry k entries)
  unfolding add_or_assign
  find_last-add_or_assign current k [] items h = refl
  find_last-add_or_assign current k ((key, new) ∷ more) items (named, (once, others)) =
      let rest = find_last-add_or_assign current k more (step current key new items) others in
      elim (Bool-cases (key == k)) [
        | inl same ↦
            let e = (eq_iff key k).0 same in
            rw same (
              rest
              ∙ rw (sym (ap (λ c. get_entry c more) e) ∙ once, sym e)
                  (find_last-step current key new items named))
        | inr apart ↦
            rw apart (rest ∙ rw (find_last-step_other current k key new items named apart) refl)
      ]

  -- What the map of the drawn objects becomes at one key: nothing without a new object, the new object
  -- where none was drawn, and else the drawn object with the new one assigned to it.
  abbrev pub merged : Option A → Option A → Option A
  merged old none = none
  merged none (some new) = some new
  merged (some old) (some new) = some (assign old new)

  merged-updated :
      (old new : Option A)
      → (if is_some new then updated (is_some old) old new else none) ≡ merged old new
  merged-updated old none = refl
  merged-updated none (some new) = refl
  merged-updated (some old) (some new) = refl

  -- For every key, the array after the update holds what the map of the new objects and the map of the
  -- drawn ones make of it: a key that is not new is gone, one that was not drawn holds the new object,
  -- and the drawn object of any other has the new one assigned to it. Assigning an object takes its key
  -- over.
  pub find_last-update_in_place :
      (current new : List A) (k : String)
      → find_last key_of k (update_in_place key_of assign current new)
        ≡ merged (find_last key_of k current) (find_last key_of k new)
  unfolding update_in_place
  find_last-update_in_place current new k =
      let found : get_entry k (entries_of key_of new) ≡ find_last key_of k new =
        get_entry-entries_from key_of k [] new ∙ unchanged (find_last key_of k new) in
      rw
        (
          find_last-remove_missing key_of k (entries_of key_of new)
              (add_or_assign key_of assign current (entries_of key_of new) current),
          find_last-add_or_assign current k (entries_of key_of new) current
              (entries_from-IsMap key_of [] new tt),
          found,
        )
        (merged-updated (find_last key_of k current) (find_last key_of k new))
    where
      unchanged : (o : Option A) → elim o [ some y ↦ some y | none ↦ none ] ≡ o
      unchanged none = refl
      unchanged (some y) = refl
