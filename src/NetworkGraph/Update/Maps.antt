-- ===== src/NetworkGraph/Update/Maps.antt =====
-- NetworkGraph.tsx: the maps that the update in place makes of the new objects.
use stridetastic.Prelude.{
  disjoint, flipped, String, Bool, true, false, ◌&&◌, ◌≡◌, refl, sym, ap, ◌∙◌, Option, none, some,
  is_some, List, [], ◌∷◌, ◌++◌, ◌==◌, if◌then◌else◌, keep_if, Bool-cases, Option-cases, inl, inr,
  eq_iff,
}
use stridetastic.NetworkGraph.Update.{
  Entries, get_entry, set_entry, entries_from, find_last, remove_missing,
}

nested {ℓ} :
    {A : Type ℓ} (b : Bool) (x y z : A)
    → (if b then x else (if b then y else z)) ≡ (if b then x else z)
nested true x y z = refl
nested false x y z = refl

swapped {ℓ} :
    {A : Type ℓ} (b c : Bool) (x y z : A)
    → (b && c) ≡ false
    → (if b then x else (if c then y else z)) ≡ (if c then y else (if b then x else z))
swapped true true x y z h = cc
swapped true false x y z h = refl
swapped false c x y z h = refl

get_entry-set_entry {ℓ} :
    {A : Type ℓ} (j k : String) (value : A) (entries : Entries A)
    → get_entry j (set_entry k value entries) ≡ (if k == j then some value else get_entry j entries)
get_entry-set_entry j k value [] = refl
get_entry-set_entry j k value ((key, old) ∷ more) = elim (Bool-cases (key == k)) [
  | inl same ↦
      rw (same, (eq_iff key k).0 same)
        (sym (nested (k == j) (some value) (some old) (get_entry j more)))
  | inr apart ↦
      rw (apart, get_entry-set_entry j k value more)
        (swapped (key == j) (k == j) (some old) (some value) (get_entry j more)
          (disjoint key k j apart))
]

kept {ℓ} :
    {A : Type ℓ} (b : Bool) (o here : Option A)
    → here ≡ none
    → elim (if b then o else none) [ some y ↦ some y | none ↦ here ]
      ≡ (if b then elim o [ some y ↦ some y | none ↦ here ] else none)
kept true o here h = refl
kept false o here h = h

dropped {ℓ} :
    {A : Type ℓ} (b : Bool) (o here : Option A)
    → here ≡ none
    → (if b then elim o [ some y ↦ some y | none ↦ here ] else none) ≡ (if b then o else none)
dropped true none here h = h
dropped true (some y) here h = refl
dropped false o here h = refl

module _ {ℓ} {A : Type ℓ} (key_of : A → String) where
  pub get_entry-entries_from :
      (k : String) (entries : Entries A) (xs : List A)
      → get_entry k (entries_from key_of entries xs)
        ≡ elim (find_last key_of k xs) [ some y ↦ some y | none ↦ get_entry k entries ]
  unfolding entries_from find_last
  get_entry-entries_from k entries [] = refl
  get_entry-entries_from k entries (x ∷ xs) =
      rw (get_entry-entries_from k (set_entry (key_of x) x entries) xs)
        (elim (Option-cases (find_last key_of k xs)) [
          | inl missing ↦
              rw (missing, get_entry-set_entry k (key_of x) x entries)
                (elim (Bool-cases (key_of x == k)) [ inl h ↦ rw h refl | inr h ↦ rw h refl ])
          | inr (y, found) ↦ rw found refl
        ])

  pub find_last-append :
      (k : String) (xs : List A) (x : A)
      → find_last key_of k (xs ++ x ∷ [])
        ≡ (if key_of x == k then some x else find_last key_of k xs)
  unfolding find_last
  find_last-append k [] x = refl
  find_last-append k (y ∷ xs) x =
      rw (find_last-append k xs x)
        (elim (Bool-cases (key_of x == k)) [ inl h ↦ rw h refl | inr h ↦ rw h refl ])

  pub find_last-remove_missing :
      (k : String) (entries : Entries A) (xs : List A)
      → find_last key_of k (remove_missing key_of entries xs)
        ≡ (if is_some (get_entry k entries) then find_last key_of k xs else none)
  unfolding find_last remove_missing
  find_last-remove_missing k entries [] = elim (Bool-cases (is_some (get_entry k entries))) [
    | inl h ↦ rw h refl
    | inr h ↦ rw h refl
  ]
  find_last-remove_missing k entries (x ∷ xs) =
      let rest = find_last-remove_missing k entries xs in
      elim (Bool-cases (is_some (get_entry (key_of x) entries))) [
        | inl stays ↦ elim (Bool-cases (key_of x == k)) [
          | inl same ↦
              rw
                (
                  stays,
                  keep_if,
                  find_last,
                  rest,
                  sym (ap (λ key. is_some (get_entry key entries)) ((eq_iff (key_of x) k).0 same))
                      ∙ stays,
                )
                refl
          | inr apart ↦
              rw (stays, keep_if, find_last, rest)
                (kept (is_some (get_entry k entries)) (find_last key_of k xs)
                  (if key_of x == k then some x else none) (rw apart refl))
        ]
        | inr goes ↦ elim (Bool-cases (key_of x == k)) [
          | inl same ↦
              rw
                (
                  goes,
                  keep_if,
                  rest,
                  sym (ap (λ key. is_some (get_entry key entries)) ((eq_iff (key_of x) k).0 same))
                      ∙ goes,
                )
                refl
          | inr apart ↦
              rw (goes, keep_if, rest)
                (sym (
                  dropped (is_some (get_entry k entries)) (find_last key_of k xs) _
                    (rw apart refl)))
        ]
      ]

  -- Each entry stands under its key, and no two under one.
  abbrev pub IsMap : Entries A → Type ℓ
  IsMap [] = Unit
  IsMap ((k, x) ∷ more) = (key_of x ≡ k) × ((get_entry k more ≡ none) × IsMap more)

  set_entry-IsMap :
      (k : String) (x : A) (entries : Entries A)
      → key_of x ≡ k
      → IsMap entries
      → IsMap (set_entry k x entries)
  set_entry-IsMap k x [] named h = (named, (refl, tt))
  set_entry-IsMap k x ((key, old) ∷ more) named (own, (once, others)) =
      elim (Bool-cases (key == k)) [
        | inl same ↦ rw same (named ∙ sym ((eq_iff key k).0 same), (once, others))
        | inr apart ↦ rw apart (
          own,
          (
            rw (get_entry-set_entry key k x more, flipped key k apart) once,
            set_entry-IsMap k x more named others,
          ),
        )
      ]

  pub entries_from-IsMap :
      (entries : Entries A) (xs : List A) → IsMap entries → IsMap (entries_from key_of entries xs)
  unfolding entries_from
  entries_from-IsMap entries [] h = h
  entries_from-IsMap entries (x ∷ xs) h =
      entries_from-IsMap (set_entry (key_of x) x entries) xs
        (set_entry-IsMap (key_of x) x entries refl h)
