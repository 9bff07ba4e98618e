-- ===== src/Prelude/Lists.antt =====
-- Lists measured by native numbers, Boolean search, and snoc lists (a path grows at its end).
use Prim.Native.Nat.{ℕ, suc, ◌+◌}
use mathlib.Core.Path.{◌≡◌, ◌∙◌, refl, ap, subst, sym}
use mathlib.Core.Logic.{◌⊎◌, inl, inr, ◌↔◌, ⊎_elim}
use mathlib.Core.Bool.{Bool, true, false, ◌||◌, false≢true}
use mathlib.Core.Option.{Option, none, some}
use mathlib.Core.List.{List, [], ◌∷◌, ◌++◌, Memᴰ}
use mathlib.Core.List.Memᴰ
use native.Mathlib.Omega.{arith}

module _ {ℓ} {A : Type ℓ} where
  abbrev pub length : List A → ℕ
  length [] = 0
  length (x ∷ xs) = suc (length xs)

  -- `xs.some(test)`
  abbrev pub any : (A → Bool) → List A → Bool
  any test [] = false
  any test (x ∷ xs) = test x || any test xs

  -- `xs.filter(test)`
  abbrev pub keep_if : (A → Bool) → List A → List A
  keep_if test [] = []
  keep_if test (x ∷ xs) = elim (test x) [ true ↦ x ∷ keep_if test xs | false ↦ keep_if test xs ]

  abbrev pub last? : List A → Option A
  last? [] = none
  last? (x ∷ []) = some x
  last? (x ∷ y ∷ xs) = last? (y ∷ xs)

  pub length-append : (xs ys : List A) → length (xs ++ ys) ≡ length xs + length ys
  length-append [] ys = omega arith
  length-append (x ∷ xs) ys = omega (arith, length-append xs ys)

  pub last?-snoc : (xs : List A) (x : A) → last? (xs ++ x ∷ []) ≡ some x
  last?-snoc [] x = refl
  last?-snoc (y ∷ []) x = refl
  last?-snoc (y ∷ z ∷ xs) x = last?-snoc (z ∷ xs) x

  pub List-cases : (xs : List A) → (xs ≡ []) ⊎ ((x : A) × (rest : List A) × (xs ≡ x ∷ rest))
  List-cases [] = inl refl
  List-cases (x ∷ xs) = inr (x, xs, refl)

  -- A list is empty or ends in an element.
  pub snoc-cases : (xs : List A) → (xs ≡ []) ⊎ ((init : List A) × (x : A) × (xs ≡ init ++ x ∷ []))
  snoc-cases [] = inl refl
  snoc-cases (x ∷ xs) = elim (snoc-cases xs) [
    | inl empty ↦ inr ([], x, ap (λ r. x ∷ r) empty)
    | inr (init, y, e) ↦ inr (x ∷ init, y, ap (λ r. x ∷ r) e)
  ]

  pub Memᴰ-cons : (a x : A) (xs : List A) → Memᴰ a (x ∷ xs) ↔ ((a ≡ x) ⊎ Memᴰ a xs)
  Memᴰ-cons a x xs = (Memᴰ.cases_cons, ⊎_elim Memᴰ.head Memᴰ.tail)

  pub Memᴰ-append : (a : A) (xs ys : List A) → Memᴰ a (xs ++ ys) ↔ (Memᴰ a xs ⊎ Memᴰ a ys)
  Memᴰ-append a xs ys = (Memᴰ.append_cases xs, ⊎_elim (Memᴰ.append_left ys) (Memᴰ.append_right xs))

module _ {ℓ κ} {A : Type ℓ} (P : A → Type κ) where
  -- `P` holds of every element.
  abbrev pub All : List A → Type κ
  All [] = Unit
  All (x ∷ xs) = P x × All xs

  pub All-append : (xs ys : List A) → All xs → All ys → All (xs ++ ys)
  All-append [] ys h k = k
  All-append (x ∷ xs) ys (p, h) k = (p, All-append xs ys h k)

  pub All-Memᴰ : (xs : List A) {a : A} → All xs → Memᴰ a xs → P a
  All-Memᴰ [] h m = absurd (Memᴰ.not-nil m)
  All-Memᴰ (x ∷ xs) (p, h) m =
      ⊎_elim (λ e. subst P (sym e) p) (λ k. All-Memᴰ xs h k) (Memᴰ.cases_cons m)

or_left : {b : Bool} (c : Bool) → b ≡ true → (b || c) ≡ true
or_left c h = rw h refl

or_true : (b : Bool) → (b || true) ≡ true
or_true true = refl
or_true false = refl

test-cases : (b : Bool) → (b ≡ true) ⊎ (b ≡ false)
test-cases true = inl refl
test-cases false = inr refl

module _ {ℓ} {A : Type ℓ} (test : A → Bool) where
  -- What passed a test passes it.
  pub All-test : (xs : List A) → All (λ x. test x ≡ true) (keep_if test xs)
  All-test [] = tt
  All-test (x ∷ xs) = elim (test-cases (test x)) [
    | inl pass ↦ rw (pass, keep_if) (pass, All-test xs)
    | inr fail ↦ rw (fail, keep_if) (All-test xs)
  ]

  -- What holds of the elements holds of those that pass a test.
  pub All-keep_if {κ} : (P : A → Type κ) (xs : List A) → All P xs → All P (keep_if test xs)
  All-keep_if P [] h = tt
  All-keep_if P (x ∷ xs) (p, h) = elim (test-cases (test x)) [
    | inl pass ↦ rw (pass, keep_if) (p, All-keep_if P xs h)
    | inr fail ↦ rw (fail, keep_if) (All-keep_if P xs h)
  ]

  pub keep_if-append :
      (xs ys : List A) → keep_if test (xs ++ ys) ≡ keep_if test xs ++ keep_if test ys
  keep_if-append [] ys = refl
  keep_if-append (x ∷ xs) ys = elim (test-cases (test x)) [
    | inl pass ↦ rw (pass, keep_if) (ap (λ rest. x ∷ rest) (keep_if-append xs ys))
    | inr fail ↦ rw (fail, keep_if) (keep_if-append xs ys)
  ]

pub All-map {ℓ κ ι} :
    {A : Type ℓ} {P : A → Type κ} {Q : A → Type ι} (f : (x : A) → P x → Q x) (xs : List A)
    → All P xs
    → All Q xs
All-map f [] h = tt
All-map f (x ∷ xs) (p, h) = (f x p, All-map f xs h)

pub any-Memᴰ {ℓ} :
    {A : Type ℓ} (test : A → Bool) (xs : List A) {a : A}
    → Memᴰ a xs
    → test a ≡ true
    → any test xs ≡ true
any-Memᴰ test [] m h = absurd (Memᴰ.not-nil m)
any-Memᴰ test (x ∷ xs) m h =
    ⊎_elim (λ e. or_left _ (sym (ap test e) ∙ h))
      (λ k. rw (any-Memᴰ test xs k h) (or_true (test x))) (Memᴰ.cases_cons m)

pub any_witness {ℓ} :
    {A : Type ℓ} (test : A → Bool) (xs : List A)
    → any test xs ≡ true
    → (a : A) × Memᴰ a xs × (test a ≡ true)
any_witness test [] h = absurd (false≢true h)
any_witness test (x ∷ xs) h = elim (test-cases (test x)) [
  | inl pass ↦ (x, Memᴰ.head refl, pass)
  | inr fail ↦ let (a, m, pass) = any_witness test xs (rw fail at h) in (a, Memᴰ.tail m, pass)
]
