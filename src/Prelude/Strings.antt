-- ===== src/Prelude/Strings.antt =====
-- Sets of strings and string-keyed maps in insertion order, as JavaScript's `Set` and `Map`.
use Prim.Native.Nat.{◌+◌, ◌≤◌}
use Prim.Native.String.{String}
use mathlib.Core.Path.{◌≡◌, refl, sym, ◌∙◌}
use mathlib.Core.Logic.{inl, inr}
use mathlib.Core.Bool.{Bool, false, ◌&&◌, ◌||◌, false≢true}
use mathlib.Core.List.{List, [], ◌∷◌, ◌++◌}
use native.Mathlib.Omega.{arith}
use text.Mathlib.Text.{◌==◌}
use text.Mathlib.TextEquality.{eq_iff}
use stridetastic.Prelude.Tests.{Bool-cases, if◌then◌else◌}
use stridetastic.Prelude.Lists.{length, length-append}

-- `s.has(x)`, `path.includes(x)`
abbrev pub contains : String → List String → Bool
contains x [] = false
contains x (y ∷ ys) = y == x || contains x ys

-- `s.add(x)`
unfoldable pub add : String → List String → List String
add x s = if contains x s then s else s ++ x ∷ []

pub contains-append :
    (x : String) (xs ys : List String) → contains x (xs ++ ys) ≡ (contains x xs || contains x ys)
contains-append x [] ys = refl
contains-append x (z ∷ xs) ys = ground (arith, contains-append x xs ys)

pub contains-add :
    (x y : String) (s : List String) → contains y (add x s) ≡ (contains y s || x == y)
unfolding add
contains-add x y s = ground (arith, contains-append y s (x ∷ []), eq_iff x y)

pub length-add-le : (x : String) (s : List String) → length (add x s) ≤ length s + 1
unfolding add
length-add-le x s = ground (arith, length-append s (x ∷ []))

-- Two texts that differ are not both a third.
pub disjoint : (a b c : String) → (a == b) ≡ false → ((a == c) && (b == c)) ≡ false
disjoint a b c apart = elim (Bool-cases (a == c)) [
  | inl same ↦ elim (Bool-cases (b == c)) [
    | inl h ↦
        absurd
          (false≢true (sym apart ∙ (eq_iff a b).1 ((eq_iff a c).0 same ∙ sym ((eq_iff b c).0 h))))
    | inr h ↦ rw (same, h) refl
  ]
  | inr h ↦ rw h refl
]

pub flipped : (a b : String) → (a == b) ≡ false → (b == a) ≡ false
flipped a b apart = elim (Bool-cases (b == a)) [
  | inl same ↦ absurd (false≢true (sym apart ∙ (eq_iff a b).1 (sym ((eq_iff b a).0 same))))
  | inr h ↦ h
]
