-- ===== src/PathFinding/Search/Keys.antt =====
-- pathFinding.ts: `path.join('-')` as the key of a path. It tells paths apart where no node identifier
-- holds a dash.
use Prim.Native.Char.{Char, code}
use Prim.Native.String.{◌++◌ as str_append}
use text.Mathlib.TextLemmas.{
  nil-append, cons-append, append-nil as str_append-nil, nil≢cons, head-eq_of_cons-eq,
  tail-eq_of_cons-eq,
}
use stridetastic.Prelude.{String, ◌≡◌, ◌≢◌, refl, sym, ap, ◌∙◌, ◌⊎◌, inl, inr, List, [], ◌∷◌, All}
use stridetastic.PathFinding.Search.{join}

abbrev pub NoDash : String → Type 0
NoDash String.[] = Unit
NoDash (String.◌∷◌ c s) = (code c ≢ b'-') × NoDash s

abbrev dashed : String → String
dashed s = String.◌∷◌ "-" s

-- What follows an identifier in a key: nothing, or a dash and more.
abbrev IsTail : String → Type 0
IsTail s = (s ≡ "") ⊎ ((t : String) × (s ≡ dashed t))

not-IsTail : (c : Char) (r s : String) → code c ≢ b'-' → IsTail s → s ≡ String.◌∷◌ c r → ⊥
not-IsTail c r s h (inl e) k = nil≢cons (sym e ∙ k)
not-IsTail c r s h (inr (t, e)) k = h (ap code (sym (head-eq_of_cons-eq (sym e ∙ k))))

append_split :
    (a b s t : String)
    → NoDash a
    → NoDash b
    → IsTail s
    → IsTail t
    → str_append a s ≡ str_append b t
    → (a ≡ b) × (s ≡ t)
append_split String.[] String.[] s t h k p q e = (refl, rw nil-append at (rw nil-append at e))
append_split String.[] (String.◌∷◌ d b) s t h k p q e =
    absurd (not-IsTail d (str_append b t) s k.0 p (sym (nil-append s) ∙ e ∙ cons-append d b t))
append_split (String.◌∷◌ c a) String.[] s t h k p q e =
    absurd (not-IsTail c (str_append a s) t h.0 q (sym (nil-append t) ∙ sym e ∙ cons-append c a s))
append_split (String.◌∷◌ c a) (String.◌∷◌ d b) s t h k p q e =
    let e' = sym (cons-append c a s) ∙ e ∙ cons-append d b t in
    let (same, rest) = append_split a b s t h.1 k.1 p q (tail-eq_of_cons-eq e') in
    (λ i. String.◌∷◌ (head-eq_of_cons-eq e' i) (same i), rest)

-- The key of a path behind its first identifier.
tail_of : List String → String
tail_of [] = ""
tail_of (next ∷ rest) = dashed (join (next ∷ rest))

join-cons : (id : String) (rest : List String) → join (id ∷ rest) ≡ str_append id (tail_of rest)
unfolding join tail_of
join-cons id [] = sym (str_append-nil id)
join-cons id (next ∷ rest) =
    ap (str_append id) (cons-append "-" "" (join (next ∷ rest)) ∙ ap dashed (nil-append _))

tail_of-IsTail : (rest : List String) → IsTail (tail_of rest)
unfolding tail_of
tail_of-IsTail [] = inl refl
tail_of-IsTail (next ∷ rest) = inr (join (next ∷ rest), refl)

tail_of_injective :
    (xs ys : List String) → All NoDash xs → All NoDash ys → tail_of xs ≡ tail_of ys → xs ≡ ys
unfolding tail_of
tail_of_injective [] [] h k e = refl
tail_of_injective [] (y ∷ ys) h k e = absurd (nil≢cons e)
tail_of_injective (x ∷ xs) [] h k e = absurd (nil≢cons (sym e))
tail_of_injective (x ∷ xs) (y ∷ ys) h k e =
    let e' = sym (join-cons x xs) ∙ tail-eq_of_cons-eq e ∙ join-cons y ys in
    let (same, rest) =
      append_split x y (tail_of xs) (tail_of ys) h.0 k.0 (tail_of-IsTail xs) (tail_of-IsTail ys)
        e' in
    λ i. same i ∷ tail_of_injective xs ys h.1 k.1 rest i

-- Two paths of identifiers without dashes have the same key only if they are the same.
pub join_injective :
    (x y : String) (xs ys : List String)
    → All NoDash (x ∷ xs)
    → All NoDash (y ∷ ys)
    → join (x ∷ xs) ≡ join (y ∷ ys)
    → x ∷ xs ≡ y ∷ ys
join_injective x y xs ys h k e =
    tail_of_injective (x ∷ xs) (y ∷ ys) h k (unfold tail_of in ap dashed e)
