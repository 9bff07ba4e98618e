-- ===== src/VirtualNodes/Identifier/Laws.antt =====
-- VirtualNodesPanel.tsx, handleTextChange: what is kept of an identifier.
use mathlib.Core.Bool.{false≢true}
use Prim.Native.Char.{Char, code}
use Prim.Native.String.{String}
use stridetastic.Prelude.{
  Bool, true, false, ◌&&◌, ◌≡◌, refl, ◌==◌, eqb, arith, Bool-cases, inl, inr,
}
use stridetastic.VirtualNodes.Identifier.{
  is_id_char, to_lower, normalized, without_prefix, with_prefix, typed_node_id,
}

-- Only characters that are kept.
unfoldable pub is_kept : String → Bool
is_kept String.[] = true
is_kept (String.◌∷◌ c s) = is_id_char c && is_kept s

to_lower-kept : (c : Char) → is_id_char c ≡ true → to_lower c ≡ c
to_lower-kept c h = ground arith

and_parts : (a b : Bool) → (a && b) ≡ true → (a ≡ true) × (b ≡ true)
and_parts true b h = (refl, h)
and_parts false b h = absurd (false≢true h)

normalized-is_kept : (s : String) → is_kept (normalized s) ≡ true
unfolding normalized is_kept
normalized-is_kept String.[] = refl
normalized-is_kept (String.◌∷◌ c s) = elim (Bool-cases (is_id_char (to_lower c))) [
  | inl stays ↦ rw stays (rw (stays, normalized-is_kept s) refl)
  | inr goes ↦ rw goes (normalized-is_kept s)
]

normalized-kept : (s : String) → is_kept s ≡ true → normalized s ≡ s
unfolding normalized is_kept
normalized-kept String.[] h = refl
normalized-kept (String.◌∷◌ c s) h =
    let (first, rest) = and_parts (is_id_char c) (is_kept s) h in
    rw (to_lower-kept c first, first, normalized-kept s rest) refl

without_prefix-is_kept : (s : String) → is_kept s ≡ true → is_kept (without_prefix s) ≡ true
unfolding without_prefix is_kept
without_prefix-is_kept String.[] h = refl
without_prefix-is_kept (String.◌∷◌ c s) h = elim (Bool-cases (eqb (code c) 33)) [
  | inl mark ↦ rw mark (without_prefix-is_kept s (and_parts (is_id_char c) (is_kept s) h).1)
  | inr other ↦ rw other h
]

without_prefix_idem : (s : String) → without_prefix (without_prefix s) ≡ without_prefix s
unfolding without_prefix
without_prefix_idem String.[] = refl
without_prefix_idem (String.◌∷◌ c s) = elim (Bool-cases (eqb (code c) 33)) [
  | inl mark ↦ rw mark (without_prefix_idem s)
  | inr other ↦ rw other (rw other refl)
]

typed_node_id-with_prefix :
    (s : String)
    → is_kept s ≡ true
    → without_prefix s ≡ s
    → typed_node_id (with_prefix s) ≡ with_prefix s
unfolding typed_node_id normalized without_prefix
typed_node_id-with_prefix s kept bare = elim (Bool-cases (s == "")) [
  | inl blank ↦ rw blank refl
  | inr some_text ↦ rw some_text (rw (normalized-kept s kept, bare, some_text) refl)
]

with_prefix-is_kept : (s : String) → is_kept s ≡ true → is_kept (with_prefix s) ≡ true
unfolding is_kept
with_prefix-is_kept s kept = elim (Bool-cases (s == "")) [
  | inl blank ↦ rw blank refl
  | inr some_text ↦ rw some_text kept
]

-- Whatever is typed, the identifier in the form has only the mark and hexadecimal digits, and typing it
-- again leaves it as it is.
pub typed_node_id_idem :
    (value : String)
    → (is_kept (typed_node_id value) ≡ true)
      × (typed_node_id (typed_node_id value) ≡ typed_node_id value)
unfolding typed_node_id
typed_node_id_idem value =
    let bare = without_prefix (normalized value) in
    let kept = without_prefix-is_kept (normalized value) (normalized-is_kept value) in
    (
      with_prefix-is_kept bare kept,
      typed_node_id-with_prefix bare kept (without_prefix_idem (normalized value)),
    )
