-- ===== src/Prelude/Trim.antt =====
-- `String.prototype.trim`: white space and line ends at both ends of a text are dropped.
use Prim.Native.Nat.{ℕ}
use Prim.Native.String.{String}
use Prim.Native.Char.{Char, code}
use text.Mathlib.TextLemmas.{nil≢cons, tail-eq_of_cons-eq}
use mathlib.Core.Path.{◌≡◌, refl, ap, ◌∙◌}
use mathlib.Core.Bool.{Bool, ◌&&◌, ◌||◌}
use text.Mathlib.Text.{◌==◌}
use stridetastic.Prelude.Tests.{if◌then◌else◌, leb, eqb, Bool-cases}
use mathlib.Core.Logic.{inl, inr}

-- The WhiteSpace and LineTerminator code points of ECMAScript.
unfoldable pub is_space : ℕ → Bool
is_space n =
    (leb 9 n && leb n 13)
    || (eqb n 32
        || (eqb n 160
            || (eqb n 5760
                || ((leb 8192 n && leb n 8202)
                    || (eqb n 8232
                        || (eqb n 8233
                            || (eqb n 8239 || (eqb n 8287 || (eqb n 12288 || eqb n 65279)))))))))

unfoldable pub trim_start : String → String
trim_start String.[] = ""
trim_start (String.◌∷◌ c s) =
    let rest = trim_start s in if is_space (code c) then rest else String.◌∷◌ c s

-- A space is dropped where nothing is left behind it.
abbrev cons_trimmed : Char → String → String
cons_trimmed c rest = if is_space (code c) && rest == "" then "" else String.◌∷◌ c rest

unfoldable pub trim_end : String → String
trim_end String.[] = ""
trim_end (String.◌∷◌ c s) = cons_trimmed c (trim_end s)

unfoldable pub trim : String → String
trim s = trim_start (trim_end s)

trim_end-cons_trimmed :
    (c : Char) (rest : String)
    → trim_end rest ≡ rest
    → trim_end (cons_trimmed c rest) ≡ cons_trimmed c rest
unfolding trim_end
trim_end-cons_trimmed c rest h = elim (Bool-cases (is_space (code c) && rest == "")) [
  | inl gone ↦ rw gone refl
  | inr kept ↦ rw kept (rw h (rw kept refl))
]

trim_end_idem : (s : String) → trim_end (trim_end s) ≡ trim_end s
unfolding trim_end
trim_end_idem String.[] = refl
trim_end_idem (String.◌∷◌ c s) = trim_end-cons_trimmed c (trim_end s) (trim_end_idem s)

trim_start_idem : (s : String) → trim_start (trim_start s) ≡ trim_start s
unfolding trim_start
trim_start_idem String.[] = refl
trim_start_idem (String.◌∷◌ c s) = elim (Bool-cases (is_space (code c))) [
  | inl gone ↦ rw gone (trim_start_idem s)
  | inr kept ↦ rw kept (rw kept refl)
]

trim_end_tail : (c : Char) (s rest : String) → cons_trimmed c rest ≡ String.◌∷◌ c s → rest ≡ s
trim_end_tail c s rest h = elim (Bool-cases (is_space (code c) && rest == "")) [
  | inl gone ↦ absurd (nil≢cons (rw gone at h))
  | inr kept ↦ tail-eq_of_cons-eq (rw kept at h)
]

trim_end-trim_start : (s : String) → trim_end s ≡ s → trim_end (trim_start s) ≡ trim_start s
unfolding trim_start trim_end
trim_end-trim_start String.[] h = refl
trim_end-trim_start (String.◌∷◌ c s) h = elim (Bool-cases (is_space (code c))) [
  | inl gone ↦ rw gone (trim_end-trim_start s (trim_end_tail c s (trim_end s) h))
  | inr kept ↦ rw kept h
]

-- A text that is trimmed has nothing to trim.
pub trim_idem : (s : String) → trim (trim s) ≡ trim s
unfolding trim
trim_idem s =
    ap trim_start (trim_end-trim_start (trim_end s) (trim_end_idem s))
    ∙ trim_start_idem (trim_end s)

pub trim-empty : trim "" ≡ ""
unfolding trim trim_start trim_end
trim-empty = refl
