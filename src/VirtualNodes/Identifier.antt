-- ===== src/VirtualNodes/Identifier.antt =====
-- VirtualNodesPanel.tsx, handleTextChange: what is kept of a typed identifier.
pub mod Laws
use Prim.Native.Char.{Char, char, code}
use Prim.Native.String.{String}
use stridetastic.Prelude.{ℕ, Bool, true, false, ◌&&◌, ◌||◌, ◌==◌, if◌then◌else◌, leb, eqb}

-- The characters of `[!0-9a-f]`
abbrev pub is_id_char : Char → Bool
is_id_char c = let n = code c in eqb n 33 || ((leb 48 n && leb n 57) || (leb 97 n && leb n 102))

-- Of the letters that `toLowerCase` changes, only A to F become characters that are kept.
abbrev pub to_lower : Char → Char
to_lower c =
    let n = code c in
    if eqb n 65
    then char 97 tt
    else (if eqb n 66
        then char 98 tt
        else (if eqb n 67
            then char 99 tt
            else (if eqb n 68
                then char 100 tt
                else (if eqb n 69 then char 101 tt else (if eqb n 70 then char 102 tt else c)))))

-- `value.toLowerCase().replace(/[^!0-9a-f]/g, '')`
unfoldable pub normalized : String → String
normalized String.[] = ""
normalized (String.◌∷◌ c s) =
    let rest = normalized s in
    if is_id_char (to_lower c) then String.◌∷◌ (to_lower c) rest else rest

-- `normalized.replace(/^!+/, '')`
unfoldable pub without_prefix : String → String
without_prefix String.[] = ""
without_prefix (String.◌∷◌ c s) =
    let rest = without_prefix s in if eqb (code c) 33 then rest else String.◌∷◌ c s

abbrev pub with_prefix : String → String
with_prefix s = if s == "" then "" else String.◌∷◌ (char 33 tt) s

unfoldable pub typed_node_id : String → String
typed_node_id value = with_prefix (without_prefix (normalized value))
