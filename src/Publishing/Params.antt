-- ===== src/Publishing/Params.antt =====
-- PublishingActions.tsx: the parameters of the URL that start an action, and their removal.
pub mod Laws
use stridetastic.Prelude.{
  true, String, not, Option, none, some, List, [], ◌∷◌, ◌==◌, if◌then◌else◌, keep_if,
}

-- `params.get(key)`
unfoldable pub get_param : String → List (String × String) → Option String
get_param key [] = none
get_param key ((name, value) ∷ rest) = if name == key then some value else get_param key rest

-- `params.delete(key)`
unfoldable pub delete_param : String → List (String × String) → List (String × String)
delete_param key query = keep_if (λ entry. not (entry.0 == key)) query

-- `params.set(key, value)`: the first entry is replaced and the others dropped.
unfoldable pub set_param : String → String → List (String × String) → List (String × String)
set_param key value [] = (key, value) ∷ []
set_param key value ((name, old) ∷ rest) =
    if name == key
    then (key, value) ∷ delete_param key rest
    else (name, old) ∷ set_param key value rest

unfoldable pub go_back : Option String → List (String × String) → List (String × String)
go_back none query = query
go_back (some tab) query =
    if (if tab == "" then true else tab == "actions")
    then query
    else if tab == "overview"
    then delete_param "tab" query
    else set_param "tab" tab query

-- `clearActionParams()`
unfoldable pub clear_action_params : List (String × String) → List (String × String)
clear_action_params query = go_back (get_param "returnTab" query) (
    delete_param "returnTab"
      (delete_param "sourceNode" (delete_param "targetNode" (delete_param "action" query))))
