-- ===== src/Publishing/Params/Laws.antt =====
-- PublishingActions.tsx, clearActionParams: which parameters of the URL are left.
use stridetastic.Prelude.{
  String, Bool, false, ◌||◌, ◌≡◌, refl, ◌∙◌, Option, none, some, List, [], ◌∷◌, ◌==◌, eq_iff,
  if◌then◌else◌, if_rule, arith,
}
use stridetastic.Publishing.Params.{
  get_param, delete_param, set_param, go_back, clear_action_params,
}

get_param-delete_param :
    (key name : String) (query : List (String × String))
    → get_param key (delete_param name query) ≡ (if name == key then none else get_param key query)
unfolding get_param delete_param
get_param-delete_param key name [] = ground arith
get_param-delete_param key name ((other, value) ∷ rest) = ground (
  arith,
  get_param-delete_param key name rest,
  eq_iff other name,
  eq_iff other key,
  eq_iff name key,
)

get_param-set_param :
    (key name value : String) (query : List (String × String))
    → (name == key) ≡ false
    → get_param key (set_param name value query) ≡ get_param key query
unfolding get_param set_param
get_param-set_param key name value [] h = rw h refl
get_param-set_param key name value ((other, old) ∷ rest) h = ground (
  arith,
  get_param-set_param key name value rest h,
  get_param-delete_param key name rest,
  eq_iff other name,
  eq_iff other key,
  eq_iff name key,
)

get_param-go_back :
    (key : String) (tab : Option String) (query : List (String × String))
    → ("tab" == key) ≡ false
    → get_param key (go_back tab query) ≡ get_param key query
unfolding go_back
get_param-go_back key none query h = refl
get_param-go_back key (some tab) query h =
    if_rule (λ (q : List (String × String)). get_param key q ≡ get_param key query) _ refl
      (if_rule (λ (q : List (String × String)). get_param key q ≡ get_param key query) _
        (get_param-delete_param key "tab" query ∙ rw h refl)
        (get_param-set_param key "tab" tab query h))

-- The parameters that an action's link sets.
abbrev pub is_action_param : String → Bool
is_action_param key =
    "returnTab" == key || ("sourceNode" == key || ("targetNode" == key || "action" == key))

-- After an action every parameter of the URL but the tab stands as it was, and those of the action are
-- gone.
pub get_param-clear_action_params :
    (key : String) (query : List (String × String))
    → ("tab" == key) ≡ false
    → get_param key (clear_action_params query)
      ≡ (if is_action_param key then none else get_param key query)
unfolding clear_action_params
get_param-clear_action_params key query h =
    let q1 = delete_param "action" query in
    let q2 = delete_param "targetNode" q1 in
    let q3 = delete_param "sourceNode" q2 in
    get_param-go_back key (get_param "returnTab" query) (delete_param "returnTab" q3) h
    ∙ ground (
      arith,
      get_param-delete_param key "returnTab" q3,
      get_param-delete_param key "sourceNode" q2,
      get_param-delete_param key "targetNode" q1,
      get_param-delete_param key "action" query,
    )
