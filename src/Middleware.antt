-- ===== src/Middleware.antt =====
-- web_stridetastic/src/middleware.ts: which requests the Next.js server redirects. The matcher that
-- selects the requests is configuration of the framework.
pub mod Laws
mod Tests
use stridetastic.Prelude.{
  String, Bool, true, false, not, ◌&&◌, Option, none, some, ◌==◌, if◌then◌else◌,
}
use text.Mathlib.Text.{starts_with}

pub data Outcome : Type 0 where
  redirect : String → Outcome
  next : Outcome

-- A missing or empty cookie is no token.
abbrev pub is_truthy : Option String → Bool
is_truthy none = false
is_truthy (some s) = not (s == "")

unfoldable pub middleware : String → Option String → Outcome
middleware pathname token =
    if starts_with pathname "/dashboard" && not (is_truthy token)
    then redirect "/login"
    else if pathname == "/login" && is_truthy token
    then redirect "/dashboard"
    else next
