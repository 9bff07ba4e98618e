-- ===== src/Middleware/Laws.antt =====
-- middleware.ts: the redirects do not loop, and the dashboard wants a token.
use stridetastic.Prelude.{
  ◌∙◌, sym, subst, String, ◌≡◌, refl, true, false, Option, ◌↔◌, arith, ◌==◌, eq_iff, Bool-cases,
  inl, inr,
}
use mathlib.Core.Bool.{true≢false}
use text.Mathlib.Text.{starts_with}
use stridetastic.Middleware.{Outcome, redirect, next, is_truthy, middleware}

login_not_dashboard : starts_with "/login" "/dashboard" ≡ false
login_not_dashboard = refl

login_not_under :
    (pathname : String)
    → (pathname == "/login") ≡ true
    → ¬ (starts_with pathname "/dashboard" ≡ true)
login_not_under pathname login h =
    let same : pathname ≡ "/login" = (eq_iff pathname "/login").0 login in
    let apart : starts_with pathname "/dashboard" ≡ false =
      subst (λ path. starts_with path "/dashboard" ≡ false) (sym same) login_not_dashboard in
    absurd (true≢false (sym h ∙ apart))

-- Where a redirect sends to, read back from the outcome.
target_of : String → Outcome → String
target_of fallback (redirect target) = target
target_of fallback next = fallback

-- With a token the login page alone is redirected, to the dashboard.
middleware_with_token :
    (pathname target : String) (token : Option String)
    → is_truthy token ≡ true
    → middleware pathname token ≡ redirect target
    → target ≡ "/dashboard"
unfolding middleware
middleware_with_token pathname target token given h = ground arith

middleware_without_token :
    (pathname target : String) (token : Option String)
    → is_truthy token ≡ false
    → middleware pathname token ≡ redirect target
    → target ≡ "/login"
unfolding middleware
middleware_without_token pathname target token missing h = ground arith

middleware_served :
    (token : Option String) → is_truthy token ≡ true → middleware "/dashboard" token ≡ next
unfolding middleware
middleware_served token given = rw given refl

middleware_login :
    (token : Option String) → is_truthy token ≡ false → middleware "/login" token ≡ next
unfolding middleware
middleware_login token missing = rw missing refl

-- A redirected request is let through at its new place, with the same cookie.
pub middleware-redirect :
    (pathname target : String) (token : Option String)
    → middleware pathname token ≡ redirect target
    → middleware target token ≡ next
middleware-redirect pathname target token h = elim (Bool-cases (is_truthy token)) [
  | inl given ↦
      rw (middleware_with_token pathname target token given h) (middleware_served token given)
  | inr missing ↦
      rw (middleware_without_token pathname target token missing h) (middleware_login token missing)
]

-- A page under /dashboard is served exactly with a token.
pub middleware-dashboard :
    (pathname : String) (token : Option String)
    → starts_with pathname "/dashboard" ≡ true
    → (middleware pathname token ≡ next) ↔ (is_truthy token ≡ true)
unfolding middleware
middleware-dashboard pathname token h = elim (Bool-cases (pathname == "/login")) [
  | inl login ↦ absurd (login_not_under pathname login h)
  | inr other ↦ elim (Bool-cases (is_truthy token)) [
    | inl given ↦ rw (h, other, given) (λ p. refl, λ p. refl)
    | inr missing ↦ rw (h, other, missing) (λ p. ground arith, λ p. ground arith)
  ]
]
