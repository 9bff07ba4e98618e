-- ===== src/Session/Auth/Laws.antt =====
-- AuthContext.tsx and middleware.ts: what login and logout do to the session and to the pages.
use mathlib.Core.Bool.{true≢false}
use text.Mathlib.Text.{starts_with}
use stridetastic.Prelude.{
  subst, ℕ, String, Bool, true, false, ◌≡◌, ◌≢◌, refl, ap, sym, ◌∙◌, Option, none, some, arith,
  eq_iff,
}
use stridetastic.Types.{TokenResponse}
use stridetastic.Session.{
  Cookies, Request, Answer, success, failure, Client, store_tokens, forget_tokens,
}
use stridetastic.Session.Auth.{
  Auth, is_authenticated, basic_user, check_login, logout, after_login, login,
}
use stridetastic.Middleware.{middleware, redirect, next}

-- What js-cookie promises: a cookie that is set is read back, a removed one is gone, and neither
-- touches the cookies of other names.
pub record CookieLaws {J : Type 0} (cookies : Cookies J) : Type 0 where
  pub get-set :
      (name text : String) (days : ℕ) (jar : J)
      → cookies.get name (cookies.set name text days jar) ≡ some text
  pub get-set-other :
      (name other text : String) (days : ℕ) (jar : J)
      → name ≢ other
      → cookies.get name (cookies.set other text days jar) ≡ cookies.get name jar
  pub get-remove : (name : String) (jar : J) → cookies.get name (cookies.remove name jar) ≡ none
  pub get-remove-other :
      (name other : String) (jar : J)
      → name ≢ other
      → cookies.get name (cookies.remove other jar) ≡ cookies.get name jar

abbrev access_name : String
access_name = "access_token"

names_differ : access_name ≢ "refresh_token"
names_differ e = true≢false (sym ((eq_iff "access_token" "refresh_token").1 e))

module _ {J : Type 0} (cookies : Cookies J) (laws : CookieLaws cookies) where
  access-forget_tokens : (jar : J) → cookies.get "access_token" (forget_tokens cookies jar) ≡ none
  unfolding forget_tokens
  access-forget_tokens jar =
      laws.get-remove-other "access_token" "refresh_token" _ names_differ
      ∙ laws.get-remove "access_token" jar

  access-store_tokens :
      (tokens : TokenResponse) (jar : J)
      → cookies.get "access_token" (store_tokens cookies tokens jar) ≡ some tokens.access
  unfolding store_tokens
  access-store_tokens tokens jar =
      laws.get-set-other "access_token" "refresh_token" _ 7 _ names_differ
      ∙ laws.get-set "access_token" tokens.access 1 jar

  served_with_token :
      (pathname token : String)
      → pathname ≢ "/login"
      → token ≢ ""
      → middleware pathname (some token) ≡ next
  unfolding middleware
  served_with_token pathname token off real =
      ground (arith, eq_iff pathname "/login", eq_iff token "")

  -- After a logout nobody is authenticated, not even after a reload, and a page under /dashboard is
  -- redirected to the login page.
  pub logout_lem :
      {W : Type 0} (auth : Auth J W) (pathname : String)
      → starts_with pathname "/dashboard" ≡ true
      → (is_authenticated (check_login cookies (logout cookies auth)) ≡ false)
        × (middleware pathname (cookies.get "access_token" (logout cookies auth).client.jar)
            ≡ redirect "/login")
  unfolding logout check_login middleware
  logout_lem auth pathname h = (
    rw (access-forget_tokens auth.client.jar) refl,
    rw (access-forget_tokens auth.client.jar, h) refl,
  )

  module _ {W D : Type 0} (tokens_of : D → TokenResponse) (serve : Request → W → Answer D × W) where
    after_login_lem :
        (username : String) (auth after : Auth J W) (answer : Option (Answer D × Client J W))
        (pathname : String)
        → ((data_of : D) → (tokens_of data_of).access ≢ "")
        → pathname ≢ "/login"
        → after_login cookies tokens_of serve username auth answer ≡ some (true, after)
        → (after.user ≡ some (basic_user username))
          × (middleware pathname (cookies.get "access_token" after.client.jar) ≡ next)
    unfolding after_login
    after_login_lem username auth after none pathname real off e = cc
    after_login_lem username auth after (some (failure status, client)) pathname real off e =
        absurd (
          true≢false
            (sym (ap (λ (o : Option (Bool × Auth J W)). elim o [ none ↦ true | some r ↦ r.0 ]) e)))
    after_login_lem username auth after (some (success data_of, client)) pathname real off e =
        subst
          (λ (a : Auth J W).
            (a.user ≡ some (basic_user username))
            × (middleware pathname (cookies.get "access_token" a.client.jar) ≡ next))
          (ap (λ (o : Option (Bool × Auth J W)). elim o [ none ↦ after | some r ↦ r.1 ]) e)
          (
            refl,
            rw (access-store_tokens (tokens_of data_of) client.jar)
                (served_with_token pathname _ off (real data_of)),
          )

    -- Where the server hands out no empty token: after a successful login the user is the one who
    -- logged in, and every page but the login page is served.
    pub login_lem :
        (fuel : ℕ) (username password : String) (auth after : Auth J W) (pathname : String)
        → ((data_of : D) → (tokens_of data_of).access ≢ "")
        → pathname ≢ "/login"
        → login cookies tokens_of serve fuel username password auth ≡ some (true, after)
        → (after.user ≡ some (basic_user username))
          × (middleware pathname (cookies.get "access_token" after.client.jar) ≡ next)
    unfolding login
    login_lem fuel username password auth after pathname real off e =
        after_login_lem username auth after _ pathname real off e
