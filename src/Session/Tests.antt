-- ===== src/Session/Tests.antt =====
-- Runs of the client against small servers, and instances of the theorems on sessions.
use mathlib.Core.Bool.{true≢false}
use stridetastic.Prelude.{
  subst, ◌+◌, inl, inr, Bool-cases, ℕ, String, Bool, true, false, ◌≡◌, ◌≢◌, refl, sym, ◌∙◌, Option,
  none, some, ◌==◌, eq_iff, eq_refl, if◌then◌else◌,
}
use stridetastic.Types.{TokenResponse}
use stridetastic.Session.{
  Cookies, Request, Answer, success, failure, Client, plain_request, nothing, refresh_path,
  refresh_request, login_request, add_token, store_tokens, after_refresh, refresh_then, handle,
  send,
}
use stridetastic.Session.Refresh.{is_unauthorized, send_settles, refresh_never_settles}
use stridetastic.Session.Auth.{
  Auth, is_authenticated, basic_user, check_login, logout, after_login, login,
}
use stridetastic.Session.Auth.Laws.{CookieLaws, logout_lem, login_lem}
use stridetastic.Middleware.{middleware, redirect, next}

abbrev Jar : Type 0
Jar = String → Option String

abbrev cookies : Cookies Jar
cookies = record {
  get = λ name jar. jar name;
  set = λ name text days jar. λ other. if other == name then some text else jar other;
  remove = λ name jar. λ other. if other == name then none else jar other;
}

unequal : (a b : String) → a ≢ b → (a == b) ≡ false
unequal a b h = elim (Bool-cases (a == b)) [
  | inl same ↦ absurd (h ((eq_iff a b).0 same))
  | inr other ↦ other
]

cookies-CookieLaws : CookieLaws cookies
cookies-CookieLaws = record {
  get-set = λ name text days jar. rw (eq_refl name) refl;
  get-set-other = λ name other text days jar h. rw (unequal name other h) refl;
  get-remove = λ name jar. rw (eq_refl name) refl;
  get-remove-other = λ name other jar h. rw (unequal name other h) refl;
}

abbrev tokens : TokenResponse
tokens = record { access = "a"; refresh = "r" }

abbrev old_client : Client Jar ℕ
old_client = record { jar = λ name. some "old"; world = 0; location = none }

abbrev fresh_client : Client Jar ℕ
fresh_client = record { jar = λ name. none; world = 0; location = none }

abbrev is_old : Option String → Bool
is_old none = false
is_old (some text) = text == "Bearer old"

-- A server that counts requests, refreshes tokens and refuses the token "old".
abbrev strict : Request → ℕ → Answer TokenResponse × ℕ
strict request count = (
  if request.path == refresh_path
      then success tokens
      else if is_old request.authorization
      then failure (some 401)
      else success tokens,
  count + 1,
)

-- A server that refuses everything.
abbrev closed : Request → ℕ → Answer TokenResponse × ℕ
closed request count = (failure (some 401), count + 1)

abbrev open_server : Request → ℕ → Answer TokenResponse × ℕ
open_server request count = (success tokens, count + 1)

abbrev count_of : Option (Answer TokenResponse × Client Jar ℕ) → Option ℕ
count_of none = none
count_of (some (answer, client)) = some client.world

-- A request with the old token is refused, refreshed and repeated: three requests.
refreshed :
    count_of (send cookies (λ d. d) strict 2 (plain_request "/nodes/" nothing) old_client) ≡ some 3
unfolding send handle refresh_then after_refresh refresh_request add_token store_tokens
refreshed = refl

strict-refresh :
    (request : Request) (w : ℕ)
    → request.path ≡ refresh_path
    → is_unauthorized (strict request w).0 ≡ false
strict-refresh request w e =
    subst
      (λ (b : Bool).
        is_unauthorized (
          if b
          then success tokens
          else if is_old request.authorization
          then failure (some 401)
          else success tokens)
        ≡ false)
      (sym ((eq_iff request.path refresh_path).1 e)) refl

send_settles_example :
    (result : Answer TokenResponse × Client Jar ℕ) × (send cookies
        (λ d. d)
        strict
        2
        (plain_request "/nodes/" nothing)
        old_client
      ≡ some result)
send_settles_example =
    send_settles cookies (λ d. d) strict strict-refresh 0 (plain_request "/nodes/" nothing)
      old_client

closed-refresh :
    (request : Request) (w : ℕ)
    → request.path ≡ refresh_path
    → (closed request w).0 ≡ failure (some 401)
closed-refresh request w e = refl

refresh_never_settles_example :
    send cookies (λ (d : TokenResponse). d) closed 7 (refresh_request "old") old_client ≡ none
refresh_never_settles_example =
    refresh_never_settles cookies (λ d. d) closed closed-refresh 7 "old" old_client refl

abbrev session : Auth Jar ℕ
session = record { user = some (basic_user "u"); is_loading = false; client = old_client }

logout_lem_example :
    (is_authenticated (check_login cookies (logout cookies session)) ≡ false)
    × (middleware "/dashboard" (cookies.get "access_token" (logout cookies session).client.jar)
        ≡ redirect "/login")
logout_lem_example = logout_lem cookies cookies-CookieLaws session "/dashboard" refl

abbrev anonymous : Auth Jar ℕ
anonymous = record { user = none; is_loading = false; client = fresh_client }

abbrev logged_in : Auth Jar ℕ
logged_in = record {
  user = some (basic_user "u");
  is_loading = false;
  client = record {
    jar = store_tokens cookies tokens fresh_client.jar;
    world = 1;
    location = none;
  };
}

logs_in : login cookies (λ d. tokens) open_server 1 "u" "p" anonymous ≡ some (true, logged_in)
unfolding login after_login send handle add_token login_request
logs_in = refl

differ : (a b : String) → (a == b) ≡ false → a ≢ b
differ a b h e = true≢false (sym ((eq_iff a b).1 e) ∙ h)

login_lem_example :
    (logged_in.user ≡ some (basic_user "u"))
    × (middleware "/dashboard" (cookies.get "access_token" logged_in.client.jar) ≡ next)
login_lem_example =
    login_lem cookies cookies-CookieLaws (λ d. tokens) open_server 1 "u" "p" anonymous logged_in
      "/dashboard" (λ d. differ "a" "" refl) (differ "/dashboard" "/login" refl) logs_in
