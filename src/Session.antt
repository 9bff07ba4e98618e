-- ===== src/Session.antt =====
-- web_stridetastic/src/lib/api.ts, the class ApiClient: its interceptors and the refresh of the token;
-- and web_stridetastic/src/contexts/AuthContext.tsx. The cookies and the server are parameters.
pub mod Auth
pub mod Query
pub mod Refresh
mod Tests
use Prim.Native.String.{◌++◌ as str_append}
use stridetastic.Prelude.{
  ℕ, zero, suc, String, Bool, true, false, not, ◌&&◌, Option, none, some, ◌==◌, if◌then◌else◌, eqb,
}
use stridetastic.Types.{LoginCredentials, TokenResponse}

-- js-cookie: the number is the cookie's life in days.
pub record Cookies (J : Type 0) : Type 0 where
  pub get : String → J → Option String
  pub set : String → String → ℕ → J → J
  pub remove : String → J → J

pub data Payload : Type 0 where
  nothing : Payload
  credentials : LoginCredentials → Payload
  refresh_payload : String → Payload
  other_payload : String → Payload

-- What the interceptors read and write of a request's configuration.
pub record Request : Type 0 where
  pub path : String
  pub payload : Payload
  pub authorization : Option String
  pub skip_auth : Bool
  pub retry : Bool

-- A resolved request with its data, or a rejected one with the status of the response if there is one.
pub data Answer (D : Type 0) : Type 0 where
  success : D → Answer D
  failure : Option ℕ → Answer D

pub record Client (J W : Type 0) : Type 0 where
  pub jar : J
  pub world : W
  pub location : Option String

abbrev pub login_path : String
login_path = "/auth/login"

abbrev pub refresh_path : String
refresh_path = "/auth/refresh-token"

abbrev pub plain_request : String → Payload → Request
plain_request path payload = record {
  path = path;
  payload = payload;
  authorization = none;
  skip_auth = false;
  retry = false;
}

unfoldable pub refresh_request : String → Request
refresh_request token = plain_request refresh_path (refresh_payload token)

unfoldable pub login_request : LoginCredentials → Request
login_request given = plain_request login_path (credentials given)

-- `error.response?.status === 401`
abbrev pub is_401 : Option ℕ → Bool
is_401 none = false
is_401 (some status) = eqb status 401

-- `if (token)`
abbrev pub truthy : Option String → Option String
truthy none = none
truthy (some token) = if token == "" then none else some token

abbrev pub bearer : String → String
bearer token = str_append "Bearer " token

abbrev pub with_token : Option String → Request → Request
with_token none request = request
with_token (some token) request = record request { authorization = some (bearer token) }

module _ {J : Type 0} (cookies : Cookies J) where
  -- The request interceptor.
  unfoldable pub add_token : J → Request → Request
  add_token jar request =
      if request.skip_auth
      then request
      else with_token (truthy (cookies.get "access_token" jar)) request

  unfoldable pub store_tokens : TokenResponse → J → J
  store_tokens tokens jar =
      cookies.set "refresh_token" tokens.refresh 7 (cookies.set "access_token" tokens.access 1 jar)

  -- `logout`, and what a failed refresh does to the cookies.
  unfoldable pub forget_tokens : J → J
  forget_tokens jar = cookies.remove "refresh_token" (cookies.remove "access_token" jar)

module _ {J W D : Type 0} (cookies : Cookies J) (tokens_of : D → TokenResponse)
    (serve : Request → W → Answer D × W) where
  -- The response interceptor: `again` is `this.client`, and none is a call that does not settle.
  module _ (again : Request → Client J W → Option (Answer D × Client J W)) where
    -- After the refresh: the request is sent again, or the session ends.
    unfoldable pub after_refresh :
        Request → Option ℕ → Option (Answer D × Client J W) → Option (Answer D × Client J W)
    after_refresh request status none = none
    after_refresh request status (some (success data_of, s)) =
        let tokens = tokens_of data_of in
        again (record request { authorization = some (bearer tokens.access) })
          (record s { jar = store_tokens cookies tokens s.jar })
    after_refresh request status (some (failure refused, s)) =
        some
          (failure status, record s { jar = forget_tokens cookies s.jar; location = some "/login" })

    unfoldable pub refresh_then :
        Request → Option ℕ → Option String → Client J W → Option (Answer D × Client J W)
    refresh_then request status none s = some (failure status, s)
    refresh_then request status (some token) s =
        after_refresh request status (again (refresh_request token) s)

    unfoldable pub handle : Request → Answer D → Client J W → Option (Answer D × Client J W)
    handle request (success data_of) s = some (success data_of, s)
    handle request (failure status) s =
        if is_401 status && not request.retry
        then refresh_then (record request { retry = true }) status
            (truthy (cookies.get "refresh_token" s.jar)) s
        else some (failure status, s)

  -- `this.client(request)`, on fuel.
  unfoldable pub send : ℕ → Request → Client J W → Option (Answer D × Client J W)
  send zero request s = none
  send (suc fuel) request s =
      let sent = add_token cookies s.jar request in
      let answered = serve sent s.world in
      handle (send fuel) sent answered.0 (record s { world = answered.1 })
