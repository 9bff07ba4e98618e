-- ===== src/Session/Auth.antt =====
-- web_stridetastic/src/contexts/AuthContext.tsx: the session of the user over the API client.
pub mod Laws
use stridetastic.Prelude.{
  ℕ, String, Bool, true, false, Option, none, some, is_some, ◌==◌, if◌then◌else◌,
}
use stridetastic.Types.{LoginCredentials, TokenResponse, User}
use stridetastic.Session.{
  Cookies, Request, Answer, success, failure, Client, truthy, login_request, store_tokens,
  forget_tokens, send,
}

pub record Auth (J W : Type 0) : Type 0 where
  pub user : Option User
  pub is_loading : Bool
  pub client : Client J W

-- `!!user`
abbrev pub is_authenticated : {J W : Type 0} → Auth J W → Bool
is_authenticated auth = is_some auth.user

-- The user that is known without asking the server.
abbrev pub basic_user : String → User
basic_user username = record { id = 1; username = username; email = none }

module _ {J W : Type 0} (cookies : Cookies J) where
  -- The effect on mount.
  unfoldable pub check_login : Auth J W → Auth J W
  check_login auth = record auth {
    user =
        if is_some (truthy (cookies.get "access_token" auth.client.jar))
        then some (basic_user "user")
        else auth.user;
    is_loading = false;
  }

  unfoldable pub logout : Auth J W → Auth J W
  logout auth = record auth {
    user = none;
    client = record auth.client { jar = forget_tokens cookies auth.client.jar };
  }

module _ {J W D : Type 0} (cookies : Cookies J) (tokens_of : D → TokenResponse)
    (serve : Request → W → Answer D × W) where
  -- What follows the answer to the login request; none is a request that does not settle.
  unfoldable pub after_login :
      String → Auth J W → Option (Answer D × Client J W) → Option (Bool × Auth J W)
  after_login username auth none = none
  after_login username auth (some (success data_of, client)) =
      let stored = store_tokens cookies (tokens_of data_of) client.jar in
      some (
        true,
        record auth { user = some (basic_user username); client = record client { jar = stored } },
      )
  after_login username auth (some (failure status, client)) =
      some (false, record auth { client = client })

  -- On fuel, which the client takes.
  unfoldable pub login : ℕ → String → String → Auth J W → Option (Bool × Auth J W)
  login fuel username password auth = after_login username auth (
      send cookies tokens_of serve fuel
        (login_request (record { username = username; password = password })) auth.client)
