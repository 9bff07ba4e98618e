-- ===== src/Session/Refresh.antt =====
-- lib/api.ts: when a request settles, and what a refresh does to the session.
use stridetastic.Prelude.{
  if_rule, subst, ℕ, zero, suc, String, Bool, true, false, not, ◌&&◌, ◌≡◌, refl, sym, Option, none,
  some, arith, Bool-cases, inl, inr,
}
use stridetastic.Types.{TokenResponse}
use stridetastic.Session.{
  Cookies, Request, Answer, success, failure, Client, refresh_path, refresh_request, is_401, truthy,
  bearer, with_token, add_token, store_tokens, after_refresh, refresh_then, handle, send,
}

-- The status of an answer; none for a resolved request.
abbrev pub is_unauthorized : {D : Type 0} → Answer D → Bool
is_unauthorized (success data_of) = false
is_unauthorized (failure status) = is_401 status

with_token-path :
    (token : Option String) (request : Request) → (with_token token request).path ≡ request.path
with_token-path none request = refl
with_token-path (some token) request = refl

with_token-retry :
    (token : Option String) (request : Request) → (with_token token request).retry ≡ request.retry
with_token-retry none request = refl
with_token-retry (some token) request = refl

module _ {J W D : Type 0} (cookies : Cookies J) (tokens_of : D → TokenResponse)
    (serve : Request → W → Answer D × W) where
  add_token-path :
      (jar : J) (request : Request) → (add_token cookies jar request).path ≡ request.path
  unfolding add_token
  add_token-path jar request =
      if_rule (λ (sent : Request). sent.path ≡ request.path) request.skip_auth refl
        (with_token-path _ request)

  add_token-retry :
      (jar : J) (request : Request) → (add_token cookies jar request).retry ≡ request.retry
  unfolding add_token
  add_token-retry jar request =
      if_rule (λ (sent : Request). sent.retry ≡ request.retry) request.skip_auth refl
        (with_token-retry _ request)

  -- An answer that is not 401, or to a request sent for the second time, is handed on.
  handle_final :
      (again : Request → Client J W → Option (Answer D × Client J W)) (request : Request)
      (answer : Answer D) (s : Client J W)
      → (is_unauthorized answer && not request.retry) ≡ false
      → handle cookies tokens_of serve again request answer s ≡ some (answer, s)
  unfolding handle
  handle_final again request (success data_of) s h = refl
  handle_final again request (failure status) s h = rw h refl

  send_final :
      (fuel : ℕ) (request : Request) (s : Client J W)
      → (is_unauthorized (serve (add_token cookies s.jar request) s.world).0 && not request.retry)
        ≡ false
      → send cookies tokens_of serve (suc fuel) request s
        ≡ some (
          (serve (add_token cookies s.jar request) s.world).0,
          record s { world = (serve (add_token cookies s.jar request) s.world).1 },
        )
  unfolding send
  send_final fuel request s h =
      handle_final (send cookies tokens_of serve fuel) (add_token cookies s.jar request) _ _ (
        subst
          (λ b.
            (is_unauthorized (serve (add_token cookies s.jar request) s.world).0 && not b) ≡ false)
          (sym (add_token-retry s.jar request)) h)

  after_refresh_settles :
      (fuel : ℕ) (request : Request) (status : Option ℕ) (done : Answer D × Client J W)
      → request.retry ≡ true
      → (result : Answer D × Client J W) × (after_refresh cookies tokens_of serve
            (send cookies tokens_of serve (suc fuel))
            request
            status
            (some done)
          ≡ some result)
  unfolding after_refresh
  after_refresh_settles fuel request status (success data_of, s) h =
      let tokens = tokens_of data_of in
      let again : Request = record request { authorization = some (bearer tokens.access) } in
      let next : Client J W = record s { jar = store_tokens cookies tokens s.jar } in
      (_, send_final fuel again next (ground arith))
  after_refresh_settles fuel request status (failure refused, s) h = (_, refl)

  module _
      (refresh_not_401 : (request : Request) (w : W)
        → request.path ≡ refresh_path
        → is_unauthorized (serve request w).0 ≡ false) where
    refresh_then_settles :
        (fuel : ℕ) (request : Request) (status : Option ℕ) (token : Option String) (s : Client J W)
        → request.retry ≡ true
        → (result : Answer D × Client J W) × (refresh_then cookies tokens_of serve
              (send cookies tokens_of serve (suc fuel))
              request
              status
              token
              s
            ≡ some result)
    unfolding refresh_then refresh_request
    refresh_then_settles fuel request status none s h = (_, refl)
    refresh_then_settles fuel request status (some token) s h =
        let sent = add_token cookies s.jar (refresh_request token) in
        let fine = refresh_not_401 sent s.world (add_token-path s.jar (refresh_request token)) in
        let (result, e) =
          after_refresh_settles fuel request status
            ((serve sent s.world).0, record s { world = (serve sent s.world).1 }) h in
        (result, rw (send_final fuel (refresh_request token) s (ground arith)) e)

    handle_settles :
        (fuel : ℕ) (request : Request) (answer : Answer D) (s : Client J W)
        → (result : Answer D × Client J W) × (handle cookies tokens_of serve
              (send cookies tokens_of serve (suc fuel))
              request
              answer
              s
            ≡ some result)
    unfolding handle
    handle_settles fuel request (success data_of) s = (_, refl)
    handle_settles fuel request (failure status) s =
        elim (Bool-cases (is_401 status && not request.retry)) [
          | inl again ↦
              let (result, e) =
                refresh_then_settles fuel (record request { retry = true }) status
                  (truthy (cookies.get "refresh_token" s.jar)) s refl in
              (result, rw again e)
          | inr final ↦ ((failure status, s), rw final refl)
        ]

    -- Where the server never answers 401 to a refresh, every request settles: two nested calls of the
    -- client are enough.
    pub send_settles :
        (fuel : ℕ) (request : Request) (s : Client J W)
        → (result : Answer D × Client J W) × (send cookies tokens_of serve
              (suc (suc fuel))
              request
              s
            ≡ some result)
    unfolding send
    send_settles fuel request s =
        handle_settles fuel (add_token cookies s.jar request)
          (serve (add_token cookies s.jar request) s.world).0
          (record s { world = (serve (add_token cookies s.jar request) s.world).1 })

  module _
      (refresh_401 : (request : Request) (w : W)
        → request.path ≡ refresh_path
        → (serve request w).0 ≡ failure (some 401)) where
    handle_401 :
        (again : Request → Client J W → Option (Answer D × Client J W)) (request : Request)
        (answer : Answer D) (s : Client J W) (token : String)
        → answer ≡ failure (some 401)
        → request.retry ≡ false
        → truthy (cookies.get "refresh_token" s.jar) ≡ some token
        → again (refresh_request token) s ≡ none
        → handle cookies tokens_of serve again request answer s ≡ none
    unfolding handle refresh_then after_refresh
    handle_401 again request answer s token e first t n =
        rw (e, handle) (rw (first, t, refresh_then) (rw n refl))

    -- Where the server answers 401 to every refresh and a refresh token is stored, a refresh never
    -- settles, whatever the fuel: its own 401 starts the next refresh.
    pub refresh_never_settles :
        (fuel : ℕ) (token : String) (s : Client J W)
        → truthy (cookies.get "refresh_token" s.jar) ≡ some token
        → send cookies tokens_of serve fuel (refresh_request token) s ≡ none
    unfolding send
    refresh_never_settles zero token s t = refl
    refresh_never_settles (suc fuel) token s t =
        let sent = add_token cookies s.jar (refresh_request token) in
        let answered = serve sent s.world in
        handle_401 (send cookies tokens_of serve fuel) sent answered.0
          (record s { world = answered.1 }) token
          (refresh_401 sent s.world
            (unfold refresh_request in add_token-path s.jar (refresh_request token)))
          (unfold refresh_request in add_token-retry s.jar (refresh_request token)) t
          (refresh_never_settles fuel token (record s { world = answered.1 }) t)
