-- ===== src/Middleware/Tests.antt =====
-- Instances of the theorems on the redirects.
use stridetastic.Prelude.{refl, ◌≡◌, ◌↔◌, true, none, some}
use stridetastic.Middleware.{redirect, next, is_truthy, middleware}
use stridetastic.Middleware.Laws.{middleware-redirect, middleware-dashboard}

without_token : middleware "/dashboard/map" none ≡ redirect "/login"
unfolding middleware
without_token = refl

middleware-redirect_example : middleware "/login" none ≡ next
middleware-redirect_example = middleware-redirect "/dashboard/map" "/login" none without_token

middleware-dashboard_example :
    (middleware "/dashboard/map" (some "t") ≡ next) ↔ (is_truthy (some "t") ≡ true)
middleware-dashboard_example = middleware-dashboard "/dashboard/map" (some "t") refl
