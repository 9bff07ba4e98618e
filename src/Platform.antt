-- ===== src/Platform.antt =====
-- What the front end takes from the browser: the clock, the reading of a timestamp, the current time
-- as text and a number as text. They are parameters of the definitions that use them.
use stridetastic.Prelude.{ℕ, String, Option}
use stridetastic.Prelude.Int.{ℤ, Decimal}

-- One reading of the clock serves a whole call, which the source reads anew for each colour.
pub record Platform : Type 0 where
  -- `new Date().getTime()`, in milliseconds
  pub now : ℤ
  -- `new Date().toISOString()`
  pub now_text : String
  -- `new Date(text).getTime()`; none where it is NaN
  pub time_of : String → Option ℤ
  -- a whole number in a template string
  pub decimal : ℕ → String
  -- an integer, and a fractional number, in a template string
  pub integer_text : ℤ → String
  pub number_text : Decimal → String
