-- ===== src/Session/Query.antt =====
-- lib/api.ts, getLinks: which query parameters are sent.
pub mod Laws
use stridetastic.Prelude.{
  ℕ, String, Bool, true, false, Option, none, some, List, [], ◌∷◌, ◌++◌, ◌==◌, if◌then◌else◌,
}
use stridetastic.ActivityFilters.{ActivityTimeRange, all, five_min, one_hour, two_hours, day, week}

pub record LinksParams : Type 0 where
  pub search : Option String
  pub node : Option String
  pub bidirectional : Option Bool
  pub last : Option ActivityTimeRange
  pub since : Option String
  pub until : Option String
  pub limit : Option ℕ
  pub offset : Option ℕ
  pub port : Option String

pub data QueryValue : Type 0 where
  text_value : String → QueryValue
  number_value : ℕ → QueryValue

abbrev pub Query : Type 0
Query = List (String × QueryValue)

abbrev pub range_text : ActivityTimeRange → String
range_text all = "all"
range_text five_min = "5min"
range_text one_hour = "1hour"
range_text two_hours = "2hours"
range_text day = "24hours"
range_text week = "7days"

-- `if (params.key) queryParams.key = params.key`
unfoldable pub text_entry : String → Option String → Query
text_entry key none = []
text_entry key (some s) = if s == "" then [] else (key, text_value s) ∷ []

unfoldable pub flag_entry : String → Option Bool → Query
flag_entry key none = []
flag_entry key (some b) = (key, text_value (if b then "true" else "false")) ∷ []

unfoldable pub range_entry : String → Option ActivityTimeRange → Query
range_entry key none = []
range_entry key (some range) = (key, text_value (range_text range)) ∷ []

-- `if (typeof params.key === 'number') queryParams.key = params.key`
unfoldable pub number_entry : String → Option ℕ → Query
number_entry key none = []
number_entry key (some n) = (key, number_value n) ∷ []

unfoldable pub params_query : LinksParams → Query
params_query params =
    text_entry "search" params.search
    ++ text_entry "node" params.node
    ++ flag_entry "bidirectional" params.bidirectional
    ++ range_entry "last" params.last
    ++ text_entry "since" params.since
    ++ text_entry "until" params.until
    ++ number_entry "limit" params.limit
    ++ number_entry "offset" params.offset
    ++ text_entry "port" params.port

unfoldable pub get_links_query : Option LinksParams → Query
get_links_query none = []
get_links_query (some params) = params_query params
