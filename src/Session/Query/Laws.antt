-- ===== src/Session/Query/Laws.antt =====
-- lib/api.ts, getLinks: no empty text is sent, and the paging is sent as it is given.
use stridetastic.Prelude.{
  ◌++◌, ℕ, String, Bool, true, false, ◌≡◌, refl, Option, none, some, ◌==◌, All, All-append,
  Bool-cases, inl, inr,
}
use stridetastic.ActivityFilters.{ActivityTimeRange, all, five_min, one_hour, two_hours, day, week}
use stridetastic.Session.Query.{
  Query, LinksParams, QueryValue, text_value, number_value, text_entry, flag_entry, range_entry,
  number_entry, params_query, get_links_query,
}

abbrev pub is_empty_value : QueryValue → Bool
is_empty_value (text_value s) = s == ""
is_empty_value (number_value n) = false

abbrev pub IsSent : String × QueryValue → Type 0
IsSent entry = is_empty_value entry.1 ≡ false

text_entry-IsSent : (key : String) (o : Option String) → All IsSent (text_entry key o)
unfolding text_entry
text_entry-IsSent key none = tt
text_entry-IsSent key (some s) = elim (Bool-cases (s == "")) [
  | inl empty ↦ rw empty tt
  | inr named ↦ rw named (named, tt)
]

flag_entry-IsSent : (key : String) (o : Option Bool) → All IsSent (flag_entry key o)
unfolding flag_entry
flag_entry-IsSent key none = tt
flag_entry-IsSent key (some true) = (refl, tt)
flag_entry-IsSent key (some false) = (refl, tt)

range_entry-IsSent : (key : String) (o : Option ActivityTimeRange) → All IsSent (range_entry key o)
unfolding range_entry
range_entry-IsSent key none = tt
range_entry-IsSent key (some all) = (refl, tt)
range_entry-IsSent key (some five_min) = (refl, tt)
range_entry-IsSent key (some one_hour) = (refl, tt)
range_entry-IsSent key (some two_hours) = (refl, tt)
range_entry-IsSent key (some day) = (refl, tt)
range_entry-IsSent key (some week) = (refl, tt)

number_entry-IsSent : (key : String) (o : Option ℕ) → All IsSent (number_entry key o)
unfolding number_entry
number_entry-IsSent key none = tt
number_entry-IsSent key (some n) = (refl, tt)

-- Both parts of a query are sent.
join-IsSent : (xs ys : Query) → All IsSent xs → All IsSent ys → All IsSent (xs ++ ys)
join-IsSent xs ys h k = All-append IsSent xs ys h k

params_query-IsSent : (params : LinksParams) → All IsSent (params_query params)
unfolding params_query
params_query-IsSent params =
    let s = text_entry-IsSent "search" params.search in
    let n = text_entry-IsSent "node" params.node in
    let b = flag_entry-IsSent "bidirectional" params.bidirectional in
    let l = range_entry-IsSent "last" params.last in
    let f = text_entry-IsSent "since" params.since in
    let u = text_entry-IsSent "until" params.until in
    let m = number_entry-IsSent "limit" params.limit in
    let o = number_entry-IsSent "offset" params.offset in
    let p = text_entry-IsSent "port" params.port in
    join-IsSent _ _
      (join-IsSent _ _
        (join-IsSent _ _
          (join-IsSent _ _
            (join-IsSent _ _ (join-IsSent _ _ (join-IsSent _ _ (join-IsSent _ _ s n) b) l) f) u)
          m)
        o)
      p

-- No parameter of the query is an empty text.
pub get_links_query-IsSent : (params : Option LinksParams) → All IsSent (get_links_query params)
unfolding get_links_query
get_links_query-IsSent none = tt
get_links_query-IsSent (some params) = params_query-IsSent params
