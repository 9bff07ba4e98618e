-- ===== src/Overview/Fetch/Laws.antt =====
-- Overview.tsx, fetchData: the fetches in any order of requests and answers.
use mathlib.Core.Option.{some-injective, none-ne-some}
use stridetastic.Prelude.{
  Bool, true, false, ◌≡◌, refl, sym, ap, ◌∙◌, Option, none, some, is_some, if◌then◌else◌,
}
use stridetastic.Publishing.Periodic.Submit.{Reply, resolved, rejected}
use stridetastic.Overview.Trends.{OverviewMetrics}
use stridetastic.Overview.Fetch.{
  OverviewMetrics, Mode, initial, refresh, is_initial, Fetched, OverviewState, initial_overview,
  start_fetch, take_fetched, end_fetch,
}

-- The mode of the fetch under way
abbrev pub asked : Mode → OverviewState → Option Mode → Option Mode
asked mode s pending = if s.is_fetching then pending else some mode

pub data Reach : OverviewState → Option Mode → Type 0 where
  opened : Reach initial_overview none
  started :
      {s : OverviewState} {pending : Option Mode} (mode : Mode)
      → Reach s pending
      → Reach (start_fetch mode s) (asked mode s pending)
  answered :
      {s : OverviewState} (mode : Mode) (reply : Reply Fetched)
      → Reach s (some mode)
      → Reach (end_fetch mode (take_fetched reply s)) none

pub record IsSteady (s : OverviewState) (pending : Option Mode) : Type 0 where
  pub under_way : s.is_fetching ≡ is_some pending
  pub spins : pending ≡ none → s.is_refreshing ≡ false
  pub first : pending ≡ some initial → s.is_refreshing ≡ false
  pub shown : (m : OverviewMetrics) → s.metrics ≡ some m → s.overview_metrics ≡ m

none_pending : (pending : Option Mode) → is_some pending ≡ false → pending ≡ none
none_pending none h = refl
none_pending (some mode) h = cc

start_fetch-IsSteady :
    (mode : Mode) (s : OverviewState) (pending : Option Mode)
    → IsSteady s pending
    → IsSteady (start_fetch mode s) (asked mode s pending)
unfolding start_fetch
start_fetch-IsSteady mode s pending h = begun s.is_fetching refl
  where
    begun :
        (fetching : Bool)
        → s.is_fetching ≡ fetching
        → IsSteady
            (if fetching then s else (record s {
              is_fetching = true;
              is_loading = if is_initial mode then true else s.is_loading;
              is_refreshing = if is_initial mode then s.is_refreshing else true;
              error = none;
            }))
            (if fetching then pending else some mode)
    begun true on = h
    begun false off = record {
      under_way = refl;
      spins = λ e. absurd (none-ne-some mode (sym e));
      first = λ e.
          rw (some-injective mode initial e)
            (h.spins (none_pending pending (sym h.under_way ∙ off)));
      shown = h.shown;
    }

end_fetch-IsSteady :
    (mode : Mode) (s : OverviewState)
    → (mode ≡ initial → s.is_refreshing ≡ false)
    → ((m : OverviewMetrics) → s.metrics ≡ some m → s.overview_metrics ≡ m)
    → IsSteady (end_fetch mode s) none
unfolding end_fetch
end_fetch-IsSteady initial s first shown = record {
  under_way = refl;
  spins = λ e. first refl;
  first = λ e. first refl;
  shown = shown;
}
end_fetch-IsSteady refresh s first shown = record {
  under_way = refl;
  spins = λ e. refl;
  first = λ e. refl;
  shown = shown;
}

-- However the requests and the answers of the overview follow one another, the flag of a fetch is set
-- exactly while one is under way, the refresh is shown only while a fetch for a refresh is under way, and
-- the metrics shown are those that the next trends are computed from.
pub Reach-IsSteady :
    {s : OverviewState} {pending : Option Mode} → Reach s pending → IsSteady s pending
unfolding initial_overview take_fetched
Reach-IsSteady opened = record {
  under_way = refl;
  spins = λ e. refl;
  first = λ e. refl;
  shown = λ m e. absurd (none-ne-some m e);
}
Reach-IsSteady (started {s} {pending} mode before) =
    start_fetch-IsSteady mode s pending (Reach-IsSteady before)
Reach-IsSteady (answered {s} mode (resolved fetched) before) =
    end_fetch-IsSteady mode (take_fetched (resolved fetched) s)
      (λ e. (Reach-IsSteady before).first (ap some e)) (λ m e. some-injective fetched.current m e)
Reach-IsSteady (answered {s} mode (rejected message) before) =
    let h = Reach-IsSteady before in
    end_fetch-IsSteady mode (take_fetched (rejected message) s) (λ e. h.first (ap some e)) h.shown
