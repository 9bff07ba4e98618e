-- ===== src/LinksPanel/Load.antt =====
-- LinksPanel.tsx: the requests of the panel. An answer arrives at any time and in any order, and each
-- handler is the part of the function that runs at one time: up to the request, or from the answer on.
pub mod Laws
use stridetastic.Prelude.{
  ℕ, String, Bool, true, false, not, ◌&&◌, ◌||◌, Option, none, some, List, [], ◌∷◌, ◌==◌,
  if◌then◌else◌, eqb, or_else,
}
use stridetastic.ActivityFilters.{ActivityTimeRange, all}
use stridetastic.Session.Query.{LinksParams}
use stridetastic.NetworkGraph.Interfaces.{find}
use stridetastic.Publishing.Periodic.Submit.{Reply, resolved, rejected}
use stridetastic.LinksPanel.Channels.{NodeLink, NodeLinkPacket}

pub data BidirectionalFilter : Type 0 where
  all_links bidirectional unidirectional : BidirectionalFilter

pub record Filters : Type 0 where
  pub debounced_search : String
  pub time_range : ActivityTimeRange
  pub direction_filter : BidirectionalFilter
  pub port_filter : String

-- `if (timeRange !== 'all') params.last = timeRange`
abbrev pub last_param : ActivityTimeRange → Option ActivityTimeRange
last_param all = none
last_param range = some range

-- `if (portFilter !== 'all') params.port = portFilter`
abbrev pub port_param : String → Option String
port_param port = if port == "all" then none else some port

abbrev pub direction_param : BidirectionalFilter → Option Bool
direction_param all_links = none
direction_param bidirectional = some true
direction_param unidirectional = some false

unfoldable pub links_params : Filters → LinksParams
links_params filters = record {
  search = if filters.debounced_search == "" then none else some filters.debounced_search;
  node = none;
  bidirectional = direction_param filters.direction_filter;
  last = last_param filters.time_range;
  since = none;
  until = none;
  limit = some 100;
  offset = none;
  port = port_param filters.port_filter;
}

-- `selectedLinkId` and the reference that follows it are one field.
pub record LinksState : Type 0 where
  pub links : List NodeLink
  pub loading_links : Bool
  pub links_error : Option String
  pub selected_link_id : Option ℕ
  pub selected_link : Option NodeLink
  pub link_packets : List NodeLinkPacket
  pub packets_loading : Bool
  pub packets_error : Option String
  pub packets_stalled : Bool
  pub is_mounted : Bool

unfoldable pub initial_links_state : LinksState
initial_links_state = record {
  links = [];
  loading_links = false;
  links_error = none;
  selected_link_id = none;
  selected_link = none;
  link_packets = [];
  packets_loading = false;
  packets_error = none;
  packets_stalled = false;
  is_mounted = true;
}

abbrev pub is_selected : ℕ → LinksState → Bool
is_selected id s = elim s.selected_link_id [ none ↦ false | some other ↦ eqb other id ]

-- loadLinkDetails, up to its two requests
unfoldable pub start_link_details : LinksState → LinksState
start_link_details s =
    if s.is_mounted
    then (record s { packets_loading = true; packets_stalled = false; packets_error = none })
    else s

-- The timer of six seconds, which an answer clears
unfoldable pub stall : LinksState → LinksState
stall s = if s.is_mounted then (record s { packets_stalled = true }) else s

-- What a success or a failure of the two requests sets, and then the end of loadLinkDetails
abbrev pub take_details : Reply (NodeLink × List NodeLinkPacket) → LinksState → LinksState
take_details (resolved (link, packets)) s = record s {
  selected_link = some link;
  link_packets = packets;
  packets_loading = false;
  packets_stalled = false;
}
take_details (rejected message) s = record s {
  packets_error = some "Unable to load link details. Please try again.";
  link_packets = [];
  packets_loading = false;
  packets_stalled = false;
}

-- loadLinkDetails, from the answer to its two requests on
unfoldable pub details_answered :
    ℕ → Reply (NodeLink × List NodeLinkPacket) → LinksState → LinksState
details_answered id reply s = if s.is_mounted && is_selected id s then take_details reply s else s

-- loadLinks, up to its request
unfoldable pub start_links : LinksState → LinksState
start_links s = record s { loading_links = true; links_error = none }

-- The end of loadLinks
unfoldable pub finish_links : LinksState → LinksState
finish_links s = if s.is_mounted then (record s { loading_links = false }) else s

abbrev pub clear_selection : LinksState → LinksState
clear_selection s = record s { selected_link_id = none; selected_link = none; link_packets = [] }

-- `fetched.find((link) => link.id === previousSelectedId) ?? fetched[0]`
abbrev pub preferred_link : Option ℕ → NodeLink → List NodeLink → NodeLink
preferred_link none first more = first
preferred_link (some id) first more = or_else (find (λ link. eqb link.id id) (first ∷ more)) first

-- What the links do to the state, and the request that follows them: the link whose details are loaded
abbrev pub take_links : Reply (List NodeLink) → LinksState → LinksState × Option ℕ
take_links (resolved []) s = (finish_links (clear_selection (record s { links = [] })), none)
take_links (resolved (first ∷ more)) s =
    let preferred = preferred_link s.selected_link_id first more in
    (
      start_link_details (record s {
        links = first ∷ more;
        selected_link = some preferred;
        selected_link_id = some preferred.id;
      }),
      some preferred.id,
    )
take_links (rejected message) s = (
  finish_links (
      clear_selection (record s {
        links = [];
        links_error = some "Unable to load link activity. Please try again.";
      })),
  none,
)

-- loadLinks, from its answer on
unfoldable pub links_answered : Reply (List NodeLink) → LinksState → LinksState × Option ℕ
links_answered reply s = if s.is_mounted then take_links reply s else (s, none)

-- handleRowClick
unfoldable pub handle_row_click : ℕ → LinksState → LinksState
handle_row_click id s = start_link_details (record s {
  selected_link_id = some id;
  selected_link = elim (find (λ link. eqb link.id id) s.links) [
    | none ↦ s.selected_link
    | some link ↦ some link
  ];
})

unfoldable pub unmount : LinksState → LinksState
unmount s = record s { is_mounted = false }
