-- ===== src/Lib.antt =====
-- Verification of the core logic of the web front end (web_stridetastic/src, TypeScript).
--
-- The front end fetches the nodes and edges of a Meshtastic network, turns them into the nodes
-- and links of a force graph, and lets the user select one node or two: with one it shows what is
-- reachable from it, with two the paths between them.
--
-- Parts, each under web_stridetastic/src:
--   types/index.ts             Types: the records of the API and of the graph
--   lib/activityFilters.ts     ActivityFilters: time ranges (getMinutesAgo, isWithinTimeRange, ...)
--   lib/networkTransforms.ts   NetworkTransforms: transformNetworkData. Signal has the distance, width
--                              and colour of a link, Filters the edge filters, Build the loops that
--                              push nodes and links; Signal.Laws, Reverse, Anchored, Hops and Broker
--                              have the proofs
--   lib/pathFinding.ts         PathFinding: buildAdjacencyList and the hop count. Search is what the
--                              three worklist loops share, Paths is findPathsBetweenNodes, Reachable
--                              is findReachableNodes and findReachableLinks
--   lib/graphStyles.ts         GraphStyles: how a link or node is drawn under a selection; Reachable
--                              joins it to the search of the reachable links
--   hooks/usePathFinding.ts    PathView: which search runs for which selection
--   hooks/useNodeSelection.ts  NodeSelection: the state of the selection and its callbacks
--   hooks/useNetworkData.ts    NetworkData: the fetched data, the graph made of it, and errors
--   lib/api.ts                 Session: the interceptors of ApiClient and the refresh of the token;
--                              Session.Refresh has the proofs, Session.Query the query of getLinks
--   contexts/AuthContext.tsx   Session.Auth: the check on mount, login and logout
--   middleware.ts              Middleware: the redirects
--   components/actions/PublishingActions.tsx
--                              Publishing: the forms of the publishing panel. Json has the values of
--                              a payload, Jobs and Periodic the periodic jobs (Pki the switch,
--                              Submit the requests), Actions and OneShot the single actions,
--                              Params the parameters of the URL, Services and Keepalive the two
--                              services, Restriction the nodes that may publish
--   components/NetworkGraph.tsx, types/interface.ts
--                              NetworkGraph: Interfaces has the nodes and links of the interfaces,
--                              Merge what is drawn, Update the update of an array in place
--   components/LinksPanel.tsx  LinksPanel: Load has the requests and answers, Channels the packets
--   components/VirtualNodesPanel.tsx
--                              VirtualNodes: Identifier is what may be typed, Form the form and its
--                              payload, Submit the requests
--   components/Overview.tsx    Overview: Fetch has the fetches, Trends the trends of the metrics
--
-- Interaction: NetworkTransforms makes the links that PathFinding searches; NodeSelection holds
-- the identifiers that PathView searches from; GraphStyles reads the results; NetworkData calls
-- transformNetworkData on what the API answers, and again when a setting changes. Session.Auth
-- logs in by the client of Session, and the cookies that it writes are those that Middleware
-- reads. NetworkGraph adds the interfaces to that graph and PathFinding searches what it draws.
-- Publishing and VirtualNodes each send what their form makes, and take in what the server
-- answers. A handler that waits for an answer takes the answer as an argument, or is two
-- functions, one up to the request and one from the answer on, where other events may come
-- between (LinksPanel.Load.Laws.Step). What Object.assign leaves of an object is an argument of
-- the update in NetworkGraph, since the records do not tell an absent property from an undefined
-- one. In VirtualNodes a request may also stay unsettled, as one that waits for a refresh that
-- does not end; the other handlers say what an answer leads to.
--
-- Names are those of the source in snake_case. A state that a callback updates is a record that
-- the function takes and returns; `null`, `undefined` and a rejected request are `none`; a Set is
-- a list without repetition in insertion order, and a Map an association list.
--
-- Numbers: counts, hops and widths are natural numbers, as in the API's schema. RSSI, SNR and
-- what is computed from them are exact fractions (Prelude.Int.Decimal): the rounding of doubles
-- is not modelled. In the publishing panel a number may also be NaN (Publishing.Json.Number), and
-- an array in a payload reads as an object without named properties. What the browser provides
-- (clock, reading of dates, numbers as text) is the parameter `Platform`.
--
-- Loops: the `while` loops over a queue run on fuel. `search_budget` is the number of rounds that
-- a queue can cause, where each path may be extended by any neighbour that is not on it; the
-- search theorems show that with it every search returns. The key of a path joins its nodes with
-- dashes, so two paths may share a key if an identifier holds a dash; completeness is stated for
-- identifiers without dashes, such as the `!a1b2c3d4` of Meshtastic. The client calls itself for
-- a refresh and for the repeated request, so `Session.send` runs on fuel, and no fuel left stands
-- for a request that has not settled; two are enough where the server does not answer 401 to a
-- refresh.
--
-- Not modelled: the rendering of the React components, the components that the list does not
-- name, the methods of lib/api.ts that only name a URL, the browser's storage, the formatting in
-- lib/utils.ts and lib/position.ts, and the parts in other languages (the Django back end under
-- api_stridetastic, Grafana, the Wireshark dissector).
pub mod Prelude
pub mod Types
pub mod Platform
pub mod ActivityFilters
pub mod NetworkTransforms
pub mod PathFinding
pub mod GraphStyles
pub mod NodeSelection
pub mod PathView
pub mod NetworkData
pub mod Session
pub mod Middleware
pub mod Publishing
pub mod NetworkGraph
pub mod LinksPanel
pub mod VirtualNodes
pub mod Overview
