-- ===== src/Overview.antt =====
-- web_stridetastic/src/components/Overview.tsx: the overview, without its rendering. `Trends` compares
-- the metrics of two fetches, and `Fetch` is the state of the fetches.
pub mod Trends
pub mod Fetch
mod Tests
