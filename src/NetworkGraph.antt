-- ===== src/NetworkGraph.antt =====
-- web_stridetastic/src/components/NetworkGraph.tsx: the data that the network graph draws. `Update` is
-- the update of the drawn arrays in place.
pub mod Update
pub mod Merge
pub mod Interfaces
mod Tests
