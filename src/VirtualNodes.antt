-- ===== src/VirtualNodes.antt =====
-- web_stridetastic/src/components/VirtualNodesPanel.tsx: the panel of the virtual nodes, without its
-- rendering. `Identifier` is what may be typed as an identifier, `Form` the form, and `Submit` the
-- requests.
pub mod Identifier
pub mod Form
pub mod Submit
mod Tests
