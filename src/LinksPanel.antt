-- ===== src/LinksPanel.antt =====
-- web_stridetastic/src/components/LinksPanel.tsx: the panel of the logical links, without its rendering.
-- `Load` is its requests and answers, and `Channels` what it makes of the packets of a link.
pub mod Channels
pub mod Load
mod Tests
