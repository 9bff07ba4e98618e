-- ===== src/Publishing.antt =====
-- web_stridetastic/src/components/actions/PublishingActions.tsx: the logic of the publishing panel,
-- without its rendering. `Periodic` is the form of the periodic jobs, whose records are in `Jobs`;
-- `OneShot` is the form of the single actions, whose records are in `Actions`, and `Params`
-- the parameters of the URL that start one; `Services` and `Keepalive` are the two services, and
-- `Restriction` the effects of the nodes that may publish.
pub mod Json
pub mod Jobs
pub mod Periodic
pub mod Actions
pub mod Params
pub mod OneShot
pub mod Services
pub mod Keepalive
pub mod Restriction
mod Tests
