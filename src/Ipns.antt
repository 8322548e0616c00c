-- ===== src/Ipns.antt =====
-- packages/ipfs-core/src/ipns: names that are published and resolved. The routing, the datastore,
-- the package `ipns` with its signatures, and peer ids are parameters.
pub mod Resolver
pub mod Publisher
pub mod Names
pub mod Subscriptions
mod Tests
