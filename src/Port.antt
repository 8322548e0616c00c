-- ===== src/Port.antt =====
-- packages/ipfs-message-port-client, -server and -protocol: calls over a message port.
pub mod Transport
pub mod Iterable
pub mod Server
