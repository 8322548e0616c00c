-- ===== src/Grpc.antt =====
-- packages/ipfs-grpc-client and packages/ipfs-grpc-server.
pub mod Add
pub mod Channel
