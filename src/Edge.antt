-- ===== src/Edge.antt =====
-- The edge node: edge/cache, edge/redirection_channel, edge/peer and edge/s3_boundary.
pub mod Channel
pub mod Cache
pub mod Peer
pub mod S3
pub mod Server
pub mod Utils
