-- ===== src/Security.antt =====
-- apps/server/src/security: the admission of requests.
pub mod TokenBucket
pub mod PeerRateLimiter
