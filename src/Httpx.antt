-- ===== src/Httpx.antt =====
-- internal/httpx/middleware.go.
pub mod Reply
pub mod Origins
pub mod RateLimiter
pub mod RequestId
