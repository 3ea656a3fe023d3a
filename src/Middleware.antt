-- ===== src/Middleware.antt =====
-- internal/transport/http/middleware: the limits on requests.
pub mod RateLimit
