-- ===== src/Http.antt =====
-- The HTTP server: src/http_server.rs, src/http_server_api.rs and src/http_jwt.rs.
pub mod Path
pub mod Login
pub mod Token
pub mod Api
pub mod Lists
