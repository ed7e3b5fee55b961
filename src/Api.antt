-- ===== src/Api.antt =====
-- internal/api: the handlers, their routes, and the check of the admin token.
pub mod Http
pub mod Server
pub mod Submit
pub mod Keys
pub mod Settings
pub mod Router
