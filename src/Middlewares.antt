-- ===== src/Middlewares.antt =====
-- The handlers of middlewares/ and the lists of list/.
pub mod Documents
pub mod Lists
pub mod Bucket
pub mod UserRequest
pub mod BasicAuth
pub mod Compress
pub mod Referrer
pub mod Scheme
pub mod FileServer
pub mod Storage
pub mod Caching
pub mod UserSessions
pub mod Users
mod Tests
