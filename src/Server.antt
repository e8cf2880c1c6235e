-- ===== src/Server.antt =====
-- packages/relay/src/index.ts: the HTTP server around the relay. The WebSocket upgrade and the routes
-- of the REST interface, with their middleware.
pub mod Cookies
pub mod Requests
pub mod Guards
pub mod Accounts
pub mod Agents
pub mod Tokens
pub mod AuditPage
pub mod Routes
pub mod Upgrade
pub mod Gates
pub mod Middleware
pub mod Tables
pub mod Admins
pub mod System
pub mod Closing
pub mod Revoking
pub mod Privacy
pub mod Crash
pub mod Tests
