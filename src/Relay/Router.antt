-- ===== src/Relay/Router.antt =====
-- packages/relay/src/router.ts: the routing of messages between browsers and agents. Each function
-- takes the state of the relay and gives the state after it.
pub mod Validate
pub mod Sessions
pub mod FromAgent
pub mod FromBrowser
pub mod Disconnect
