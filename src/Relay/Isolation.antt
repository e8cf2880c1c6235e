-- ===== src/Relay/Isolation.antt =====
-- Who is sent what: an agent's message goes to the browsers of its own session only, a browser's
-- message to the agent of a session that the browser is in.
pub mod FromAgent
pub mod FromBrowser
