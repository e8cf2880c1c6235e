-- ===== src/Lib.antt =====
-- RemoteTTYs: remote terminals in a browser. An agent on a machine runs the shells, the relay
-- passes messages between agents and browsers over WebSockets and decides who may reach whom, and
-- the web client encrypts its keystrokes to the agent. The library models the relay's session
-- logic, its HTTP server, and the protocol logic of the web client.
--
-- The relay (packages/relay/src):
--   Protocol              protocol.ts: the messages, as data types.
--   Db                    db.ts: the tables as lists of rows, the statements as functions.
--   Relay                 the state: the tables of agentHub.ts, browserHub.ts and router.ts, the
--                         database, the calls of send and close so far; what is read from outside.
--   Relay/AgentHub        agentHub.ts: getAgent, sendToAgent, disconnectAgentsByToken, sessions.
--   Relay/BrowserHub      browserHub.ts: getBrowser, sendToBrowser, the broadcasts, unsubscribing.
--   Relay/AgentSocket     agentHub.ts: handleAgentConnection and its callbacks, startPingLoop.
--   Relay/BrowserSocket   browserHub.ts: handleBrowserConnection and its callbacks.
--   Relay/Router          router.ts: Validate (shell, directory, size), Sessions (destroySession,
--                         the sweep, the limits), FromAgent (handleAgentMessage), FromBrowser
--                         (handleBrowserMessage), Disconnect (the disconnects, latency).
--   Relay/Step            the event loop: one function of the environment, an event and a state.
--   Relay/Fields, Sharing lemmas: which tables a call leaves alone; subscriptions and mappings.
--   Relay/Moves, Reach    the session machine, the moves of each callback, the invariant.
--   Relay/Outputs, Isolation, Delivery   what is sent, to whom, and that it gets there.
--   Relay/Returns         that events return.
--   Db/AuditQuery         db.ts: queryAuditLogs.
--   Auth                  auth.ts: agents' tokens, logins, web tokens; Auth/Revocation: what ends them.
--   ServerKey             serverKey.ts: the key in memory and on disk; ServerKey/Restart.
--   Server                index.ts: Cookies (parseCookie), Requests (the data), Guards (middleware),
--                         Accounts, Agents, Tokens, AuditPage (the handlers), Routes (the routes in
--                         their order), Upgrade (WebSockets), System (the whole process: requests,
--                         upgrades, callbacks and timers over one state).
--   Server/Gates, Middleware, Tables, Admins, Closing   lemmas on requests: what is refused, which
--                         tables are left alone, that an admin stays, which sockets are closed.
--   Server/Revoking, Privacy, Crash, System/Invariant   theorems on requests and on the process.
--   Db/Administered       the users as a whole; Relay/Accounts what callbacks leave alone.
--   RateLimit             rateLimit.ts: RateLimitStore with its timer, the key of a request.
-- The web client (packages/web/src/lib, components, hooks):
--   Osc                   parseOsc9_4.ts: the parser of progress sequences.
--   E2e                   e2e.ts: nonces, encrypt and decrypt, the signed and authenticated texts.
--   KnownAgents           knownAgents.ts: trust on first use.
--   Terminal              TerminalView.tsx: the end-to-end session, the queues of sealed messages
--                         (Terminal), the upload of an image (Upload), its chunks, delivery, the
--                         key exchange (KeyExchange), mouse sequences (Mouse).
--   Tabs                  TerminalTabs.tsx: tabs, panes, the key pairs of sessions; the two panes
--                         (Panes, Splits), what is shown (Shown).
--   AgentStore            hooks/useAgentStore.ts: the agents of the page, the one selected.
--   Progress              hooks/useProgressBar.ts: the progress shown and its timer.
--   AuditTime             audit.ts: parseServerDate, relativeTime.
-- Base holds the shared names: maps keyed by texts, sets, tests, integers. Every component with
-- theorems has a module Tests with concrete instances.
--
-- Correspondence. A `Map` keeps the insertion order of a JavaScript Map; a loop over one runs over
-- its entries at the start of the loop. A callback runs to its end before the next, so the process
-- is a sequence of steps; a function of the pages that waits between its load and its save, as the
-- closing of a tab and the check of an agent's identity, is two steps. The clock, the state of
-- each socket, random uuids, datetime('now'), the smoothing of the latency, SHA-256, AES-GCM,
-- base64, the check of signatures and the derivation of keys, bcrypt, the library for web tokens,
-- SQLite's LIKE, `Date`'s parser and the UTF-8 encoder are parameters; a uuid is assumed to be in
-- no use where a theorem says so. A field of a message or a body has the type of its interface or
-- is absent; a user name may also be an array with one text. `none` as a result of a step is an
-- exception.
--
-- Bounds and fuel. The limits are the constants of the code (500 sessions, 20 of an agent, 5 of a
-- browser, 100 browsers, 50000 keys). `Osc.scan` runs on fuel, the number of bytes; each round
-- drops a byte at least. `show_ℕ` runs on fuel that exceeds the number of digits.
--
-- Not modelled: the Go and Swift agents, the markup, the effects and the requests of the React
-- components, the creation and migration of the tables, the configuration file, static files and
-- headers, JSON and the sockets themselves.
pub mod Base
pub mod Auth
pub mod AuditTime
pub mod Protocol
pub mod Db
pub mod Relay
pub mod RateLimit
pub mod ServerKey
pub mod Server
pub mod Terminal
pub mod Tabs
pub mod AgentStore
pub mod Progress
pub mod Osc
pub mod E2e
pub mod KnownAgents
