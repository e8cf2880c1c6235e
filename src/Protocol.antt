-- ===== src/Protocol.antt =====
-- packages/relay/src/protocol.ts: the messages between browsers, the relay and agents.
-- A message is what `JSON.parse` gives for a text frame. A field that the code tests for absence,
-- or that the database requires, is an `Option`; where a field is there it has the type that the
-- interface declares. `other` is a message whose
-- type no handler names.
use remote_ttys.Base.{ℕ, String, Option, List}
use remote_ttys.Base.Ints.{ℤ}

-- Agent → Relay.
pub data AgentMessage : Type 0 where
  hello :
      (name os : Option String) (fingerprint identity_key : Option String)
      (capabilities : Option (List String))
      → AgentMessage
  heartbeat : AgentMessage
  pong : (id : String) (timestamp : ℤ) → AgentMessage
  pty_created :
      (session_id public_key signature : String) (client_req_id : Option String) → AgentMessage
  pty_data : (session_id payload : String) → AgentMessage
  pty_exited : (session_id : String) (exit_code : ℤ) → AgentMessage
  pty_replay : (session_id payload : String) → AgentMessage
  pty_error : (session_id error : String) (client_req_id : Option String) → AgentMessage
  file_transfer_ack : (session_id transfer_id payload : String) → AgentMessage
  file_transfer_progress : (session_id transfer_id payload : String) → AgentMessage
  file_transfer_complete : (session_id transfer_id payload : String) → AgentMessage
  other : (type : String) → AgentMessage

-- Relay → Agent.
pub data RelayToAgentMessage : Type 0 where
  challenge : (signature : String) → RelayToAgentMessage
  ping : (id : String) (timestamp : ℕ) → RelayToAgentMessage
  pty_create :
      (session_id shell cwd public_key : String) (client_req_id : Option String)
      → RelayToAgentMessage
  pty_data : (session_id payload : String) → RelayToAgentMessage
  pty_resize : (session_id : String) (cols rows : ℤ) (hmac : Option String) → RelayToAgentMessage
  pty_close : (session_id : String) (hmac : Option String) → RelayToAgentMessage
  pty_replay_request : (session_id : String) → RelayToAgentMessage
  file_transfer_start : (session_id transfer_id payload : String) → RelayToAgentMessage
  file_transfer_chunk :
      (session_id transfer_id : String) (chunk_index : ℤ) (payload : String) → RelayToAgentMessage
  file_transfer_end : (session_id transfer_id payload : String) → RelayToAgentMessage

-- Browser → Relay.
pub data BrowserMessage : Type 0 where
  ping : (timestamp : ℤ) → BrowserMessage
  pty_create :
      (agent_id : String) (shell cwd : Option String) (public_key : String)
      (client_req_id : Option String)
      → BrowserMessage
  pty_data : (agent_id session_id payload : String) → BrowserMessage
  pty_resize :
      (agent_id session_id : String) (cols rows : ℤ) (hmac : Option String) → BrowserMessage
  pty_close : (agent_id session_id : String) (hmac : Option String) → BrowserMessage
  pty_replay_request : (agent_id session_id : String) → BrowserMessage
  file_transfer_start : (agent_id session_id transfer_id payload : String) → BrowserMessage
  file_transfer_chunk :
      (agent_id session_id transfer_id : String) (chunk_index : ℤ) (payload : String)
      → BrowserMessage
  file_transfer_end : (agent_id session_id transfer_id payload : String) → BrowserMessage
  other : (type : String) → BrowserMessage

-- Relay → Browser.
pub data RelayToBrowserMessage : Type 0 where
  pong : (timestamp : ℤ) → RelayToBrowserMessage
  agent_online :
      (agent_id : String) (name os : Option String) (identity_key : String)
      (capabilities : Option (List String))
      → RelayToBrowserMessage
  agent_offline : (agent_id : String) → RelayToBrowserMessage
  agent_latency : (agent_id : String) (latency_ms : Option ℤ) → RelayToBrowserMessage
  pty_created :
      (agent_id session_id public_key signature : String) (client_req_id : Option String)
      → RelayToBrowserMessage
  pty_create_error :
      (agent_id error : String) (client_req_id : Option String) → RelayToBrowserMessage
  pty_data : (agent_id session_id payload : String) → RelayToBrowserMessage
  pty_exited : (agent_id session_id : String) (exit_code : ℤ) → RelayToBrowserMessage
  pty_replay : (agent_id session_id payload : String) → RelayToBrowserMessage
  pty_error : (agent_id session_id error : String) → RelayToBrowserMessage
  file_transfer_ack : (agent_id session_id transfer_id payload : String) → RelayToBrowserMessage
  file_transfer_progress :
      (agent_id session_id transfer_id payload : String) → RelayToBrowserMessage
  file_transfer_complete :
      (agent_id session_id transfer_id payload : String) → RelayToBrowserMessage

-- A text frame of a socket: its length, and what `parseMessage` makes of it (`none` where that
-- throws: no JSON, or no `type`).
pub record Frame (M : Type 0) : Type 0 where
  pub size : ℕ
  pub message : Option M
