-- ===== src/Relay/Tests.antt =====
-- packages/relay/src: a run of the relay, and instances of its theorems in the states it reaches.
use remote_ttys.Base.{
  ℕ, String, Bool, true, false, Option, none, some, List, [], ◌∷◌, Map, get, set, delete, modify,
  map_values, has, has_key, size, count_if, ◌≡◌, ◌≢◌, refl, eq_iff, ap, sym, ◌∙◌,
}
use remote_ttys.Protocol.{AgentMessage, BrowserMessage, RelayToBrowserMessage, Frame}
use remote_ttys.Db
use remote_ttys.Relay.{SessionMapping, BrowserConnection, Relay, Env, PreAuth, Output, to_browser}
use remote_ttys.Relay.Step.{agent_connects, agent_sends, browser_connects, browser_sends, step}
use remote_ttys.Relay.BrowserSocket.{UserInfo, connect_browser, browser_frame, browser_close}
use remote_ttys.Relay.AgentSocket.{connect_agent, agent_frame}
use mathlib.Core.List.{Memᴰ}
use remote_ttys.Relay.BrowserHub.{send_where}
use remote_ttys.Relay.Returns.{step-Returns}
use remote_ttys.Relay.Sharing.{member}
use remote_ttys.Relay.Router.FromAgent.{handle_agent_message}
use remote_ttys.Relay.Router.FromBrowser.{handle_browser_message}
use remote_ttys.Relay.Router.Disconnect.{handle_browser_disconnect}
use remote_ttys.Relay.Moves.{Moves}
use remote_ttys.Relay.Moves.Present.{handle_browser_disconnect-member}
use remote_ttys.Relay.Outputs.{Sends}
use remote_ttys.Relay.Isolation.FromAgent.{
  ToMember, handle_agent_message_foreign, handle_agent_message-Sends,
}
use remote_ttys.Relay.Isolation.FromBrowser.{
  MayCause, handle_browser_message_foreign, handle_browser_message-Sends,
}
use remote_ttys.Relay.Delivery.{pty_data-reaches}
use remote_ttys.Relay.Accounts.{SameAccounts}
use remote_ttys.Relay.Accounts.Events.{step-SameAccounts}
use remote_ttys.Relay.Reach.{boot, IsFresh, Reach, start, next, Inv, Reach-Inv}

abbrev token_row : Db.TokenRow
token_row = record {
  id = 1;
  token = "hash";
  label = "laptop";
  notes = "";
  enabled = 1;
  user_id = some 7;
  created_at = "t0";
}

abbrev agent_row : Db.AgentRow
agent_row = record {
  id = "a1";
  name = "box";
  os = "linux";
  token = "hash";
  fingerprint = some "fp";
  online = 0;
  last_seen = none;
  created_at = "t0";
}

abbrev db0 : Db.Db
db0 = record {
  users = [];
  agent_tokens = token_row ∷ [];
  agents = agent_row ∷ [];
  audit_log = [];
  next_user = 1;
  next_token = 2;
  next_audit = 1;
}

abbrev env : String → Env
env id = record {
  now = 100;
  datetime = "t1";
  is_open = λ _. true;
  uuid = id;
  smooth = λ raw old. raw;
}

abbrev user : UserInfo
user = record { username = "ann"; user_id = 7 }

abbrev auth : PreAuth
auth = record { token_hash = "hash"; challenge_signature = "sig"; label = some "laptop" }

abbrev hello : Frame AgentMessage
hello = record {
  size = 80;
  message = some (AgentMessage.hello (some "box") (some "linux") (some "fp") (some "key") none);
}

abbrev create : BrowserMessage
create = BrowserMessage.pty_create "a1" (some "/bin/sh") none "pub" none

abbrev with_browser : Relay
with_browser = connect_browser (env "b1") "w1" user (boot db0)

abbrev with_socket : Relay
with_socket = connect_agent "w2" auth with_browser

abbrev unwrapped : Option Relay → Relay
unwrapped none = boot db0
unwrapped (some r) = r

abbrev with_agent : Relay
with_agent = unwrapped (agent_frame (env "x") "w2" hello with_socket)

abbrev create_frame : Frame BrowserMessage
create_frame = record { size = 90; message = some create }

abbrev with_session : Relay
with_session = browser_frame (env "s1") "w1" "b1" create_frame with_agent

abbrev session : SessionMapping
session = record { agent_id = "a1"; browser_ids = "b1" ∷ []; created_at = 100; last_activity = 100 }

found : get "s1" with_session.sessions ≡ some session
unfolding get set modify count_if has_key remote_ttys.Relay.audit
    remote_ttys.Relay.AgentHub.get_agent remote_ttys.Relay.AgentHub.send_to_agent
    remote_ttys.Relay.AgentHub.add_agent_session remote_ttys.Relay.BrowserHub.get_browser_user_id
    remote_ttys.Relay.BrowserHub.broadcast_to_user_browsers
    remote_ttys.Relay.AgentSocket.connect_agent remote_ttys.Relay.AgentSocket.is_mismatch
    remote_ttys.Relay.AgentSocket.is_unrecorded remote_ttys.Relay.AgentSocket.new_connection
    remote_ttys.Relay.AgentSocket.close_old remote_ttys.Relay.AgentSocket.record_fingerprint
    remote_ttys.Relay.AgentSocket.register remote_ttys.Relay.AgentSocket.accept
    remote_ttys.Relay.AgentSocket.on_hello remote_ttys.Relay.AgentSocket.on_first
    remote_ttys.Relay.AgentSocket.dispatch remote_ttys.Relay.AgentSocket.agent_frame
    remote_ttys.Relay.BrowserSocket.connect_browser remote_ttys.Relay.BrowserSocket.on_message
    remote_ttys.Relay.BrowserSocket.browser_frame remote_ttys.Relay.Router.FromAgent.on_hello
    remote_ttys.Relay.Router.FromAgent.handle_agent_message
    remote_ttys.Relay.Router.FromBrowser.may_open
    remote_ttys.Relay.Router.FromBrowser.create_refusal
    remote_ttys.Relay.Router.FromBrowser.register_session
    remote_ttys.Relay.Router.FromBrowser.subscribe
    remote_ttys.Relay.Router.FromBrowser.create_session
    remote_ttys.Relay.Router.FromBrowser.on_pty_create
    remote_ttys.Relay.Router.FromBrowser.handle_browser_message
    remote_ttys.Relay.Router.Sessions.broadcast_to_owner
    remote_ttys.Relay.Router.Validate.is_bad_shell remote_ttys.Relay.Router.Validate.is_bad_cwd
    remote_ttys.Db.is_token_hash_owned_by_user remote_ttys.Db.find_agent_by_token_and_name
    remote_ttys.Db.upsert_agent remote_ttys.Db.upsert_row remote_ttys.Db.is_agent_owned_by_user
found = refl

abbrev page : BrowserConnection
page = record {
  id = "b1";
  ws = "w1";
  username = "ann";
  user_id = 7;
  subscribed_sessions = "s1" ∷ [];
}

page_there : get "b1" with_session.browsers ≡ some page
unfolding get has remote_ttys.Base.add remote_ttys.Relay.Router.FromBrowser.add_subscription set
    modify count_if has_key remote_ttys.Relay.audit remote_ttys.Relay.AgentHub.get_agent
    remote_ttys.Relay.AgentHub.send_to_agent remote_ttys.Relay.AgentHub.add_agent_session
    remote_ttys.Relay.BrowserHub.get_browser_user_id
    remote_ttys.Relay.BrowserHub.broadcast_to_user_browsers
    remote_ttys.Relay.AgentSocket.connect_agent remote_ttys.Relay.AgentSocket.is_mismatch
    remote_ttys.Relay.AgentSocket.is_unrecorded remote_ttys.Relay.AgentSocket.new_connection
    remote_ttys.Relay.AgentSocket.close_old remote_ttys.Relay.AgentSocket.record_fingerprint
    remote_ttys.Relay.AgentSocket.register remote_ttys.Relay.AgentSocket.accept
    remote_ttys.Relay.AgentSocket.on_hello remote_ttys.Relay.AgentSocket.on_first
    remote_ttys.Relay.AgentSocket.dispatch remote_ttys.Relay.AgentSocket.agent_frame
    remote_ttys.Relay.BrowserSocket.connect_browser remote_ttys.Relay.BrowserSocket.on_message
    remote_ttys.Relay.BrowserSocket.browser_frame remote_ttys.Relay.Router.FromAgent.on_hello
    remote_ttys.Relay.Router.FromAgent.handle_agent_message
    remote_ttys.Relay.Router.FromBrowser.may_open
    remote_ttys.Relay.Router.FromBrowser.create_refusal
    remote_ttys.Relay.Router.FromBrowser.register_session
    remote_ttys.Relay.Router.FromBrowser.subscribe
    remote_ttys.Relay.Router.FromBrowser.create_session
    remote_ttys.Relay.Router.FromBrowser.on_pty_create
    remote_ttys.Relay.Router.FromBrowser.handle_browser_message
    remote_ttys.Relay.Router.Sessions.broadcast_to_owner
    remote_ttys.Relay.Router.Validate.is_bad_shell remote_ttys.Relay.Router.Validate.is_bad_cwd
    remote_ttys.Db.is_token_hash_owned_by_user remote_ttys.Db.find_agent_by_token_and_name
    remote_ttys.Db.upsert_agent remote_ttys.Db.upsert_row remote_ttys.Db.is_agent_owned_by_user
page_there = refl

agent_of : Option SessionMapping → String
agent_of none = ""
agent_of (some m) = m.agent_id

browsers_of : Option SessionMapping → List String
browsers_of none = []
browsers_of (some m) = m.browser_ids

a1-agent : (m : SessionMapping) → get "s1" with_session.sessions ≡ some m → "a1" ≡ m.agent_id
unfolding agent_of
a1-agent m there = ap agent_of (sym found ∙ there)

b1-browsers :
    (m : SessionMapping) → get "s1" with_session.sessions ≡ some m → "b1" ∷ [] ≡ m.browser_ids
unfolding browsers_of
b1-browsers m there = ap browsers_of (sym found ∙ there)

first-IsFresh : IsFresh (env "b1") (boot db0)
unfolding has_key
first-IsFresh = record { no_session = refl; no_browser = refl; no_member = λ s. refl }

second-IsFresh : IsFresh (env "x") with_browser
unfolding get set remote_ttys.Relay.BrowserSocket.connect_browser
second-IsFresh = record { no_session = refl; no_browser = refl; no_member = λ s. refl }

third-IsFresh : IsFresh (env "x") with_socket
unfolding get set remote_ttys.Relay.BrowserHub.send_to_browser
    remote_ttys.Relay.AgentSocket.connect_agent remote_ttys.Relay.BrowserSocket.connect_browser
third-IsFresh = record { no_session = refl; no_browser = refl; no_member = λ s. refl }

last-IsFresh : IsFresh (env "s1") with_agent
unfolding get set remote_ttys.Relay.audit remote_ttys.Relay.AgentHub.get_agent
    remote_ttys.Relay.BrowserHub.send_to_browser
    remote_ttys.Relay.BrowserHub.broadcast_to_user_browsers
    remote_ttys.Relay.AgentSocket.connect_agent remote_ttys.Relay.AgentSocket.is_mismatch
    remote_ttys.Relay.AgentSocket.is_unrecorded remote_ttys.Relay.AgentSocket.new_connection
    remote_ttys.Relay.AgentSocket.close_old remote_ttys.Relay.AgentSocket.record_fingerprint
    remote_ttys.Relay.AgentSocket.register remote_ttys.Relay.AgentSocket.accept
    remote_ttys.Relay.AgentSocket.on_hello remote_ttys.Relay.AgentSocket.on_first
    remote_ttys.Relay.AgentSocket.dispatch remote_ttys.Relay.AgentSocket.agent_frame
    remote_ttys.Relay.BrowserSocket.connect_browser remote_ttys.Relay.Router.FromAgent.on_hello
    remote_ttys.Relay.Router.FromAgent.handle_agent_message
    remote_ttys.Relay.Router.Sessions.broadcast_to_owner remote_ttys.Db.is_token_hash_owned_by_user
    remote_ttys.Db.find_agent_by_token_and_name remote_ttys.Db.upsert_agent
    remote_ttys.Db.upsert_row
last-IsFresh = record { no_session = refl; no_browser = refl; no_member = λ s. refl }

hello-step : step (env "x") (agent_sends "w2" hello) with_socket ≡ some with_agent
unfolding step get set remote_ttys.Relay.BrowserHub.send_to_browser
    remote_ttys.Relay.AgentSocket.connect_agent remote_ttys.Relay.AgentSocket.is_mismatch
    remote_ttys.Relay.AgentSocket.accept remote_ttys.Relay.AgentSocket.on_hello
    remote_ttys.Relay.AgentSocket.on_first remote_ttys.Relay.AgentSocket.dispatch
    remote_ttys.Relay.AgentSocket.agent_frame remote_ttys.Relay.BrowserSocket.connect_browser
    remote_ttys.Db.find_agent_by_token_and_name remote_ttys.Db.upsert_agent
    remote_ttys.Db.upsert_row
hello-step = refl

create-step : step (env "s1") (browser_sends "w1" "b1" create_frame) with_agent ≡ some with_session
unfolding step
create-step = refl

agent_there : Reach db0 with_agent
unfolding step
agent_there =
    next
      (next (next start (env "b1") (browser_connects "w1" user) first-IsFresh refl) (env "x")
        (agent_connects "w2" auth) second-IsFresh refl)
      (env "x") (agent_sends "w2" hello) third-IsFresh hello-step

session_there : Reach db0 with_session
session_there =
    next agent_there (env "s1") (browser_sends "w1" "b1" create_frame) last-IsFresh create-step

Reach-Inv_example : Inv with_session
Reach-Inv_example = Reach-Inv session_there

abbrev output : AgentMessage
output = AgentMessage.pty_data "s1" "bytes"

handle_agent_message-Sends_example :
    Sends
      (ToMember "a1" "s1" with_session)
      with_session
      (handle_agent_message (env "x") "a1" output with_session)
handle_agent_message-Sends_example =
    handle_agent_message-Sends (env "x") "a1" "s1" with_session output (Reach-Inv session_there)
      refl

abbrev owner : String
owner = "a1"

abbrev stranger : String
stranger = "a2"

handle_agent_message_foreign_example :
    handle_agent_message (env "x") "a2" output with_session ≡ with_session
handle_agent_message_foreign_example =
    handle_agent_message_foreign (env "x") "a2" "s1" with_session output refl
      (λ m there same. a1_not_a2 (a1-agent m there ∙ same))
  where
    a1_not_a2 : owner ≢ stranger
    a1_not_a2 same = absurd (let it : false ≡ true = (eq_iff owner stranger).1 same in cc)

pty_data-reaches_example :
    Memᴰ
      (to_browser "w1" (RelayToBrowserMessage.pty_data "a1" "s1" "bytes"))
      (handle_agent_message (env "x") "a1" output with_session).out
unfolding has
pty_data-reaches_example =
    pty_data-reaches (env "x") "a1" "s1" with_session (Reach-Inv session_there) session found
      "bytes" "b1" page refl refl page_there refl

abbrev input : BrowserMessage
input = BrowserMessage.pty_data "a1" "s1" "keys"

handle_browser_message-Sends_example :
    Sends
      (MayCause "b1" with_session)
      with_session
      (handle_browser_message (env "x") "b1" input with_session)
handle_browser_message-Sends_example =
    handle_browser_message-Sends (env "x") "b1" with_session input

handle_browser_message_foreign_example :
    handle_browser_message (env "x") "b2" input with_session ≡ with_session
unfolding remote_ttys.Base.has
handle_browser_message_foreign_example =
    handle_browser_message_foreign (env "x") "b2" with_session "a1" "s1" input refl
      (λ m there on_a1. ap (has "b2") (sym (b1-browsers m there)))

handle_browser_disconnect-member_example :
    member "b1" "s1" (handle_browser_disconnect (env "x") "b1" with_session) ≡ false
handle_browser_disconnect-member_example =
    handle_browser_disconnect-member (env "x") "b1" "s1" with_session

step-Returns_example : (r : Relay) × (step (env "x") (agent_sends "w2" hello) with_socket ≡ some r)
unfolding remote_ttys.Relay.BrowserHub.send_to_browser remote_ttys.Relay.AgentSocket.connect_agent
    remote_ttys.Relay.BrowserSocket.connect_browser remote_ttys.Relay.Returns.has_named_message
    remote_ttys.Relay.Returns.is_named
step-Returns_example = step-Returns (env "x") (agent_sends "w2" hello) with_socket refl refl

step-SameAccounts_example : SameAccounts with_agent.db with_session.db
step-SameAccounts_example =
    step-SameAccounts (env "s1") (browser_sends "w1" "b1" create_frame) with_agent with_session
      create-step
