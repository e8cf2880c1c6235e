-- ===== src/Relay/BrowserSocket.antt =====
-- packages/relay/src/browserHub.ts, `handleBrowserConnection`: the life of a browser's socket.
use remote_ttys.Base.{ℕ, ◌*◌, String, none, some, [], set, delete, size, ltb, leb, if◌then◌else◌}
use remote_ttys.Protocol.{BrowserMessage, RelayToBrowserMessage, Frame}
use remote_ttys.Relay.{Socket, to_browser, close, Relay, Env, emit}
use remote_ttys.Relay.Router.FromBrowser.{handle_browser_message}
use remote_ttys.Relay.Router.Disconnect.{handle_browser_disconnect}

abbrev pub max_browser_msg_size : ℕ
max_browser_msg_size = 64 * 1024

abbrev pub max_browser_connections : ℕ
max_browser_connections = 100

pub record UserInfo : Type 0 where
  pub username : String
  pub user_id : ℕ

-- The browser's id is the fresh uuid.
unfoldable pub connect_browser : Env → Socket → UserInfo → Relay → Relay
connect_browser e ws user r =
    if leb max_browser_connections (size r.browsers)
    then emit (close ws (some 1013)) r
    else record r {
      browsers =
          set e.uuid
            (record {
              id = e.uuid;
              ws = ws;
              username = user.username;
              user_id = user.user_id;
              subscribed_sessions = [];
            })
            r.browsers;
    }

unfoldable pub on_message : Env → Socket → String → BrowserMessage → Relay → Relay
on_message e ws b (BrowserMessage.ping timestamp) r =
    emit (to_browser ws (RelayToBrowserMessage.pong timestamp)) r
on_message e ws b msg r = handle_browser_message e b msg r

-- The callback of `message` of the socket `ws`, whose browser got the id `b`.
unfoldable pub browser_frame : Env → Socket → String → Frame BrowserMessage → Relay → Relay
browser_frame e ws b frame r =
    if ltb max_browser_msg_size frame.size
    then emit (close ws (some 1009)) r
    else elim frame.message [ none ↦ r | some msg ↦ on_message e ws b msg r ]

-- The callback of `close`.
unfoldable pub browser_close : Env → String → Relay → Relay
browser_close e b r = handle_browser_disconnect e b (record r { browsers = delete b r.browsers })
