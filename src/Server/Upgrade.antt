-- ===== src/Server/Upgrade.antt =====
-- packages/relay/src/index.ts: the requests that ask for a WebSocket. `none` is an exception, which
-- nothing catches here: the process ends. An `Upgrade` is
-- the request by the path that `new URL` parses, `bad_url` where that throws; a text is absent where
-- the header is.
use remote_ttys.Base.{
  ℕ, String, Bool, true, false, not, Option, none, some, List, ◌==◌, if◌then◌else◌,
}
use remote_ttys.Base.Texts.{truthy}
use remote_ttys.Auth.{AgentToken, VerifiedUser, verify_agent_token, verify_jwt}
use remote_ttys.ServerKey.{sign_challenge}
use remote_ttys.Relay.{PreAuth, Socket, audit}
use remote_ttys.Relay.AgentSocket.{connect_agent}
use remote_ttys.Relay.BrowserSocket.{UserInfo, connect_browser}
use remote_ttys.Server.Requests.{Services, WebEnv, Server, seconds}
use remote_ttys.Server.Guards.{absent, broken, value, parse_cookie, session_cookie}
use remote_ttys.Server.Accounts.{set_relay}

pub data Upgrade : Type 0 where
  bad_url : Upgrade
  to_agent_hub : (token : Option String) → Upgrade
  to_browser_hub : (origin host : Option String) (cookie : Option (List ℕ)) → Upgrade
  elsewhere : Upgrade

-- A refusal writes its status, but for a path that is not served; both destroy the socket.
pub data UpgradeAnswer : Type 0 where
  refused : (status : Option ℕ) → UpgradeAnswer
  upgraded : UpgradeAnswer

module _ (v : Services) (e : WebEnv) (ws : Socket) where
  open v use {jwt, secret, read_token, hash_token, host_of, key_crypto}

  unfoldable pub upgrade_agent : String → AgentToken → Server → Option (UpgradeAnswer × Server)
  upgrade_agent token found s = elim (sign_challenge key_crypto token s.key) [
    | none ↦ none
    | some signature ↦
        let auth : PreAuth = record {
          token_hash = found.hash;
          challenge_signature = signature;
          label = some found.label;
        } in
        some (upgraded, set_relay (connect_agent ws auth s.relay) s)
  ]

  unfoldable pub ask_agent_hub : Option String → Server → Option (UpgradeAnswer × Server)
  ask_agent_hub token s = elim (truthy token) [
    | none ↦ some (refused (some 401), s)
    | some text ↦ elim (verify_agent_token hash_token text s.relay.db) [
      | none ↦
          let r = audit e.env "agent_reject" none "reason=invalid token (HTTP)" s.relay in
          some (refused (some 401), set_relay r s)
      | some found ↦ upgrade_agent text found s
    ]
  ]

  -- An absent or empty origin passes.
  unfoldable pub is_foreign : Option String → Option String → Bool
  is_foreign origin host = elim (truthy origin) [
    | none ↦ false
    | some text ↦ elim (host_of text) [
      | none ↦ true
      | some from ↦ elim host [ none ↦ true | some h ↦ not (from == h) ]
    ]
  ]

  unfoldable pub admit_browser : Option VerifiedUser → Server → UpgradeAnswer × Server
  admit_browser none s = (refused (some 401), s)
  admit_browser (some user) s =
      let info : UserInfo = record { username = user.username; user_id = user.user_id } in
      (upgraded, set_relay (connect_browser e.env ws info s.relay) s)

  unfoldable pub ask_browser_hub :
      Option String → Option String → Option (List ℕ) → Server → Option (UpgradeAnswer × Server)
  ask_browser_hub origin host cookie s =
      if is_foreign origin host
      then some (refused (some 403), s)
      else elim (parse_cookie v session_cookie cookie) [
        | broken ↦ none
        | absent ↦ some (admit_browser none s)
        | value token ↦
            if token == ""
            then some (admit_browser none s)
            else some
                (admit_browser (verify_jwt jwt secret (seconds e) (read_token token) s.relay.db) s)
      ]

  unfoldable pub on_upgrade : Upgrade → Server → Option (UpgradeAnswer × Server)
  on_upgrade bad_url s = none
  on_upgrade (to_agent_hub token) s = ask_agent_hub token s
  on_upgrade (to_browser_hub origin host cookie) s = ask_browser_hub origin host cookie s
  on_upgrade elsewhere s = some (refused none, s)
