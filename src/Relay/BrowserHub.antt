-- ===== src/Relay/BrowserHub.antt =====
-- packages/relay/src/browserHub.ts: the table of browser connections and what is sent to them.
use remote_ttys.Base.{
  ℕ, String, Bool, ◌&&◌, Option, none, some, List, [], ◌∷◌, Map, get, map_values, has, remove, eqb,
  if◌then◌else◌,
}
use remote_ttys.Protocol.{RelayToBrowserMessage}
use remote_ttys.Relay.{BrowserConnection, Output, to_browser, close, Relay, Env, emit}

unfoldable pub get_browser : String → Relay → Option BrowserConnection
get_browser b r = get b r.browsers

unfoldable pub get_browser_user_id : String → Relay → Option ℕ
get_browser_user_id b r = elim (get b r.browsers) [ none ↦ none | some conn ↦ some conn.user_id ]

-- `for (const browser of browsers.values()) if (test) browser.ws.send(payload)`.
unfoldable pub send_where :
    (BrowserConnection → Bool)
    → RelayToBrowserMessage
    → Map BrowserConnection
    → List Output
    → List Output
send_where p msg [] out = out
send_where p msg ((k, b) ∷ rest) out =
    send_where p msg rest (if p b then to_browser b.ws msg ∷ out else out)

module _ (e : Env) where
  unfoldable pub send_to_browser : String → RelayToBrowserMessage → Relay → Relay
  unfolding emit
  send_to_browser b msg r = elim (get b r.browsers) [
    | none ↦ r
    | some conn ↦ if e.is_open conn.ws then emit (to_browser conn.ws msg) r else r
  ]

  unfoldable pub broadcast_to_user_browsers : ℕ → RelayToBrowserMessage → Relay → Relay
  unfolding send_where
  broadcast_to_user_browsers user msg r = record r {
    out =
        send_where (λ (b : BrowserConnection). eqb b.user_id user && e.is_open b.ws) msg r.browsers
          r.out;
  }

  unfoldable pub send_to_session_subscribers : String → RelayToBrowserMessage → Relay → Relay
  unfolding send_where
  send_to_session_subscribers s msg r = record r {
    out =
        send_where (λ (b : BrowserConnection). has s b.subscribed_sessions && e.is_open b.ws) msg
          r.browsers r.out;
  }

unfoldable pub unsubscribe : String → BrowserConnection → BrowserConnection
unsubscribe s b = record b { subscribed_sessions = remove s b.subscribed_sessions }

unfoldable pub unsubscribe_all_from_session : String → Relay → Relay
unsubscribe_all_from_session s r = record r { browsers = map_values (unsubscribe s) r.browsers }

-- `ws.close(4002, 'User deleted')` for each connection of a user.
unfoldable pub close_where :
    (BrowserConnection → Bool) → Map BrowserConnection → List Output → List Output
close_where p [] out = out
close_where p ((k, b) ∷ rest) out =
    close_where p rest (if p b then close b.ws (some 4002) ∷ out else out)

unfoldable pub disconnect_browsers_by_user_id : ℕ → Relay → Relay
unfolding close_where
disconnect_browsers_by_user_id user r = record r {
  out = close_where (λ (b : BrowserConnection). eqb b.user_id user) r.browsers r.out;
}
