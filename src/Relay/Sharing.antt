-- ===== src/Relay/Sharing.antt =====
-- Who sees a session: the browsers subscribed to it are those that its mapping lists.
use remote_ttys.Base.{
  ℕ, String, Bool, false, ◌&&◌, none, some, [], ◌∷◌, Map, get, set, delete, modify, map_values, has,
  has_key, has-add, has-remove, has-singleton, get-set, get-delete, get-modify, get-map_values, ◌≡◌,
  inl, inr, Option-cases, arith, ◌==◌, if◌then◌else◌,
}
use remote_ttys.Relay.{BrowserConnection, SessionMapping, Relay}
use remote_ttys.Relay.BrowserHub.{unsubscribe}
use remote_ttys.Relay.Router.Sessions.{set_activity}
use remote_ttys.Relay.Router.FromBrowser.{add_subscription}
use remote_ttys.Relay.Router.Disconnect.{leave}

abbrev pub subscribed_in : String → String → Map BrowserConnection → Bool
subscribed_in b s browsers = elim (get b browsers) [
  | none ↦ false
  | some c ↦ has s c.subscribed_sessions
]

abbrev pub member_in : String → String → Map SessionMapping → Bool
member_in b s sessions = elim (get s sessions) [ none ↦ false | some m ↦ has b m.browser_ids ]

abbrev pub subscribed : String → String → Relay → Bool
subscribed b s r = subscribed_in b s r.browsers

abbrev pub member : String → String → Relay → Bool
member b s r = member_in b s r.sessions

module _ (b s t : String) (m : Map BrowserConnection) where
  pub subscribed_in-unsubscribe :
      subscribed_in b s (map_values (unsubscribe t) m)
      ≡ (if t == s then false else subscribed_in b s m)
  unfolding unsubscribe
  subscribed_in-unsubscribe = elim (Option-cases (get b m)) [
    | inl e ↦ ground (arith, get-map_values b (unsubscribe t) m)
    | inr (c, e) ↦
        ground (arith, get-map_values b (unsubscribe t) m, has-remove t s c.subscribed_sessions)
  ]

  -- The browser `d` subscribes.
  pub subscribed_in-subscribe :
      (d : String)
      → subscribed_in b s (modify d (add_subscription t) m)
        ≡ (if d == b && t == s then has_key b m else subscribed_in b s m)
  unfolding has_key add_subscription
  subscribed_in-subscribe d = elim (Option-cases (get b m)) [
    | inl e ↦ ground (arith, get-modify d b (add_subscription t) m)
    | inr (c, e) ↦
        ground (arith, get-modify d b (add_subscription t) m, has-add t s c.subscribed_sessions)
  ]

  pub subscribed_in-delete :
      subscribed_in b s (delete t m) ≡ (if t == b then false else subscribed_in b s m)
  subscribed_in-delete = ground (arith, get-delete t b m)

  pub subscribed_in-set :
      (c : BrowserConnection)
      → c.subscribed_sessions ≡ []
      → subscribed_in b s (set t c m) ≡ (if t == b then false else subscribed_in b s m)
  unfolding has
  subscribed_in-set c new = ground (arith, get-set t b c m)

module _ (b s t : String) (m : Map SessionMapping) where
  pub member_in-delete : member_in b s (delete t m) ≡ (if t == s then false else member_in b s m)
  member_in-delete = ground (arith, get-delete t s m)

  pub member_in-set :
      (d : String) (v : SessionMapping)
      → v.browser_ids ≡ d ∷ []
      → member_in b s (set t v m) ≡ (if t == s then d == b else member_in b s m)
  member_in-set d v one = ground (arith, get-set t s v m, has-singleton d b)

  pub member_in-touch : (now : ℕ) → member_in b s (modify t (set_activity now) m) ≡ member_in b s m
  unfolding set_activity
  member_in-touch now = elim (Option-cases (get s m)) [
    | inl e ↦ ground (arith, get-modify t s (set_activity now) m)
    | inr (v, e) ↦ ground (arith, get-modify t s (set_activity now) m)
  ]

  pub member_in-leave :
      (d : String)
      → member_in b s (modify t (leave d) m) ≡ (if t == s && d == b then false else member_in b s m)
  unfolding leave
  member_in-leave d = elim (Option-cases (get s m)) [
    | inl e ↦ ground (arith, get-modify t s (leave d) m)
    | inr (v, e) ↦ ground (arith, get-modify t s (leave d) m, has-remove d b v.browser_ids)
  ]
