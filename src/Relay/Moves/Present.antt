-- ===== src/Relay/Moves/Present.antt =====
-- Every move keeps the browsers of a session connected, and a browser that leaves is in none.
use remote_ttys.Base.{
  String, Bool, true, false, none, [], ◌∷◌, Map, get, modify, has_key, remove, get-set, get-delete,
  get-modify, get-map_values, ◌≡◌, refl, inl, inr, Bool-cases, arith, ◌==◌, eq_refl, eq_iff,
}
use remote_ttys.Base.Texts.{◌<>◌}
use remote_ttys.Relay.{SessionMapping, Relay, Env}
use remote_ttys.Relay.BrowserHub.{unsubscribe}
use remote_ttys.Relay.Sharing.{
  member, member_in-delete, member_in-set, member_in-touch, member_in-leave,
}
use remote_ttys.Relay.Router.Sessions.{destroy_session}
use remote_ttys.Relay.Router.FromBrowser.{add_subscription}
use remote_ttys.Relay.Router.Disconnect.{
  leave, leave_session, leave_from, is_empty, handle_browser_disconnect,
}
use remote_ttys.Relay.Moves.{
  Move, Moves, done, step, same, touched, closed, resubscribed, opened, joined, left, forget,
}
use remote_ttys.Relay.Moves.Sessions.{sessions-destroy_session}

-- The browsers of a session are connected, but for those that are exempt.
abbrev pub PresentBut : (String → Bool) → Relay → Type 0
PresentBut exempt r =
    (b s : String) → member b s r ≡ true → exempt b ≡ false → has_key b r.browsers ≡ true

abbrev pub Present : Relay → Type 0
Present r = PresentBut (λ _. false) r

module _ (x : String → Bool) {r r' : Relay} (h : PresentBut x r) (b s : String)
    (inside : member b s r' ≡ true) (bound : x b ≡ false) where
  Move-present : Move r r' → has_key b r'.browsers ≡ true
  unfolding has_key
  Move-present (same k) = ground (arith, h b s)
  Move-present (touched t now p q) = ground (arith, h b s, member_in-touch b s t r.sessions now)
  Move-present (closed t p q) =
      ground (
        arith,
        h b s,
        member_in-delete b s t r.sessions,
        get-map_values b (unsubscribe t) r.browsers,
      )
  Move-present (resubscribed d t m p q) =
      ground (arith, h b s, get-modify d b (add_subscription t) r.browsers)
  Move-present (opened d a t o) = ground (
    arith,
    h b s,
    o.entered,
    o.subscribed,
    o.connected,
    eq_iff d b,
    member_in-set b s t r.sessions d o.mapping o.of_browser,
    get-modify d b (add_subscription t) r.browsers,
  )
  Move-present (joined d c new fresh unknown room p q) =
      ground (arith, h b s, get-set d b c r.browsers)
  Move-present (left d t gone p q) = ground (arith, h b s, member_in-leave b s t r.sessions d)

pub Moves-PresentBut :
    (x : String → Bool) {r r' : Relay} → Moves r r' → PresentBut x r → PresentBut x r'
Moves-PresentBut x done h b s inside bound = h b s inside bound
Moves-PresentBut x {r} (step k m) h b s inside bound =
    Move-present x (Moves-PresentBut x k h) b s inside bound m

pub forget-PresentBut : (d : String) (r : Relay) → Present r → PresentBut (λ b. d == b) (forget d r)
unfolding forget has_key
forget-PresentBut d r h b s inside other = ground (arith, h b s, get-delete d b r.browsers)

-- The loop of a disconnect takes the browser out of every entry that it visits.
leave_from-member :
    (e : Env) (b s : String) (entries : Map SessionMapping) (r : Relay)
    → member b s (leave_from e b entries r) ≡ true
    → (member b s r ≡ true) × (get s entries ≡ none)
unfolding leave_from leave_session get
leave_from-member e b s [] r inside = (inside, refl)
leave_from-member e b s ((t, m) ∷ rest) r inside =
    elim (Bool-cases (is_empty (remove b m.browser_ids))) [
      | inl orphan ↦ ground (
        arith,
        leave_from-member e b s rest (
            destroy_session e t m.agent_id ("sessionId=" <> t <> ", reason=browser_disconnect") true
              (leave_session b t r)),
        sessions-destroy_session e t m.agent_id ("sessionId=" <> t <> ", reason=browser_disconnect")
            true (leave_session b t r),
        member_in-delete b s t (modify t (leave b) r.sessions),
        member_in-leave b s t r.sessions b,
        eq_refl b,
      )
      | inr kept ↦ ground (
        arith,
        leave_from-member e b s rest (leave_session b t r),
        member_in-leave b s t r.sessions b,
        eq_refl b,
      )
    ]

-- After the disconnect of a browser no session lists it, whatever the state was.
pub handle_browser_disconnect-member :
    (e : Env) (b s : String) (r : Relay) → member b s (handle_browser_disconnect e b r) ≡ false
unfolding handle_browser_disconnect
handle_browser_disconnect-member e b s r =
    elim (Bool-cases (member b s (leave_from e b r.sessions r))) [
      | inl inside ↦ ground (arith, leave_from-member e b s r.sessions r inside)
      | inr outside ↦ outside
    ]
