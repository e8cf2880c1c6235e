-- ===== src/Relay/Moves/Mirror.antt =====
-- Every move keeps the subscriptions of the connected browsers in step with the session table.
use remote_ttys.Base.{
  ℕ, String, true, false, none, [], get, set, delete, modify, map_values, has_key, get-set,
  get-delete, get-modify, get-map_values, ◌≡◌, arith, eq_iff,
}
use remote_ttys.Relay.{BrowserConnection, Relay}
use remote_ttys.Relay.BrowserHub.{unsubscribe}
use remote_ttys.Relay.Sharing.{
  subscribed, member, subscribed_in-unsubscribe, subscribed_in-subscribe, subscribed_in-delete,
  subscribed_in-set, member_in-delete, member_in-set, member_in-touch, member_in-leave,
}
use remote_ttys.Relay.Router.Sessions.{set_activity}
use remote_ttys.Relay.Router.Disconnect.{leave}
use remote_ttys.Relay.Router.FromBrowser.{add_subscription}
use remote_ttys.Relay.Moves.{
  Opens, Move, Moves, done, step, same, touched, closed, resubscribed, opened, joined, forget, left,
}

-- A connected browser is subscribed to exactly the sessions that list it.
abbrev pub Mirrors : Relay → Type 0
Mirrors r = (b s : String) → has_key b r.browsers ≡ true → subscribed b s r ≡ member b s r

member-none : (b s : String) (r : Relay) → get s r.sessions ≡ none → member b s r ≡ false
member-none b s r fresh = ground arith

module _ (r r' : Relay) (h : Mirrors r) (b s : String) (here : has_key b r'.browsers ≡ true) where
  closed-mirror :
      (t : String)
      → r'.browsers ≡ map_values (unsubscribe t) r.browsers
      → r'.sessions ≡ delete t r.sessions
      → subscribed b s r' ≡ member b s r'
  unfolding has_key
  closed-mirror t p q = ground (
    arith,
    h b s,
    subscribed_in-unsubscribe b s t r.browsers,
    member_in-delete b s t r.sessions,
    get-map_values b (unsubscribe t) r.browsers,
  )

  opened-mirror : (d a t : String) → Opens d a t r r' → subscribed b s r' ≡ member b s r'
  unfolding has_key
  opened-mirror d a t o = ground (
    arith,
    h b s,
    subscribed_in-subscribe b s t r.browsers d,
    member_in-set b s t r.sessions d o.mapping o.of_browser,
    get-modify d b (add_subscription t) r.browsers,
    eq_iff t s,
    eq_iff d b,
    o.fresh,
    o.entered,
    o.subscribed,
    member-none b t r o.fresh,
  )

  resubscribed-mirror :
      (d t : String)
      → member d t r ≡ true
      → r'.browsers ≡ modify d (add_subscription t) r.browsers
      → r'.sessions ≡ r.sessions
      → subscribed b s r' ≡ member b s r'
  unfolding has_key
  resubscribed-mirror d t m p q = ground (
    arith,
    h b s,
    subscribed_in-subscribe b s t r.browsers d,
    get-modify d b (add_subscription t) r.browsers,
    eq_iff t s,
    eq_iff d b,
  )

  joined-mirror :
      (d : String) (c : BrowserConnection)
      → c.subscribed_sessions ≡ []
      → member d s r ≡ false
      → r'.browsers ≡ set d c r.browsers
      → r'.sessions ≡ r.sessions
      → subscribed b s r' ≡ member b s r'
  unfolding has_key
  joined-mirror d c new unknown p q =
      ground (
        arith,
        h b s,
        subscribed_in-set b s d r.browsers c new,
        get-set d b c r.browsers,
        eq_iff d b,
      )

  left-mirror :
      (d t : String)
      → get d r.browsers ≡ none
      → r'.browsers ≡ r.browsers
      → r'.sessions ≡ modify t (leave d) r.sessions
      → subscribed b s r' ≡ member b s r'
  unfolding has_key
  left-mirror d t gone p q = ground (arith, h b s, member_in-leave b s t r.sessions d, eq_iff d b)

  touched-mirror :
      (t : String) (now : ℕ)
      → r'.browsers ≡ r.browsers
      → r'.sessions ≡ modify t (set_activity now) r.sessions
      → subscribed b s r' ≡ member b s r'
  touched-mirror t now p q = ground (arith, h b s, member_in-touch b s t r.sessions now)

Move-Mirrors : {r r' : Relay} → Move r r' → Mirrors r → Mirrors r'
Move-Mirrors {r} {r'} (same k) h b s here = ground (arith, h b s)
Move-Mirrors {r} {r'} (touched t now p q) h b s here = touched-mirror r r' h b s here t now p q
Move-Mirrors {r} {r'} (closed t p q) h b s here = closed-mirror r r' h b s here t p q
Move-Mirrors {r} {r'} (resubscribed d t m p q) h b s here =
    resubscribed-mirror r r' h b s here d t m p q
Move-Mirrors {r} {r'} (opened d a t o) h b s here = opened-mirror r r' h b s here d a t o
Move-Mirrors {r} {r'} (joined d c new fresh unknown room p q) h b s here =
    joined-mirror r r' h b s here d c new (unknown s) p q
Move-Mirrors {r} {r'} (left d t gone p q) h b s here = left-mirror r r' h b s here d t gone p q

pub Moves-Mirrors : {r r' : Relay} → Moves r r' → Mirrors r → Mirrors r'
Moves-Mirrors done h = h
Moves-Mirrors (step k m) h = Move-Mirrors m (Moves-Mirrors k h)

pub forget-Mirrors : (b : String) (r : Relay) → Mirrors r → Mirrors (forget b r)
unfolding forget has_key
forget-Mirrors d r h b s here =
    ground (arith, h b s, subscribed_in-delete b s d r.browsers, get-delete d b r.browsers)
