-- ===== src/Relay/Moves/Limits.antt =====
-- Every move keeps the numbers of sessions and of browsers within the limits.
use remote_ttys.Base.{
  ℕ, ◌≤◌, ◌<◌, String, Bool, true, Map, set, size, count_if, has-remove, has-singleton, size-set-le,
  size-delete-le, size-modify, size-map_values, count_if-set-le, count_if-delete-le,
  count_if-modify, count_if-modify-le, ◌≡◌, refl, sym, ap, subst, ◌∙◌, arith, eq_iff,
}
use remote_ttys.Relay.{SessionMapping, Relay}
use remote_ttys.Relay.BrowserHub.{unsubscribe}
use remote_ttys.Relay.Router.Sessions.{
  max_sessions, max_sessions_per_agent, max_sessions_per_browser, set_activity,
}
use remote_ttys.Relay.Router.FromBrowser.{add_subscription, is_of_agent, is_of_browser}
use remote_ttys.Relay.Router.Disconnect.{leave}
use remote_ttys.Relay.BrowserSocket.{max_browser_connections}
use remote_ttys.Relay.Moves.{
  Opens, Move, Moves, done, step, same, touched, closed, resubscribed, opened, joined, forget, left,
}

pub record Within (r : Relay) : Type 0 where
  pub browsers : size r.browsers ≤ max_browser_connections
  pub sessions : size r.sessions ≤ max_sessions
  pub of_agent : (a : String) → count_if (is_of_agent a) r.sessions ≤ max_sessions_per_agent
  pub of_browser : (b : String) → count_if (is_of_browser b) r.sessions ≤ max_sessions_per_browser

agent-set_activity :
    (now : ℕ) (a : String) (m : SessionMapping)
    → is_of_agent a (set_activity now m) ≡ is_of_agent a m
unfolding set_activity
agent-set_activity now a m = refl

browser-set_activity :
    (now : ℕ) (b : String) (m : SessionMapping)
    → is_of_browser b (set_activity now m) ≡ is_of_browser b m
unfolding set_activity
browser-set_activity now b m = refl

agent-leave : (d a : String) (m : SessionMapping) → is_of_agent a (leave d m) ≡ is_of_agent a m
unfolding leave
agent-leave d a m = refl

browser-leave :
    (d b : String) (m : SessionMapping)
    → is_of_browser b (leave d m) ≡ true
    → is_of_browser b m ≡ true
unfolding leave
browser-leave d b m h = ground (arith, has-remove d b m.browser_ids)

-- An entry that passes the test only where there is room keeps the count within its limit.
count-entered :
    (p : SessionMapping → Bool) (s : String) (v : SessionMapping) (m : Map SessionMapping) (n : ℕ)
    → count_if p m ≤ n
    → (p v ≡ true → count_if p m < n)
    → count_if p (set s v m) ≤ n
count-entered p s v m n h room = ground (arith, count_if-set-le p s v m)

module _ {r r' : Relay} (w : Within r) where
  opened-Within : (b a s : String) → Opens b a s r r' → Within r'
  opened-Within b a s o = record {
    browsers =
        omega
          (arith, ap size o.subscribed, size-modify b (add_subscription s) r.browsers, w.browsers);
    sessions = omega (arith, ap size o.entered, size-set-le s o.mapping r.sessions, o.few_sessions);
    of_agent = λ c. rw o.entered (
        count-entered (is_of_agent c) s o.mapping r.sessions max_sessions_per_agent (w.of_agent c)
          (λ hit. same_agent c hit));
    of_browser = λ c. rw o.entered (
        count-entered (is_of_browser c) s o.mapping r.sessions max_sessions_per_browser
          (w.of_browser c) (λ hit. same_browser c hit));
  }
    where
      same_agent :
          (c : String)
          → is_of_agent c o.mapping ≡ true
          → count_if (is_of_agent c) r.sessions < max_sessions_per_agent
      same_agent c hit =
          subst (λ x. count_if (is_of_agent x) r.sessions < max_sessions_per_agent)
            (sym o.of_agent ∙ (eq_iff o.mapping.agent_id c).0 hit) o.few_of_agent

      same_browser :
          (c : String)
          → is_of_browser c o.mapping ≡ true
          → count_if (is_of_browser c) r.sessions < max_sessions_per_browser
      same_browser c hit =
          subst (λ x. count_if (is_of_browser x) r.sessions < max_sessions_per_browser)
            ((eq_iff b c).0 (ground (arith, o.of_browser, has-singleton b c))) o.few_of_browser

  -- Moves that change what is stored under a key, and no count.
  kept-Within :
      size r'.browsers ≤ size r.browsers
      → size r'.sessions ≤ size r.sessions
      → ((a : String) → count_if (is_of_agent a) r'.sessions ≤ count_if (is_of_agent a) r.sessions)
      → ((b : String)
          → count_if (is_of_browser b) r'.sessions ≤ count_if (is_of_browser b) r.sessions)
      → Within r'
  kept-Within p q f g = record {
    browsers = omega (arith, p, w.browsers);
    sessions = omega (arith, q, w.sessions);
    of_agent = λ a. omega (arith, f a, w.of_agent a);
    of_browser = λ b. omega (arith, g b, w.of_browser b);
  }

  Move-Within : Move r r' → Within r'
  Move-Within (same k) =
      kept-Within (omega (arith, ap size k.same_browsers)) (omega (arith, ap size k.same_sessions))
        (λ a. rw k.same_sessions (omega arith)) (λ b. rw k.same_sessions (omega arith))
  Move-Within (touched t now p q) =
      kept-Within (omega (arith, ap size p))
        (omega (arith, ap size q, size-modify t (set_activity now) r.sessions))
        (λ a. rw q (
          omega (
            arith,
            count_if-modify (is_of_agent a) t (set_activity now) r.sessions
                (agent-set_activity now a),
          )))
        (λ b. rw q (
          omega (
            arith,
            count_if-modify (is_of_browser b) t (set_activity now) r.sessions
                (browser-set_activity now b),
          )))
  Move-Within (closed t p q) =
      kept-Within (omega (arith, ap size p, size-map_values (unsubscribe t) r.browsers))
        (omega (arith, ap size q, size-delete-le t r.sessions))
        (λ a. rw q (count_if-delete-le (is_of_agent a) t r.sessions))
        (λ b. rw q (count_if-delete-le (is_of_browser b) t r.sessions))
  Move-Within (resubscribed d t m p q) =
      kept-Within (omega (arith, ap size p, size-modify d (add_subscription t) r.browsers))
        (omega (arith, ap size q)) (λ a. rw q (omega arith)) (λ b. rw q (omega arith))
  Move-Within (opened b a s o) = opened-Within b a s o
  Move-Within (joined d c new fresh unknown room p q) = record {
    browsers = omega (arith, ap size p, size-set-le d c r.browsers, room);
    sessions = omega (arith, ap size q, w.sessions);
    of_agent = λ a. rw q (w.of_agent a);
    of_browser = λ b. rw q (w.of_browser b);
  }
  Move-Within (left d t gone p q) =
      kept-Within (omega (arith, ap size p))
        (omega (arith, ap size q, size-modify t (leave d) r.sessions))
        (λ a.
          rw q (
            omega
              (arith, count_if-modify (is_of_agent a) t (leave d) r.sessions (agent-leave d a))))
        (λ b.
          rw q (count_if-modify-le (is_of_browser b) t (leave d) r.sessions (browser-leave d b)))

pub Moves-Within : {r r' : Relay} → Moves r r' → Within r → Within r'
Moves-Within done w = w
Moves-Within (step k m) w = Move-Within (Moves-Within k w) m

pub forget-Within : (b : String) (r : Relay) → Within r → Within (forget b r)
unfolding forget
forget-Within b r w = record {
  browsers = omega (arith, size-delete-le b r.browsers, w.browsers);
  sessions = w.sessions;
  of_agent = w.of_agent;
  of_browser = w.of_browser;
}
