-- ===== src/Relay/Reach.antt =====
-- The states that the relay reaches from its start, and what holds in each of them.
use remote_ttys.Base.{
  subst, String, false, Option, none, some, [], get, has_key, count_if, ◌≡◌, refl, inl, inr,
  Bool-cases, arith, ◌==◌, eq_iff, delete,
}
use remote_ttys.Db
use remote_ttys.Relay.{Relay, Env}
use remote_ttys.Relay.Sharing.{member}
use remote_ttys.Relay.Step.{
  Event, agent_connects, agent_sends, agent_closes, browser_connects, browser_sends, browser_closes,
  ping_timer, sweep_timer, step,
}
use remote_ttys.Relay.BrowserSocket.{browser_close}
use remote_ttys.Relay.Moves.{Moves, forget}
use remote_ttys.Relay.Moves.Sessions.{sweep-Moves}
use remote_ttys.Relay.Moves.Sockets.{
  agent_frame-Moves, agent_close-Moves, ping_agents-Moves, connect_agent-Moves,
  connect_browser-Moves, browser_frame-Moves, browser_close-Moves,
}
use remote_ttys.Relay.Moves.Mirror.{Mirrors, Moves-Mirrors, forget-Mirrors}
use remote_ttys.Relay.Moves.Limits.{Within, Moves-Within, forget-Within}
use remote_ttys.Relay.Moves.Alone.{
  HasUniqueKeys, Moves-HasUniqueKeys, forget-HasUniqueKeys, AreAlone, Moves-AreAlone,
}
use remote_ttys.Relay.Moves.Present.{
  Present, PresentBut, Moves-PresentBut, forget-PresentBut, handle_browser_disconnect-member,
}

-- The relay before its first connection, over any database.
abbrev pub boot : Db.Db → Relay
boot db = record { agents = []; browsers = []; sessions = []; agent_links = []; db = db; out = [] }

-- What `randomUUID()` is relied on for: its next value is in use for no session and no browser.
pub record IsFresh (e : Env) (r : Relay) : Type 0 where
  pub no_session : get e.uuid r.sessions ≡ none
  pub no_browser : get e.uuid r.browsers ≡ none
  pub no_member : (s : String) → member e.uuid s r ≡ false

pub data Reach (db : Db.Db) : Relay → Type 0 where
  start : Reach db (boot db)
  next :
      {r r' : Relay}
      → Reach db r
      → (e : Env) (ev : Event) → IsFresh e r
      → step e ev r ≡ some r'
      → Reach db r'

-- The connection of a browser is dropped before its sessions are gone through.
abbrev pub entered_by : Event → Relay → Relay
entered_by (browser_closes b) r = forget b r
entered_by _ r = r

abbrev unwrapped : {A : Type 0} → Option A → A → A
unwrapped none d = d
unwrapped (some a) d = a

moved : {r r' r'' : Relay} → some r' ≡ some r'' → Moves r r' → Moves r r''
moved {r} {r'} {r''} p k = subst (λ o. Moves r (unwrapped o r')) p k

pub step-Moves :
    (e : Env) (ev : Event) (r r' : Relay)
    → IsFresh e r
    → step e ev r ≡ some r'
    → Moves (entered_by ev r) r'
unfolding step
step-Moves e (agent_connects ws auth) r r' f p = moved p (connect_agent-Moves ws auth r)
step-Moves e (agent_sends ws frame) r r' f p = agent_frame-Moves e ws frame r r' p
step-Moves e (agent_closes ws) r r' f p = moved p (agent_close-Moves e ws r)
step-Moves e (browser_connects ws user) r r' f p =
    moved p (connect_browser-Moves e ws user r f.no_browser f.no_member)
step-Moves e (browser_sends ws b frame) r r' f p =
    moved p (browser_frame-Moves e ws b frame r f.no_session)
step-Moves e (browser_closes b) r r' f p = moved p (browser_close-Moves e b r)
step-Moves e (ping_timer ids) r r' f p = moved p (ping_agents-Moves e ids r)
step-Moves e sweep_timer r r' f p = moved p (sweep-Moves e r)

pub record Inv (r : Relay) : Type 0 where
  pub mirrors : Mirrors r
  pub present : Present r
  pub within : Within r
  pub unique : HasUniqueKeys r
  pub alone : AreAlone r.sessions

entered_by-Inv :
    (ev : Event) (r : Relay)
    → Inv r
    → Mirrors (entered_by ev r)
      × Within (entered_by ev r)
      × HasUniqueKeys (entered_by ev r)
      × AreAlone (entered_by ev r).sessions
unfolding forget
entered_by-Inv (browser_closes b) r v = (
  forget-Mirrors b r v.mirrors,
  forget-Within b r v.within,
  forget-HasUniqueKeys b r v.unique,
  v.alone,
)
entered_by-Inv (agent_connects ws auth) r v = (v.mirrors, v.within, v.unique, v.alone)
entered_by-Inv _ r v = (v.mirrors, v.within, v.unique, v.alone)

-- After a disconnect nobody is exempt: the browser that left is in no session.
browser_close-Present :
    (e : Env) (b : String) (r : Relay) → Present r → Present (browser_close e b r)
unfolding browser_close
browser_close-Present e b r h c s inside bound = elim (Bool-cases (b == c)) [
  | inl self ↦ absurd (
      ground (
        arith,
        eq_iff b c,
        handle_browser_disconnect-member e b s (record r { browsers = delete b r.browsers }),
      ))
  | inr other ↦ closes-PresentBut c s inside other
]
  where
    closes-PresentBut : PresentBut (λ d. b == d) (browser_close e b r)
    closes-PresentBut =
        Moves-PresentBut (λ d. b == d) (browser_close-Moves e b r) (forget-PresentBut b r h)

step-Present :
    (e : Env) (ev : Event) (r r' : Relay)
    → IsFresh e r
    → step e ev r ≡ some r'
    → Present r
    → Present r'
unfolding step
step-Present e (browser_closes b) r r' f p h =
    subst (λ o. Present (unwrapped o r')) p (browser_close-Present e b r h)
step-Present e (agent_connects ws auth) r r' f p h =
    Moves-PresentBut (λ _. false) (step-Moves e (agent_connects ws auth) r r' f p) h
step-Present e (agent_sends ws frame) r r' f p h =
    Moves-PresentBut (λ _. false) (step-Moves e (agent_sends ws frame) r r' f p) h
step-Present e (agent_closes ws) r r' f p h =
    Moves-PresentBut (λ _. false) (step-Moves e (agent_closes ws) r r' f p) h
step-Present e (browser_connects ws user) r r' f p h =
    Moves-PresentBut (λ _. false) (step-Moves e (browser_connects ws user) r r' f p) h
step-Present e (browser_sends ws b frame) r r' f p h =
    Moves-PresentBut (λ _. false) (step-Moves e (browser_sends ws b frame) r r' f p) h
step-Present e (ping_timer ids) r r' f p h =
    Moves-PresentBut (λ _. false) (step-Moves e (ping_timer ids) r r' f p) h
step-Present e sweep_timer r r' f p h =
    Moves-PresentBut (λ _. false) (step-Moves e sweep_timer r r' f p) h

pub step-Inv :
    (e : Env) (ev : Event) (r r' : Relay) → IsFresh e r → step e ev r ≡ some r' → Inv r → Inv r'
step-Inv e ev r r' f p v =
    let moves = step-Moves e ev r r' f p in
    let entered = entered_by-Inv ev r v in
    record {
      mirrors = Moves-Mirrors moves entered.0;
      present = step-Present e ev r r' f p v.present;
      within = Moves-Within moves entered.1;
      unique = Moves-HasUniqueKeys moves entered.2;
      alone = Moves-AreAlone moves entered.3;
    }

pub boot-Inv : (db : Db.Db) → Inv (boot db)
unfolding get has_key count_if
boot-Inv db = record {
  mirrors = λ b s h. refl;
  present = λ b s h x. cc;
  within = record {
    browsers = omega arith;
    sessions = omega arith;
    of_agent = λ a. omega arith;
    of_browser = λ b. omega arith;
  };
  unique = record { browsers = tt; sessions = tt };
  alone = tt;
}

-- In every state that the relay reaches from its start, by events whose uuids are in no use: for each
-- connected browser, its subscriptions are the sessions whose mapping lists it; a browser that a
-- mapping lists is connected; the four limits hold; the keys of the tables are distinct; a session
-- has one browser at most.
pub Reach-Inv : {db : Db.Db} {r : Relay} → Reach db r → Inv r
Reach-Inv {db} start = boot-Inv db
Reach-Inv (next {r} {r'} k e ev f p) = step-Inv e ev r r' f p (Reach-Inv k)
