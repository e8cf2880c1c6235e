-- ===== src/Relay/Outputs.antt =====
-- What a callback sends: the calls that it adds in front of those made before.
use remote_ttys.Base.{
  String, Bool, true, some, List, [], ◌∷◌, ◌++◌, Map, get, has, All, All-append, IsUnique, get-tail,
  get_first, ◌≡◌, refl, sym, ap, ◌∙◌, inl, inr, Bool-cases, Option-cases, arith, ◌==◌,
}
use remote_ttys.Protocol.{RelayToBrowserMessage, RelayToAgentMessage}
use mathlib.Core.List.{append_assoc, Memᴰ}
use remote_ttys.Relay.{
  AgentConnection, BrowserConnection, Output, to_browser, to_agent, Relay, Env, emit,
}
use remote_ttys.Relay.BrowserHub.{send_where, send_to_session_subscribers, send_to_browser}
use remote_ttys.Relay.AgentHub.{send_to_agent}

abbrev pub Adds : (Output → Type 0) → List Output → List Output → Type 0
Adds P before after = (new : List Output) × (after ≡ new ++ before) × All P new

-- Every call that leads from one state to the other satisfies `P`.
abbrev pub Sends : (Output → Type 0) → Relay → Relay → Type 0
Sends P r r' = Adds P r.out r'.out

pub Adds-refl : (P : Output → Type 0) (out : List Output) → Adds P out out
Adds-refl P out = ([], refl, tt)

pub Adds-trans : (P : Output → Type 0) (a b c : List Output) → Adds P a b → Adds P b c → Adds P a c
Adds-trans P a b c (x, p, h) (y, q, k) =
    (y ++ x, q ∙ (ap (λ t. y ++ t) p ∙ sym (append_assoc y x a)), All-append P y x k h)

pub Adds-one : (P : Output → Type 0) (o : Output) (out : List Output) → P o → Adds P out (o ∷ out)
Adds-one P o out h = (o ∷ [], refl, (h, tt))

-- A broadcast calls `send` for connections of the table that pass the test, and only for those.
pub send_where-Adds :
    (P : Output → Type 0) (p : BrowserConnection → Bool) (msg : RelayToBrowserMessage)
    (m : Map BrowserConnection) (out : List Output)
    → IsUnique m
    → ((b : String) (c : BrowserConnection)
        → get b m ≡ some c
        → p c ≡ true
        → P (to_browser c.ws msg))
    → Adds P out (send_where p msg m out)
unfolding send_where
send_where-Adds P p msg [] out unique all = Adds-refl P out
send_where-Adds P p msg ((k, c) ∷ m) out (fresh, unique) all = elim (Bool-cases (p c)) [
  | inl hit ↦ rw hit (
      Adds-trans P _ _ _ (Adds-one P _ out (all k c (get_first k c m) hit))
        (send_where-Adds P p msg m (to_browser c.ws msg ∷ out) unique rest))
  | inr miss ↦ rw miss (send_where-Adds P p msg m out unique rest)
]
  where
    rest :
        (b : String) (d : BrowserConnection)
        → get b m ≡ some d
        → p d ≡ true
        → P (to_browser d.ws msg)
    rest b d found = all b d (get-tail k b c d m fresh found)

-- What was sent stays sent.
send_where-mem :
    (p : BrowserConnection → Bool) (msg : RelayToBrowserMessage) (o : Output)
    (m : Map BrowserConnection) (out : List Output)
    → Memᴰ o out
    → Memᴰ o (send_where p msg m out)
unfolding send_where
send_where-mem p msg o [] out h = h
send_where-mem p msg o ((k, c) ∷ m) out h = elim (Bool-cases (p c)) [
  | inl hit ↦ rw hit (send_where-mem p msg o m _ (Memᴰ.tail h))
  | inr miss ↦ rw miss (send_where-mem p msg o m out h)
]

-- A broadcast calls `send` for every connection in the table that passes its test.
pub send_where-reaches :
    (p : BrowserConnection → Bool) (msg : RelayToBrowserMessage) (b : String)
    (c : BrowserConnection) (m : Map BrowserConnection) (out : List Output)
    → get b m ≡ some c
    → p c ≡ true
    → Memᴰ (to_browser c.ws msg) (send_where p msg m out)
unfolding send_where get
send_where-reaches p msg b c [] out found hit = absurd (ground arith)
send_where-reaches p msg b c ((k, d) ∷ m) out found hit = elim (Bool-cases (k == b)) [
  | inl self ↦
      let same : d ≡ c = ground arith in
      rw (same, hit) (send_where-mem p msg _ m _ (Memᴰ.head refl))
  | inr other ↦ send_where-reaches p msg b c m _ (ground arith) hit
]

module _ (P : Output → Type 0) (e : Env) where
  pub send_to_agent-Sends :
      (a : String) (msg : RelayToAgentMessage) (r : Relay)
      → ((c : AgentConnection) → get a r.agents ≡ some c → P (to_agent c.ws msg))
      → Sends P r (send_to_agent e a msg r)
  unfolding send_to_agent emit
  send_to_agent-Sends a msg r h = elim (Option-cases (get a r.agents)) [
    | inl gone ↦ rw (gone, send_to_agent) (Adds-refl P r.out)
    | inr (c, there) ↦ elim (Bool-cases (e.is_open c.ws)) [
      | inl open_ ↦
          rw (there, send_to_agent) (rw (open_, send_to_agent) (Adds-one P _ r.out (h c there)))
      | inr shut ↦ rw (there, send_to_agent) (rw (shut, send_to_agent) (Adds-refl P r.out))
    ]
  ]

  pub send_to_browser-Sends :
      (b : String) (msg : RelayToBrowserMessage) (r : Relay)
      → ((c : BrowserConnection) → get b r.browsers ≡ some c → P (to_browser c.ws msg))
      → Sends P r (send_to_browser e b msg r)
  unfolding send_to_browser emit
  send_to_browser-Sends b msg r h = elim (Option-cases (get b r.browsers)) [
    | inl gone ↦ rw (gone, send_to_browser) (Adds-refl P r.out)
    | inr (c, there) ↦ elim (Bool-cases (e.is_open c.ws)) [
      | inl open_ ↦
          rw (there, send_to_browser) (rw (open_, send_to_browser) (Adds-one P _ r.out (h c there)))
      | inr shut ↦ rw (there, send_to_browser) (rw (shut, send_to_browser) (Adds-refl P r.out))
    ]
  ]

  pub send_to_session_subscribers-Sends :
      (s : String) (msg : RelayToBrowserMessage) (r : Relay)
      → IsUnique r.browsers
      → ((b : String) (c : BrowserConnection)
          → get b r.browsers ≡ some c
          → has s c.subscribed_sessions ≡ true
          → P (to_browser c.ws msg))
      → Sends P r (send_to_session_subscribers e s msg r)
  unfolding send_to_session_subscribers
  send_to_session_subscribers-Sends s msg r unique h =
      send_where-Adds P _ msg r.browsers r.out unique (λ b c found hit. h b c found (ground arith))
