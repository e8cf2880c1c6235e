-- ===== src/Server/Closing.antt =====
-- packages/relay/src/index.ts: which sockets a request closes.
use remote_ttys.Base.{
  ℕ, String, Bool, true, false, some, List, [], ◌∷◌, Map, get, any, has, eqb, ◌==◌, ◌≡◌, refl, inl,
  inr, Bool-cases, arith, eq_iff, eq_refl,
}
use remote_ttys.Relay.{Socket, Output, close, Relay, AgentConnection, BrowserConnection}
use remote_ttys.Relay.AgentHub
use remote_ttys.Relay.AgentHub.{disconnect_agents_by_token}
use remote_ttys.Relay.BrowserHub
use remote_ttys.Relay.BrowserHub.{disconnect_browsers_by_user_id}
use remote_ttys.Server.Accounts.{disconnect_agents_by_tokens}

-- `ws.close` was called.
abbrev pub is_close : Socket → Output → Bool
is_close ws (close w code) = w == ws
is_close ws _ = false

abbrev pub Closed : Socket → Relay → Type 0
Closed ws r = any (is_close ws) r.out ≡ true

module _ (q : Output → Bool) where
  agents_keep :
      (p : AgentConnection → Bool) (m : Map AgentConnection) (out : List Output)
      → any q out ≡ true
      → any q (AgentHub.close_where p m out) ≡ true
  unfolding AgentHub.close_where
  agents_keep p [] out h = h
  agents_keep p ((k, a) ∷ rest) out h = agents_keep p rest _ (ground (arith, h))

  browsers_keep :
      (p : BrowserConnection → Bool) (m : Map BrowserConnection) (out : List Output)
      → any q out ≡ true
      → any q (BrowserHub.close_where p m out) ≡ true
  unfolding BrowserHub.close_where
  browsers_keep p [] out h = h
  browsers_keep p ((k, a) ∷ rest) out h = browsers_keep p rest _ (ground (arith, h))

agents_closed :
    (p : AgentConnection → Bool) (k : String) (c : AgentConnection) (m : Map AgentConnection)
    (out : List Output)
    → get k m ≡ some c
    → p c ≡ true
    → any (is_close c.ws) (AgentHub.close_where p m out) ≡ true
unfolding AgentHub.close_where get
agents_closed p k c [] out there h = absurd cc
agents_closed p k c ((k', c') ∷ rest) out there h = elim (Bool-cases (k' == k)) [
  | inl this ↦
      let it : some c' ≡ some c = rw (this, get) at there in
      let same : c' ≡ c = cc in
      agents_keep (is_close c.ws) p rest _ (rw same (rw h (rw (eq_refl c.ws) refl)))
  | inr other ↦ agents_closed p k c rest _ (rw (other, get) at there) h
]

browsers_closed :
    (p : BrowserConnection → Bool) (k : String) (c : BrowserConnection) (m : Map BrowserConnection)
    (out : List Output)
    → get k m ≡ some c
    → p c ≡ true
    → any (is_close c.ws) (BrowserHub.close_where p m out) ≡ true
unfolding BrowserHub.close_where get
browsers_closed p k c [] out there h = absurd cc
browsers_closed p k c ((k', c') ∷ rest) out there h = elim (Bool-cases (k' == k)) [
  | inl this ↦
      let it : some c' ≡ some c = rw (this, get) at there in
      let same : c' ≡ c = cc in
      browsers_keep (is_close c.ws) p rest _ (rw same (rw h (rw (eq_refl c.ws) refl)))
  | inr other ↦ browsers_closed p k c rest _ (rw (other, get) at there) h
]

-- A connected agent of a token that is cut off is closed, and what was closed stays so.
pub disconnect_agents_by_token-Closed :
    (token k : String) (c : AgentConnection) (r : Relay)
    → get k r.agents ≡ some c
    → (c.token == token) ≡ true
    → Closed c.ws (disconnect_agents_by_token token r)
unfolding disconnect_agents_by_token
disconnect_agents_by_token-Closed token k c r there h =
    agents_closed (λ a. a.token == token) k c r.agents r.out there h

disconnect_agents_by_tokens-keeps :
    (hashes : List String) (ws : Socket) (r : Relay)
    → Closed ws r
    → Closed ws (disconnect_agents_by_tokens hashes r)
unfolding disconnect_agents_by_tokens disconnect_agents_by_token
disconnect_agents_by_tokens-keeps [] ws r h = h
disconnect_agents_by_tokens-keeps (hash ∷ hashes) ws r h =
    disconnect_agents_by_tokens-keeps hashes ws _
      (agents_keep (is_close ws) (λ a. a.token == hash) r.agents r.out h)

pub disconnect_agents_by_tokens-Closed :
    (hashes : List String) (k : String) (c : AgentConnection) (r : Relay)
    → get k r.agents ≡ some c
    → has c.token hashes ≡ true
    → Closed c.ws (disconnect_agents_by_tokens hashes r)
unfolding disconnect_agents_by_tokens disconnect_agents_by_token has
disconnect_agents_by_tokens-Closed [] k c r there h = absurd cc
disconnect_agents_by_tokens-Closed (hash ∷ hashes) k c r there h =
    elim (Bool-cases (hash == c.token)) [
      | inl this ↦ disconnect_agents_by_tokens-keeps hashes c.ws _ (
          agents_closed (λ a. a.token == hash) k c r.agents r.out there
            (ground (arith, eq_iff hash c.token, eq_iff c.token hash)))
      | inr other ↦
          disconnect_agents_by_tokens-Closed hashes k c (disconnect_agents_by_token hash r) there
            (rw (other, has) at h)
    ]

pub disconnect_agents_by_tokens-browsers :
    (hashes : List String) (r : Relay)
    → (disconnect_agents_by_tokens hashes r).browsers ≡ r.browsers
unfolding disconnect_agents_by_tokens disconnect_agents_by_token
disconnect_agents_by_tokens-browsers [] r = refl
disconnect_agents_by_tokens-browsers (hash ∷ hashes) r =
    disconnect_agents_by_tokens-browsers hashes (disconnect_agents_by_token hash r)

pub disconnect_browsers_by_user_id-Closed :
    (user : ℕ) (k : String) (c : BrowserConnection) (r : Relay)
    → get k r.browsers ≡ some c
    → eqb c.user_id user ≡ true
    → Closed c.ws (disconnect_browsers_by_user_id user r)
unfolding disconnect_browsers_by_user_id
disconnect_browsers_by_user_id-Closed user k c r there h =
    browsers_closed (λ b. eqb b.user_id user) k c r.browsers r.out there h

pub disconnect_browsers_by_user_id-keeps :
    (user : ℕ) (ws : Socket) (r : Relay)
    → Closed ws r
    → Closed ws (disconnect_browsers_by_user_id user r)
unfolding disconnect_browsers_by_user_id
disconnect_browsers_by_user_id-keeps user ws r h =
    browsers_keep (is_close ws) (λ b. eqb b.user_id user) r.browsers r.out h
