-- ===== src/Relay/Returns.antt =====
-- Every event of the relay returns: the one statement that may throw, the insertion of an agent, does
-- not where the new uuid is no agent's id.
use remote_ttys.Base.{
  String, Bool, true, false, ◌&&◌, Option, none, some, List, [], ◌∷◌, any, get, ◌≡◌, refl, inl, inr,
  Bool-cases, Option-cases, arith, ltb, ◌==◌,
}
use remote_ttys.Base.Texts.{truthy}
use remote_ttys.Protocol.{AgentMessage, Frame}
use remote_ttys.Db.{AgentRow, select_first, upsert_agent, upsert_row, find_agent_by_token_and_name}
use remote_ttys.Db
use remote_ttys.Relay.{Socket, PreAuth, AgentLink, Relay, Env}
use remote_ttys.Relay.AgentSocket.{
  Hello, id_or, is_mismatch, accept, on_hello, on_first, dispatch, agent_frame, max_agent_msg_size,
}
use remote_ttys.Relay.Step.{
  Event, agent_connects, agent_sends, agent_closes, browser_connects, browser_sends, browser_closes,
  ping_timer, sweep_timer, step,
}

abbrev is_some : {A : Type 0} → Option A → Bool
is_some none = false
is_some (some a) = true

abbrev Returns : {A : Type 0} → Option A → Type 0
Returns o = is_some o ≡ true

returned : {A : Type 0} (o : Option A) → Returns o → (a : A) × (o ≡ some a)
returned none h = absurd cc
returned (some a) h = (a, refl)

-- No agent of the database has the id.
abbrev pub is_agent_id : String → Db.Db → Bool
is_agent_id id db = any (λ (a : AgentRow). a.id == id) db.agents

select_first-none :
    {A : Type 0} (p : A → Bool) (xs : List A) → any p xs ≡ false → select_first p xs ≡ none
unfolding select_first
select_first-none p [] h = refl
select_first-none p (x ∷ xs) h = ground (arith, select_first-none p xs)

-- An `agent.hello` that names the agent and its operating system, or any other message.
unfoldable pub is_named : AgentMessage → Bool
is_named (AgentMessage.hello name os fp key caps) = is_some name && is_some os
is_named _ = true

unfoldable pub has_named_message : Event → Bool
has_named_message (agent_sends ws frame) = elim frame.message [
  | none ↦ true
  | some msg ↦ is_named msg
]
has_named_message _ = true

module _ (e : Env) (ws : Socket) (r : Relay) (fresh : is_agent_id e.uuid r.db ≡ false) where
  upsert_agent-Returns :
      (name os token : String)
      → Returns (
          upsert_agent e.datetime
            (id_or (find_agent_by_token_and_name token (some name) r.db) e.uuid)
            (some name)
            (some os)
            token
            r.db)
  unfolding upsert_agent upsert_row find_agent_by_token_and_name
  upsert_agent-Returns name os token =
      elim (Bool-cases (any (λ (a : AgentRow). a.token == token && a.name == name) r.db.agents)) [
        | inl known ↦ rw (known, upsert_row) refl
        | inr new ↦
            rw (new, upsert_row)
              (rw (select_first-none (λ (a : AgentRow). a.token == token && a.name == name) _ new)
                (rw fresh refl))
      ]

  named-Returns :
      (name os : Option String) (token : String)
      → (is_some name && is_some os) ≡ true
      → Returns (
          upsert_agent e.datetime
            (id_or (find_agent_by_token_and_name token name r.db) e.uuid)
            name
            os
            token
            r.db)
  named-Returns none os token named = absurd cc
  named-Returns (some n) none token named = absurd cc
  named-Returns (some n) (some o) token named = upsert_agent-Returns n o token

  accept-Returns :
      (auth : PreAuth) (fp : String) (h : Hello)
      → (is_some h.name && is_some h.os) ≡ true
      → Returns (accept e ws auth (find_agent_by_token_and_name auth.token_hash h.name r.db) fp h r)
  unfolding accept
  accept-Returns auth fp h named =
      let (db, done) = returned _ (named-Returns h.name h.os auth.token_hash named) in
      rw (done, accept) refl

  on_hello-Returns :
      (auth : PreAuth) (fp : Option String) (h : Hello)
      → (is_some h.name && is_some h.os) ≡ true
      → Returns (on_hello e ws auth fp h r)
  unfolding on_hello
  on_hello-Returns auth fp h named = elim (Option-cases (truthy fp)) [
    | inl missing ↦ rw (missing, on_hello) refl
    | inr (f, shown) ↦
        elim (Bool-cases
          (is_mismatch (find_agent_by_token_and_name auth.token_hash h.name r.db) f)) [
            | inl bad ↦ rw (shown, on_hello) (rw (bad, on_hello) refl)
            | inr good ↦ rw (shown, on_hello) (rw (good, on_hello) (accept-Returns auth f h named))
          ]
  ]

  on_first-Returns :
      (auth : PreAuth) (msg : AgentMessage)
      → is_named msg ≡ true
      → Returns (on_first e ws auth msg r)
  unfolding on_first is_named
  on_first-Returns auth (AgentMessage.hello name os fp key caps) named =
      on_hello-Returns auth fp _ named
  on_first-Returns auth msg named = refl

  dispatch-Returns :
      (link : AgentLink) (msg : AgentMessage)
      → is_named msg ≡ true
      → Returns (dispatch e ws link msg r)
  unfolding dispatch
  dispatch-Returns link msg named = elim (Option-cases link.agent_id) [
    | inl first ↦ rw (first, dispatch) (on_first-Returns link.pre_auth msg named)
    | inr (a, later) ↦ rw (later, dispatch) refl
  ]

  agent_frame-Returns :
      (frame : Frame AgentMessage)
      → has_named_message (agent_sends ws frame) ≡ true
      → Returns (agent_frame e ws frame r)
  unfolding agent_frame has_named_message
  agent_frame-Returns frame named = elim (Option-cases (get ws r.agent_links)) [
    | inl unknown ↦ rw (unknown, agent_frame) refl
    | inr (link, there) ↦ elim (Bool-cases (ltb max_agent_msg_size frame.size)) [
      | inl big ↦ rw (there, agent_frame) (rw (big, agent_frame) refl)
      | inr small ↦ elim (Option-cases frame.message) [
        | inl broken ↦
            rw (there, agent_frame) (rw (small, agent_frame) (rw (broken, agent_frame) refl))
        | inr (msg, parsed) ↦
            rw (there, agent_frame)
              (rw (small, agent_frame)
                (rw (parsed, agent_frame)
                  (dispatch-Returns link msg (ground (arith, named, parsed)))))
      ]
    ]
  ]

-- Every event returns, whatever the state, if its uuid is the id of no agent in the database and, should
-- it be an `agent.hello`, it names the agent and its operating system: no other message of the
-- protocol's types, no close and no timer makes a callback throw.
pub step-Returns :
    (e : Env) (ev : Event) (r : Relay)
    → is_agent_id e.uuid r.db ≡ false
    → has_named_message ev ≡ true
    → (r' : Relay) × (step e ev r ≡ some r')
unfolding step
step-Returns e (agent_sends ws frame) r fresh named =
    returned _ (agent_frame-Returns e ws r fresh frame named)
step-Returns e (agent_connects ws auth) r fresh named = (_, refl)
step-Returns e (agent_closes ws) r fresh named = (_, refl)
step-Returns e (browser_connects ws user) r fresh named = (_, refl)
step-Returns e (browser_sends ws b frame) r fresh named = (_, refl)
step-Returns e (browser_closes b) r fresh named = (_, refl)
step-Returns e (ping_timer ids) r fresh named = (_, refl)
step-Returns e sweep_timer r fresh named = (_, refl)
