-- ===== src/Relay/Moves/Sessions.antt =====
-- The moves of ending sessions: `destroySession`, the sweep, and agents or browsers that leave.
use remote_ttys.Base.{
  String, Bool, true, none, [], ◌∷◌, Map, get, remove, delete, map_values, get-map_values, ◌≡◌,
  refl, inl, inr, arith, Bool-cases, ltb, ◌-◌, ◌==◌,
}
use remote_ttys.Protocol.{RelayToBrowserMessage}
use remote_ttys.Relay.{SessionMapping, Relay, Env, emit, audit}
use remote_ttys.Relay.BrowserHub.{unsubscribe, unsubscribe_all_from_session}
use remote_ttys.Relay.AgentHub.{send_to_agent, delete_agent_session}
use remote_ttys.Relay.Fields.{broadcast_to_owner-SameTables}
use remote_ttys.Relay.Router.Sessions.{
  session_ttl_ms, destroy_session, drop_session, sweep_from, sweep,
}
use remote_ttys.Relay.Router.Disconnect.{
  leave_session, leave_from, is_empty, handle_browser_disconnect, end_from, handle_agent_disconnect,
}
use remote_ttys.Relay.Moves.{Move, Moves, done, step, closed, left, one, one_same, Moves_trans}

module _ (e : Env) (s a detail : String) (notify : Bool) (r : Relay) where
  pub browsers-destroy_session :
      (destroy_session e s a detail notify r).browsers ≡ map_values (unsubscribe s) r.browsers
  unfolding destroy_session drop_session delete_agent_session unsubscribe_all_from_session
      send_to_agent emit audit
  browsers-destroy_session = ground arith

  pub sessions-destroy_session :
      (destroy_session e s a detail notify r).sessions ≡ delete s r.sessions
  unfolding destroy_session drop_session delete_agent_session unsubscribe_all_from_session
      send_to_agent emit audit
  sessions-destroy_session = ground arith

  pub destroy_session-Move : Move r (destroy_session e s a detail notify r)
  destroy_session-Move = closed s browsers-destroy_session sessions-destroy_session

module _ (e : Env) where
  sweep_from-Moves : (entries : Map SessionMapping) (r : Relay) → Moves r (sweep_from e entries r)
  unfolding sweep_from
  sweep_from-Moves [] r = done
  sweep_from-Moves ((s, m) ∷ rest) r =
      elim (Bool-cases (ltb session_ttl_ms (e.now - m.last_activity))) [
        | inl old ↦ rw old (
            Moves_trans (one (destroy_session-Move e s m.agent_id _ true r))
              (sweep_from-Moves rest _))
        | inr live ↦ rw live (sweep_from-Moves rest r)
      ]

  pub sweep-Moves : (r : Relay) → Moves r (sweep e r)
  unfolding sweep
  sweep-Moves r = sweep_from-Moves r.sessions r

  -- A browser that left stays away while its sessions are gone through.
  get-destroy_session :
      (b s a detail : String) (notify : Bool) (r : Relay)
      → get b r.browsers ≡ none
      → get b (destroy_session e s a detail notify r).browsers ≡ none
  get-destroy_session b s a detail notify r gone = ground (
    arith,
    browsers-destroy_session e s a detail notify r,
    get-map_values b (unsubscribe s) r.browsers,
  )

  leave_from-Moves :
      (b : String) (entries : Map SessionMapping) (r : Relay)
      → get b r.browsers ≡ none
      → Moves r (leave_from e b entries r)
  unfolding leave_from leave_session
  leave_from-Moves b [] r gone = done
  leave_from-Moves b ((s, m) ∷ rest) r gone =
      let first : Move r (leave_session b s r) = left b s gone refl refl in
      elim (Bool-cases (is_empty (remove b m.browser_ids))) [
        | inl orphan ↦ rw orphan (
            Moves_trans
              (step (one first) (destroy_session-Move e s m.agent_id _ true (leave_session b s r)))
              (leave_from-Moves b rest _
                (get-destroy_session b s m.agent_id _ true (leave_session b s r) gone)))
        | inr kept ↦ rw kept (Moves_trans (one first) (leave_from-Moves b rest _ gone))
      ]

  pub handle_browser_disconnect-Moves :
      (b : String) (r : Relay) → get b r.browsers ≡ none → Moves r (handle_browser_disconnect e b r)
  unfolding handle_browser_disconnect
  handle_browser_disconnect-Moves b r gone = leave_from-Moves b r.sessions r gone

  end_from-Moves :
      (a : String) (entries : Map SessionMapping) (r : Relay) → Moves r (end_from a entries r)
  unfolding end_from drop_session unsubscribe_all_from_session
  end_from-Moves a [] r = done
  end_from-Moves a ((s, m) ∷ rest) r = elim (Bool-cases (m.agent_id == a)) [
    | inl hit ↦ rw hit (
        Moves_trans
          (one {r' = drop_session s (unsubscribe_all_from_session s r)} (closed s refl refl))
          (end_from-Moves a rest _))
    | inr miss ↦ rw miss (end_from-Moves a rest r)
  ]

  pub handle_agent_disconnect-Moves :
      (a token : String) (r : Relay) → Moves r (handle_agent_disconnect e a token r)
  unfolding handle_agent_disconnect
  handle_agent_disconnect-Moves a token r =
      Moves_trans
        (one_same (broadcast_to_owner-SameTables e token (RelayToBrowserMessage.agent_offline a) r))
        (end_from-Moves a r.sessions _)
