-- ===== src/Relay/Moves/Alone.antt =====
-- Every move keeps the keys of the tables distinct, and every session with one browser at most.
use remote_ttys.Base.{
  ℕ, ◌≤◌, String, List, [], ◌∷◌, Map, set, delete, modify, remove, length, IsUnique, set-IsUnique,
  delete-IsUnique, modify-IsUnique, map_values-IsUnique, arith,
}
use remote_ttys.Relay.{SessionMapping, Relay}
use remote_ttys.Relay.BrowserHub.{unsubscribe}
use remote_ttys.Relay.Router.Sessions.{set_activity}
use remote_ttys.Relay.Router.Disconnect.{leave}
use remote_ttys.Relay.Moves.{
  Move, Moves, done, step, same, touched, closed, resubscribed, opened, joined, forget, left,
}

pub record HasUniqueKeys (r : Relay) : Type 0 where
  pub browsers : IsUnique r.browsers
  pub sessions : IsUnique r.sessions

Move-HasUniqueKeys : {r r' : Relay} → Move r r' → HasUniqueKeys r → HasUniqueKeys r'
Move-HasUniqueKeys (same k) u = record {
  browsers = rw k.same_browsers u.browsers;
  sessions = rw k.same_sessions u.sessions;
}
Move-HasUniqueKeys (touched t now p q) u = record {
  browsers = rw p u.browsers;
  sessions = rw q (modify-IsUnique t _ _ u.sessions);
}
Move-HasUniqueKeys (closed t p q) u = record {
  browsers = rw p (map_values-IsUnique (unsubscribe t) _ u.browsers);
  sessions = rw q (delete-IsUnique t _ u.sessions);
}
Move-HasUniqueKeys (resubscribed d t m p q) u = record {
  browsers = rw p (modify-IsUnique d _ _ u.browsers);
  sessions = rw q u.sessions;
}
Move-HasUniqueKeys (opened b a s o) u = record {
  browsers = rw o.subscribed (modify-IsUnique b _ _ u.browsers);
  sessions = rw o.entered (set-IsUnique s _ _ u.sessions);
}
Move-HasUniqueKeys (joined d c new fresh unknown room p q) u = record {
  browsers = rw p (set-IsUnique d c _ u.browsers);
  sessions = rw q u.sessions;
}
Move-HasUniqueKeys (left d t gone p q) u = record {
  browsers = rw p u.browsers;
  sessions = rw q (modify-IsUnique t _ _ u.sessions);
}

pub Moves-HasUniqueKeys : {r r' : Relay} → Moves r r' → HasUniqueKeys r → HasUniqueKeys r'
Moves-HasUniqueKeys done u = u
Moves-HasUniqueKeys (step k m) u = Move-HasUniqueKeys m (Moves-HasUniqueKeys k u)

-- A session has one browser at most.
abbrev pub IsAlone : SessionMapping → Type 0
IsAlone m = length m.browser_ids ≤ 1

abbrev pub AreAlone : Map SessionMapping → Type 0
AreAlone [] = Unit
AreAlone ((s, m) ∷ rest) = IsAlone m × AreAlone rest

length-remove : (b : String) (xs : List String) → length (remove b xs) ≤ length xs
unfolding remove
length-remove b [] = omega arith
length-remove b (x ∷ xs) = ground (arith, length-remove b xs)

AreAlone-modify :
    (t : String) (f : SessionMapping → SessionMapping) (m : Map SessionMapping)
    → ((v : SessionMapping) → IsAlone v → IsAlone (f v))
    → AreAlone m
    → AreAlone (modify t f m)
unfolding modify
AreAlone-modify t f [] keep h = tt
AreAlone-modify t f ((s, v) ∷ m) keep h = ground (arith, keep v, AreAlone-modify t f m keep h.1)

AreAlone-delete : (t : String) (m : Map SessionMapping) → AreAlone m → AreAlone (delete t m)
unfolding delete
AreAlone-delete t [] h = tt
AreAlone-delete t ((s, v) ∷ m) h = ground (arith, AreAlone-delete t m h.1)

AreAlone-set :
    (t : String) (v : SessionMapping) (m : Map SessionMapping)
    → IsAlone v
    → AreAlone m
    → AreAlone (set t v m)
unfolding set
AreAlone-set t v [] one h = (one, tt)
AreAlone-set t v ((s, w) ∷ m) one h = ground (arith, AreAlone-set t v m one h.1)

leave-IsAlone : (d : String) (v : SessionMapping) → IsAlone v → IsAlone (leave d v)
unfolding leave
leave-IsAlone d v h = omega (arith, length-remove d v.browser_ids)

set_activity-IsAlone : (now : ℕ) (v : SessionMapping) → IsAlone v → IsAlone (set_activity now v)
unfolding set_activity
set_activity-IsAlone now v h = h

Move-AreAlone : {r r' : Relay} → Move r r' → AreAlone r.sessions → AreAlone r'.sessions
Move-AreAlone (same k) h = rw k.same_sessions h
Move-AreAlone (touched t now p q) h = rw q (AreAlone-modify t _ _ (set_activity-IsAlone now) h)
Move-AreAlone (closed t p q) h = rw q (AreAlone-delete t _ h)
Move-AreAlone (resubscribed d t m p q) h = rw q h
Move-AreAlone (opened b a s o) h =
    rw o.entered (AreAlone-set s o.mapping _ (rw o.of_browser (omega arith)) h)
Move-AreAlone (joined d c new fresh unknown room p q) h = rw q h
Move-AreAlone (left d t gone p q) h = rw q (AreAlone-modify t _ _ (leave-IsAlone d) h)

pub Moves-AreAlone : {r r' : Relay} → Moves r r' → AreAlone r.sessions → AreAlone r'.sessions
Moves-AreAlone done h = h
Moves-AreAlone (step k m) h = Move-AreAlone m (Moves-AreAlone k h)

pub forget-HasUniqueKeys : (b : String) (r : Relay) → HasUniqueKeys r → HasUniqueKeys (forget b r)
unfolding forget
forget-HasUniqueKeys b r u = record {
  browsers = delete-IsUnique b _ u.browsers;
  sessions = u.sessions;
}
