-- ===== src/Server/System/Invariant.antt =====
-- packages/relay/src/index.ts: what holds of the whole process, whatever it is asked.
use remote_ttys.Base.{ℕ, String, true, Option, none, some, List, ◌≡◌, refl, inl, inr}
use remote_ttys.Db.{Db, reset_all_agents_offline}
use remote_ttys.ServerKey.{KeyState, init_server_key}
use remote_ttys.Relay.Step.{Event, step}
use remote_ttys.Server.Tables.{handle-SameTables}
use remote_ttys.Relay.Reach.{IsFresh, Inv, step-Inv, boot-Inv}
use remote_ttys.Server.Requests.{Services, WebEnv, Server, Name}
use remote_ttys.Base.{Option-cases, Bool-cases}
use remote_ttys.Server.Upgrade.{on_upgrade}
use remote_ttys.Db.{has_users}
use remote_ttys.Server.Requests.{error}
use remote_ttys.Server.Accounts.{on_setup_init}
use remote_ttys.Relay.Reach.{boot-Inv}
use remote_ttys.Relay.Accounts.{SameAccounts}
use remote_ttys.Relay.Accounts.Events.{step-SameAccounts}
use remote_ttys.Db.Administered.{IsAdministered}
use remote_ttys.Db.Administered.Stays.{Stays, Stays-same}
use remote_ttys.Server.Admins.Requests.{handle-Stays}
use remote_ttys.Server.System.{
  start_server, SystemEvent, request, upgrade, callback, IsPlain, is_callback, after_upgrade,
  system_step, Runs, started, goes_on, Follows, here, later,
}
use remote_ttys.Server.System.Upgrades.{
  SameTables-Inv, After, Effect, on_upgrade-Effect, Effect-Inv, Effect-SameAccounts,
}

After-map :
    (P Q : Server → Type 0) (o : Option Server) → ((s : Server) → P s → Q s) → After P o → After Q o
After-map P Q none f h = tt
After-map P Q (some s) f h = f s h

-- What a step leaves, if it leaves a state: the invariant of the relay, and the users.
record IsSound (s s' : Server) : Type 0 where
  inv : Inv s.relay → Inv s'.relay
  users : Stays s.relay.db s'.relay.db

SameAccounts-Stays : (d d' : Db) → SameAccounts d d' → Stays d d'
SameAccounts-Stays d d' h = Stays-same d d' h.users h.next_user

module _ (v : Services) (e : WebEnv) (s : Server) (fresh : IsFresh e.env s.relay) where
  callback-IsSound : (ev : Event) → After (IsSound s) (system_step v e (callback ev) s)
  unfolding system_step
  callback-IsSound ev = elim (Bool-cases (is_callback ev)) [
    | inl runs ↦ elim (Option-cases (step e.env ev s.relay)) [
      | inl threw ↦ rw (runs, system_step) (rw threw tt)
      | inr (r, ran) ↦
          rw (runs, system_step)
            (rw ran (record {
              inv = λ h. step-Inv e.env ev s.relay r fresh ran h;
              users = SameAccounts-Stays s.relay.db r.db (step-SameAccounts e.env ev s.relay r ran);
            }))
    ]
    | inr never ↦
        rw (never, system_step) (record { inv = λ h. h; users = Stays-same _ _ refl refl })
  ]

  system_step-IsSound : (ev : SystemEvent) → IsPlain v ev → After (IsSound s) (system_step v e ev s)
  unfolding system_step
  system_step-IsSound (request req) plain = record {
    inv = λ h. SameTables-Inv s.relay _ (handle-SameTables v e req s) h;
    users = handle-Stays v e req plain s;
  }
  system_step-IsSound (upgrade ws u) plain =
      After-map (λ s'. Effect e.env ws s.relay s'.relay) (IsSound s)
        (after_upgrade (on_upgrade v e ws u s))
        (λ s' done. record {
          inv = λ h. Effect-Inv e.env ws s.relay s'.relay fresh h done;
          users =
              SameAccounts-Stays s.relay.db s'.relay.db
                (Effect-SameAccounts e.env ws s.relay s'.relay done);
        })
        (on_upgrade-Effect v e ws u s)
  system_step-IsSound (callback ev) plain = callback-IsSound ev

  step-IsSound :
      (ev : SystemEvent) (s' : Server)
      → IsPlain v ev
      → system_step v e ev s ≡ some s'
      → IsSound s s'
  step-IsSound ev s' plain ran = rw ran at (system_step-IsSound ev plain)

-- The database that the relay starts with has the same users.
abbrev IsSoundFrom : Db → Server → Type 0
IsSoundFrom db s = Inv s.relay × Stays db s.relay.db

start_server-IsSoundFrom :
    (v : Services) (e : WebEnv) (file : Option (List ℕ)) (db : Db)
    → After (IsSoundFrom db) (start_server v e file db)
unfolding start_server reset_all_agents_offline
start_server-IsSoundFrom v e file db =
    let unset : KeyState = record { private_key = none; public_key = ""; file = file } in
    elim (Bool-cases (init_server_key v.key_crypto e.new_key unset).0) [
      | inl good ↦
          rw (good, start_server) (boot-Inv (reset_all_agents_offline db), Stays-same _ _ refl refl)
      | inr bad ↦ rw (bad, start_server) tt
    ]

start-IsSoundFrom :
    (v : Services) (e : WebEnv) (file : Option (List ℕ)) (db : Db) (s : Server)
    → start_server v e file db ≡ some s
    → IsSoundFrom db s
start-IsSoundFrom v e file db s ran = rw ran at (start_server-IsSoundFrom v e file db)

-- In every state that the process reaches, by requests, upgrades and callbacks in any order with uuids
-- in no use, where the good web tokens of the requests name their users by texts, from a database
-- whose user ids ascend below the counter and which has an admin if it has users, the invariant of the
-- relay holds, the user ids ascend below the counter, and there is an admin if there are users.
pub Runs-Inv :
    {v : Services} {db : Db} {s : Server}
    → IsAdministered db
    → Runs v db s
    → Inv s.relay × IsAdministered s.relay.db
Runs-Inv {v} {db} ok (started e file ran) =
    let (inv, users) = start-IsSoundFrom v e file db _ ran in (inv, users.administered ok)
Runs-Inv {v} ok (goes_on {s} {s'} run e ev plain fresh ran) =
    let (inv, users) = Runs-Inv ok run in
    let sound = step-IsSound v e s fresh ev s' plain ran in
    (sound.inv inv, sound.users.administered users)

Follows-Runs :
    {v : Services} {db : Db} {s s' : Server} → Runs v db s → Follows v s s' → Runs v db s'
Follows-Runs run here = run
Follows-Runs run (later after e ev plain fresh ran) =
    goes_on (Follows-Runs run after) e ev plain fresh ran

stays_set_up :
    {v : Services} {db : Db} {s s' : Server}
    → IsAdministered db
    → Runs v db s
    → has_users s.relay.db ≡ true
    → Follows v s s'
    → has_users s'.relay.db ≡ true
stays_set_up ok run before here = before
stays_set_up {v} ok run before (later {s'} {s''} after e ev plain fresh ran) =
    let users = (Runs-Inv ok (Follows-Runs run after)).1 in
    (step-IsSound v e s' fresh ev s'' plain ran).users.still_set_up users
      (stays_set_up ok run before after)

-- Once the server is set up in a state that it reaches from a database whose user ids ascend below the
-- counter and which has an admin if it has users, the setup is refused in every state that follows,
-- and changes nothing, where the good web tokens of all requests name their users by texts.
pub set_up_once :
    {v : Services} {db : Db} {s s' : Server}
    → IsAdministered db
    → Runs v db s
    → has_users s.relay.db ≡ true
    → Follows v s s'
    → (e : WebEnv) (username : Option Name) (password : Option String)
    → on_setup_init v e username password s' ≡ (error 403 "Setup already completed", s')
unfolding on_setup_init
set_up_once {v} {db} {s} {s'} ok run before after e username password =
    rw (stays_set_up ok run before after, on_setup_init) refl
