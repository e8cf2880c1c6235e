-- ===== src/Tabs.antt =====
-- packages/web/src/components/TerminalTabs.tsx: the tabs of an agent's terminals, their two panes, and
-- the key pairs of the sessions. The handlers get the messages of this agent; the ratio of the
-- divider, the fields that a tab only shows and the timer of the error are left out. Ids are not empty.
pub mod Panes
pub mod Splits
pub mod Shown
pub mod Tests
use remote_ttys.Base.{
  ℕ, suc, ◌+◌, String, Bool, true, false, not, ◌&&◌, ◌||◌, Option, none, some, List, [], ◌∷◌, ◌++◌,
  Map, get, set, delete, map, any, length, has, add, remove, leb, ltb, eqb, ◌==◌, if◌then◌else◌,
}
use remote_ttys.Base.Texts.{truthy, ◌<>◌, show_ℕ}
use remote_ttys.Db.{select_first, select_all, delete_where, update_where}

pub record SessionInfo : Type 0 where
  pub session_id : String
  pub label : String
  pub exited : Bool
  pub is_existing : Bool

pub record SplitState : Type 0 where
  pub right_session_ids : List String
  pub left_active_id : String
  pub right_active_id : String

-- The state of the component and its maps; `KeyPair` and `HmacKey` are keys of the Web Crypto API.
pub record Tabs (KeyPair HmacKey : Type 0) : Type 0 where
  pub sessions : List SessionInfo
  pub active : Option String
  pub split : Option SplitState
  pub right_focused : Bool
  pub pending_key_pairs : Map KeyPair
  pub session_key_pairs : Map KeyPair
  pub key_exchanges : Map (String × String)
  pub hmac_keys : Map HmacKey
  pub create_error : Option String

abbrev pub has_id : String → SessionInfo → Bool
has_id id s = s.session_id == id

-- Whether there is a tab of the session.
abbrev pub is_open : String → List SessionInfo → Bool
is_open id sessions = any (has_id id) sessions

abbrev pub in_right : List String → SessionInfo → Bool
in_right ids s = has s.session_id ids

abbrev pub first_id : List SessionInfo → Option String
first_id [] = none
first_id (s ∷ sessions) = some s.session_id

abbrev pub first_id_or : List SessionInfo → String → String
first_id_or [] id = id
first_id_or (s ∷ sessions) id = s.session_id

-- `Terminal ${n}` for the sessions in turn, `n` the number of the first.
unfoldable pub existing_tabs : ℕ → List String → List SessionInfo
existing_tabs n [] = []
existing_tabs n (id ∷ ids) =
    record { session_id = id; label = "Terminal " <> show_ℕ n; exited = false; is_existing = true }
    ∷ existing_tabs (n + 1) ids

-- The first effect, where there are sessions already; otherwise a session is requested.
unfoldable pub mount : List String → List SessionInfo × Option String
mount ids = (existing_tabs 1 ids, first_id (existing_tabs 1 ids))

-- `prev.some(...) ? prev : [...prev, ...]`
unfoldable pub add_tab : String → List SessionInfo → List SessionInfo
add_tab id sessions =
    if is_open id sessions
    then sessions
    else sessions
      ++ record {
        session_id = id;
        label = "Terminal " <> show_ℕ (length sessions + 1);
        exited = false;
        is_existing = false;
      }
        ∷ []

unfoldable pub focus_new : String → Bool → SplitState → SplitState
focus_new id right split =
    if right
    then record split { right_session_ids = add id split.right_session_ids; right_active_id = id }
    else record split { left_active_id = id }

-- The panes after a tab is closed: `none` where one of them would be empty.
unfoldable pub close_in_split : String → List SessionInfo → SplitState → Option SplitState
close_in_split id remaining split =
    let right_ids = remove id split.right_session_ids in
    let left = select_all (λ s. not (in_right right_ids s)) remaining in
    let right = select_all (in_right right_ids) remaining in
    if leb (length remaining) 1 || (eqb (length left) 0 || eqb (length right) 0)
    then none
    else some (record {
      right_session_ids = right_ids;
      left_active_id =
          if id == split.left_active_id
          then first_id_or left split.left_active_id
          else split.left_active_id;
      right_active_id =
          if id == split.right_active_id
          then first_id_or right split.right_active_id
          else split.right_active_id;
    })

abbrev pub is_active : Option String → String → Bool
is_active none id = false
is_active (some a) id = a == id

module _ (KeyPair HmacKey : Type 0) where
  -- `createSession`, when the key pair is there, and the timer that drops it.
  unfoldable pub request_session : String → KeyPair → Tabs KeyPair HmacKey → Tabs KeyPair HmacKey
  request_session req pair t = record t { pending_key_pairs = set req pair t.pending_key_pairs }

  unfoldable pub drop_request : String → Tabs KeyPair HmacKey → Tabs KeyPair HmacKey
  drop_request req t = record t { pending_key_pairs = delete req t.pending_key_pairs }

  -- The key pair of the request becomes that of the session.
  unfoldable pub bind_keys : String → Option String → Tabs KeyPair HmacKey → Tabs KeyPair HmacKey
  bind_keys id req t = elim (truthy req) [
    | none ↦ t
    | some r ↦ elim (get r t.pending_key_pairs) [
      | none ↦ t
      | some pair ↦ record t {
        pending_key_pairs = delete r t.pending_key_pairs;
        session_key_pairs = set id pair t.session_key_pairs;
      }
    ]
  ]

  unfoldable pub keep_exchange :
      String → String → String → Tabs KeyPair HmacKey → Tabs KeyPair HmacKey
  keep_exchange id public_key signature t =
      if public_key == "" || signature == ""
      then t
      else record t { key_exchanges = set id (public_key, signature) t.key_exchanges }

  unfoldable pub show_new : String → Tabs KeyPair HmacKey → Tabs KeyPair HmacKey
  show_new id t = elim t.split [
    | some split ↦ record t { split = some (focus_new id t.right_focused split) }
    | none ↦ elim t.active [ none ↦ record t { active = some id } | some a ↦ t ]
  ]

  -- `pty.created`
  unfoldable pub on_created :
      String → Option String → String → String → Tabs KeyPair HmacKey → Tabs KeyPair HmacKey
  on_created id req public_key signature t =
      let t1 = keep_exchange id public_key signature (bind_keys id req t) in
      show_new id (record t1 { sessions = add_tab id t1.sessions })

  -- `pty.exited`
  unfoldable pub on_exited : String → Tabs KeyPair HmacKey → Tabs KeyPair HmacKey
  on_exited id t = record t {
    sessions = update_where (has_id id) (λ s. record s { exited = true }) t.sessions;
  }

  -- `agent.offline`
  unfoldable pub on_offline : Tabs KeyPair HmacKey → Tabs KeyPair HmacKey
  on_offline t = record t {
    sessions = update_where (λ s. not s.exited) (λ s. record s { exited = true }) t.sessions;
  }

  -- The effect of a change of the sessions that the agent reports.
  unfoldable pub on_existing : List String → Tabs KeyPair HmacKey → Tabs KeyPair HmacKey
  on_existing [] t = t
  on_existing (id ∷ ids) t =
      let fresh = select_all (λ i. not (is_open i t.sessions)) (id ∷ ids) in
      record t {
        sessions = t.sessions ++ existing_tabs (length t.sessions + 1) fresh;
        active = elim t.active [ none ↦ some id | some a ↦ some a ];
      }

  -- `pty.create.error`
  unfoldable pub on_create_error :
      String → Option String → Tabs KeyPair HmacKey → Tabs KeyPair HmacKey
  on_create_error error req t = elim (truthy req) [
    | none ↦ record t { create_error = some error }
    | some r ↦ record (drop_request r t) { create_error = some error }
  ]

  unfoldable pub close_panes :
      (seen : Option String)
      → String
      → List SessionInfo
      → Tabs KeyPair HmacKey
      → Tabs KeyPair HmacKey
  close_panes seen id remaining t = elim t.split [
    | some split ↦ elim (close_in_split id remaining split) [
      | none ↦ record t { split = none; active = first_id remaining }
      | some split' ↦ record t { split = some split' }
    ]
    | none ↦ if is_active seen id then record t { active = first_id remaining } else t
  ]

  -- `handleCloseTab` up to the wait: a session that runs is closed, with an HMAC where there is a key.
  unfoldable pub close_request :
      (HmacKey → String → String) → String → Tabs KeyPair HmacKey → Option (String × Option String)
  close_request compute_close_hmac id t = elim (select_first (has_id id) t.sessions) [
    | none ↦ none
    | some session ↦
        if session.exited
        then none
        else some (
          id,
          elim (get id t.hmac_keys) [ none ↦ none | some key ↦ some (compute_close_hmac key id) ],
        )
  ]

  -- `handleCloseTab` from the end of its wait on: `seen` is the active tab that the click saw, while the
  -- tabs and the split are read afresh, the tabs by an updater, which runs at once.
  unfoldable pub close_tab :
      (seen : Option String) → String → Tabs KeyPair HmacKey → Tabs KeyPair HmacKey
  close_tab seen id t =
      let remaining = delete_where (has_id id) t.sessions in
      close_panes seen id remaining (record t {
        sessions = remaining;
        session_key_pairs = delete id t.session_key_pairs;
        key_exchanges = delete id t.key_exchanges;
        hmac_keys = delete id t.hmac_keys;
      })

  unfoldable pub open_split : String → Tabs KeyPair HmacKey → Tabs KeyPair HmacKey
  open_split active t =
      elim (select_first (λ (s : SessionInfo). not (s.session_id == active)) t.sessions) [
        | none ↦ t
        | some right ↦ record t {
          split = some (record {
            right_session_ids = right.session_id ∷ [];
            left_active_id = active;
            right_active_id = right.session_id;
          });
        }
      ]

  -- `handleSplit`
  unfoldable pub toggle_split : Tabs KeyPair HmacKey → Tabs KeyPair HmacKey
  toggle_split t = elim t.split [
    | some split ↦ record t {
      split = none;
      active = some (if t.right_focused then split.right_active_id else split.left_active_id);
    }
    | none ↦
        if ltb (length t.sessions) 2
        then t
        else elim t.active [ none ↦ t | some a ↦ open_split a t ]
  ]

  -- A click on a tab, which is there to be clicked; and, in a pane, on one of that pane.
  unfoldable pub select_tab : String → Tabs KeyPair HmacKey → Tabs KeyPair HmacKey
  select_tab id t = if is_open id t.sessions then record t { active = some id } else t

  unfoldable pub select_in_pane : Bool → String → Tabs KeyPair HmacKey → Tabs KeyPair HmacKey
  select_in_pane right id t = elim t.split [
    | none ↦ record t { right_focused = right }
    | some split ↦
        if is_open id t.sessions
          && (if right
              then has id split.right_session_ids
              else not (has id split.right_session_ids))
        then record t {
          right_focused = right;
          split = some (
              if right
              then record split { right_active_id = id }
              else record split { left_active_id = id });
        }
        else t
  ]

  -- A press of the mouse in a pane.
  unfoldable pub focus_pane : Bool → Tabs KeyPair HmacKey → Tabs KeyPair HmacKey
  focus_pane right t = record t { right_focused = right }

-- The component after its first effect.
unfoldable pub mounted_tabs : {KeyPair HmacKey : Type 0} → List String → Tabs KeyPair HmacKey
mounted_tabs ids =
    let (sessions, active) = mount ids in
    record {
      sessions = sessions;
      active = active;
      split = none;
      right_focused = false;
      pending_key_pairs = [];
      session_key_pairs = [];
      key_exchanges = [];
      hmac_keys = [];
      create_error = none;
    }

-- What happens to the component, messages of its agent and clicks.
pub data TabEvent (KeyPair : Type 0) : Type 0 where
  requests : (req : String) → KeyPair → TabEvent KeyPair
  times_out : (req : String) → TabEvent KeyPair
  created : (id : String) (req : Option String) (public_key signature : String) → TabEvent KeyPair
  exited : (id : String) → TabEvent KeyPair
  offline : TabEvent KeyPair
  existing : List String → TabEvent KeyPair
  create_failed : (error : String) (req : Option String) → TabEvent KeyPair
  closes : (seen : Option String) (id : String) → TabEvent KeyPair
  splits : TabEvent KeyPair
  selects : (id : String) → TabEvent KeyPair
  selects_in_pane : (right : Bool) (id : String) → TabEvent KeyPair
  focuses : (right : Bool) → TabEvent KeyPair

unfoldable pub tab_step :
    {KeyPair HmacKey : Type 0} → TabEvent KeyPair → Tabs KeyPair HmacKey → Tabs KeyPair HmacKey
tab_step {KeyPair} {HmacKey} (requests req pair) t = request_session KeyPair HmacKey req pair t
tab_step {KeyPair} {HmacKey} (times_out req) t = drop_request KeyPair HmacKey req t
tab_step {KeyPair} {HmacKey} (created id req key sig) t =
    on_created KeyPair HmacKey id req key sig t
tab_step {KeyPair} {HmacKey} (exited id) t = on_exited KeyPair HmacKey id t
tab_step {KeyPair} {HmacKey} offline t = on_offline KeyPair HmacKey t
tab_step {KeyPair} {HmacKey} (existing ids) t = on_existing KeyPair HmacKey ids t
tab_step {KeyPair} {HmacKey} (create_failed error req) t =
    on_create_error KeyPair HmacKey error req t
tab_step {KeyPair} {HmacKey} (closes seen id) t = close_tab KeyPair HmacKey seen id t
tab_step {KeyPair} {HmacKey} splits t = toggle_split KeyPair HmacKey t
tab_step {KeyPair} {HmacKey} (selects id) t = select_tab KeyPair HmacKey id t
tab_step {KeyPair} {HmacKey} (selects_in_pane right id) t =
    select_in_pane KeyPair HmacKey right id t
tab_step {KeyPair} {HmacKey} (focuses right) t = focus_pane KeyPair HmacKey right t
