-- ===== src/Tabs/Shown.antt =====
-- packages/web/src/components/TerminalTabs.tsx: every event keeps what is shown among what is there.
use remote_ttys.Base.{String, true, false, List, ◌≡◌}
use remote_ttys.Tabs.{Tabs, is_open, is_active, TabEvent, created, closes, tab_step, mounted_tabs}
use remote_ttys.Tabs.Panes.{IsShown}

module _ {KeyPair HmacKey : Type 0} where
  abbrev pub Shows : Tabs KeyPair HmacKey → Type 0
  Shows t = IsShown t.sessions t.active t.split

  -- What the relay is relied on for: a session that was created has no tab yet. And a tab that is active
  -- when its closing ends was active when it was clicked.
  abbrev pub IsOrderly : TabEvent KeyPair → Tabs KeyPair HmacKey → Type 0
  IsOrderly (created id req key sig) t = is_open id t.sessions ≡ false
  IsOrderly (closes seen id) t = is_active t.active id ≡ true → is_active seen id ≡ true
  IsOrderly _ t = Unit

-- The states of a component that is mounted with these sessions.
pub data Shown (KeyPair HmacKey : Type 0) (ids : List String) : Tabs KeyPair HmacKey → Type 0 where
  mounted : Shown KeyPair HmacKey ids (mounted_tabs ids)
  goes_on :
      {t : Tabs KeyPair HmacKey}
      → Shown KeyPair HmacKey ids t
      → (ev : TabEvent KeyPair) → IsOrderly ev t
      → Shown KeyPair HmacKey ids (tab_step ev t)
