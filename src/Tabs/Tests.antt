-- ===== src/Tabs/Tests.antt =====
-- packages/web/src/components/TerminalTabs.tsx: two terminals side by side, one of which is closed.
use remote_ttys.Base.{ℕ, some, [], ◌∷◌}
use remote_ttys.Tabs.{Tabs, created, splits, tab_step, mounted_tabs}
use remote_ttys.Tabs.Shown.{Shown}

abbrev side_by_side : Tabs ℕ ℕ
side_by_side =
    tab_step splits (tab_step (created "s3" (some "r1") "key" "sig") (mounted_tabs ("s1" ∷ [])))
