-- ===== src/Tabs/Panes.antt =====
-- packages/web/src/components/TerminalTabs.tsx: what is shown is there. The active tab is one of the
-- tabs, and in a split each pane's active tab is one of that pane.
use remote_ttys.Base.{
  ◌+◌, String, Bool, true, false, ◌||◌, Option, none, some, List, [], ◌∷◌, ◌++◌, length, has, eqb,
  ◌==◌, ◌≡◌, refl, sym, subst, inl, inr, Bool-cases, eq_iff, eq_refl, arith,
}
use remote_ttys.Base.Texts.{◌<>◌, show_ℕ}
use remote_ttys.Db.{select_all, delete_where, update_where}
use remote_ttys.Tabs.{SessionInfo, SplitState, has_id, is_open, first_id, first_id_or, add_tab}

-- Both panes show one of their own tabs, and the right pane has open tabs only.
pub record IsSplitSane (sessions : List SessionInfo) (split : SplitState) : Type 0 where
  pub left_open : is_open split.left_active_id sessions ≡ true
  pub left_side : has split.left_active_id split.right_session_ids ≡ false
  pub right_open : is_open split.right_active_id sessions ≡ true
  pub right_side : has split.right_active_id split.right_session_ids ≡ true
  pub right_tabs :
      (id : String) → has id split.right_session_ids ≡ true → is_open id sessions ≡ true

abbrev pub IsActiveOpen : List SessionInfo → Option String → Type 0
IsActiveOpen sessions none = Unit
IsActiveOpen sessions (some a) = is_open a sessions ≡ true

abbrev pub IsShown : List SessionInfo → Option String → Option SplitState → Type 0
IsShown sessions active none = IsActiveOpen sessions active
IsShown sessions active (some split) = IsSplitSane sessions split

pub is_open-append :
    (id : String) (xs ys : List SessionInfo)
    → is_open id (xs ++ ys) ≡ (is_open id xs || is_open id ys)
is_open-append id [] ys = refl
is_open-append id (x ∷ xs) ys = ground (arith, is_open-append id xs ys)

pub is_open-update_where :
    (p : SessionInfo → Bool) (f : SessionInfo → SessionInfo)
    (keeps : (s : SessionInfo) → (f s).session_id ≡ s.session_id) (id : String)
    (xs : List SessionInfo)
    → is_open id (update_where p f xs) ≡ is_open id xs
unfolding update_where
is_open-update_where p f keeps id [] = refl
is_open-update_where p f keeps id (x ∷ xs) =
    ground (arith, is_open-update_where p f keeps id xs, keeps x)

pub is_open-delete_where :
    (gone id : String) (xs : List SessionInfo)
    → (gone == id) ≡ false
    → is_open id xs ≡ true
    → is_open id (delete_where (has_id gone) xs) ≡ true
unfolding delete_where
is_open-delete_where gone id [] differ there = there
is_open-delete_where gone id (x ∷ xs) differ there = ground (
  arith,
  is_open-delete_where gone id xs,
  eq_iff x.session_id gone,
  eq_iff x.session_id id,
  eq_iff gone id,
)

is_open-cons :
    (id : String) (x : SessionInfo) (xs : List SessionInfo)
    → is_open id xs ≡ true
    → is_open id (x ∷ xs) ≡ true
is_open-cons id x xs there = ground arith

-- A tab that a filter keeps first is open and passes the filter.
pub first_id-is_open :
    (p : SessionInfo → Bool) (d : String) (xs : List SessionInfo)
    → eqb (length (select_all p xs)) 0 ≡ false
    → is_open (first_id_or (select_all p xs) d) xs ≡ true
unfolding select_all
first_id-is_open p d [] some_ = absurd (ground arith)
first_id-is_open p d (x ∷ xs) some_ = elim (Bool-cases (p x)) [
  | inl good ↦ rw good (ground (arith, eq_refl x.session_id))
  | inr bad ↦
      let same : select_all p (x ∷ xs) ≡ select_all p xs = rw (bad, select_all) refl in
      subst (λ ys. is_open (first_id_or ys d) (x ∷ xs) ≡ true) (sym same)
        (is_open-cons _ x xs
          (first_id-is_open p d xs (subst (λ ys. eqb (length ys) 0 ≡ false) same some_)))
]

pub first_id-passes :
    (q : String → Bool) (d : String) (xs : List SessionInfo)
    → eqb (length (select_all (λ s. q s.session_id) xs)) 0 ≡ false
    → q (first_id_or (select_all (λ s. q s.session_id) xs) d) ≡ true
unfolding select_all
first_id-passes q d [] some_ = absurd (ground arith)
first_id-passes q d (x ∷ xs) some_ = elim (Bool-cases (q x.session_id)) [
  | inl good ↦ rw good good
  | inr bad ↦ rw bad (first_id-passes q d xs (ground (arith, some_)))
]

pub first_id-IsActiveOpen : (xs : List SessionInfo) → IsActiveOpen xs (first_id xs)
first_id-IsActiveOpen [] = tt
first_id-IsActiveOpen (x ∷ xs) = ground (arith, eq_refl x.session_id)

pub is_open-last :
    (id : String) (x : SessionInfo) (xs : List SessionInfo)
    → is_open id xs ≡ true
    → is_open id (xs ++ x ∷ []) ≡ true
is_open-last id x xs there = ground (arith, is_open-append id xs (x ∷ []))

module _ (id : String) (xs : List SessionInfo) where
  pub add_tab-is_open : is_open id (add_tab id xs) ≡ true
  unfolding add_tab
  add_tab-is_open = ground (
    arith,
    is_open-append id xs (
        record {
          session_id = id;
          label = "Terminal " <> show_ℕ (length xs + 1);
          exited = false;
          is_existing = false;
        }
        ∷ []),
    eq_refl id,
  )

  pub add_tab-keeps :
      (other : String) → is_open other xs ≡ true → is_open other (add_tab id xs) ≡ true
  unfolding add_tab
  add_tab-keeps other there = ground (
    arith,
    is_open-append other xs (
        record {
          session_id = id;
          label = "Terminal " <> show_ℕ (length xs + 1);
          exited = false;
          is_existing = false;
        }
        ∷ []),
  )

-- Whatever keeps the open tabs open keeps what is shown.
pub IsShown-keeps :
    (xs ys : List SessionInfo) (active : Option String) (split : Option SplitState)
    → ((id : String) → is_open id xs ≡ true → is_open id ys ≡ true)
    → IsShown xs active split
    → IsShown ys active split
IsShown-keeps xs ys none none keeps h = tt
IsShown-keeps xs ys (some a) none keeps h = keeps a h
IsShown-keeps xs ys active (some split) keeps h = record {
  left_open = keeps _ h.left_open;
  left_side = h.left_side;
  right_open = keeps _ h.right_open;
  right_side = h.right_side;
  right_tabs = λ id inside. keeps id (h.right_tabs id inside);
}
