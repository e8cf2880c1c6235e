-- ===== src/Tabs/Splits.antt =====
-- packages/web/src/components/TerminalTabs.tsx: the two panes when a tab comes and when one is closed.
use remote_ttys.Base.{
  String, Bool, true, false, not, ◌||◌, List, length, has, has-add, has-remove, remove, leb, eqb,
  ◌==◌, ◌≡◌, sym, subst, inl, inr, Bool-cases, eq_iff, eq_refl, arith, if◌then◌else◌,
}
use remote_ttys.Db.{select_all, delete_where}
use remote_ttys.Tabs.{
  SessionInfo, SplitState, has_id, is_open, in_right, first_id, first_id_or, add_tab, focus_new,
  close_in_split,
}
use remote_ttys.Tabs.Panes.{
  IsSplitSane, IsShown, is_open-delete_where, first_id-IsActiveOpen, first_id-is_open,
  first_id-passes, add_tab-is_open, add_tab-keeps,
}

unopened :
    (a b : String) (xs : List SessionInfo)
    → is_open a xs ≡ true
    → is_open b xs ≡ false
    → (b == a) ≡ false
unopened a b xs there missing = elim (Bool-cases (b == a)) [
  | inl same ↦ absurd (
      let it : is_open b xs ≡ true =
        subst (λ c. is_open c xs ≡ true) (sym ((eq_iff b a).0 same)) there in
      cc)
  | inr differ ↦ differ
]

pub focus_new-IsSplitSane :
    (id : String) (right : Bool) (xs : List SessionInfo) (split : SplitState)
    → is_open id xs ≡ false
    → IsSplitSane xs split
    → IsSplitSane (add_tab id xs) (focus_new id right split)
unfolding focus_new
focus_new-IsSplitSane id true xs split fresh h = record {
  left_open = add_tab-keeps id xs _ h.left_open;
  left_side = ground (
    arith,
    has-add id split.left_active_id split.right_session_ids,
    h.left_side,
    unopened split.left_active_id id xs h.left_open fresh,
  );
  right_open = add_tab-is_open id xs;
  right_side = ground (arith, has-add id id split.right_session_ids, eq_refl id);
  right_tabs = λ other inside. elim (Bool-cases (id == other)) [
    | inl same ↦
        subst (λ c. is_open c (add_tab id xs) ≡ true) ((eq_iff id other).0 same)
          (add_tab-is_open id xs)
    | inr differ ↦
        add_tab-keeps id xs other
          (h.right_tabs other (ground (arith, has-add id other split.right_session_ids)))
  ];
}
focus_new-IsSplitSane id false xs split fresh h = record {
  left_open = add_tab-is_open id xs;
  left_side = elim (Bool-cases (has id split.right_session_ids)) [
    | inl inside ↦ absurd (let it = h.right_tabs id inside in cc)
    | inr outside ↦ outside
  ];
  right_open = add_tab-keeps id xs _ h.right_open;
  right_side = h.right_side;
  right_tabs = λ other inside. add_tab-keeps id xs other (h.right_tabs other inside);
}

-- The panes without a tab that is closed.
module _ (id : String) (xs : List SessionInfo) (split : SplitState) (h : IsSplitSane xs split) where
  abbrev rest : List SessionInfo
  rest = delete_where (has_id id) xs

  abbrev ids : List String
  ids = remove id split.right_session_ids

  new_left :
      eqb (length (select_all (λ s. not (in_right ids s)) rest)) 0 ≡ false
      → (is_open
            (if id == split.left_active_id
              then first_id_or (select_all (λ s. not (in_right ids s)) rest) split.left_active_id
              else split.left_active_id)
            rest
          ≡ true)
        × (has
              (if id == split.left_active_id
                then first_id_or (select_all (λ s. not (in_right ids s)) rest) split.left_active_id
                else split.left_active_id)
              ids
            ≡ false)
  new_left some_ = elim (Bool-cases (id == split.left_active_id)) [
    | inl gone ↦
        let passes = first_id-passes (λ i. not (has i ids)) split.left_active_id rest some_ in
        rw gone (
          first_id-is_open (λ s. not (in_right ids s)) split.left_active_id rest some_,
          ground (arith, passes),
        )
    | inr kept ↦ rw kept (
      is_open-delete_where id split.left_active_id xs kept h.left_open,
      ground (arith, has-remove id split.left_active_id split.right_session_ids, h.left_side),
    )
  ]

  new_right :
      eqb (length (select_all (in_right ids) rest)) 0 ≡ false
      → (is_open
            (if id == split.right_active_id
              then first_id_or (select_all (in_right ids) rest) split.right_active_id
              else split.right_active_id)
            rest
          ≡ true)
        × (has
              (if id == split.right_active_id
                then first_id_or (select_all (in_right ids) rest) split.right_active_id
                else split.right_active_id)
              ids
            ≡ true)
  new_right some_ = elim (Bool-cases (id == split.right_active_id)) [
    | inl gone ↦ rw gone (
      first_id-is_open (in_right ids) split.right_active_id rest some_,
      first_id-passes (λ i. has i ids) split.right_active_id rest some_,
    )
    | inr kept ↦ rw kept (
      is_open-delete_where id split.right_active_id xs kept h.right_open,
      ground (arith, has-remove id split.right_active_id split.right_session_ids, h.right_side),
    )
  ]

  new_tabs : (other : String) → has other ids ≡ true → is_open other rest ≡ true
  new_tabs other inside = elim (Bool-cases (id == other)) [
    | inl same ↦ absurd (ground (arith, has-remove id other split.right_session_ids))
    | inr differ ↦
        is_open-delete_where id other xs differ
          (h.right_tabs other (ground (arith, has-remove id other split.right_session_ids)))
  ]

  -- What a tab's closing leaves of a split is sane, if it leaves one.
  pub close_in_split-IsShown : IsShown rest (first_id rest) (close_in_split id rest split)
  unfolding close_in_split
  close_in_split-IsShown =
      elim (Bool-cases (
        leb (length rest) 1
        || (eqb (length (select_all (λ s. not (in_right ids s)) rest)) 0
            || eqb (length (select_all (in_right ids) rest)) 0))) [
              | inl few ↦ rw (few, close_in_split) (first_id-IsActiveOpen rest)
              | inr many ↦
                  let left = new_left (ground arith) in
                  let right = new_right (ground arith) in
                  rw (many, close_in_split)
                    (record {
                      left_open = left.0;
                      left_side = left.1;
                      right_open = right.0;
                      right_side = right.1;
                      right_tabs = new_tabs;
                    })
            ]
