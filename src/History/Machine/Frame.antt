-- ===== src/History/Machine/Frame.antt =====
-- What the operations on groups and stacks leave alone: the pending failure and the corrections.
use norves_editor.Common.{
  ℕ, suc, ◌≡◌, refl, ◌∙◌, inl, inr, Bool, String, Option, none, some, List, arith, length, leb,
  Bool-cases, string_eq, nat_eq, option_eq,
}
use norves_editor.History.Corrections.{CorrectionCache}
use norves_editor.History.State.{HistoryState, pop_action_entry_id, close_active_group}
use norves_editor.History.Groups.{
  max_edits, expire_group, begin_group, end_group, close_group_unless, with_secret,
  begin_named_group, group_boundary, end_named_group, revoke_mcp_group,
}
use norves_editor.History.Recording.Cases.{file_cases}
use norves_editor.History.Recording.{join_group, close_if_full, file, file_in_group, file_alone}
use norves_editor.History.Actions.{discard_action}
use norves_editor.History.Finish.{remap_group_ids, remap_changed, move_to}
use norves_editor.History.Types.{
  EditSource, source_eq, HistoryDirection, HistoryMarker, HistoryRecord, GroupKey, group_key_eq,
  HistoryEntry, ActiveGroup, PendingGroupAction, HistoryOperationContext, HistoryAction,
}

module _ {V : Type 0} where
  -- The pending failure and the corrections.
  abbrev pub kept : HistoryState V → Bool × Option PendingGroupAction × CorrectionCache V
  kept s = (s.pending, s.pending_group, s.corrections)

  kept-close_active_group : (s : HistoryState V) → kept (close_active_group s).0 ≡ kept s
  unfolding close_active_group
  kept-close_active_group s = ground arith

  pub kept-expire_group : (s : HistoryState V) (now : ℕ) → kept (expire_group s now).0 ≡ kept s
  unfolding expire_group
  kept-expire_group s now = ground (arith, kept-close_active_group s)

  kept-join_group :
      (s : HistoryState V) (g : ActiveGroup V) (m : HistoryMarker) (x : HistoryRecord V) (now : ℕ)
      → kept (join_group s g m x now) ≡ kept s
  unfolding join_group
  kept-join_group s g m x now = refl

  kept-close_if_full : (s : HistoryState V) (n : ℕ) → kept (close_if_full s n) ≡ kept s
  unfolding close_if_full
  kept-close_if_full s n = elim (Bool-cases (leb max_edits n)) [
    | inl full ↦ rw (full, close_if_full) (kept-close_active_group s)
    | inr room ↦ rw (room, close_if_full) refl
  ]

  kept-file_in_group :
      (s : HistoryState V) (g : ActiveGroup V) (m : HistoryMarker) (x : HistoryRecord V)
      (now later : ℕ)
      → kept (file_in_group s g m x now later) ≡ kept s
  unfolding file_in_group
  kept-file_in_group s g m x now later =
      kept-expire_group (close_if_full (join_group s g m x now) (suc (length g.entries))) later
      ∙ kept-close_if_full (join_group s g m x now) (suc (length g.entries))
      ∙ kept-join_group s g m x now

  pub kept-file :
      (s : HistoryState V) (c : HistoryOperationContext) (o : Option (HistoryRecord V))
      (now later unix : ℕ)
      → kept (file s c o now later unix) ≡ kept s
  kept-file s c o now later unix =
      file_cases (λ s'. kept s' ≡ kept s) s c o now later unix refl
        (λ m x. unfold file_alone in refl) (λ g m x e. kept-file_in_group s g m x now later)

  pub kept-pop_action_entry_id :
      (s : HistoryState V) (d : HistoryDirection) (id : ℕ) (k : GroupKey)
      → kept (pop_action_entry_id s d id k).1 ≡ kept s
  unfolding pop_action_entry_id
  kept-pop_action_entry_id s HistoryDirection.undo id k = ground arith
  kept-pop_action_entry_id s HistoryDirection.redo id k = ground arith

  pub kept-discard_action :
      (s : HistoryState V) (a : HistoryAction V) → kept (discard_action s a) ≡ kept s
  unfolding discard_action
  kept-discard_action s a =
      ground (arith, kept-pop_action_entry_id s a.direction a.entry_id a.group.key)

  pub kept-close_group_unless :
      (s : HistoryState V) (t : Option ℕ) → kept (close_group_unless s t).0 ≡ kept s
  unfolding close_group_unless
  kept-close_group_unless s t = ground (arith, kept-close_active_group s)

  pub kept-begin_group :
      (s : HistoryState V) (f : String → String) (t : ℕ) (n : String) (x : EditSource)
      (g now unix : ℕ)
      → kept (begin_group s f t n x g now unix).1 ≡ kept s
  unfolding begin_group
  kept-begin_group s f t n x g now unix = ground (arith, kept-close_active_group s)

  pub kept-end_group : (s : HistoryState V) (t now : ℕ) → kept (end_group s t now).1 ≡ kept s
  unfolding end_group
  kept-end_group s t now =
      ground (arith, kept-expire_group s now, kept-close_active_group (expire_group s now).0)

  kept-with_secret : (s : HistoryState V) (x : List ℕ) → kept (with_secret x s) ≡ kept s
  kept-with_secret s x = ground arith

  pub kept-begin_named_group :
      (s : HistoryState V) (f : String → String) (r : Option (List ℕ)) (t : ℕ) (n : String)
      (g now unix : ℕ)
      → kept (begin_named_group s f r t n g now unix).1 ≡ kept s
  unfolding begin_named_group
  kept-begin_named_group s f none t n g now unix = refl
  kept-begin_named_group s f (some x) t n g now unix = ground (
    arith,
    kept-begin_group s f t n EditSource.mcp g now unix,
    kept-with_secret (begin_group s f t n EditSource.mcp g now unix).1 x,
  )

  pub kept-group_boundary :
      (s : HistoryState V) (x : Option (List ℕ)) (keep : Bool) (now : ℕ)
      → kept (group_boundary s x keep now).1 ≡ kept s
  unfolding group_boundary
  kept-group_boundary s x keep now =
      kept-close_group_unless (expire_group s now).0 _ ∙ kept-expire_group s now

  pub kept-end_named_group :
      (s : HistoryState V) (x : List ℕ) (now : ℕ) → kept (end_named_group s x now).1 ≡ kept s
  unfolding end_named_group
  kept-end_named_group s x now =
      ground (arith, kept-expire_group s now, kept-close_active_group (expire_group s now).0)

  pub kept-revoke_mcp_group : (s : HistoryState V) → kept (revoke_mcp_group s).0 ≡ kept s
  unfolding revoke_mcp_group
  kept-revoke_mcp_group s = ground (arith, kept-close_active_group s)

  pub kept-move_to :
      (d : HistoryDirection) (e : HistoryEntry V) (s : HistoryState V)
      → kept (move_to d e s) ≡ kept s
  kept-move_to HistoryDirection.undo e s = refl
  kept-move_to HistoryDirection.redo e s = refl

  pub kept-remap_changed :
      (s : HistoryState V) (k : GroupKey) (o : Option (String × String))
      → kept (remap_changed s k o) ≡ kept s
  unfolding remap_group_ids
  kept-remap_changed s k none = refl
  kept-remap_changed s k (some (old_id, new_id)) = refl
