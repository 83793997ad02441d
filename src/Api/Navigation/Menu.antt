-- ===== src/Api/Navigation/Menu.antt =====
-- `_scheme_differences`, `_scheme_diff_filtered_jump_mappings` and `_reciprocal_jump_mappings` of
-- frvt/api/routers/navigation.py. The schemes and the rows of their mappings, as a book selects them,
-- are given. What a step raises ends the request; the caches keep what they hold by then.
use versification_tool.Prelude.{
  ℕ, Bool, true, false, ◌&&◌, ◌||◌, Option, none, some, List, [], ◌∷◌, ◌++◌, map, if◌then◌else◌,
}
use versification_tool.Prelude.Equality.{nat_eq, pair_eq, option_eq, contains, ◌==◌}
use versification_tool.Prelude.Texts.{Text, text_eq, strip}
use versification_tool.Resolver.Types.{VerseId, Resolution, MappingView, Result, ok, raised}
use versification_tool.Api.Jump.{
  Navigation, Context, Memo, no_memo, ProcessCache, is_canceling_jump_entry,
  filter_canceling_jump_rows, resolve_navigation_dto, resolved_target_ref_for_jump,
}
use versification_tool.Api.Jump.Content.{is_unreachable_jump_entry, filter_unreachable_jump_rows}
use versification_tool.Api.Navigation.{
  JumpMapping, jump_navigation_ref, delta_rows, only_here, from_difference, to_difference,
}

-- What the code reads of a `VersificationScheme`.
pub record NamedScheme : Type 0 where
  pub id : ℕ
  pub based_on_id : Option ℕ
  pub name : Text

unfoldable pub scheme_differences :
    (ℕ → List MappingView) → NamedScheme → NamedScheme → List JumpMapping
scheme_differences entries from_scheme to_scheme =
    let from_rows = delta_rows from_scheme.based_on_id (entries from_scheme.id) in
    let to_rows = delta_rows to_scheme.based_on_id (entries to_scheme.id) in
    if from_scheme.id == to_scheme.id
    then []
    else map (from_difference (some from_scheme.name)) (only_here from_rows to_rows)
      ++ map (to_difference (some to_scheme.name)) (only_here to_rows from_rows)

-- `(navigation_ref, part)` of a reciprocal row
abbrev pub key_of : JumpMapping → Navigation
key_of row = (row.source_ref, row.part)

-- `", " in text`
unfoldable pub has_join : Text → Bool
has_join [] = false
has_join (x ∷ []) = false
has_join (x ∷ y ∷ s) = (x == b',' && y == b' ') || has_join (y ∷ s)

-- The variables of the loop over the rows of the counterpart direction, and the caches.
pub record Menu : Type 0 where
  pub existing_nav : List Navigation
  pub memo : Memo
  pub counterpart_memo : Memo
  pub process : ProcessCache
  pub reciprocals : List JumpMapping

module _ (arrange : List VerseId → List VerseId) (chain_fuel fuel : ℕ) where
  -- The second filter, behind the first.
  abbrev pub then_reached :
      Context
      → Option (List Text)
      → Result (List JumpMapping) × Memo × ProcessCache
      → Result (List JumpMapping) × Memo × ProcessCache
  then_reached c books (raised e, m, p) = (raised e, m, p)
  then_reached c books (ok rows, m, p) =
      let (kept, after) =
        filter_unreachable_jump_rows arrange chain_fuel fuel c jump_navigation_ref books rows m in
      (kept, after, p)

  unfoldable pub scheme_diff_filtered_jump_mappings :
      Context
      → Option (List Text)
      → List JumpMapping
      → ProcessCache
      → Result (List JumpMapping) × Memo × ProcessCache
  scheme_diff_filtered_jump_mappings c books rows p =
      then_reached c books
        (filter_canceling_jump_rows arrange chain_fuel fuel c jump_navigation_ref rows no_memo p)

  module _ (c counterpart : Context) (books : Option (List Text)) where
    -- `composed_target`
    abbrev pub composed_target : Result Navigation → Menu → Result (Option Text) × Menu
    composed_target (raised e) s = (raised e, s)
    composed_target (ok n) s =
        let (target, kept) =
          resolved_target_ref_for_jump arrange chain_fuel fuel counterpart n s.counterpart_memo in
        (target, record s { counterpart_memo = kept })

    abbrev pub unreachable_next :
        Navigation → Result Bool × Memo × ProcessCache → Menu → Result Bool × Menu
    unreachable_next n (raised e, m, p) s = (raised e, record s { memo = m; process = p })
    unreachable_next n (ok true, m, p) s = (ok true, record s { memo = m; process = p })
    unreachable_next n (ok false, m, p) s =
        let (answer, kept) = is_unreachable_jump_entry arrange chain_fuel fuel c n books m in
        (answer, record s { memo = kept; process = p })

    -- Whether the navigation cancels or cannot be reached.
    unfoldable pub is_hidden : Navigation → Menu → Result Bool × Menu
    is_hidden n s =
        unreachable_next n (is_canceling_jump_entry arrange chain_fuel fuel c n s.memo s.process) s

    -- `reciprocals.append(...)` and `existing_nav.add(...)`
    abbrev pub append_reciprocal :
        JumpMapping
        → Navigation
        → Resolution
        → Result (Option Text) × Memo
        → Menu
        → Result Bool × Menu
    append_reciprocal row n dto (raised e, m) s = (raised e, record s { memo = m })
    append_reciprocal row n dto (ok base, m) s =
        let reciprocal : JumpMapping = record {
          source_ref = n.0;
          base_ref = base;
          part = n.1;
          relation = dto.relation;
          scheme_name = row.scheme_name;
        } in
        (
          ok true,
          record s {
            memo = m;
            reciprocals = s.reciprocals ++ (reciprocal ∷ []);
            existing_nav = s.existing_nav ++ (n ∷ []);
          },
        )

    -- `if dto is None: continue`
    abbrev pub expose_dto :
        JumpMapping → Navigation → Result (Option Resolution) × Memo → Menu → Result Bool × Menu
    expose_dto row n (raised e, m) s = (raised e, record s { memo = m })
    expose_dto row n (ok none, m) s = (ok false, record s { memo = m })
    expose_dto row n (ok (some dto), m) s =
        append_reciprocal row n dto (resolved_target_ref_for_jump arrange chain_fuel fuel c n m) s

    abbrev pub expose : JumpMapping → Navigation → Result Bool × Menu → Result Bool × Menu
    expose row n (raised e, s) = (raised e, s)
    expose row n (ok true, s) = (ok false, s)
    expose row n (ok false, s) =
        expose_dto row n (resolve_navigation_dto arrange chain_fuel fuel c n s.memo) s

    -- Several targets, or a navigation that is listed, are no reciprocal.
    unfoldable pub expose_new : JumpMapping → Text → Menu → Result Bool × Menu
    expose_new row target s =
        let key : Navigation = (strip target, row.part) in
        if has_join target || contains key s.existing_nav
        then (ok false, s)
        else expose row key (is_hidden key s)

    abbrev pub on_target : JumpMapping → Result (Option Text) × Menu → Result Bool × Menu
    on_target row (raised e, s) = (raised e, s)
    on_target row (ok none, s) = (ok false, s)
    on_target row (ok (some target), s) = expose_new row target s

    unfoldable pub reciprocal_row : JumpMapping → Menu → Result Bool × Menu
    reciprocal_row row s = on_target row (composed_target (jump_navigation_ref row) s)

    -- The rest of the loop, if nothing was raised.
    abbrev pub next_row :
        Result Bool × Menu → Result (List JumpMapping) × Menu → Result (List JumpMapping) × Menu
    next_row (raised e, s) rest = (raised e, s)
    next_row (ok added, s) rest = rest

    -- `for row in counterpart_rows:`
    unfoldable pub reciprocal_jump_mappings :
        List JumpMapping → Menu → Result (List JumpMapping) × Menu
    reciprocal_jump_mappings [] s = (ok s.reciprocals, s)
    reciprocal_jump_mappings (row ∷ rows) s =
        let out = reciprocal_row row s in next_row out (reciprocal_jump_mappings rows out.1)
