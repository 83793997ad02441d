-- ===== src/Api/Indexing/Invalidation.antt =====
-- frvt/api/indexing/invalidation.py. The session does not flush before a query: what a loop has changed
-- is not in the rows that the next query of the loop reads.
use versification_tool.Prelude.{
  ℕ, Bool, not, ◌&&◌, Option, none, some, List, [], ◌∷◌, ◌++◌, length, if◌then◌else◌, map,
}
use versification_tool.Prelude.Equality.{nat_eq, pair_eq, ◌==◌}
use versification_tool.Prelude.Texts.{Text, codes}
use versification_tool.Api.Schemes.{Reply, reply, refused, Database, batch_scheme_ref}
use versification_tool.Api.Indexing.Rows.{
  TranslationIndex, Tables, clashes, on_rows, selected, delete_row, ids, is_unique,
}
use versification_tool.Api.Indexing.Registry.{◌>>=◌, requeued, queue_reclaim}

abbrev pub of_translation : ℕ → TranslationIndex → Bool
of_translation translation_id row = row.translation_id == translation_id

abbrev pub of_scheme : ℕ → TranslationIndex → Bool
of_scheme scheme_id row = row.scheme_id == scheme_id

-- `_requeue`, on the rows of a query: the tables, and the number of rows.
unfoldable pub requeue : (TranslationIndex → Bool) → Text → ℕ → Tables → Tables × ℕ
unfolding on_rows selected
requeue selects reason now t = (
  record t { indexes = on_rows selects (requeued reason now) t.indexes },
  length (selected selects t.indexes),
)

unfoldable pub invalidate_for_translation : ℕ → Text → ℕ → Tables → Tables × ℕ
unfolding requeue
invalidate_for_translation translation_id = requeue (of_translation translation_id)

unfoldable pub invalidate_for_scheme : ℕ → Text → ℕ → Tables → Tables × ℕ
unfolding requeue
invalidate_for_scheme scheme_id = requeue (of_scheme scheme_id)

-- `for row in rows: session.delete(row)`
unfoldable pub delete_rows : List ℕ → List TranslationIndex → List TranslationIndex
unfolding delete_row
delete_rows [] rows = rows
delete_rows (id ∷ rest) rows = delete_rows rest (delete_row id rows)

-- `_drop`, on the rows of a query
unfoldable pub drop_rows : (TranslationIndex → Bool) → Tables → Tables × ℕ
unfolding selected queue_reclaim delete_rows
drop_rows selects t =
    let rows = selected selects t.indexes in
    let queued = queue_reclaim (ids rows) t in
    (record queued { indexes = delete_rows (ids rows) queued.indexes }, length rows)

unfoldable pub drop_indexes_for_translation : ℕ → Tables → Tables × ℕ
unfolding drop_rows
drop_indexes_for_translation translation_id = drop_rows (of_translation translation_id)

unfoldable pub drop_indexes_for_scheme : ℕ → Tables → Tables × ℕ
unfolding drop_rows
drop_indexes_for_scheme scheme_id = drop_rows (of_scheme scheme_id)

abbrev pub skipped_note : Text
skipped_note =
    codes "Retarget skipped: an index already exists for the new preferred versification."

-- `note if not build_notes else f"{build_notes}\n{note}"`
abbrev pub with_note : Text → Option Text → Text
with_note note none = note
with_note note (some []) = note
with_note note (some (c ∷ s)) = (c ∷ s) ++ (10 ∷ note)

-- The defaulted rows of a translation that are on another scheme.
abbrev pub to_move : ℕ → ℕ → TranslationIndex → Bool
to_move translation_id scheme_id row =
    of_translation translation_id row && not row.scheme_explicit && not (of_scheme scheme_id row)

abbrev pub moved : ℕ → ℕ → TranslationIndex → TranslationIndex
moved scheme_id now row = record (requeued (codes "preferred versification changed") now row) {
  scheme_id = scheme_id;
}

abbrev pub noted : TranslationIndex → TranslationIndex
noted row = record row { build_notes = some (with_note skipped_note row.build_notes) }

-- Whether the loop moves a row: no other row has the pair.
abbrev pub moves : ℕ → ℕ → List TranslationIndex → TranslationIndex → Bool
moves translation_id scheme_id rows row =
    to_move translation_id scheme_id row && not (clashes row.id (translation_id, scheme_id) rows)

-- What the loop makes of one row; `rows` are those that the database has before the flush.
unfoldable pub retarget_row :
    ℕ → ℕ → ℕ → List TranslationIndex → TranslationIndex → TranslationIndex
unfolding clashes
retarget_row translation_id scheme_id now rows row =
    if to_move translation_id scheme_id row
    then if clashes row.id (translation_id, scheme_id) rows
      then noted row
      else moved scheme_id now row
    else row

module _ {ℓ} {Translation : Type ℓ} (session : Database Translation) where
  -- The flush refuses two rows of one pair; the request then ends with status 500.
  unfoldable pub retarget_default_indexes : ℕ → ℕ → Tables → Reply (Tables × ℕ)
  unfolding retarget_row is_unique selected clashes
  retarget_default_indexes translation_id now t = do
    scheme ← batch_scheme_ref session translation_id none
    let rows = map (retarget_row translation_id scheme.scheme_id now t.indexes) t.indexes
    let changed = length (selected (moves translation_id scheme.scheme_id t.indexes) t.indexes)
    if is_unique rows then reply (record t { indexes = rows }, changed) else refused 500
