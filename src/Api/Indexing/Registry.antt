-- ===== src/Api/Indexing/Registry.antt =====
-- frvt/api/indexing/registry.py. The id of a new row and the current time are arguments. Each request
-- is one transaction, so that the row that a query finds is the row that the flush meets; what the
-- flush refuses all the same is refused with 409 here.
use versification_tool.Prelude.{
  ℕ, zero, suc, ◌+◌, Bool, true, false, Option, none, some, List, [], ◌∷◌, ◌++◌, length,
  if◌then◌else◌, map,
}
use versification_tool.Prelude.Equality.{nat_eq, pair_eq, ◌==◌, contains}
use versification_tool.Prelude.Texts.{Text, codes}
use versification_tool.Resolver.Types.{SchemeRef}
use versification_tool.Api.Schemes.{
  Reply, reply, refused, Database, require_translation, selected_scheme_ref, batch_scheme_ref,
}
use versification_tool.Api.Indexing.Rows.{
  pending, building, ready, failed, cancelled, status_beq, TranslationIndex, IndexMapping, Tables,
  pair_of, find_row, on_row, delete_row, clashes, selected,
}

infixl 5 ◌>>=◌
abbrev pub ◌>>=◌ {ℓ κ} : {A : Type ℓ} {B : Type κ} → Reply A → (A → Reply B) → Reply B
reply a >>= f = f a
refused status >>= f = refused status

-- The row of an index that is queued from now on.
abbrev pub requeued : Text → ℕ → TranslationIndex → TranslationIndex
requeued reason now row = record row {
  status = pending;
  pending_reason = some reason;
  cancel_requested = false;
  requested_at = now;
}

abbrev pub new_index : ℕ → ℕ → ℕ → ℕ → Bool → TranslationIndex
new_index id now translation_id scheme_id explicit = record {
  id = id;
  translation_id = translation_id;
  scheme_id = scheme_id;
  scheme_explicit = explicit;
  status = pending;
  cancel_requested = false;
  content_fingerprint = none;
  pending_reason = some (codes "created");
  build_notes = none;
  last_error = none;
  pairs_total = 0;
  pairs_completed = 0;
  requested_at = now;
  started_at = none;
  completed_at = none;
}

unfoldable pub queue_reclaim : List ℕ → Tables → Tables
unfolding contains
queue_reclaim [] t = t
queue_reclaim (id ∷ rest) t =
    queue_reclaim rest
      (if contains id t.reclaim then t else record t { reclaim = t.reclaim ++ (id ∷ []) })

-- `session.get` or 404
unfoldable pub get_index : ℕ → Tables → Reply TranslationIndex
unfolding find_row
get_index id t = elim (find_row id t.indexes) [ none ↦ refused 404 | some row ↦ reply row ]

module _ {ℓ} {Translation : Type ℓ} (session : Database Translation) where
  -- The scheme, and whether it is explicit.
  abbrev pub scheme_for : ℕ → Option ℕ → Reply (SchemeRef × Bool)
  scheme_for translation_id none = do
    scheme ← batch_scheme_ref session translation_id none
    reply (scheme, false)
  scheme_for translation_id (some scheme_id) = do
    scheme ← selected_scheme_ref session translation_id (some scheme_id)
    reply (scheme, true)

  -- The tables afterwards, and the row.
  unfoldable pub create_index : ℕ → ℕ → ℕ → Option ℕ → Tables → Reply (Tables × TranslationIndex)
  unfolding contains
  create_index id now translation_id scheme_id t = do
    _ ← require_translation session translation_id
    (scheme, explicit) ← scheme_for translation_id scheme_id
    let row = new_index id now translation_id scheme.scheme_id explicit
    if contains (pair_of row) (map pair_of t.indexes)
        then refused 409
        else reply (record t { indexes = t.indexes ++ (row ∷ []) }, row)

  unfoldable pub set_versification : ℕ → ℕ → ℕ → Tables → Reply (Tables × TranslationIndex)
  unfolding get_index clashes on_row
  set_versification now index_id scheme_id t = do
    row ← get_index index_id t
    scheme ← selected_scheme_ref session row.translation_id (some scheme_id)
    let changed = record (requeued (codes "versification changed") now row) {
      scheme_id = scheme.scheme_id;
      scheme_explicit = true;
    }
    if clashes row.id (pair_of changed) t.indexes
        then refused 409
        else reply (record t { indexes = on_row index_id (λ _. changed) t.indexes }, changed)

unfoldable pub delete_index : ℕ → Tables → Reply Tables
unfolding get_index queue_reclaim delete_row
delete_index index_id t = do
  row ← get_index index_id t
  let queued = queue_reclaim (row.id ∷ []) t
  reply (record queued { indexes = delete_row index_id queued.indexes })

unfoldable pub request_rebuild : ℕ → ℕ → Tables → Reply (Tables × TranslationIndex)
unfolding get_index on_row
request_rebuild now index_id t = do
  row ← get_index index_id t
  let changed = requeued (codes "manual rebuild") now row
  reply (record t { indexes = on_row index_id (λ _. changed) t.indexes }, changed)

-- The row after a cancel; other rows are neither pending nor building.
abbrev pub cancel_row : TranslationIndex → Reply TranslationIndex
cancel_row row = elim row.status [
  | pending ↦ reply (record row { status = cancelled; cancel_requested = false })
  | building ↦ reply (record row { cancel_requested = true })
  | ready ↦ refused 409
  | failed ↦ refused 409
  | cancelled ↦ refused 409
]

unfoldable pub request_cancel : ℕ → Tables → Reply (Tables × TranslationIndex)
unfolding get_index on_row
request_cancel index_id t = do
  row ← get_index index_id t
  changed ← cancel_row row
  reply (record t { indexes = on_row index_id (λ _. changed) t.indexes }, changed)

-- How many mappings have the id on a side.
unfoldable pub count_side : (IndexMapping → ℕ) → ℕ → List IndexMapping → ℕ
count_side side id [] = 0
count_side side id (m ∷ ms) =
    let rest = count_side side id ms in if side m == id then suc rest else rest

abbrev pub source_side : IndexMapping → ℕ
source_side m = m.source_index_id

abbrev pub target_side : IndexMapping → ℕ
target_side m = m.target_index_id

unfoldable pub index_row_counts : ℕ → List IndexMapping → ℕ × ℕ
unfolding count_side
index_row_counts id ms = (count_side source_side id ms, count_side target_side id ms)

-- The mappings without the first `chunk_size` that have the id on a side, and how many these are. The
-- query takes any of them.
unfoldable pub delete_side : (IndexMapping → ℕ) → ℕ → ℕ → List IndexMapping → List IndexMapping × ℕ
delete_side side id chunk_size [] = ([], 0)
delete_side side id zero (m ∷ ms) = (m ∷ ms, 0)
delete_side side id (suc more) (m ∷ ms) =
    let taken = delete_side side id more ms in
    let kept = delete_side side id (suc more) ms in
    if side m == id then (taken.0, suc taken.1) else (m ∷ kept.0, kept.1)

unfoldable pub delete_mapping_chunk : ℕ → ℕ → List IndexMapping → List IndexMapping × ℕ
unfolding delete_side
delete_mapping_chunk id chunk_size ms =
    let (left, outbound) = delete_side source_side id chunk_size ms in
    let (rest, inbound) = delete_side target_side id chunk_size left in (rest, outbound + inbound)

-- What is counted of these tables; the sizes on disk and the reports are not.
pub record IndexUsage : Type 0 where
  pub total_indexes : ℕ
  pub ready_indexes : ℕ
  pub mapping_rows : ℕ
  pub reclaim_pending : ℕ

unfoldable pub usage_summary : Tables → IndexUsage
unfolding selected
usage_summary t = record {
  total_indexes = length t.indexes;
  ready_indexes = length (selected (λ row. status_beq row.status ready) t.indexes);
  mapping_rows = length t.mappings;
  reclaim_pending = length t.reclaim;
}
