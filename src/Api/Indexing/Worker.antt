-- ===== src/Api/Indexing/Worker.antt =====
-- frvt/api/indexing/worker.py, but for its thread, its locks and the vacuum of the table.
use versification_tool.Prelude.{
  ℕ, ◌-◌, ◌%◌, ◌^◌, Bool, true, false, not, ◌&&◌, Option, none, some, List, [], ◌∷◌, ◌++◌, length,
  leb, ltb, if◌then◌else◌,
}
use versification_tool.Prelude.Equality.{nat_eq, ◌==◌, contains, dedup, option_beq}
use versification_tool.Prelude.Texts.{Text, text_eq, codes}
use versification_tool.Resolver.Types.{SchemeRef}
use versification_tool.Api.Schemes.{ℤ, pos, negsuc}
use versification_tool.Api.Indexing.Rows.{
  pending, building, ready, failed, cancelled, status_beq, TranslationIndex, IndexMapping, Tables,
  find_row, on_row, on_rows, selected, ids,
}
use versification_tool.Api.Indexing.Registry.{
  requeued, queue_reclaim, delete_mapping_chunk, index_row_counts, source_side, target_side,
}

-- What a restart makes of a row that was being built.
abbrev pub recovered : TranslationIndex → TranslationIndex
recovered row =
    if row.cancel_requested
    then record row { status = cancelled; cancel_requested = false }
    else record row {
      status = pending;
      pending_reason = some (codes "interrupted");
      cancel_requested = false;
    }

abbrev pub is_building : TranslationIndex → Bool
is_building row = status_beq row.status building

abbrev pub is_ready : TranslationIndex → Bool
is_ready row = status_beq row.status ready

unfoldable pub recover_orphaned_builds : Tables → Tables × ℕ
unfolding on_rows selected
recover_orphaned_builds t = (
  record t { indexes = on_rows is_building recovered t.indexes },
  length (selected is_building t.indexes),
)

pub record ReclaimStep : Type 0 where
  pub deleted : ℕ
  pub completed : Bool

-- The step for the oldest entry of the queue, the rest of which is given.
unfoldable pub drain_entry : ℕ → ℕ → List ℕ → Tables → Tables × ReclaimStep
unfolding find_row delete_mapping_chunk index_row_counts
drain_entry chunk_size id rest t = elim (find_row id t.indexes) [
  | some row ↦ (record t { reclaim = rest }, record { deleted = 0; completed = false })
  | none ↦
      let (left, deleted) = delete_mapping_chunk id chunk_size t.mappings in
      let (outbound, inbound) = index_row_counts id left in
      let completed = outbound == 0 && inbound == 0 in
      (
        record t { mappings = left; reclaim = if completed then rest else t.reclaim },
        record { deleted = deleted; completed = completed },
      )
]

unfoldable pub drain_queue : ℕ → List ℕ → Tables → Tables × ReclaimStep
unfolding drain_entry
drain_queue chunk_size [] t = (t, record { deleted = 0; completed = false })
drain_queue chunk_size (id ∷ rest) t = drain_entry chunk_size id rest t

unfoldable pub drain_reclaim : ℕ → Tables → Tables × ReclaimStep
unfolding drain_queue
drain_reclaim chunk_size t = drain_queue chunk_size t.reclaim t

-- The ids on a side of the mappings that no index has.
unfoldable pub orphans : (IndexMapping → ℕ) → List ℕ → List IndexMapping → List ℕ
unfolding contains
orphans side existing [] = []
orphans side existing (m ∷ ms) =
    let rest = orphans side existing ms in
    if contains (side m) existing then rest else side m ∷ rest

-- The ids are queued in the order of their mappings; the code leaves the order open.
unfoldable pub purge_orphan_mappings : Tables → Tables × ℕ
unfolding orphans dedup queue_reclaim
purge_orphan_mappings t =
    let existing = ids t.indexes in
    let orphan_ids =
      dedup (orphans source_side existing t.mappings ++ orphans target_side existing t.mappings) in
    (queue_reclaim orphan_ids t, length orphan_ids)

abbrev pub content_changed : ℕ → TranslationIndex → TranslationIndex
content_changed now row = requeued (codes "content changed") now row

module _ (scheme_ref_from_id : ℕ → Option SchemeRef)
    (index_fingerprint : ℕ → SchemeRef → Option Text) where
  -- `none` where the scheme is missing or the fingerprint raises.
  abbrev pub digest_of : TranslationIndex → Option Text
  digest_of row = elim (scheme_ref_from_id row.scheme_id) [
    | none ↦ none
    | some scheme ↦ index_fingerprint row.translation_id scheme
  ]

  abbrev pub is_stale : TranslationIndex → Bool
  is_stale row = elim (digest_of row) [
    | none ↦ true
    | some digest ↦ not (option_beq (some digest) row.content_fingerprint)
  ]

  unfoldable pub sweep_fingerprints : ℕ → Tables → Tables × ℕ
  unfolding on_rows selected
  sweep_fingerprints now t =
      let stale = λ (row : TranslationIndex). is_ready row && is_stale row in
      (
        record t { indexes = on_rows stale (content_changed now) t.indexes },
        length (selected stale t.indexes),
      )

-- The pending row that was requested first, if it was requested before `best`.
unfoldable pub next_from : Option TranslationIndex → List TranslationIndex → Option TranslationIndex
next_from best [] = best
next_from none (row ∷ rows) =
    next_from (if status_beq row.status pending then some row else none) rows
next_from (some best) (row ∷ rows) =
    next_from
      (if status_beq row.status pending && ltb row.requested_at best.requested_at
        then some row
        else some best)
      rows

unfoldable pub next_pending : List TranslationIndex → Option TranslationIndex
unfolding next_from
next_pending rows = next_from none rows

pub data Claimed : Type 0 where
  idle : Claimed
  withdrawn : Claimed
  started : ℕ → Claimed

-- The claimed row, by whether a cancel was requested.
abbrev pub claim_row : ℕ → Bool → TranslationIndex → TranslationIndex × Claimed
claim_row now true row = (record row { status = cancelled; cancel_requested = false }, withdrawn)
claim_row now false row =
    (record row { status = building; started_at = some now; last_error = none }, started row.id)

-- The first transaction of `process_next_index`.
unfoldable pub claim_next : ℕ → Tables → Tables × Claimed
unfolding next_pending on_row
claim_next now t = elim (next_pending t.indexes) [
  | none ↦ (t, idle)
  | some row ↦
      let (changed, claimed) = claim_row now row.cancel_requested row in
      (record t { indexes = on_row row.id (λ _. changed) t.indexes }, claimed)
]

abbrev pub failed_row : Text → TranslationIndex → TranslationIndex
failed_row message row = record row { status = failed; last_error = some message }

-- The handler of a build that raised.
unfoldable pub record_failure : ℕ → Text → Tables → Tables
unfolding on_row
record_failure id message t = record t { indexes = on_row id (failed_row message) t.indexes }

-- What is left to do after the build of an index.
unfoldable pub conclude_build : ℕ → Tables × Option Text → Tables
unfolding record_failure
conclude_build id (t, none) = t
conclude_build id (t, some message) = record_failure id message t

-- The whole of `process_next_index`, around a build that returns or raises a message. The callback for
-- a finished index is left out.
module _ (build_index : ℕ → Tables → Tables × Option Text) where
  unfoldable pub build_claimed : Tables → Claimed → Tables × Bool
  unfolding conclude_build
  build_claimed t idle = (t, false)
  build_claimed t withdrawn = (t, true)
  build_claimed t (started id) = (conclude_build id (build_index id t), true)

  unfoldable pub process_next_index : ℕ → Tables → Tables × Bool
  unfolding claim_next build_claimed
  process_next_index now t = let (t', claimed) = claim_next now t in build_claimed t' claimed

-- `_lock_key_from_oid`
unfoldable pub lock_key_from_oid : ℕ → ℤ
lock_key_from_oid oid =
    let unsigned = oid % 2 ^ 32 in
    if leb (2 ^ 31) unsigned then negsuc (2 ^ 32 - unsigned - 1) else pos unsigned
