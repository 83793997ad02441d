-- ===== src/Api/Indexing/Work.antt =====
-- The transactions of the worker and the builder of frvt/api/indexing.
use versification_tool.Prelude.{
  ℕ, ◌≡◌, refl, sym, inl, inr, Bool, true, false, Option, List, [], ◌∷◌, ◌++◌, Bool-cases,
  Option-cases,
}
use mathlib.Core.Path.{subst}
use versification_tool.Prelude.Equality.{nat_eq, pair_eq, dedup}
use versification_tool.Prelude.Texts.{Text, codes}
use versification_tool.Resolver.Types.{SchemeRef}
use versification_tool.Api.Indexing.Rows.{pending, TranslationIndex, Tables, pair_of, find_row, ids}
use versification_tool.Api.Indexing.Registry.{requeued, source_side, target_side}
use versification_tool.Api.Indexing.Worker.{
  recover_orphaned_builds, recovered, drain_reclaim, drain_queue, drain_entry,
  purge_orphan_mappings, sweep_fingerprints, claim_next, claim_row, next_pending, orphans,
}
use versification_tool.Api.Indexing.Builder.{stop_if_not_current, checked, finish, finish_row}
use versification_tool.Api.Indexing.Sound.{
  IsSoundRow, IsSound, IsKept, requeued-IsSoundRow, recovered-IsSoundRow, withdrawn-IsSoundRow,
  checked-IsKept, finish_row-IsKept, find_row-IsSoundRow,
}
use versification_tool.Api.Indexing.Changes.{on_rows-IsSound}
use versification_tool.Api.Indexing.Claim.{next_pending-IsFirst, find_row-member}
use versification_tool.Api.Indexing.Requests.{replace-IsSound, queue_reclaim-indexes}

-- The worker's transactions.
pub recover-IsSound :
    (t : Tables) → IsSound t.indexes → IsSound (recover_orphaned_builds t).0.indexes
unfolding recover_orphaned_builds
recover-IsSound t s =
    on_rows-IsSound _ recovered t.indexes (λ row h. recovered-IsSoundRow row) recovered-id
      recovered-pair s
  where
    recovered-id : (row : TranslationIndex) → (recovered row).id ≡ row.id
    recovered-id row = elim (Bool-cases row.cancel_requested) [
      | inl t ↦ simp (t, recovered)
      | inr f ↦ simp (f, recovered)
    ]

    recovered-pair : (row : TranslationIndex) → pair_of (recovered row) ≡ pair_of row
    recovered-pair row = elim (Bool-cases row.cancel_requested) [
      | inl t ↦ simp (t, recovered)
      | inr f ↦ simp (f, recovered)
    ]

pub drain_entry-indexes :
    (chunk_size id : ℕ) (rest : List ℕ) (t : Tables)
    → (drain_entry chunk_size id rest t).0.indexes ≡ t.indexes
unfolding drain_entry
drain_entry-indexes chunk_size id rest t = elim (Option-cases (find_row id t.indexes)) [
  | inl gone ↦ rw (gone, drain_entry)
  | inr (row, live) ↦ rw (live, drain_entry)
]

pub drain-indexes :
    (chunk_size : ℕ) (t : Tables) → (drain_reclaim chunk_size t).0.indexes ≡ t.indexes
unfolding drain_reclaim drain_queue
drain-indexes chunk_size t = queue t.reclaim
  where
    queue : (l : List ℕ) → (drain_queue chunk_size l t).0.indexes ≡ t.indexes
    queue [] = refl
    queue (id ∷ rest) = drain_entry-indexes chunk_size id rest t

pub sweep-IsSound :
    (scheme : ℕ → Option SchemeRef) (fingerprint : ℕ → SchemeRef → Option Text) (now : ℕ)
    (t : Tables)
    → IsSound t.indexes
    → IsSound (sweep_fingerprints scheme fingerprint now t).0.indexes
unfolding sweep_fingerprints
sweep-IsSound scheme fingerprint now t s =
    on_rows-IsSound _ (requeued (codes "content changed") now) t.indexes
      (λ row h. requeued-IsSoundRow _ now row) (λ row. refl) (λ row. refl) s

pub claim_row-IsKept :
    (now : ℕ) (flag : Bool) (row : TranslationIndex)
    → row.status ≡ pending
    → IsSoundRow row
    → IsKept row (claim_row now flag row).0
claim_row-IsKept now true row p h = record {
  same_id = refl;
  same_pair = refl;
  sound = withdrawn-IsSoundRow row;
}
claim_row-IsKept now false row p h =
    let begun : IsSoundRow (claim_row now false row).0 = record {
      flagged = λ q. inl refl;
      reasoned = λ q. cc;
      begun = λ q. (now, refl);
      digested = λ q. cc;
    } in
    record { same_id = refl; same_pair = refl; sound = begun }

pub claim-IsSound :
    (now : ℕ) (t : Tables) → IsSound t.indexes → IsSound (claim_next now t).0.indexes
unfolding claim_next
claim-IsSound now t s = elim (Option-cases (next_pending t.indexes)) [
  | inl none_waits ↦ rw (none_waits, claim_next) s
  | inr (row, e) ↦
      let first = next_pending-IsFirst t.indexes row e in
      let found = find_row-member t.indexes row s.distinct first.member in
      rw (e, claim_next)
        (replace-IsSound row.id row (claim_row now row.cancel_requested row).0 t.indexes found
          (claim_row-IsKept now row.cancel_requested row first.waiting
            (find_row-IsSoundRow row.id t.indexes row s.sound found))
          s)
]

pub purge-IsSound : (t : Tables) → IsSound t.indexes → IsSound (purge_orphan_mappings t).0.indexes
unfolding purge_orphan_mappings
purge-IsSound t s =
    let existing = ids t.indexes in
    let orphan_ids =
      dedup (orphans source_side existing t.mappings ++ orphans target_side existing t.mappings) in
    subst IsSound (sym (queue_reclaim-indexes orphan_ids t)) s

pub check-IsSound :
    (id : ℕ) (t : Tables) → IsSound t.indexes → IsSound (stop_if_not_current id t).0.indexes
unfolding stop_if_not_current
check-IsSound id t s = elim (Option-cases (find_row id t.indexes)) [
  | inl gone ↦ rw (gone, stop_if_not_current) s
  | inr (row, live) ↦
      rw (live, stop_if_not_current)
        (replace-IsSound id row (checked row).0 t.indexes live
          (checked-IsKept row (find_row-IsSoundRow id t.indexes row s.sound live)) s)
]

pub close-IsSound :
    (digest : TranslationIndex → Option Text) (now id : ℕ) (t : Tables)
    → IsSound t.indexes
    → IsSound (finish digest now id t).0.indexes
unfolding finish
close-IsSound digest now id t s = elim (Option-cases (find_row id t.indexes)) [
  | inl gone ↦ rw (gone, finish) s
  | inr (row, live) ↦
      rw (live, finish)
        (replace-IsSound id row (finish_row now (digest row) row).0 t.indexes live
          (finish_row-IsKept now (digest row) row
            (find_row-IsSoundRow id t.indexes row s.sound live))
          s)
]
