-- ===== src/Api/Indexing/Purged.antt =====
-- The cleanup at the start of frvt/api/indexing/worker.py queues every mapping that is left behind.
use versification_tool.Prelude.{
  ℕ, ◌≡◌, sym, inl, inr, true, false, List, [], ◌∷◌, ◌++◌, Bool-cases, arith, nat_beq_iff,
}
use mathlib.Core.Path.{subst}
use versification_tool.Prelude.Equality.{
  nat_eq, ◌==◌, contains, contains→Memᴰ, Memᴰ→contains, dedup, Memᴰ→Memᴰ-dedup,
}
use versification_tool.Api.Indexing.Rows.{IndexMapping, Tables, ids}
use versification_tool.Api.Indexing.Registry.{queue_reclaim, source_side, target_side}
use versification_tool.Api.Indexing.Worker.{purge_orphan_mappings, orphans}
use versification_tool.Api.Indexing.Requests.{queue_reclaim-indexes}
use versification_tool.Api.Indexing.Known.{
  accounted, contains-append, contains-queue_reclaim, queue_reclaim-mappings,
}
use versification_tool.Api.Indexing.Stored.{AllKnown}
use versification_tool.Api.Indexing.Steps.{among}

pub contains-among :
    (i : ℕ) (held lost : List ℕ)
    → contains i held ≡ true
    → contains i lost ≡ true
    → contains i (among held lost) ≡ true
unfolding among contains
contains-among i held [] h k = cc
contains-among i held (j ∷ lost) h k = elim (Bool-cases (contains j held)) [
  | inl t ↦ rw t (ground (arith, k, contains-among i held lost h))
  | inr f ↦
      let apart : (i == j) ≡ false = elim (Bool-cases (i == j)) [
        | inl same ↦ cc (subst (λ (x : ℕ). contains x held ≡ true) ((nat_beq_iff i j).0 same) h)
        | inr other ↦ other
      ] in
      rw f (contains-among i held lost h (ground (arith, k, apart)))
]

-- The id of a mapping's end is one of an index, or an orphan.
module _ (lost : List ℕ) (u : Tables) (existing : List ℕ)
    (present : (i : ℕ) → contains i existing ≡ true → accounted lost i u ≡ true) where
  -- What is queued for a mapping and the ones behind it.
  Queues : (IndexMapping → ℕ) → List IndexMapping → Type 0
  Queues side ms =
      (i : ℕ) → contains i (orphans side existing ms) ≡ true → accounted lost i u ≡ true

  side-accounted :
      (side : IndexMapping → ℕ) (m : IndexMapping) (ms : List IndexMapping)
      → Queues side (m ∷ ms)
      → (accounted lost (side m) u ≡ true) × Queues side ms
  unfolding Queues orphans contains
  side-accounted side m ms h = elim (Bool-cases (contains (side m) existing)) [
    | inl t ↦ (present (side m) t, λ i k. h i (rw t k))
    | inr f ↦ (
      h (side m) (rw f (ground (arith, nat_beq_iff (side m) (side m)))),
      λ i k. h i (rw f (ground (arith, k))),
    )
  ]

  ends-accounted :
      (ms : List IndexMapping) → Queues source_side ms → Queues target_side ms → AllKnown lost u ms
  ends-accounted [] h k = tt
  ends-accounted (m ∷ ms) h k =
      let (source, sources) = side-accounted source_side m ms h in
      let (target, targets) = side-accounted target_side m ms k in
      (source, target, ends-accounted ms sources targets)

-- From any tables the cleanup leaves no mapping behind, whatever was lost before.
pub purge_orphan_mappings-AllKnown :
    (lost : List ℕ) (t : Tables)
    → AllKnown lost (purge_orphan_mappings t).0 (purge_orphan_mappings t).0.mappings
unfolding purge_orphan_mappings Queues
purge_orphan_mappings-AllKnown lost t =
    let existing = ids t.indexes in
    let sources = orphans source_side existing t.mappings in
    let targets = orphans target_side existing t.mappings in
    let all = dedup (sources ++ targets) in
    let queued : (i : ℕ)
        → contains i (sources ++ targets) ≡ true
        → accounted lost i (queue_reclaim all t) ≡ true =
      λ i h.
        let kept = Memᴰ→contains (Memᴰ→Memᴰ-dedup (contains→Memᴰ i (sources ++ targets) h)) in
        ground (arith, contains-queue_reclaim i all t, kept) in
    let found =
      ends-accounted lost (queue_reclaim all t) existing
        (λ i h. rw (queue_reclaim-indexes all t) (ground (arith, h))) t.mappings
        (λ i h. queued i (ground (arith, contains-append i sources targets, h)))
        (λ i h. queued i (ground (arith, contains-append i sources targets, h))) in
    subst (AllKnown lost (queue_reclaim all t)) (sym (queue_reclaim-mappings all t)) found
