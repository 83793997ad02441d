-- ===== src/Api/Indexing/Orphans.antt =====
-- The mappings of frvt/api/indexing: whom they name, after any sequence of transactions.
use versification_tool.Prelude.{
  ℕ, ◌≡◌, refl, sym, inl, inr, Bool, true, false, Option, none, some, List, [], ◌++◌, Bool-cases,
  Option-cases, arith, nat_beq_iff,
}
use mathlib.Core.Path.{subst}
use versification_tool.Prelude.Equality.{nat_eq, pair_eq, ◌==◌, contains, dedup}
use versification_tool.Prelude.Texts.{Text, text_eq}
use versification_tool.Resolver.Types.{SchemeRef}
use versification_tool.Api.Schemes.{Database}
use versification_tool.Api.Indexing.Rows.{TranslationIndex, Tables, ids, selected}
use versification_tool.Api.Indexing.Registry.{
  requeued, source_side, target_side, delete_mapping_chunk,
}
use versification_tool.Api.Indexing.Invalidation.{
  requeue, drop_rows, of_translation, of_scheme, invalidate_for_translation, invalidate_for_scheme,
  drop_indexes_for_translation, drop_indexes_for_scheme,
}
use versification_tool.Api.Indexing.Worker.{
  recover_orphaned_builds, recovered, drain_reclaim, purge_orphan_mappings, orphans,
  sweep_fingerprints, claim_next, claim_row, next_pending, record_failure,
}
use versification_tool.Api.Indexing.Builder.{
  opened, append_note, increment_pairs, upsert_chunk, fail_without_scheme, without_scheme,
}
use versification_tool.Api.Indexing.Sound.{IsSound, building-cases}
use versification_tool.Api.Indexing.Claim.{next_pending-IsFirst, find_row-member}
use versification_tool.Api.Indexing.Known.{
  known, accounted, on_row-Grows, on_rows-Grows, queue_reclaim-Grows, delete_rows-Grows,
}
use versification_tool.Api.Indexing.Stored.{
  AllKnown, AllKnown-moved, IsCovered, AllKnown-mono, Grows-IsCovered,
  delete_mapping_chunk-AllKnown, find_row-known, drain-AllKnown, upsert_chunk-AllKnown,
}
use versification_tool.Api.Indexing.Grown.{
  request_rebuild-Grows, request_cancel-Grows, delete_index-Grows, create_index-Grows,
  set_versification-Grows, retarget-Grows, check-Grows, close-Grows, claim-Grows,
}
use versification_tool.Api.Indexing.Steps.{
  held_after, Step, create, reassign, remove, rebuild, cancel, invalidate_translation,
  invalidate_scheme, delete, drop_scheme, retarget, recover, purge, drain, sweep, claim, load,
  open_build, check, clear, note, advance, write, miss_scheme, close, fail, leave, Reach, start,
  next, among, lost_after, lost_ids,
}
use versification_tool.Api.Indexing.Deletion.{cascade_scheme}
use versification_tool.Api.Indexing.Deleted.{delete_translation-eq-reply, cascade_scheme-accounted}
use versification_tool.Api.Indexing.Purged.{contains-among, purge_orphan_mappings-AllKnown}
use versification_tool.Api.Indexing.Invariant.{Reach-IsSound}

held_after-row :
    (now : ℕ) (flag : Bool) (row : TranslationIndex) (i : ℕ)
    → contains i (held_after (claim_row now flag row).1) ≡ true
    → i ≡ row.id
unfolding contains
held_after-row now true row i h = cc
held_after-row now false row i h = ground (arith, nat_beq_iff i row.id, h)

-- A claimed index is known.
claim-reads :
    (lost : List ℕ) (now : ℕ) (t : Tables)
    → IsSound t.indexes
    → (i : ℕ) → contains i (held_after (claim_next now t).1) ≡ true
    → accounted lost i t ≡ true
unfolding claim_next
claim-reads lost now t s i h = elim (Option-cases (next_pending t.indexes)) [
  | inl none_waits ↦ let h' = rw (none_waits, claim_next) at h in unfold contains in cc
  | inr (row, e) ↦
      let found =
        find_row-member t.indexes row s.distinct (next_pending-IsFirst t.indexes row e).member in
      let own = held_after-row now row.cancel_requested row i (rw (e, claim_next) at h) in
      subst (λ (x : ℕ). accounted lost x t ≡ true) (sym own)
        (find_row-known lost row.id t row found)
]

recovered-id : (row : TranslationIndex) → (recovered row).id ≡ row.id
recovered-id row = elim (Bool-cases row.cancel_requested) [
  | inl t ↦ simp (t, recovered)
  | inr f ↦ simp (f, recovered)
]

without_scheme-id : (row : TranslationIndex) → (without_scheme row).id ≡ row.id
without_scheme-id row = elim (building-cases row.status) [
  | inl other ↦ simp (other, without_scheme)
  | inr here ↦ simp (here, without_scheme)
]

-- The rows of a translation are queued before they are deleted.
dropped-IsCovered :
    (lost : List ℕ) (id : ℕ) (t : Tables) (held : List ℕ)
    → IsCovered lost t held
    → IsCovered lost (drop_indexes_for_translation id t).0 held
unfolding drop_indexes_for_translation drop_rows
dropped-IsCovered lost id t held c =
    Grows-IsCovered lost (delete_rows-Grows (ids (selected (of_translation id) t.indexes)) t) c

cascade_scheme-IsCovered :
    (lost : List ℕ) (sc : ℕ) (t : Tables) (held : List ℕ)
    → IsCovered lost t held
    → IsCovered (ids (selected (of_scheme sc) t.indexes) ++ lost) (cascade_scheme sc t) held
unfolding cascade_scheme
cascade_scheme-IsCovered lost sc t held c = record {
  reads = λ i h. cascade_scheme-accounted sc lost t i (c.reads i h);
  stored =
      AllKnown-moved lost (ids (selected (of_scheme sc) t.indexes) ++ lost) t (cascade_scheme sc t)
        t.mappings (cascade_scheme-accounted sc lost t) c.stored;
}

-- The cleanup queues what is left behind; only what the running build has read can still be lost.
purge-IsCovered :
    (lost held : List ℕ) (t : Tables)
    → IsCovered lost t held
    → IsCovered (among held lost) (purge_orphan_mappings t).0 held
unfolding purge_orphan_mappings
purge-IsCovered lost held t c = record {
  reads = λ i h. elim (Bool-cases (known i t)) [
    | inl y ↦
        let k =
          (queue_reclaim-Grows
              (dedup (
                orphans source_side (ids t.indexes) t.mappings
                ++ orphans target_side (ids t.indexes) t.mappings))
              t).kept
            i y in
        ground (arith, k)
    | inr n ↦
        let l = contains-among i held lost h (ground (arith, n, c.reads i h)) in ground (arith, l)
  ];
  stored = purge_orphan_mappings-AllKnown (among held lost) t;
}

module _ {ℓ} {Translation : Type ℓ} (session : Database Translation) (scheme : ℕ → Option SchemeRef)
    (fingerprint : ℕ → SchemeRef → Option Text) where
  nothing_read :
      (lost : List ℕ) (t : Tables) (i : ℕ) → contains i [] ≡ true → accounted lost i t ≡ true
  unfolding contains
  nothing_read lost t i h = cc

  Step-IsCovered :
      (lost : List ℕ) {t u : Tables} {held after : List ℕ}
      (step : Step session scheme fingerprint t held u after)
      → IsSound t.indexes
      → IsCovered lost t held
      → IsCovered (lost_after session scheme fingerprint step lost) u after
  unfolding invalidate_for_translation invalidate_for_scheme drop_indexes_for_translation
      drop_indexes_for_scheme requeue drop_rows append_note increment_pairs fail_without_scheme
      record_failure recover_orphaned_builds sweep_fingerprints contains lost_after
  Step-IsCovered lost {t} (create id now of sc u row fresh e) s c =
      Grows-IsCovered lost (create_index-Grows session id now of sc t u row e) c
  Step-IsCovered lost {t} (reassign now id sc u row e) s c =
      Grows-IsCovered lost (set_versification-Grows session now id sc t u row e) c
  Step-IsCovered lost {t} (remove id u e) s c = Grows-IsCovered lost (delete_index-Grows id t u e) c
  Step-IsCovered lost {t} (rebuild now id u row e) s c =
      Grows-IsCovered lost (request_rebuild-Grows now id t u row e) c
  Step-IsCovered lost {t} (cancel id u row e) s c =
      Grows-IsCovered lost (request_cancel-Grows id t u row s e) c
  Step-IsCovered lost {t} (invalidate_translation id reason now) s c =
      Grows-IsCovered lost (on_rows-Grows _ (requeued reason now) t (λ row. refl)) c
  Step-IsCovered lost {t} (invalidate_scheme id reason now) s c =
      Grows-IsCovered lost (on_rows-Grows _ (requeued reason now) t (λ row. refl)) c
  Step-IsCovered lost {t} {held = held} (delete referenced none id u e) s c =
      subst (λ (x : Tables). IsCovered lost x held)
        (delete_translation-eq-reply session referenced none id t u e)
        (dropped-IsCovered lost id t held c)
  Step-IsCovered lost {t} {held = held} (delete referenced (some sc) id u e) s c =
      let dropped = (drop_indexes_for_translation id t).0 in
      subst
        (λ (x : Tables). IsCovered (ids (selected (of_scheme sc) dropped.indexes) ++ lost) x held)
        (delete_translation-eq-reply session referenced (some sc) id t u e)
        (cascade_scheme-IsCovered lost sc dropped held (dropped-IsCovered lost id t held c))
  Step-IsCovered lost {t} (drop_scheme id) s c =
      Grows-IsCovered lost (delete_rows-Grows (ids (selected (of_scheme id) t.indexes)) t) c
  Step-IsCovered lost {t} (retarget of now u changed e) s c =
      Grows-IsCovered lost (retarget-Grows session of now t u changed s e) c
  Step-IsCovered lost {t} recover s c =
      Grows-IsCovered lost (on_rows-Grows _ recovered t recovered-id) c
  Step-IsCovered lost {t} {held} purge s c = purge-IsCovered lost held t c
  Step-IsCovered lost {t} (drain chunk h) s c = record {
    reads = nothing_read lost (drain_reclaim chunk t).0;
    stored = drain-AllKnown lost chunk t c.stored;
  }
  Step-IsCovered lost {t} (sweep now h) s c =
      Grows-IsCovered lost (on_rows-Grows _ (requeued _ now) t (λ row. refl))
        (record { reads = nothing_read lost t; stored = c.stored })
  Step-IsCovered lost {t} (claim now h) s c =
      Grows-IsCovered lost (claim-Grows now t s)
        (record { reads = claim-reads lost now t s; stored = c.stored })
  Step-IsCovered lost {t} {held = held} (load id row e) s c = record {
    reads = λ i h. elim (Bool-cases (i == id)) [
      | inl same ↦
          subst (λ (x : ℕ). accounted lost x t ≡ true) (sym ((nat_beq_iff i id).0 same))
            (find_row-known lost id t row e)
      | inr other ↦ c.reads i (ground (arith, h, other))
    ];
    stored = c.stored;
  }
  Step-IsCovered lost {t} (open_build id total) s c =
      Grows-IsCovered lost (on_row-Grows id (opened total) t (λ row e. refl)) c
  Step-IsCovered lost {t} (check id) s c = Grows-IsCovered lost (check-Grows id t s) c
  Step-IsCovered lost {t} (clear id chunk) s c = record {
    reads = c.reads;
    stored =
        AllKnown-mono lost t t (delete_mapping_chunk id chunk t.mappings).0 (λ i h. h)
          (delete_mapping_chunk-AllKnown lost t id chunk t.mappings c.stored);
  }
  Step-IsCovered lost {t} (note id text) s c =
      Grows-IsCovered lost (on_row-Grows id _ t (λ row e. refl)) c
  Step-IsCovered lost {t} (advance id count) s c =
      Grows-IsCovered lost (on_row-Grows id _ t (λ row e. refl)) c
  Step-IsCovered lost {t} (write source target chunk a b) s c = record {
    reads = c.reads;
    stored =
        AllKnown-mono lost t t (upsert_chunk source target chunk t.mappings) (λ i h. h)
          (upsert_chunk-AllKnown lost t source target chunk t.mappings (c.reads source a)
            (c.reads target b) c.stored);
  }
  Step-IsCovered lost {t} (miss_scheme id) s c =
      Grows-IsCovered lost (on_row-Grows id without_scheme t (λ row e. without_scheme-id row)) c
  Step-IsCovered lost {t} (close digest now id) s c =
      Grows-IsCovered lost (close-Grows digest now id t s) c
  Step-IsCovered lost {t} (fail id message) s c =
      Grows-IsCovered lost (on_row-Grows id _ t (λ row e. refl)) c
  Step-IsCovered lost {t} leave s c = record { reads = nothing_read lost t; stored = c.stored }

  Reach-IsCovered :
      {t : Tables} {held : List ℕ} (r : Reach session scheme fingerprint t held)
      → IsCovered (lost_ids session scheme fingerprint r) t held
  unfolding lost_ids
  Reach-IsCovered start = record {
    reads = nothing_read [] (record { indexes = []; reclaim = []; mappings = [] });
    stored = tt;
  }
  Reach-IsCovered (next r step) =
      Step-IsCovered (lost_ids session scheme fingerprint r) step
        (Reach-IsSound session scheme fingerprint r) (Reach-IsCovered r)

  -- After any sequence of transactions from empty tables both indexes that a stored mapping names
  -- have a row, or wait for the cleanup of their mappings, or are among those whose row a deleted
  -- scheme took with it; a process that starts leaves of these only what the running build has
  -- read, so that it finds the others' mappings for the cleanup.
  pub Reach-AllKnown :
      {t : Tables} {held : List ℕ} (r : Reach session scheme fingerprint t held)
      → AllKnown (lost_ids session scheme fingerprint r) t t.mappings
  Reach-AllKnown r = (Reach-IsCovered r).stored
