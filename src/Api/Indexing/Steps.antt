-- ===== src/Api/Indexing/Steps.antt =====
-- frvt/api/indexing as a transition system: each transaction of a request or of the worker is a step,
-- in any order. `held` are the indexes that the running build has read; there is one build at a time,
-- since the worker holds a lock of the database, and the cleanup of the queue and the sweep, which
-- take the lock too, do not run during a build.
use versification_tool.Prelude.{
  ℕ, ◌≡◌, true, false, Option, some, List, [], ◌∷◌, ◌++◌, if◌then◌else◌,
}
use versification_tool.Prelude.Equality.{nat_eq, contains}
use versification_tool.Prelude.Texts.{Text}
use versification_tool.Resolver.Types.{SchemeRef}
use versification_tool.Api.Schemes.{reply, Database}
use versification_tool.Api.Indexing.Rows.{TranslationIndex, Tables, find_row, on_row, ids, selected}
use versification_tool.Api.Indexing.Registry.{
  create_index, set_versification, delete_index, request_rebuild, request_cancel,
  delete_mapping_chunk,
}
use versification_tool.Api.Indexing.Invalidation.{
  invalidate_for_translation, invalidate_for_scheme, of_scheme, drop_indexes_for_translation,
  drop_indexes_for_scheme, retarget_default_indexes,
}
use versification_tool.Api.Indexing.Deletion.{delete_translation}
use versification_tool.Api.Indexing.Worker.{
  recover_orphaned_builds, drain_reclaim, purge_orphan_mappings, sweep_fingerprints, Claimed, idle,
  withdrawn, started, claim_next, record_failure,
}
use versification_tool.Api.Indexing.Builder.{
  stop_if_not_current, opened, append_note, increment_pairs, write_chunk, finish,
  fail_without_scheme,
}

-- `withdrawn` and `idle` leave no build behind.
abbrev pub held_after : Claimed → List ℕ
held_after idle = []
held_after withdrawn = []
held_after (started id) = id ∷ []

-- The elements of a list that stand in another.
unfoldable pub among : List ℕ → List ℕ → List ℕ
unfolding contains
among held [] = []
among held (i ∷ l) = let rest = among held l in if contains i held then i ∷ rest else rest

module _ {ℓ} {Translation : Type ℓ} (session : Database Translation)
    (scheme_ref_from_id : ℕ → Option SchemeRef)
    (index_fingerprint : ℕ → SchemeRef → Option Text) where
  pub data Step (t : Tables) (held : List ℕ) : Tables → List ℕ → Type ℓ where
    create :
        (id now translation_id : ℕ) (scheme_id : Option ℕ) (u : Tables) (row : TranslationIndex)
        → contains id (ids t.indexes) ≡ false
        → create_index session id now translation_id scheme_id t ≡ reply (u, row)
        → Step t held u held
    reassign :
        (now id scheme_id : ℕ) (u : Tables) (row : TranslationIndex)
        → set_versification session now id scheme_id t ≡ reply (u, row)
        → Step t held u held
    remove : (id : ℕ) (u : Tables) → delete_index id t ≡ reply u → Step t held u held
    rebuild :
        (now id : ℕ) (u : Tables) (row : TranslationIndex)
        → request_rebuild now id t ≡ reply (u, row)
        → Step t held u held
    cancel :
        (id : ℕ) (u : Tables) (row : TranslationIndex)
        → request_cancel id t ≡ reply (u, row)
        → Step t held u held
    invalidate_translation :
        (id : ℕ) (reason : Text) (now : ℕ)
        → Step t held (invalidate_for_translation id reason now t).0 held
    invalidate_scheme :
        (id : ℕ) (reason : Text) (now : ℕ)
        → Step t held (invalidate_for_scheme id reason now t).0 held
    delete :
        (referenced : ℕ) (coupled : Option ℕ) (id : ℕ) (u : Tables)
        → delete_translation session referenced coupled id t ≡ reply u
        → Step t held u held
    drop_scheme : (id : ℕ) → Step t held (drop_indexes_for_scheme id t).0 held
    retarget :
        (translation_id now : ℕ) (u : Tables) (changed : ℕ)
        → retarget_default_indexes session translation_id now t ≡ reply (u, changed)
        → Step t held u held
    -- A process that starts runs these two without the lock, so that another's build may go on.
    recover : Step t held (recover_orphaned_builds t).0 held
    purge : Step t held (purge_orphan_mappings t).0 held
    drain : (chunk_size : ℕ) → held ≡ [] → Step t held (drain_reclaim chunk_size t).0 []
    sweep :
        (now : ℕ)
        → held ≡ []
        → Step t held (sweep_fingerprints scheme_ref_from_id index_fingerprint now t).0 []
    claim :
        (now : ℕ) → held ≡ [] → Step t held (claim_next now t).0 (held_after (claim_next now t).1)
    -- The running build reads a row.
    load :
        (id : ℕ) (row : TranslationIndex)
        → find_row id t.indexes ≡ some row
        → Step t held t (id ∷ held)
    open_build :
        (id total : ℕ)
        → Step t held (record t { indexes = on_row id (opened total) t.indexes }) held
    check : (id : ℕ) → Step t held (stop_if_not_current id t).0 held
    clear :
        (id chunk_size : ℕ)
        → Step t held
            (record t { mappings = (delete_mapping_chunk id chunk_size t.mappings).0 })
            held
    note : (id : ℕ) (text : Text) → Step t held (append_note id text t) held
    advance : (id count : ℕ) → Step t held (increment_pairs id count t) held
    write :
        (source target : ℕ) (chunk : List (Text × Text))
        → contains source held ≡ true
        → contains target held ≡ true
        → Step t held (write_chunk source target chunk t) held
    miss_scheme : (id : ℕ) → Step t held (fail_without_scheme id t) held
    close :
        (digest : TranslationIndex → Option Text) (now id : ℕ)
        → Step t held (finish digest now id t).0 held
    fail : (id : ℕ) (message : Text) → Step t held (record_failure id message t) held
    -- The build has returned, or the process has died.
    leave : Step t held t []

  -- What a sequence of steps leads to, from empty tables.
  pub data Reach : Tables → List ℕ → Type ℓ where
    start : Reach (record { indexes = []; reclaim = []; mappings = [] }) []
    next : {t u : Tables} {held after : List ℕ} → Reach t held → Step t held u after → Reach u after

  -- The indexes that lost their row to the deletion of a scheme: a cleanup at a start leaves only those
  -- that the running build has read.
  unfoldable pub lost_after :
      {t u : Tables} {held after : List ℕ} → Step t held u after → List ℕ → List ℕ
  lost_after {t} (delete referenced (some scheme_id) id u e) lost =
      ids (selected (of_scheme scheme_id) (drop_indexes_for_translation id t).0.indexes) ++ lost
  lost_after {held} purge lost = among held lost
  lost_after step lost = lost

  unfoldable pub lost_ids : {t : Tables} {held : List ℕ} → Reach t held → List ℕ
  lost_ids start = []
  lost_ids (next r step) = lost_after step (lost_ids r)
