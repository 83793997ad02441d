-- ===== src/Api/Indexing/Deletion.antt =====
-- `delete_translation` of frvt/api/routers/translations.py, as far as it changes the indexes. The schemes
-- that are based on the translation and the scheme that goes with it are queries' results.
use versification_tool.Prelude.{ℕ, Option, none, some, ltb, if◌then◌else◌}
use versification_tool.Api.Schemes.{Reply, reply, refused, Database, require_translation}
use versification_tool.Api.Indexing.Rows.{Tables, ids, selected}
use versification_tool.Api.Indexing.Registry.{◌>>=◌}
use versification_tool.Api.Indexing.Invalidation.{
  of_scheme, delete_rows, drop_indexes_for_translation,
}

-- The foreign key of an index deletes the indexes of a deleted scheme, and queues nothing.
unfoldable pub cascade_scheme : ℕ → Tables → Tables
cascade_scheme scheme_id t = record t {
  indexes = delete_rows (ids (selected (of_scheme scheme_id) t.indexes)) t.indexes;
}

-- `if coupled_scheme_id is not None: session.delete(scheme)`
abbrev pub drop_coupled : Option ℕ → Tables → Tables
drop_coupled none t = t
drop_coupled (some scheme_id) t = cascade_scheme scheme_id t

module _ {ℓ} {Translation : Type ℓ} (session : Database Translation) where
  unfoldable pub delete_translation : ℕ → Option ℕ → ℕ → Tables → Reply Tables
  delete_translation referenced coupled_scheme_id translation_id t =
      require_translation session translation_id >>= λ row.
      let dropped = (drop_indexes_for_translation translation_id t).0 in
      if ltb 0 referenced then refused 409 else reply (drop_coupled coupled_scheme_id dropped)
