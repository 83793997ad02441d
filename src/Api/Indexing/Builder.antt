-- ===== src/Api/Indexing/Builder.antt =====
-- frvt/api/indexing/builder.py and keys.py. The text of a mapping that the resolver gives for a
-- reference, and the fingerprint of an index, are parameters; `none` is an error. The functions below
-- `build_index` are the transactions of a build; in `build_index` none of another session comes between.
use versification_tool.Prelude.{
  ℕ, zero, suc, ◌+◌, ◌*◌, Bool, true, false, not, ◌&&◌, Option, none, some, List, [], ◌∷◌, ◌++◌,
  length, leb, if◌then◌else◌,
}
use versification_tool.Prelude.Equality.{nat_eq, ◌==◌}
use versification_tool.Prelude.Texts.{Text, text_eq, codes, strip}
use versification_tool.Resolver.Types.{VerseId, SchemeRef, ok, raised}
use versification_tool.Resolver.Reference.{parse_ref, format_bcv}
use versification_tool.Api.Indexing.Rows.{
  building, ready, failed, cancelled, status_beq, TranslationIndex, IndexMapping, Tables, find_row,
  on_row, selected,
}
use versification_tool.Api.Indexing.Registry.{delete_mapping_chunk}
use versification_tool.Api.Indexing.Invalidation.{with_note}

unfoldable pub index_key : Text → Option Text
index_key ref = elim (parse_ref (strip ref)) [
  | raised e ↦ none
  | ok parsed ↦
      if parsed.verse_start == parsed.verse_end
      then (let verse : VerseId = record {
        book = parsed.book;
        chapter = parsed.chapter;
        verse = parsed.verse_start;
        part = none;
      } in
          some (format_bcv verse))
      else none
]

-- Whether the build is to be given up, and the row then.
abbrev pub checked : TranslationIndex → TranslationIndex × Bool
checked row =
    if status_beq row.status building
    then (if row.cancel_requested
        then (record row { status = cancelled; cancel_requested = false }, true)
        else (row, false))
    else (row, true)

unfoldable pub stop_if_not_current : ℕ → Tables → Tables × Bool
unfolding find_row on_row
stop_if_not_current id t = elim (find_row id t.indexes) [
  | none ↦ (t, true)
  | some row ↦
      let (changed, stop) = checked row in
      (record t { indexes = on_row id (λ _. changed) t.indexes }, stop)
]

-- The row with a digest once the build is done.
abbrev pub finished : ℕ → Text → TranslationIndex → TranslationIndex
finished now digest row = record row {
  content_fingerprint = some digest;
  status = ready;
  pending_reason = none;
  completed_at = some now;
  last_error = none;
}

-- What follows a check, if the build is not given up.
abbrev pub unless_stopped : Tables × Bool → (Tables → Tables × Bool) → Tables × Bool
unless_stopped (t, true) next = (t, true)
unless_stopped (t, false) next = next t

unfoldable pub append_note : ℕ → Text → Tables → Tables
unfolding on_row
append_note id note t = record t {
  indexes =
      on_row id (λ row. record row { build_notes = some (with_note note row.build_notes) })
        t.indexes;
}

unfoldable pub increment_pairs : ℕ → ℕ → Tables → Tables
unfolding on_row
increment_pairs id count t = record t {
  indexes =
      on_row id (λ row. record row { pairs_completed = row.pairs_completed + count }) t.indexes;
}

-- One row of an insertion that replaces the payload on a conflict.
unfoldable pub upsert : IndexMapping → List IndexMapping → List IndexMapping
upsert new [] = new ∷ []
upsert new (m ∷ ms) =
    let rest = upsert new ms in
    if m.source_index_id == new.source_index_id
      && m.target_index_id == new.target_index_id
      && m.source_ref == new.source_ref
    then new ∷ ms
    else m ∷ rest

unfoldable pub upsert_chunk : ℕ → ℕ → List (Text × Text) → List IndexMapping → List IndexMapping
unfolding upsert
upsert_chunk source target [] ms = ms
upsert_chunk source target ((ref, payload) ∷ chunk) ms =
    let new : IndexMapping = record {
      source_index_id = source;
      target_index_id = target;
      source_ref = ref;
      payload = payload;
    } in
    upsert_chunk source target chunk (upsert new ms)

abbrev pub write_chunk : ℕ → ℕ → List (Text × Text) → Tables → Tables
write_chunk source target chunk t = record t {
  mappings = upsert_chunk source target chunk t.mappings;
}

-- What is stored of a reference: its key and the resolver's result.
unfoldable pub entry : (Text → Option Text) → Text → Option (Text × Text)
entry resolve ref = elim (index_key ref) [
  | none ↦ none
  | some key ↦ elim (resolve ref) [ none ↦ none | some payload ↦ some (key, payload) ]
]

-- The loop of `_build_pair` over the references.
module _ (chunk_size owner source target : ℕ) (resolve : Text → Option Text) where
  unfoldable pub write_refs : List Text → List (Text × Text) → Tables → Tables
  unfolding entry stop_if_not_current upsert_chunk
  write_refs [] [] t = t
  write_refs [] (e ∷ chunk) t = write_chunk source target (e ∷ chunk) t
  write_refs (ref ∷ refs) chunk t = elim (entry resolve ref) [
    | none ↦ write_refs refs chunk t
    | some e ↦
        let longer = chunk ++ (e ∷ []) in
        let written = stop_if_not_current owner (write_chunk source target longer t) in
        let full = if written.1 then written.0 else write_refs refs [] written.0 in
        let more = write_refs refs longer t in if leb chunk_size (length longer) then full else more
  ]

-- What a build takes from the rest of the program: the scheme of an id; the references that are stored
-- for a translation; how to resolve between two translations and schemes, if they share an ancestor; the
-- fingerprint.
pub record Sources : Type 0 where
  pub scheme_of : ℕ → Option SchemeRef
  pub stored_verse_refs : ℕ → List Text
  pub resolve_path : ℕ → ℕ → SchemeRef → SchemeRef → Option (Text → Option Text)
  pub index_fingerprint : ℕ → SchemeRef → Option Text

module _ (by : Sources) (chunk_size : ℕ) where
  unfoldable pub build_pair :
      ℕ → TranslationIndex → TranslationIndex → SchemeRef → SchemeRef → Tables → Tables
  unfolding write_refs append_note
  build_pair owner source target source_scheme target_scheme t =
      elim (by.resolve_path source.translation_id target.translation_id source_scheme
        target_scheme) [
          | none ↦ append_note owner (codes "Skipped pair: no shared ancestor.") t
          | some resolve ↦
              write_refs chunk_size owner source.id target.id resolve
                (by.stored_verse_refs source.translation_id) [] t
        ]

  -- The two pairs of a counterpart whose row and scheme are found.
  unfoldable pub build_both :
      ℕ → TranslationIndex → TranslationIndex → SchemeRef → SchemeRef → Tables → Tables × Bool
  unfolding stop_if_not_current build_pair increment_pairs
  build_both id current other_row source_scheme target_scheme t =
      unless_stopped
        (stop_if_not_current id (build_pair id current other_row source_scheme target_scheme t))
        (λ t'. (
          increment_pairs id 2 (build_pair id other_row current target_scheme source_scheme t'),
          false,
        ))

  unfoldable pub build_other : ℕ → SchemeRef → ℕ → Tables → Tables × Bool
  unfolding find_row build_both append_note increment_pairs
  build_other id source_scheme other_id t = elim (find_row id t.indexes) [
    | none ↦ (t, true)
    | some current ↦ elim (find_row other_id t.indexes) [
      | none ↦ (t, true)
      | some other_row ↦ elim (by.scheme_of other_row.scheme_id) [
        | none ↦ (
          increment_pairs id 2 (append_note id (codes "Skipped pair: versification is missing.") t),
          false,
        )
        | some target_scheme ↦ build_both id current other_row source_scheme target_scheme t
      ]
    ]
  ]

  -- The loop over the other indexes: the tables, and whether the build was given up.
  unfoldable pub build_others : ℕ → SchemeRef → List TranslationIndex → Tables → Tables × Bool
  unfolding stop_if_not_current build_other
  build_others id source_scheme [] t = (t, false)
  build_others id source_scheme (other ∷ others) t =
      unless_stopped (stop_if_not_current id t) (λ t1.
        unless_stopped (build_other id source_scheme other.id t1)
          (λ t2. build_others id source_scheme others t2))

-- `while delete_mapping_chunk(...)`: the tables, and whether the build was given up. Each round but the
-- last deletes a mapping.
unfoldable pub clear_loop : ℕ → ℕ → ℕ → Tables → Tables × Bool
unfolding delete_mapping_chunk stop_if_not_current
clear_loop zero chunk_size id t = (t, false)
clear_loop (suc fuel) chunk_size id t =
    let (left, deleted) = delete_mapping_chunk id chunk_size t.mappings in
    let t' : Tables = record t { mappings = left } in
    let more =
      unless_stopped (stop_if_not_current id t') (λ t''. clear_loop fuel chunk_size id t'') in
    if deleted == 0 then (t', false) else more

-- The row of a build that no request has overtaken.
abbrev pub with_digest : ℕ → Option Text → TranslationIndex → TranslationIndex × Option Text
with_digest now none row = (row, some (codes "fingerprint"))
with_digest now (some digest) row = (finished now digest row, none)

-- `_finish`, with the digest or an error; the error is raised only where a digest is asked for.
abbrev pub finish_row : ℕ → Option Text → TranslationIndex → TranslationIndex × Option Text
finish_row now digest row =
    if status_beq row.status building
    then (if row.cancel_requested
        then (record row { status = cancelled; cancel_requested = false }, none)
        else with_digest now digest row)
    else (row, none)

unfoldable pub finish : (TranslationIndex → Option Text) → ℕ → ℕ → Tables → Tables × Option Text
unfolding find_row on_row
finish digest now id t = elim (find_row id t.indexes) [
  | none ↦ (t, none)
  | some row ↦
      let (changed, error) = finish_row now (digest row) row in
      (record t { indexes = on_row id (λ _. changed) t.indexes }, error)
]

-- The ready indexes but for one.
unfoldable pub ready_others : ℕ → List TranslationIndex → List TranslationIndex
unfolding selected
ready_others id rows = selected (λ row. status_beq row.status ready && not (row.id == id)) rows

abbrev pub opened : ℕ → TranslationIndex → TranslationIndex
opened total row = record row { pairs_total = total; pairs_completed = 0; build_notes = none }

-- A missing scheme: only a row that is still being built fails.
abbrev pub without_scheme : TranslationIndex → TranslationIndex
without_scheme row =
    if status_beq row.status building
    then record row { status = failed; last_error = some (codes "Versification is missing.") }
    else row

unfoldable pub fail_without_scheme : ℕ → Tables → Tables
unfolding on_row
fail_without_scheme id t = record t { indexes = on_row id without_scheme t.indexes }

module _ (by : Sources) (chunk_size : ℕ) where
  -- The end of a build that was not given up.
  abbrev pub finish_with : ℕ → ℕ → SchemeRef → Tables × Bool → Tables × Option Text
  finish_with now id scheme (t, true) = (t, none)
  finish_with now id scheme (t, false) =
      finish (λ r. by.index_fingerprint r.translation_id scheme) now id t

  -- From the cleared table on.
  unfoldable pub build_pairs :
      ℕ → TranslationIndex → List TranslationIndex → Tables × Bool → Tables × Option Text
  unfolding build_others finish fail_without_scheme
  build_pairs now row others (t, true) = (t, none)
  build_pairs now row others (t, false) = elim (by.scheme_of row.scheme_id) [
    | none ↦ (fail_without_scheme row.id t, none)
    | some scheme ↦
        finish_with now row.id scheme (build_others by chunk_size row.id scheme others t)
  ]

  unfoldable pub build_index : ℕ → ℕ → Tables → Tables × Option Text
  unfolding find_row on_row ready_others stop_if_not_current clear_loop build_pairs
  build_index now id t = elim (find_row id t.indexes) [
    | none ↦ (t, none)
    | some row ↦
        let others = ready_others id t.indexes in
        let t0 : Tables = record t { indexes = on_row id (opened (2 * length others)) t.indexes } in
        build_pairs now row others (
          unless_stopped (stop_if_not_current id t0)
            (λ t1. clear_loop (suc (length t1.mappings)) chunk_size id t1))
  ]
