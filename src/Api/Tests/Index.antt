-- ===== src/Api/Tests/Index.antt =====
-- Tests of indexes, on a table of two translations.
use versification_tool.Prelude.{
  ℕ, ◌≡◌, refl, true, false, Option, none, some, List, [], ◌∷◌, arith, map,
}
use mathlib.Core.List.Memᴰ
use versification_tool.Prelude.Equality.{nat_eq, pair_eq, contains}
use versification_tool.Prelude.Texts.{Text, codes, strip, lstrip, is_space}
use versification_tool.Resolver.Types.{SchemeRef, VerseId, ok}
use versification_tool.Resolver.Reference.{
  parse_ref, format_bcv, bcv_range, match_prefix, has_embedded_part, read_groups, span_digits,
}
use versification_tool.Prelude.Decimal.{show, read}
use versification_tool.Api.Schemes.{
  reply, refused, batch_scheme_ref, require_translation, require_scheme, preferred_association,
  org_scheme_ref,
}
use versification_tool.Api.Tests.Sample.{database, org_scheme}
use versification_tool.Api.Indexing.Rows.{
  pending, building, cancelled, TranslationIndex, Tables, pair_of, find_row, on_row, delete_row,
  selected, IndexMapping,
}
use versification_tool.Api.Indexing.Registry.{
  queue_reclaim, new_index, requeued, get_index, create_index, request_rebuild, request_cancel,
}
use versification_tool.Api.Indexing.Worker.{
  started, claim_next, next_pending, next_from, record_failure, failed_row,
}
use versification_tool.Api.Indexing.Builder.{
  upsert, index_key, stop_if_not_current, finish, upsert_chunk, write_refs,
}
use versification_tool.Api.Indexing.Invalidation.{
  delete_rows, drop_rows, drop_indexes_for_translation, retarget_default_indexes,
}
use versification_tool.Api.Indexing.Deletion.{cascade_scheme, delete_translation}
use versification_tool.Api.Indexing.Sound.{IsSound}
use versification_tool.Api.Indexing.Steps.{
  Reach, start, next, create, claim, load, write, delete, lost_after, lost_ids,
}
use versification_tool.Api.Indexing.Invariant.{Reach-IsSound}
use versification_tool.Api.Indexing.Stored.{AllKnown}
use versification_tool.Api.Indexing.Orphans.{Reach-AllKnown}
use versification_tool.Api.Indexing.Drain.{drain_times, drain_times-reclaim}
use versification_tool.Api.Indexing.Races.{request_rebuild-race, request_cancel-race}
use versification_tool.Api.Indexing.Retarget.{retarget_default_indexes-eq-refused}
use versification_tool.Api.Indexing.Keys.{index_key-index_key}
use versification_tool.Resolver.Reference.RoundTrip.{single}
use versification_tool.Api.Indexing.Chunks.{IsCurrent, entries, write_refs-upsert_chunk}

abbrev no_tables : Tables
no_tables = record { indexes = []; reclaim = []; mappings = [] }

-- Index 5 of translation 1 on its scheme, requested at 10.
abbrev first_index : TranslationIndex
first_index = new_index 5 10 1 7 false

abbrev one_index : Tables
one_index = record { indexes = first_index ∷ []; reclaim = []; mappings = [] }

creates : create_index database 5 10 1 none no_tables ≡ reply (one_index, first_index)
unfolding create_index batch_scheme_ref require_translation require_scheme preferred_association
    contains
creates = refl

creates_once : create_index database 6 11 1 none one_index ≡ refused 409
unfolding create_index batch_scheme_ref require_translation require_scheme preferred_association
    contains
creates_once = refl

abbrev no_scheme : ℕ → Option SchemeRef
no_scheme id = none

abbrev no_digest : ℕ → SchemeRef → Option Text
no_digest id scheme = none

unfoldable reached_one : Reach database no_scheme no_digest one_index []
unfolding contains
reached_one = next start (create 5 10 1 none one_index first_index refl creates)

abbrev at_work : TranslationIndex
at_work = record first_index { status = building; started_at = some 12 }

abbrev working : Tables
working = record one_index { indexes = at_work ∷ [] }

claims : claim_next 12 one_index ≡ (working, started 5)
unfolding claim_next next_pending next_from on_row
claims = refl

Reach-IsSound_example : IsSound (first_index ∷ [])
Reach-IsSound_example = Reach-IsSound database no_scheme no_digest reached_one

-- Index 6 of translation 2, which prefers no scheme, on the canonical one.
abbrev second_index : TranslationIndex
second_index = new_index 6 11 2 7 false

abbrev two_indexes : Tables
two_indexes = record { indexes = first_index ∷ second_index ∷ []; reclaim = []; mappings = [] }

creates_second : create_index database 6 11 2 none one_index ≡ reply (two_indexes, second_index)
unfolding create_index batch_scheme_ref require_translation require_scheme preferred_association
    org_scheme_ref contains
creates_second = refl

abbrev first_building : Tables
first_building = record { indexes = at_work ∷ second_index ∷ []; reclaim = []; mappings = [] }

claims_first : claim_next 12 two_indexes ≡ (first_building, started 5)
unfolding claim_next next_pending next_from on_row
claims_first = refl

-- A mapping from index 5 to index 6.
abbrev written : List IndexMapping
written =
    record {
      source_index_id = 5;
      target_index_id = 6;
      source_ref = codes "GEN 1:1";
      payload = codes "x";
    }
    ∷ []

abbrev first_written : Tables
first_written = record first_building { mappings = written }

-- Translation 1 is deleted, and scheme 7 with it: index 5 is queued, index 6 is not.
abbrev deleted : Tables
deleted = record { indexes = []; reclaim = 5 ∷ []; mappings = written }

deletes : delete_translation database 0 (some 7) 1 first_written ≡ reply deleted
unfolding delete_translation require_translation drop_indexes_for_translation drop_rows delete_rows
    delete_row selected queue_reclaim cascade_scheme contains
deletes = refl

unfoldable reached_claim : Reach database no_scheme no_digest first_building (5 ∷ [])
unfolding contains claim_next next_pending next_from on_row
reached_claim =
    next (next reached_one (create 6 11 2 none two_indexes second_index refl creates_second))
      (claim 12 refl)

unfoldable reached_write : Reach database no_scheme no_digest first_written (6 ∷ 5 ∷ [])
unfolding contains find_row upsert_chunk upsert
reached_write =
    next (next reached_claim (load 6 second_index refl))
      (write 5 6 ((codes "GEN 1:1", codes "x") ∷ []) refl refl)

unfoldable reached_deletion : Reach database no_scheme no_digest deleted (6 ∷ 5 ∷ [])
reached_deletion = next reached_write (delete 0 (some 7) 1 deleted deletes)

-- The mapping's source waits for the cleanup; its target is lost.
Reach-AllKnown_example : AllKnown (6 ∷ []) deleted written
unfolding lost_ids lost_after reached_one reached_claim reached_write reached_deletion selected
    delete_row delete_rows drop_rows drop_indexes_for_translation queue_reclaim contains claim_next
    next_pending next_from on_row upsert_chunk upsert
Reach-AllKnown_example = Reach-AllKnown database no_scheme no_digest reached_deletion

waits : next_pending (first_index ∷ []) ≡ some first_index
unfolding next_pending next_from
waits = refl

-- A mapping of a deleted index.
abbrev orphaned : Tables
orphaned = record {
  indexes = [];
  reclaim = 3 ∷ [];
  mappings =
      record {
        source_index_id = 3;
        target_index_id = 4;
        source_ref = codes "GEN 1:1";
        payload = [];
      }
      ∷ [];
}

drain_times-reclaim_example : (drain_times 1 2 orphaned).reclaim ≡ []
drain_times-reclaim_example = drain_times-reclaim 0 2 orphaned (omega arith)

rebuilds :
    request_rebuild 20 5 working
    ≡ reply (
      record one_index { indexes = requeued (codes "manual rebuild") 20 at_work ∷ [] },
      requeued (codes "manual rebuild") 20 at_work,
    )
unfolding request_rebuild get_index find_row on_row
rebuilds = refl

abbrev rebuilt : Tables
rebuilt = record one_index { indexes = requeued (codes "manual rebuild") 20 at_work ∷ [] }

abbrev no_digest_of : TranslationIndex → Option Text
no_digest_of row = none

request_rebuild-race_example :
    (pending ≡ pending)
    × ((stop_if_not_current 5 rebuilt).1 ≡ true)
    × (find_row 5 (finish no_digest_of 30 5 rebuilt).0.indexes
        ≡ some (requeued (codes "manual rebuild") 20 at_work))
    × (find_row 5 (record_failure 5 (codes "x") rebuilt).indexes
        ≡ some (failed_row (codes "x") (requeued (codes "manual rebuild") 20 at_work)))
request_rebuild-race_example =
    request_rebuild-race 20 5 30 no_digest_of (codes "x") working rebuilt
      (requeued (codes "manual rebuild") 20 at_work) rebuilds

abbrev flagged : TranslationIndex
flagged = record at_work { cancel_requested = true }

abbrev cancelling : Tables
cancelling = record one_index { indexes = flagged ∷ [] }

cancels : request_cancel 5 working ≡ reply (cancelling, flagged)
unfolding request_cancel get_index find_row on_row
cancels = refl

abbrev cancelled_index : TranslationIndex
cancelled_index = record flagged { status = cancelled; cancel_requested = false }

request_cancel-race_example :
    ((stop_if_not_current 5 cancelling).1 ≡ true)
    × (find_row 5 (stop_if_not_current 5 cancelling).0.indexes ≡ some cancelled_index)
    × (find_row 5 (finish no_digest_of 30 5 cancelling).0.indexes ≡ some cancelled_index)
request_cancel-race_example =
    request_cancel-race 5 30 no_digest_of working cancelling flagged cancels refl

-- Two defaulted indexes of translation 1, which prefers scheme 7, on schemes 2 and 3.
abbrev left_behind : TranslationIndex
left_behind = new_index 8 10 1 2 false

abbrev also_behind : TranslationIndex
also_behind = new_index 9 11 1 3 false

abbrev two_behind : Tables
two_behind = record { indexes = left_behind ∷ also_behind ∷ []; reclaim = []; mappings = [] }

prefers : batch_scheme_ref database 1 none ≡ reply org_scheme
unfolding batch_scheme_ref require_scheme preferred_association
prefers = refl

free_pair : contains (1, 7) (map pair_of two_behind.indexes) ≡ false
unfolding contains
free_pair = refl

retarget_default_indexes-eq-refused_example :
    retarget_default_indexes database 1 40 two_behind ≡ refused 500
retarget_default_indexes-eq-refused_example =
    retarget_default_indexes-eq-refused database 1 40 org_scheme two_behind left_behind also_behind
      prefers (Memᴰ.head refl) (Memᴰ.tail (Memᴰ.head refl)) (λ e. omega (arith, e)) refl refl
      free_pair

key_of_padded : index_key (codes " GEN 1:01 ") ≡ some (codes "GEN 1:1")
unfolding index_key strip lstrip is_space parse_ref bcv_range match_prefix has_embedded_part
    read_groups span_digits format_bcv show read
key_of_padded = refl

key_of_plain : index_key (codes "GEN 1:1") ≡ some (codes "GEN 1:1")
unfolding index_key strip lstrip is_space parse_ref bcv_range match_prefix has_embedded_part
    read_groups span_digits format_bcv show read
key_of_plain = refl

index_key-index_key_example :
    (index_key (codes "GEN 1:1") ≡ some (codes "GEN 1:1"))
    × ((v : VerseId) × (parse_ref (strip (codes " GEN 1:01 ")) ≡ ok (single v))
        × (parse_ref (strip (codes "GEN 1:1")) ≡ ok (single v)))
index_key-index_key_example =
    index_key-index_key (codes " GEN 1:01 ") (codes "GEN 1:1") (codes "GEN 1:1") key_of_padded
      key_of_plain

current : IsCurrent 5 working
unfolding find_row
current = record { row = at_work; found = refl; at_work = refl; free = refl }

abbrev echo : Text → Option Text
echo ref = some ref

write_refs-upsert_chunk_example :
    write_refs 1 5 5 6 echo (codes "GEN 1:1" ∷ codes "GEN 1:2" ∷ []) [] working ≡ record working {
      mappings = upsert_chunk 5 6 (entries echo (codes "GEN 1:1" ∷ codes "GEN 1:2" ∷ [])) [];
    }
write_refs-upsert_chunk_example =
    write_refs-upsert_chunk echo 1 5 5 6 (codes "GEN 1:1" ∷ codes "GEN 1:2" ∷ []) [] working current
