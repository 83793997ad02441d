-- ===== src/Api/Tests/Jump.antt =====
-- Tests of the jump menu.
use versification_tool.Prelude.{
  ◌≡◌, refl, ◌↔◌, true, false, Bool, Option, none, some, List, [], ◌∷◌, if◌then◌else◌,
}
use versification_tool.Prelude.Equality.{nat_eq, pair_eq, option_eq, ◌==◌, dedup, contains}
use versification_tool.Prelude.Sorting.{sorted_by, sorted_set, insert_by}
use versification_tool.Prelude.Decimal.{read, show}
use versification_tool.Prelude.Texts.{Text, text_eq, codes, strip, lstrip, is_space}
use versification_tool.Resolver.Types.{
  shift, VerseId, SchemeRef, MappingView, RefRange, Resolution, Result, ok, ◌>>=◌,
}
use versification_tool.Resolver.Reference.{
  index_in_range, parse_ref, expand, verse_run, format_bcv, covers, strip_part_suffix, part_suffix,
  span_digits, match_prefix, has_embedded_part, bcv_range, read_groups,
}
use versification_tool.Resolver.Compose.{compose, invert_relation}
use versification_tool.Resolver.Cover.{
  parse_ref_plain, record_range, candidate, candidates, find_covering_record, unequal_zip_cover,
  apply_identity, project_through, project_verse, range_length, zip_project, project_ranges,
}
use versification_tool.Resolver.Walk.{
  to_span, sort_verses, absorb, project_all, walk_hop, walk_hops, apply_hops_forward,
  apply_hops_downward, is_contiguous,
}
use versification_tool.Resolver.RangeHull.{
  find_range_trigger, any_part, scan, triggers_at, next_verses, candidate_from_record,
  least_trigger, trigger_lt,
}
use versification_tool.Resolver.Chains.{
  Session, load_mapping_views, preferred_scheme_ref, preferred_owner_of_scheme, hop_of, next_scheme,
  chain_loop, build_chain, numbering_node, append_new, nodes_from, numbering_nodes, first_shared,
  nearest_shared_translation, hops_to_ancestor, hops_from_ancestor,
}
use versification_tool.Resolver.Assemble.{
  assemble, normal_atomic, atomic_result, gather, gather_member, conclude, normalize_same_bcv,
  spans_share_bcv, select_scheme, resolve,
}
use versification_tool.Resolver.Tests.{row}
use versification_tool.Api.Jump.{
  Navigation, get, put, Context, Memo, no_memo, ProcessCache, is_canceling_resolution, fail_open,
  remember_dto, remember_cancel, cancels_dto, assemble_navigation, keep_path, held_path, load_path,
  resolve_path, make_room, remember_process, resolve_navigation, resolve_navigation_dto,
  is_canceling_jump_entry,
}
use versification_tool.Api.Jump.Uncached.{
  cancels, IsTruthful, IsTruthfulProcess, no_memo-IsTruthful, empty-IsTruthfulProcess,
  is_canceling_jump_entry-cancels,
}
use versification_tool.Api.Jump.Agree.{resolve_navigation_dto-resolve}
use versification_tool.Api.Jump.Stale.{is_canceling_jump_entry-repeats}
use versification_tool.Api.Jump.Filter.{visible}
use versification_tool.Api.Jump.Content.Filter.{reachable}
use versification_tool.Api.Navigation.{
  JumpMapping, part_or, leading_verse, navigation_target, jump_navigation_ref,
}
use versification_tool.Api.Navigation.Filtered.{scheme_diff_filtered_jump_mappings-visible}
use versification_tool.Api.Navigation.Menu.{scheme_diff_filtered_jump_mappings}
use versification_tool.Api.Navigation.Target.{jump_navigation_ref-single}

abbrev pub as_given : List VerseId → List VerseId
as_given vs = vs

abbrev pub leaf : SchemeRef
leaf = record { scheme_id = 1; based_on_id = some 20; based_on_name = none }

abbrev pub root : SchemeRef
root = record { scheme_id = 2; based_on_id = none; based_on_name = none }

-- Translation 10 prefers scheme 1, which is based on translation 20; this one prefers scheme 2, a
-- root. Scheme 1 has the rows that are given.
abbrev pub session_with : List MappingView → Session
session_with rows = record {
  preferred_scheme = λ t. if t == 20 then some 2 else some 1;
  preferring_translation = λ s. if s == 2 then some 20 else some 10;
  get_scheme = λ s. if s == 2 then some root else some leaf;
  mapping_records = λ s. if s == 1 then rows else [];
}

abbrev pub context_with : List MappingView → Context
context_with rows = record {
  session = session_with rows;
  from_translation = 10;
  to_translation = 20;
  source_scheme = leaf;
  target_scheme = root;
}

abbrev pub moved : List MappingView
moved = row (codes "GEN 1:5") (codes "GEN 1:6") shift 0 ∷ []

abbrev no_part : Option Text
no_part = none

abbrev verse_five : Navigation
verse_five = (codes "GEN 1:5", none)

is_canceling_jump_entry-cancels_example :
    ((is_canceling_jump_entry as_given 4 9 (context_with moved) verse_five no_memo []).0
      ≡ cancels as_given 4 9 (context_with moved) verse_five)
    × IsTruthful as_given 4 9
        (context_with moved)
        (is_canceling_jump_entry as_given 4 9 (context_with moved) verse_five no_memo []).1
    × IsTruthfulProcess as_given 4 9
        (context_with moved)
        (is_canceling_jump_entry as_given 4 9 (context_with moved) verse_five no_memo []).2
is_canceling_jump_entry-cancels_example =
    is_canceling_jump_entry-cancels as_given 4 9 (context_with moved) verse_five no_memo []
      (no_memo-IsTruthful as_given 4 9 (context_with moved))
      (empty-IsTruthfulProcess as_given 4 9 (context_with moved))

abbrev moved_to_six : Resolution
moved_to_six = record {
  source_spans = record { ref = codes "GEN 1:5"; part = none } ∷ [];
  target_spans = record { ref = codes "GEN 1:6"; part = none } ∷ [];
  relation = shift;
  edges = [];
  source_rel = none;
  target_rel = none;
}

resolve_navigation_dto-resolve_example :
    ((resolve_navigation_dto as_given 4 9 (context_with moved) verse_five no_memo).0
      ≡ ok (some moved_to_six))
    ↔ (resolve
          (session_with moved)
          as_given
          4
          9
          (codes "GEN 1:5")
          (some leaf)
          (some root)
          (some 10)
          (some 20)
          none
        ≡ ok moved_to_six)
resolve_navigation_dto-resolve_example =
    resolve_navigation_dto-resolve as_given 4 9 (context_with moved) (codes "GEN 1:5") none no_memo
      moved_to_six (no_memo-IsTruthful as_given 4 9 (context_with moved))

moves :
    resolve
      (session_with moved)
      as_given
      4
      9
      (codes "GEN 1:5")
      (some leaf)
      (some root)
      (some 10)
      (some 20)
      none
    ≡ ok moved_to_six
unfolding resolve select_scheme build_chain chain_loop hop_of next_scheme load_mapping_views
    preferred_scheme_ref preferred_owner_of_scheme numbering_node append_new nodes_from
    numbering_nodes first_shared nearest_shared_translation hops_to_ancestor hops_from_ancestor
    find_range_trigger any_part scan triggers_at next_verses candidate_from_record unequal_zip_cover
    least_trigger trigger_lt assemble normal_atomic atomic_result gather gather_member conclude
    normalize_same_bcv spans_share_bcv is_contiguous to_span format_bcv show apply_hops_forward
    apply_hops_downward project_verse project_through project_ranges zip_project range_length
    index_in_range expand verse_run compose invert_relation apply_identity absorb project_all
    walk_hop walk_hops sort_verses sorted_set insert_by dedup contains find_covering_record
    candidates candidate record_range sorted_by covers parse_ref_plain strip_part_suffix parse_ref
    span_digits match_prefix has_embedded_part bcv_range read_groups strip lstrip is_space
    part_suffix read
moves = refl

-- Whether the verse cancels in a new request, with the cache that the process has.
abbrev answer_for : List MappingView → ProcessCache → Result Bool × Memo × ProcessCache
answer_for rows p = is_canceling_jump_entry as_given 4 9 (context_with rows) verse_five no_memo p

stays : (answer_for moved []).0 ≡ ok false
unfolding select_scheme build_chain chain_loop hop_of next_scheme load_mapping_views
    preferred_scheme_ref preferred_owner_of_scheme numbering_node append_new nodes_from
    numbering_nodes first_shared nearest_shared_translation hops_to_ancestor hops_from_ancestor
    find_range_trigger any_part scan triggers_at next_verses candidate_from_record unequal_zip_cover
    least_trigger trigger_lt assemble normal_atomic atomic_result gather gather_member conclude
    normalize_same_bcv spans_share_bcv is_contiguous to_span format_bcv show apply_hops_forward
    apply_hops_downward project_verse project_through project_ranges zip_project range_length
    index_in_range expand verse_run compose invert_relation apply_identity absorb project_all
    walk_hop walk_hops sort_verses sorted_set insert_by dedup contains find_covering_record
    candidates candidate record_range sorted_by covers parse_ref_plain strip_part_suffix parse_ref
    span_digits match_prefix has_embedded_part bcv_range read_groups strip lstrip is_space
    part_suffix read get put is_canceling_resolution fail_open remember_dto remember_cancel
    cancels_dto assemble_navigation keep_path held_path load_path resolve_path make_room
    remember_process resolve_navigation resolve_navigation_dto is_canceling_jump_entry
stays = refl

-- Without the row the verse is its own target.
cancels_alone : (answer_for [] []).0 ≡ ok true
unfolding select_scheme build_chain chain_loop hop_of next_scheme load_mapping_views
    preferred_scheme_ref preferred_owner_of_scheme numbering_node append_new nodes_from
    numbering_nodes first_shared nearest_shared_translation hops_to_ancestor hops_from_ancestor
    find_range_trigger any_part scan triggers_at next_verses candidate_from_record unequal_zip_cover
    least_trigger trigger_lt assemble normal_atomic atomic_result gather gather_member conclude
    normalize_same_bcv spans_share_bcv is_contiguous to_span format_bcv show apply_hops_forward
    apply_hops_downward project_verse project_through project_ranges zip_project range_length
    index_in_range expand verse_run compose invert_relation apply_identity absorb project_all
    walk_hop walk_hops sort_verses sorted_set insert_by dedup contains find_covering_record
    candidates candidate record_range sorted_by covers parse_ref_plain strip_part_suffix parse_ref
    span_digits match_prefix has_embedded_part bcv_range read_groups strip lstrip is_space
    part_suffix read get put is_canceling_resolution fail_open remember_dto remember_cancel
    cancels_dto assemble_navigation keep_path held_path load_path resolve_path make_room
    remember_process resolve_navigation resolve_navigation_dto is_canceling_jump_entry
cancels_alone = refl

-- When the row is gone the process still answers as before.
is_canceling_jump_entry-repeats_example : (answer_for [] (answer_for moved []).2).0 ≡ ok false
is_canceling_jump_entry-repeats_example =
    is_canceling_jump_entry-repeats as_given 4 9 (context_with moved) (context_with []) verse_five
      [] false refl refl stays

abbrev five_moved : JumpMapping
five_moved = record {
  source_ref = codes "GEN 1:5-7";
  base_ref = some (codes "GEN 1:6-8");
  part = none;
  relation = shift;
  scheme_name = none;
}

scheme_diff_filtered_jump_mappings-visible_example :
    ((scheme_diff_filtered_jump_mappings as_given 4 9
        (context_with moved)
        (some (codes "GEN" ∷ []))
        (five_moved ∷ [])
        []).0
      ≡ (visible as_given 4 9 (context_with moved) jump_navigation_ref (five_moved ∷ [])
          >>= reachable as_given 4 9
              (context_with moved)
              jump_navigation_ref
              (some (codes "GEN" ∷ []))))
    × IsTruthful as_given 4 9
        (context_with moved)
        (scheme_diff_filtered_jump_mappings as_given 4 9
          (context_with moved)
          (some (codes "GEN" ∷ []))
          (five_moved ∷ [])
          []).1
    × IsTruthfulProcess as_given 4 9
        (context_with moved)
        (scheme_diff_filtered_jump_mappings as_given 4 9
          (context_with moved)
          (some (codes "GEN" ∷ []))
          (five_moved ∷ [])
          []).2
scheme_diff_filtered_jump_mappings-visible_example =
    scheme_diff_filtered_jump_mappings-visible as_given 4 9 (context_with moved)
      (some (codes "GEN" ∷ [])) (five_moved ∷ []) []
      (empty-IsTruthfulProcess as_given 4 9 (context_with moved))

visits_five : jump_navigation_ref five_moved ≡ ok verse_five
unfolding select_scheme build_chain chain_loop hop_of next_scheme load_mapping_views
    preferred_scheme_ref preferred_owner_of_scheme numbering_node append_new nodes_from
    numbering_nodes first_shared nearest_shared_translation hops_to_ancestor hops_from_ancestor
    find_range_trigger any_part scan triggers_at next_verses candidate_from_record unequal_zip_cover
    least_trigger trigger_lt assemble normal_atomic atomic_result gather gather_member conclude
    normalize_same_bcv spans_share_bcv is_contiguous to_span format_bcv show apply_hops_forward
    apply_hops_downward project_verse project_through project_ranges zip_project range_length
    index_in_range expand verse_run compose invert_relation apply_identity absorb project_all
    walk_hop walk_hops sort_verses sorted_set insert_by dedup contains find_covering_record
    candidates candidate record_range sorted_by covers parse_ref_plain strip_part_suffix parse_ref
    span_digits match_prefix has_embedded_part bcv_range read_groups strip lstrip is_space
    part_suffix read get put is_canceling_resolution fail_open remember_dto remember_cancel
    cancels_dto assemble_navigation keep_path held_path load_path resolve_path make_room
    remember_process resolve_navigation resolve_navigation_dto jump_navigation_ref navigation_target
    leading_verse part_or
visits_five = refl

jump_navigation_ref-single_example :
    (r : RefRange) × (leading_verse
        (strip_part_suffix (codes "GEN 1:5-7")).0
        (parse_ref (strip_part_suffix (codes "GEN 1:5-7")).0)
      ≡ ok r)
    × (parse_ref (codes "GEN 1:5")
        ≡ ok (record {
          book = r.book;
          chapter = r.chapter;
          verse_start = r.verse_start;
          verse_end = r.verse_start;
        }))
    × (no_part ≡ none)
jump_navigation_ref-single_example = jump_navigation_ref-single five_moved verse_five visits_five
