-- ===== src/Resolver/Tests/Assembled.antt =====
-- Tests of range triggers and of `assemble`.
use versification_tool.Prelude.{◌≡◌, refl, none, some, List, [], ◌∷◌}
use versification_tool.Resolver.RangeHull.{
  on_source, RangeTrigger, find_range_trigger, any_part, scan, triggers_at, next_verses,
  candidate_from_record, least_trigger, trigger_lt,
}
use versification_tool.Resolver.RangeHull.Trigger.{IsFound, find_range_trigger-IsFound}
use versification_tool.Resolver.Assemble.{
  assemble, normal_atomic, atomic_result, gather, gather_member, conclude, normalize_same_bcv,
  spans_share_bcv,
}
use versification_tool.Resolver.Assemble.Normal.{normalize_same_bcv-assemble}
use versification_tool.Resolver.Assemble.Exclusion.{assemble-eq-exclude}
use versification_tool.Prelude.{◌≡◌, refl, none, some, List, [], ◌∷◌}
use versification_tool.Prelude.Equality.{dedup, contains}
use versification_tool.Prelude.Sorting.{sorted_by, sorted_set, insert_by}
use versification_tool.Prelude.Decimal.{read, show}
use versification_tool.Prelude.Texts.{codes, strip, lstrip, is_space}
use versification_tool.Resolver.Types.{
  one_to_one, shift, exclude, VerseId, MappingView, Hop, Resolution, ok,
}
use versification_tool.Resolver.Reference.{
  index_in_range, parse_ref, expand, verse_run, format_bcv, covers, strip_part_suffix, part_suffix,
  span_digits, match_prefix, has_embedded_part, bcv_range, read_groups,
}
use versification_tool.Resolver.Compose.{compose, invert_relation}
use versification_tool.Resolver.Cover.{
  parse_ref_plain, record_range, candidate, candidates, find_covering_record, unequal_zip_cover,
  apply_identity, project_through, project_verse, range_length, zip_project, project_ranges,
}
use versification_tool.Resolver.Walk.{
  to_span, sort_verses, absorb, project_all, walk_hop, walk_hops, apply_hops_forward,
  apply_hops_downward, up_set, down_set, src_of_pivot, piv_of_target, is_contiguous,
}
use versification_tool.Resolver.Hull.{explore, hull_loop, neighbours, visit, push_all}
use versification_tool.Resolver.Tests.{at, from_to, row, removing}

abbrev as_given : List VerseId → List VerseId
as_given vs = vs

abbrev hop_with : MappingView → Hop
hop_with r = record { scheme_id = 1; based_on_id = some 2; mappings = r ∷ [] }

-- Two verses to three.
abbrev stretching : MappingView
stretching = row (codes "GEN 1:1-2") (codes "GEN 1:1-3") shift 0

abbrev stretched : RangeTrigger
stretched = record {
  side = on_source;
  hop_index = 0;
  cover = from_to 1 2;
  output = from_to 1 3;
  width = 1;
  ordinal = 0;
}

finds : find_range_trigger (at 2 ∷ []) (hop_with stretching ∷ []) [] ≡ ok (some stretched)
unfolding find_range_trigger any_part scan triggers_at next_verses candidate_from_record
    unequal_zip_cover least_trigger trigger_lt project_verse project_through project_ranges
    zip_project range_length index_in_range expand verse_run compose invert_relation apply_identity
    absorb project_all walk_hop walk_hops sort_verses sorted_set insert_by dedup contains
    find_covering_record candidates candidate record_range sorted_by covers parse_ref_plain
    strip_part_suffix parse_ref span_digits match_prefix has_embedded_part bcv_range read_groups
    strip lstrip is_space part_suffix read
finds = refl

-- A wider row, and a narrower one that only a later verse meets.
abbrev two_rows : Hop
two_rows = record {
  scheme_id = 1;
  based_on_id = some 2;
  mappings =
      row (codes "GEN 1:1-3") (codes "GEN 1:1-5") shift 0
      ∷ row (codes "GEN 1:4-5") (codes "GEN 1:6-8") shift 1
      ∷ [];
}

abbrev narrower : RangeTrigger
narrower = record {
  side = on_source;
  hop_index = 0;
  cover = from_to 4 5;
  output = from_to 6 8;
  width = 1;
  ordinal = 1;
}

finds_narrower : find_range_trigger (at 1 ∷ at 4 ∷ []) (two_rows ∷ []) [] ≡ ok (some narrower)
unfolding find_range_trigger any_part scan triggers_at next_verses candidate_from_record
    unequal_zip_cover least_trigger trigger_lt project_verse project_through project_ranges
    zip_project range_length index_in_range expand verse_run compose invert_relation apply_identity
    absorb project_all walk_hop walk_hops sort_verses sorted_set insert_by dedup contains
    find_covering_record candidates candidate record_range sorted_by covers parse_ref_plain
    strip_part_suffix parse_ref span_digits match_prefix has_embedded_part bcv_range read_groups
    strip lstrip is_space part_suffix read
finds_narrower = refl

find_range_trigger-IsFound_example : IsFound (at 1 ∷ at 4 ∷ []) (two_rows ∷ []) [] narrower
find_range_trigger-IsFound_example =
    find_range_trigger-IsFound (at 1 ∷ at 4 ∷ []) (two_rows ∷ []) [] (some narrower) finds_narrower

abbrev removed : Resolution
removed = record {
  source_spans = to_span (at 3) ∷ [];
  target_spans = [];
  relation = exclude;
  edges = [];
  source_rel = none;
  target_rel = none;
}

removes : assemble as_given 9 (hop_with removing ∷ []) [] (at 3 ∷ []) ≡ ok removed
unfolding find_range_trigger any_part scan triggers_at next_verses candidate_from_record
    unequal_zip_cover least_trigger trigger_lt assemble normal_atomic atomic_result gather
    gather_member conclude normalize_same_bcv spans_share_bcv is_contiguous to_span format_bcv show
    explore hull_loop neighbours visit push_all up_set down_set src_of_pivot piv_of_target
    apply_hops_forward apply_hops_downward project_verse project_through project_ranges zip_project
    range_length index_in_range expand verse_run compose invert_relation apply_identity absorb
    project_all walk_hop walk_hops sort_verses sorted_set insert_by dedup contains
    find_covering_record candidates candidate record_range sorted_by covers parse_ref_plain
    strip_part_suffix parse_ref span_digits match_prefix has_embedded_part bcv_range read_groups
    strip lstrip is_space part_suffix read
removes = refl

assemble-eq-exclude_example : removed.target_spans ≡ []
assemble-eq-exclude_example =
    assemble-eq-exclude as_given 9 (hop_with removing ∷ []) [] (at 3 ∷ []) removed removes refl

-- A shift that maps a verse to itself.
abbrev staying : MappingView
staying = row (codes "GEN 1:5") (codes "GEN 1:5") shift 0

abbrev stayed : Resolution
stayed = record {
  source_spans = to_span (at 5) ∷ [];
  target_spans = to_span (at 5) ∷ [];
  relation = one_to_one;
  edges = [];
  source_rel = none;
  target_rel = none;
}

stays : assemble as_given 9 (hop_with staying ∷ []) [] (at 5 ∷ []) ≡ ok stayed
unfolding find_range_trigger any_part scan triggers_at next_verses candidate_from_record
    unequal_zip_cover least_trigger trigger_lt assemble normal_atomic atomic_result gather
    gather_member conclude normalize_same_bcv spans_share_bcv is_contiguous to_span format_bcv show
    explore hull_loop neighbours visit push_all up_set down_set src_of_pivot piv_of_target
    apply_hops_forward apply_hops_downward project_verse project_through project_ranges zip_project
    range_length index_in_range expand verse_run compose invert_relation apply_identity absorb
    project_all walk_hop walk_hops sort_verses sorted_set insert_by dedup contains
    find_covering_record candidates candidate record_range sorted_by covers parse_ref_plain
    strip_part_suffix parse_ref span_digits match_prefix has_embedded_part bcv_range read_groups
    strip lstrip is_space part_suffix read
stays = refl

normalize_same_bcv-assemble_example : normalize_same_bcv stayed ≡ stayed
normalize_same_bcv-assemble_example =
    normalize_same_bcv-assemble as_given 9 (hop_with staying ∷ []) [] (at 5 ∷ []) stayed stays
