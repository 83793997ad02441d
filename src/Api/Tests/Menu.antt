-- ===== src/Api/Tests/Menu.antt =====
-- Tests of reciprocal rows.
use versification_tool.Api.Tests.Jump.{as_given, leaf, root, session_with, context_with, moved}
use versification_tool.Api.Jump.Content.{
  books_of, target_books_from_resolution, isdisjoint, unreachable_dto, is_unreachable_jump_entry,
}
use versification_tool.Api.Navigation.Menu.{
  has_join, Menu, is_hidden, expose_new, reciprocal_row, reciprocal_jump_mappings,
}
use versification_tool.Api.Navigation.Shown.{AllShown}
use versification_tool.Api.Navigation.Reciprocal.{reciprocal_jump_mappings-AllShown}
use versification_tool.Prelude.{◌≡◌, refl, Option, none, some, List, [], ◌∷◌}
use versification_tool.Prelude.Equality.{nat_eq, pair_eq, option_eq, dedup, contains}
use versification_tool.Prelude.Distinct.{IsDistinct}
use versification_tool.Prelude.Sorting.{sorted_by, sorted_set, insert_by}
use versification_tool.Prelude.Decimal.{read, show}
use versification_tool.Prelude.Texts.{Text, text_eq, codes, strip, lstrip, is_space}
use versification_tool.Resolver.Types.{shift, ok}
use versification_tool.Resolver.Reference.{
  index_in_range, parse_ref, expand, verse_run, format_bcv, covers, strip_part_suffix, part_suffix,
  span_digits, match_prefix, has_embedded_part, bcv_range, read_groups,
}
use versification_tool.Resolver.Compose.{compose, invert_relation}
use versification_tool.Resolver.Cover.{
  parse_ref_plain, record_range, candidate, candidates, find_covering_record, unequal_zip_cover,
  apply_identity, project_through, project_verse, range_length, zip_project, project_ranges,
}
use versification_tool.Resolver.Walk.{
  to_span, sort_verses, absorb, project_all, walk_hop, walk_hops, apply_hops_forward,
  apply_hops_downward, is_contiguous,
}
use versification_tool.Resolver.RangeHull.{
  find_range_trigger, any_part, scan, triggers_at, next_verses, candidate_from_record,
  least_trigger, trigger_lt,
}
use versification_tool.Resolver.Chains.{
  load_mapping_views, preferred_scheme_ref, preferred_owner_of_scheme, hop_of, next_scheme,
  chain_loop, build_chain, numbering_node, append_new, nodes_from, numbering_nodes, first_shared,
  nearest_shared_translation, hops_to_ancestor, hops_from_ancestor,
}
use versification_tool.Resolver.Assemble.{
  assemble, normal_atomic, atomic_result, gather, gather_member, conclude, normalize_same_bcv,
  spans_share_bcv, select_scheme,
}
use versification_tool.Api.Jump.{
  Navigation, get, put, Context, no_memo, is_canceling_resolution, resolved_target_ref_from_dto,
  join_refs, fail_open, remember_dto, label_of, remember_cancel, cancels_dto, assemble_navigation,
  keep_path, held_path, load_path, resolve_path, make_room, remember_process, resolve_navigation,
  resolve_navigation_dto, resolved_target_ref_for_jump, is_canceling_jump_entry,
}
use versification_tool.Api.Jump.Uncached.{no_memo-IsTruthful, empty-IsTruthfulProcess}
use versification_tool.Api.Navigation.{
  JumpMapping, part_or, leading_verse, navigation_target, jump_navigation_ref,
}

abbrev counterpart : Context
counterpart = record {
  session = session_with moved;
  from_translation = 20;
  to_translation = 10;
  source_scheme = root;
  target_scheme = leaf;
}

abbrev genesis : Option (List Text)
genesis = some (codes "GEN" ∷ [])

-- The counterpart direction lists verse 6, which is verse 5 here.
abbrev six : JumpMapping
six = record {
  source_ref = codes "GEN 1:6";
  base_ref = some (codes "GEN 1:5");
  part = none;
  relation = shift;
  scheme_name = none;
}

abbrev five : JumpMapping
five = record {
  source_ref = codes "GEN 1:5";
  base_ref = some (codes "GEN 1:6");
  part = none;
  relation = shift;
  scheme_name = none;
}

abbrev verse_nine : Navigation
verse_nine = (codes "GEN 1:9", none)

abbrev start : Menu
start = record {
  existing_nav = verse_nine ∷ [];
  memo = no_memo;
  counterpart_memo = no_memo;
  process = [];
  reciprocals = [];
}

-- The second row leads to the same verse again.
finds_five :
    (reciprocal_jump_mappings as_given 4 9
      (context_with moved)
      counterpart
      genesis
      (six ∷ six ∷ [])
      start).0
    ≡ ok (five ∷ [])
unfolding select_scheme build_chain chain_loop hop_of next_scheme load_mapping_views
    preferred_scheme_ref preferred_owner_of_scheme numbering_node append_new nodes_from
    numbering_nodes first_shared nearest_shared_translation hops_to_ancestor hops_from_ancestor
    find_range_trigger any_part scan triggers_at next_verses candidate_from_record unequal_zip_cover
    least_trigger trigger_lt assemble normal_atomic atomic_result gather gather_member conclude
    normalize_same_bcv spans_share_bcv is_contiguous to_span format_bcv show apply_hops_forward
    apply_hops_downward project_verse project_through project_ranges zip_project range_length
    index_in_range expand verse_run compose invert_relation apply_identity absorb project_all
    walk_hop walk_hops sort_verses sorted_set insert_by dedup contains find_covering_record
    candidates candidate record_range sorted_by covers parse_ref_plain strip_part_suffix parse_ref
    span_digits match_prefix has_embedded_part bcv_range read_groups strip lstrip is_space
    part_suffix read get put is_canceling_resolution fail_open remember_dto remember_cancel
    cancels_dto assemble_navigation keep_path held_path load_path resolve_path make_room
    remember_process resolve_navigation resolve_navigation_dto is_canceling_jump_entry
    resolved_target_ref_from_dto join_refs label_of resolved_target_ref_for_jump jump_navigation_ref
    navigation_target leading_verse part_or books_of target_books_from_resolution isdisjoint
    unreachable_dto is_unreachable_jump_entry has_join is_hidden expose_new reciprocal_row
    reciprocal_jump_mappings
finds_five = refl

verse_nine-IsDistinct : IsDistinct (verse_nine ∷ [])
unfolding contains
verse_nine-IsDistinct = (refl, tt)

reciprocal_jump_mappings-AllShown_example :
    IsDistinct (verse_nine ∷ (codes "GEN 1:5", none) ∷ [])
    × AllShown as_given 4 9 (context_with moved) genesis (five ∷ [])
reciprocal_jump_mappings-AllShown_example =
    reciprocal_jump_mappings-AllShown as_given 4 9 (context_with moved) counterpart genesis
      (six ∷ six ∷ []) (verse_nine ∷ []) no_memo no_memo [] (five ∷ [])
      (no_memo-IsTruthful as_given 4 9 (context_with moved))
      (empty-IsTruthfulProcess as_given 4 9 (context_with moved)) verse_nine-IsDistinct finds_five
