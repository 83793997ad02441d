-- ===== src/Resolver/Tests/Results.antt =====
-- Tests of hulls and of assembled results.
use versification_tool.Prelude.{inl, inr, sym, ℕ, ◌≡◌, refl, none, some, List, [], ◌∷◌}
use mathlib.Core.Path.{subst}
use mathlib.Core.List.{Memᴰ, reverse, reverse-reverse}
use mathlib.Core.List.Memᴰ
use versification_tool.Prelude.Equality.{dedup, contains}
use versification_tool.Prelude.Sorting.{sorted_by, sorted_set, insert_by}
use versification_tool.Prelude.Decimal.{read}
use versification_tool.Prelude.Texts.{codes, strip, lstrip, is_space}
use versification_tool.Resolver.Types.{
  one_to_one, split, merge, complex, VerseId, Hop, ResolvedSpan, ResolutionEdge, Resolution, ok,
}
use versification_tool.Resolver.Reference.{
  index_in_range, parse_ref, expand, verse_run, covers, strip_part_suffix, part_suffix, span_digits,
  match_prefix, has_embedded_part, bcv_range, read_groups,
}
use versification_tool.Resolver.Compose.{compose, invert_relation, dominant_relation}
use versification_tool.Resolver.Cover.{
  parse_ref_plain, record_range, candidate, candidates, find_covering_record, apply_identity,
  project_through, project_verse, range_length, zip_project, project_ranges,
}
use versification_tool.Resolver.Walk.{
  to_span, sort_verses, absorb, project_all, walk_hop, walk_hops, apply_hops_forward,
  apply_hops_downward, up_set, down_set, src_of_pivot, piv_of_target, edge_legs, edge_relation,
}
use versification_tool.Resolver.Hull.{
  source, pivot, target, node, Hull, explore, hull_loop, neighbours, visit, push_all,
}
use versification_tool.Resolver.Hull.Component.{set_of}
use versification_tool.Resolver.Connect.{
  position, add_edge, edges_to, edges_from, edges_through, pair_relation, complex_result, connect,
  build_hull,
}
use versification_tool.Resolver.Connect.Shape.{
  IsShaped, IsMeshed, build_hull-IsShaped, build_hull-IsMeshed,
}
use versification_tool.Resolver.Connect.Unordered.{IsOrder, explore_unordered}
use versification_tool.Resolver.Walk.Total.{Memᴰ-reverse}
use versification_tool.Resolver.Tests.{at, row, merging}

-- Two verses merge into one, which splits into two others.
abbrev up_hop : Hop
up_hop = record { scheme_id = 1; based_on_id = some 2; mappings = merging ∷ [] }

abbrev down_hop : Hop
down_hop = record {
  scheme_id = 3;
  based_on_id = some 2;
  mappings = row (codes "GEN 1:20-21") (codes "GEN 1:10") merge 0 ∷ [];
}

abbrev as_given : List VerseId → List VerseId
as_given vs = vs

abbrev span : ℕ → ResolvedSpan
span n = record { ref = (to_span (at n)).ref; part = none }

abbrev edge : ℕ → ℕ → ResolutionEdge
edge i j = record { source_index = i; target_index = j; relation = one_to_one }

abbrev meshed : Resolution
meshed = record {
  source_spans = to_span (at 8) ∷ to_span (at 9) ∷ [];
  target_spans = to_span (at 20) ∷ to_span (at 21) ∷ [];
  relation = complex;
  edges = edge 0 0 ∷ edge 0 1 ∷ edge 1 0 ∷ edge 1 1 ∷ [];
  source_rel = some merge;
  target_rel = some split;
}

connects : build_hull as_given (up_hop ∷ []) (down_hop ∷ []) 20 (at 8 ∷ []) ≡ ok meshed
unfolding build_hull connect complex_result pair_relation edges_through edges_from edges_to add_edge
    position dominant_relation edge_legs edge_relation explore hull_loop neighbours visit push_all
    up_set down_set src_of_pivot piv_of_target apply_hops_forward apply_hops_downward project_verse
    project_through project_ranges zip_project range_length index_in_range expand verse_run compose
    invert_relation apply_identity absorb project_all walk_hop walk_hops sort_verses sorted_set
    insert_by dedup contains find_covering_record candidates candidate record_range sorted_by covers
    parse_ref_plain strip_part_suffix parse_ref span_digits match_prefix has_embedded_part bcv_range
    read_groups strip lstrip is_space part_suffix read
connects = refl

build_hull-IsShaped_example : IsShaped meshed
build_hull-IsShaped_example =
    build_hull-IsShaped as_given (up_hop ∷ []) (down_hop ∷ []) 20 (at 8 ∷ []) meshed connects

build_hull-IsMeshed_example :
    (h : Hull) × (explore as_given (up_hop ∷ []) (down_hop ∷ []) 20 (at 8 ∷ []) ≡ ok h)
    × IsMeshed as_given
        (up_hop ∷ [])
        (down_hop ∷ [])
        (sort_verses h.sources)
        (sort_verses h.targets)
        h.pivots
        meshed
build_hull-IsMeshed_example =
    build_hull-IsMeshed as_given (up_hop ∷ []) (down_hop ∷ []) 20 (at 8 ∷ []) meshed connects

related : edge_relation (at 8) (at 10) (at 20) (up_hop ∷ []) (down_hop ∷ []) ≡ ok one_to_one
unfolding edge_relation edge_legs apply_hops_forward apply_hops_downward project_verse
    project_through project_ranges zip_project range_length index_in_range expand verse_run compose
    invert_relation apply_identity absorb project_all walk_hop walk_hops sort_verses sorted_set
    insert_by dedup contains find_covering_record candidates candidate record_range sorted_by covers
    parse_ref_plain strip_part_suffix parse_ref span_digits match_prefix has_embedded_part bcv_range
    read_groups strip lstrip is_space part_suffix read
related = refl

-- The other order of two: a reversed list.
backwards-IsOrder : IsOrder reverse
backwards-IsOrder vs v = (
  Memᴰ-reverse vs v,
  λ m. Memᴰ-reverse (reverse vs) v (subst (Memᴰ v) (sym (reverse-reverse vs)) m),
)

as_given-IsOrder : IsOrder as_given
as_given-IsOrder vs v = (λ m. m, λ m. m)

abbrev met : ℕ → ℕ → Hull
met first second = record {
  seen =
      node source (at 9)
      ∷ node target (at second)
      ∷ node target (at first)
      ∷ node pivot (at 10)
      ∷ node source (at 8)
      ∷ [];
  sources = at 9 ∷ at 8 ∷ [];
  pivots = at 10 ∷ [];
  targets = at second ∷ at first ∷ [];
}

met_forward : explore as_given (up_hop ∷ []) (down_hop ∷ []) 20 (at 8 ∷ []) ≡ ok (met 21 20)
unfolding explore hull_loop neighbours visit push_all up_set down_set src_of_pivot piv_of_target
    apply_hops_forward apply_hops_downward project_verse project_through project_ranges zip_project
    range_length index_in_range expand verse_run compose invert_relation apply_identity absorb
    project_all walk_hop walk_hops sort_verses sorted_set insert_by dedup contains
    find_covering_record candidates candidate record_range sorted_by covers parse_ref_plain
    strip_part_suffix parse_ref span_digits match_prefix has_embedded_part bcv_range read_groups
    strip lstrip is_space part_suffix read
met_forward = refl

met_backward : explore reverse (up_hop ∷ []) (down_hop ∷ []) 20 (at 8 ∷ []) ≡ ok (met 20 21)
unfolding explore hull_loop neighbours visit push_all up_set down_set src_of_pivot piv_of_target
    apply_hops_forward apply_hops_downward project_verse project_through project_ranges zip_project
    range_length index_in_range expand verse_run compose invert_relation apply_identity absorb
    project_all walk_hop walk_hops sort_verses sorted_set insert_by dedup contains
    find_covering_record candidates candidate record_range sorted_by covers parse_ref_plain
    strip_part_suffix parse_ref span_digits match_prefix has_embedded_part bcv_range read_groups
    strip lstrip is_space part_suffix read
met_backward = refl

whole : (v : VerseId) → Memᴰ v (at 20 ∷ at 21 ∷ []) → (v.part ≡ some []) → ⊥
whole v m e = elim (Memᴰ.cases_cons m) [ inl p ↦ cc | inr q ↦ let p = Memᴰ.eq_of_singleton q in cc ]

explore_unordered_example :
    sort_verses (set_of target (met 21 20)) ≡ sort_verses (set_of target (met 20 21))
explore_unordered_example =
    explore_unordered as_given reverse (up_hop ∷ []) (down_hop ∷ []) as_given-IsOrder
      backwards-IsOrder 20 20 (at 8 ∷ []) (met 21 20) (met 20 21) target met_forward met_backward
      whole
