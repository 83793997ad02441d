-- ===== src/Resolver/Tests/Walks.antt =====
-- Tests of walks and of the worklist of a hull.
use versification_tool.Prelude.{
  some_inj, inl, inr, ◌∙◌, ℕ, sym, ap, ◌+◌, ◌≡◌, refl, ◌↔◌, true, none, some, List, [], ◌∷◌, arith,
}
use mathlib.Core.Path.{subst}
use mathlib.Core.List.{Memᴰ}
use mathlib.Core.List.Memᴰ
use versification_tool.Prelude.Texts.{codes, Text, strip, lstrip, is_space}
use versification_tool.Prelude.Decimal.{read}
use versification_tool.Prelude.Compare.{nat_ord, list_ord, pair_ord}
use versification_tool.Prelude.Sorting.{sorted_by, sorted_set, insert_by}
use versification_tool.Prelude.Equality.{dedup, contains}
use versification_tool.Resolver.Types.{Resolution, exclude, VerseId, RefRange, Hop, ok, ok_inj}
use versification_tool.Resolver.Reference.{
  index_in_range, parse_ref, covers, strip_part_suffix, part_suffix, span_digits, match_prefix,
  has_embedded_part, bcv_range, read_groups,
}
use versification_tool.Resolver.Compose.{compose, invert_relation}
use versification_tool.Resolver.Cover.{
  Projection, parse_ref_plain, record_range, candidate, candidates, find_covering_record,
  apply_identity, project_through, project_verse, range_length, zip_project, project_ranges,
}
use versification_tool.Resolver.Cover.Total.{IsWellFormed}
use versification_tool.Resolver.Cover.Spans.{
  IsSpanned, IsListed, AllSpanned, project_verse-AllSpanned,
}
use versification_tool.Resolver.Walk.{
  Walk, sort_verses, absorb, project_all, walk_hop, walk_hops, apply_hops_forward,
  apply_hops_downward, up_set, down_set, src_of_pivot, piv_of_target,
}
use versification_tool.Resolver.Walk.Exclusion.{apply_hops_forward-IsAgreed}
use versification_tool.Resolver.Walk.Total.{AreGood}
use versification_tool.Resolver.Hull.{
  Hull, source, pivot, target, node, explore, hull_loop, neighbours, visit, push_all,
}
use versification_tool.Resolver.Hull.Terminates.{remaining}
use versification_tool.Resolver.Hull.Universe.{nodes}
use versification_tool.Resolver.Connect.{build_hull}
use versification_tool.Resolver.Connect.Total.{build_hull-ok}
use versification_tool.Resolver.Hull.Component.{set_of, Linked, explore-Linked}
use versification_tool.Resolver.Tests.{at, from_to, shifting, removing}
use versification_tool.Resolver.Tests.Rows.{shifting_Sides, shifting-IsWellFormed}

no_empty_part : (v : VerseId) → Memᴰ v (at 2 ∷ at 1 ∷ []) → (v.part ≡ some []) → ⊥
no_empty_part v m e = elim (Memᴰ.cases_cons m) [
  | inl p ↦ cc
  | inr q ↦ let p = Memᴰ.eq_of_singleton q in cc
]

swap : {v a b : VerseId} → Memᴰ v (a ∷ b ∷ []) → Memᴰ v (b ∷ a ∷ [])
swap m = elim (Memᴰ.cases_cons m) [
  | inl e ↦ Memᴰ.tail (Memᴰ.head e)
  | inr q ↦ Memᴰ.head (Memᴰ.eq_of_singleton q)
]

abbrev climb_hop : Hop
climb_hop = record { scheme_id = 1; based_on_id = some 2; mappings = shifting ∷ [] }

abbrev removing_hop : Hop
removing_hop = record { scheme_id = 1; based_on_id = some 2; mappings = removing ∷ [] }

abbrev excluded : Walk
excluded = record { verses = []; relation = exclude; excluded = true; merge_siblings = [] }

apply_hops_forward-IsAgreed_example : (true ≡ true) ↔ (exclude ≡ exclude)
unfolding apply_hops_forward project_verse project_through project_ranges zip_project range_length
    index_in_range compose invert_relation apply_identity absorb project_all walk_hop walk_hops
    sort_verses sorted_set insert_by dedup contains find_covering_record candidates candidate
    record_range sorted_by covers parse_ref_plain strip_part_suffix parse_ref span_digits
    match_prefix has_embedded_part bcv_range read_groups strip lstrip is_space part_suffix read
apply_hops_forward-IsAgreed_example =
    apply_hops_forward-IsAgreed (at 3 ∷ []) (removing_hop ∷ []) excluded refl

abbrev ranges : List RefRange
ranges = from_to 1 2 ∷ from_to 3 4 ∷ []

same_range :
    (s : Text) {a r : RefRange} → parse_ref_plain s ≡ ok a → parse_ref_plain s ≡ ok r → a ≡ r
same_range s h k = ok_inj (sym h ∙ k)

base_reads : parse_ref_plain (codes "GEN 1:3-4") ≡ ok (from_to 3 4)
unfolding parse_ref_plain strip_part_suffix parse_ref span_digits match_prefix has_embedded_part
    bcv_range read_groups strip lstrip is_space part_suffix read
base_reads = refl

shifting-IsListed : IsListed ranges (none ∷ []) shifting
shifting-IsListed = record {
  source = λ r e. Memᴰ.head (sym (same_range _ shifting_Sides.source_parses e));
  base = λ s r e k.
      let same : s ≡ codes "GEN 1:3-4" = sym (some_inj e) in
      Memᴰ.tail (Memᴰ.head (sym (same_range _ base_reads (ap parse_ref_plain (sym same) ∙ k))));
  part = Memᴰ.head refl;
}

good : AreGood ranges (none ∷ []) (climb_hop ∷ [])
good h m row k =
    let q : row ≡ shifting =
      Memᴰ.eq_of_singleton (subst (λ (t : Hop). Memᴰ row t.mappings) (Memᴰ.eq_of_singleton m) k) in
    (
      subst IsWellFormed (sym q) shifting-IsWellFormed,
      subst (IsListed ranges (none ∷ [])) (sym q) shifting-IsListed,
    )

no_hops-AreGood : AreGood ranges (none ∷ []) []
no_hops-AreGood h m = absurd (Memᴰ.not-nil m)

abbrev as_given : List VerseId → List VerseId
as_given vs = vs

at-IsSpanned : (v : VerseId) → Memᴰ v (at 1 ∷ []) → IsSpanned ranges (none ∷ []) v
unfolding covers
at-IsSpanned v m =
    let spanned : IsSpanned ranges (none ∷ []) (at 1) = record {
      span = from_to 1 2;
      member = Memᴰ.head refl;
      covered = refl;
      part = Memᴰ.head refl;
    } in
    subst (IsSpanned ranges (none ∷ [])) (sym (Memᴰ.eq_of_singleton m)) spanned

abbrev found : Hull
found = record {
  seen = node target (at 3) ∷ node pivot (at 3) ∷ node source (at 1) ∷ [];
  sources = at 1 ∷ [];
  pivots = at 3 ∷ [];
  targets = at 3 ∷ [];
}

explores : explore as_given (climb_hop ∷ []) [] 9 (at 1 ∷ []) ≡ ok found
unfolding explore hull_loop neighbours visit push_all up_set down_set src_of_pivot piv_of_target
    apply_hops_forward apply_hops_downward project_verse project_through project_ranges zip_project
    range_length index_in_range compose invert_relation apply_identity absorb project_all walk_hop
    walk_hops sort_verses sorted_set insert_by dedup contains find_covering_record candidates
    candidate record_range sorted_by covers parse_ref_plain strip_part_suffix parse_ref span_digits
    match_prefix has_embedded_part bcv_range read_groups strip lstrip is_space part_suffix read
explores = refl

explore-Linked_example :
    Memᴰ (at 3) (set_of target found)
    ↔ Linked as_given (climb_hop ∷ []) [] (at 1 ∷ []) (node target (at 3))
explore-Linked_example =
    explore-Linked as_given (climb_hop ∷ []) [] (at 1 ∷ []) 9 found target (at 3) explores

-- Fuel for one member and for the twelve nodes.
abbrev fuel : ℕ
fuel = 1 + remaining as_given (climb_hop ∷ []) [] (nodes ranges (none ∷ [])) []

build_hull-ok_example :
    (r : Resolution) × (build_hull as_given (climb_hop ∷ []) [] fuel (at 1 ∷ []) ≡ ok r)
build_hull-ok_example =
    build_hull-ok ranges (none ∷ []) as_given (climb_hop ∷ []) [] (λ vs v m. m) good no_hops-AreGood
      fuel (at 1 ∷ []) at-IsSpanned (omega arith)

project_verse-AllSpanned_example :
    (p : Projection) × (project_verse (at 1) (shifting ∷ []) true ≡ ok p)
    × AllSpanned ranges (none ∷ []) p.verses
project_verse-AllSpanned_example =
    project_verse-AllSpanned ranges (none ∷ []) (shifting ∷ []) true (at 1)
      (good climb_hop (Memᴰ.head refl)) (at-IsSpanned (at 1) (Memᴰ.head refl))
