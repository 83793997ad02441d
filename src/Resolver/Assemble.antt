-- ===== src/Resolver/Assemble.antt =====
-- frvt/resolver/normalize.py, and the atomic path, `assemble` and `resolve` of
-- frvt/resolver/resolve.py.
pub mod Normal
pub mod Exclusion
use versification_tool.Prelude.{
  ℕ, Bool, true, false, not, ◌&&◌, ◌||◌, Option, none, some, List, [], ◌∷◌, ◌++◌, map, length, ltb,
  if◌then◌else◌,
}
use versification_tool.Prelude.Equality.{nat_eq, contains, option_beq, dedup, ◌==◌}
use versification_tool.Prelude.Texts.{Text, text_eq}
use versification_tool.Resolver.Types.{
  Relation, one_to_one, split, merge, exclude, partial, complex, range, VerseId, SchemeRef,
  ResolvedSpan, Resolution, Hop, Result, ok, raised, no_scheme, ◌>>=◌, verse_eq, relation_eq,
}
use versification_tool.Resolver.Reference.{parse_ref, expand}
use versification_tool.Resolver.Compose.{compose}
use versification_tool.Resolver.Cover.{with_part}
use versification_tool.Resolver.Walk.{
  sort_verses, to_span, is_empty, is_contiguous, apply_hops_forward, apply_hops_downward,
}
use versification_tool.Resolver.Chains.{
  Session, preferred_scheme_ref, build_chain, nearest_shared_translation, hops_to_ancestor,
  hops_from_ancestor,
}
use versification_tool.Resolver.Connect.{plain, build_hull}
use versification_tool.Resolver.RangeHull.{RangeTrigger, find_range_trigger}
use versification_tool.Resolver.RangeHull.Build.{build_range_hull, fans}

-- `_SAME_BCV_SKIP`
abbrev pub same_bcv_skip : Relation → Bool
same_bcv_skip r =
    r == one_to_one
    || r == merge
    || r == split
    || r == complex
    || r == range
    || r == exclude
    || r == partial

unfoldable pub spans_share_bcv : ResolvedSpan → ResolvedSpan → Bool
spans_share_bcv source target = source.ref == target.ref && option_beq source.part target.part

-- Whether there is one span on each side, and they share their coordinate.
abbrev pub lands_on_itself : List ResolvedSpan → List ResolvedSpan → Bool
lands_on_itself (s ∷ []) (t ∷ []) = spans_share_bcv s t
lands_on_itself _ _ = false

unfoldable pub normalize_same_bcv : Resolution → Resolution
normalize_same_bcv r =
    if same_bcv_skip r.relation
    then r
    else if lands_on_itself r.source_spans r.target_spans
    then record r { relation = one_to_one }
    else r

-- The variables of the loop over the members. The relations are a set; the list has the order in
-- which they were added, with repeats.
pub record Gathered : Type 0 where
  pub all_sources : List VerseId
  pub all_targets : List VerseId
  pub member_relations : List Relation

-- What the loop ends with: its variables, or an early return through the hull.
pub data Looped : Type 0 where
  gathered : Gathered → Looped
  to_hull : Looped

-- `relations == {r}`
abbrev pub all_are : Relation → List Relation → Bool
all_are r [] = true
all_are r (x ∷ xs) = x == r && all_are r xs

abbrev pub is_set_of : Relation → List Relation → Bool
is_set_of r [] = false
is_set_of r (x ∷ xs) = x == r && all_are r xs

-- `next(iter(relations))` of a set of one relation; `none` where it has none or several
abbrev pub single_relation : List Relation → Option Relation
single_relation [] = none
single_relation (x ∷ xs) = if all_are x xs then some x else none

-- One source and several targets split, several sources and one target merge.
abbrev pub sized_relation : List VerseId → List VerseId → Relation → Relation
sized_relation source_list target_list r =
    if length source_list == 1 && ltb 1 (length target_list)
    then split
    else if ltb 1 (length source_list) && length target_list == 1
    then merge
    else r

module _ (arrange : List VerseId → List VerseId) (fuel : ℕ) (src_hops tgt_hops : List Hop) where
  -- The rest of the loop's body, behind both walks.
  unfoldable pub gather_member :
      List VerseId → List VerseId → Relation → Relation → Gathered → Looped
  gather_member siblings targets up_rel down_rel g =
      if fans up_rel || fans down_rel
      then to_hull
      else if ltb 1 (length (dedup siblings)) && ltb 1 (length targets)
      then to_hull
      else gathered (record g {
        all_targets = g.all_targets ++ targets;
        member_relations = g.member_relations ++ (compose up_rel down_rel ∷ []);
      })

  unfoldable pub gather : List VerseId → Gathered → Result Looped
  gather [] g = ok (gathered g)
  gather (member ∷ members) g = apply_hops_forward (member ∷ []) src_hops >>= λ up.
      let widened : Gathered = record g { all_sources = g.all_sources ++ up.merge_siblings } in
      let left_out : Gathered = record widened {
        member_relations = g.member_relations ++ (exclude ∷ []);
      } in
      let skipped = gather members left_out in
      let walked = apply_hops_downward up.verses tgt_hops >>= λ down.
      let further =
        elim (gather_member (member ∷ up.merge_siblings) down.verses up.relation down.relation
            widened)
          as (λ x. Result Looped) [ to_hull ↦ ok to_hull | gathered next ↦ gather members next ] in
      if down.excluded && is_empty down.verses then skipped else further in
      if up.excluded && is_empty up.verses then skipped else walked

  -- `_atomic_result` behind its loop
  unfoldable pub conclude :
      List VerseId → List VerseId → List VerseId → List Relation → Result Resolution
  conclude members source_list target_list relations =
      let hull = build_hull arrange src_hops tgt_hops fuel members in
      let fitting : Result Resolution = elim (single_relation relations) [
        | none ↦ hull
        | some r ↦
            if not (is_contiguous source_list) || not (is_contiguous target_list)
            then hull
            else ok (plain source_list target_list (sized_relation source_list target_list r))
      ] in
      if is_set_of exclude relations then ok (plain source_list [] exclude) else fitting

  unfoldable pub atomic_result : List VerseId → Result Resolution
  atomic_result members =
      gather members (record { all_sources = members; all_targets = []; member_relations = [] })
      >>= λ looped. elim looped as (λ x. Result Resolution) [
        | to_hull ↦ build_hull arrange src_hops tgt_hops fuel members
        | gathered g ↦
            conclude members (sort_verses g.all_sources) (sort_verses g.all_targets)
              g.member_relations
      ]

  -- The atomic path, normalized.
  unfoldable pub normal_atomic : List VerseId → Result Resolution
  normal_atomic members = atomic_result members >>= λ r. ok (normalize_same_bcv r)

  -- What `assemble` does with a trigger.
  unfoldable pub assemble_range : RangeTrigger → List VerseId → Result Resolution
  assemble_range trigger members = build_hull arrange src_hops tgt_hops fuel members >>= λ hull.
      let ranged = build_range_hull trigger members src_hops tgt_hops >>= λ found.
      elim found as (λ x. Result Resolution) [
        | none ↦ normal_atomic members
        | some r ↦ ok (normalize_same_bcv r)
      ] in
      if hull.relation == complex then ok hull else ranged

  unfoldable pub assemble : List VerseId → Result Resolution
  assemble members = find_range_trigger members src_hops tgt_hops >>= λ found.
      elim found as (λ x. Result Resolution) [
        | none ↦ normal_atomic members
        | some trigger ↦ assemble_range trigger members
      ]

module _ (session : Session) where
  unfoldable pub select_scheme : Option SchemeRef → Option ℕ → Result SchemeRef
  select_scheme (some scheme) translation_id = ok scheme
  select_scheme none none = raised no_scheme
  select_scheme none (some t) = elim (preferred_scheme_ref session t) [
    | none ↦ raised no_scheme
    | some preferred ↦ ok preferred
  ]

  -- `chain_fuel` bounds the chains, `fuel` the worklist.
  unfoldable pub resolve :
      (List VerseId → List VerseId)
      → ℕ
      → ℕ
      → Text
      → Option SchemeRef
      → Option SchemeRef
      → Option ℕ
      → Option ℕ
      → Option Text
      → Result Resolution
  resolve arrange chain_fuel fuel source_ref source_scheme target_scheme source_translation
        target_translation part =
      do
        src ← select_scheme source_scheme source_translation
        tgt ← select_scheme target_scheme target_translation
        parsed ← parse_ref source_ref
        let members = elim part as (λ x. List VerseId) [
          | none ↦ expand parsed
          | some p ↦ map (with_part (some p)) (expand parsed)
        ]
        src_chain ← build_chain session chain_fuel src
        tgt_chain ← build_chain session chain_fuel tgt
        ancestor ← nearest_shared_translation session src_chain tgt_chain
        assemble arrange fuel (hops_to_ancestor src_chain ancestor)
            (hops_from_ancestor tgt_chain ancestor) members
