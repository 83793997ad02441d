-- ===== src/Resolver/RangeHull/Build.antt =====
-- frvt/resolver/range_hull.py: the walks of the participants, the edges at the corners and the hull.
use versification_tool.Prelude.{
  ℕ, Bool, true, false, not, ◌&&◌, ◌||◌, Option, none, some, List, [], ◌∷◌, ◌++◌, map, length, ltb,
  if◌then◌else◌,
}
use versification_tool.Prelude.Equality.{nat_eq, pair_eq, contains, dedup, ◌==◌}
use versification_tool.Resolver.Types.{
  Relation, split, merge, complex, range, VerseId, ResolutionEdge, Resolution, Hop, Result, ok,
  raised, key_missing, ◌>>=◌, verse_eq, relation_eq,
}
use versification_tool.Resolver.Compose.{compose, dominant_relation}
use versification_tool.Resolver.Walk.{
  sort_verses, to_span, is_empty, apply_hops_forward, apply_hops_downward,
}
use versification_tool.Resolver.Connect.{position}
use versification_tool.Resolver.RangeHull.{
  Side, on_source, on_target, RangeTrigger, ParticipantWalk, participants_for_trigger,
}

unfoldable pub walk_participant : VerseId → List Hop → List Hop → Result (Option ParticipantWalk)
walk_participant source src_hops tgt_hops = apply_hops_forward (source ∷ []) src_hops >>= λ up.
    let descent = apply_hops_downward up.verses tgt_hops >>= λ down. ok (
      if down.excluded && is_empty down.verses
      then none
      else some (record {
        pivots = up.verses;
        targets = down.verses;
        up_rel = up.relation;
        down_rel = down.relation;
        composed = compose up.relation down.relation;
      })) in
    if up.excluded && is_empty up.verses then ok none else descent

-- `r in ("split", "merge")`
abbrev pub fans : Relation → Bool
fans r = r == split || r == merge

unfoldable pub walk_has_fanout : ParticipantWalk → Bool
walk_has_fanout w = ltb 1 (length w.targets) || fans w.up_rel || fans w.down_rel

unfoldable pub source_axis_only_fanout : ParticipantWalk → Bool
source_axis_only_fanout w = fans w.up_rel && length w.targets == 1 && not (fans w.down_rel)

abbrev pub is_on_source : Side → Bool
is_on_source on_source = true
is_on_source on_target = false

-- The walk of an interior participant makes the hull complex.
unfoldable pub forces_complex : RangeTrigger → ParticipantWalk → Bool
forces_complex trigger w =
    if not (walk_has_fanout w)
    then false
    else if ltb 1 (length w.targets) || fans w.down_rel
    then true
    else not (source_axis_only_fanout w && is_on_source trigger.side)

abbrev pub any {ℓ} : {A : Type ℓ} → (A → Bool) → List A → Bool
any f [] = false
any f (x ∷ xs) = f x || any f xs

unfoldable pub interior_requires_complex : RangeTrigger → List ParticipantWalk → Bool
unfolding forces_complex
interior_requires_complex trigger walks = any (forces_complex trigger) walks

unfoldable pub composed_axis_labels :
    RangeTrigger → List ParticipantWalk → Option Relation × Option Relation
composed_axis_labels trigger walks = elim trigger.side [
  | on_source ↦ (some range, dominant_relation (map (λ (w : ParticipantWalk). w.down_rel) walks))
  | on_target ↦ (dominant_relation (map (λ (w : ParticipantWalk). w.up_rel) walks), some range)
]

-- `walks`, in the order of the sources
abbrev pub Walks : Type 0
Walks = List (VerseId × ParticipantWalk)

abbrev pub values : Walks → List ParticipantWalk
values walks = map (λ (p : VerseId × ParticipantWalk). p.1) walks

-- The first and the last of a list that has an element.
unfoldable pub last_of {ℓ} : {A : Type ℓ} → A → List A → A
last_of a [] = a
last_of a (b ∷ bs) = last_of b bs

-- `xs[1:-1]` behind the first element
unfoldable pub interior_of {ℓ} : {A : Type ℓ} → List A → List A
interior_of [] = []
interior_of (a ∷ []) = []
interior_of (a ∷ b ∷ bs) = a ∷ interior_of (b ∷ bs)

-- The edges so far, and the pairs that they join.
abbrev pub Corners : Type 0
Corners = List ResolutionEdge × List (ℕ × ℕ)

-- `for target in walk.targets:`
unfoldable pub corner_to : List VerseId → ℕ → Relation → List VerseId → Corners → Result Corners
corner_to target_list i r [] c = ok c
corner_to target_list i r (target ∷ targets) c = elim (position target target_list 0) [
  | none ↦ raised key_missing
  | some j ↦
      let skipped = corner_to target_list i r targets c in
      let added =
        corner_to target_list i r targets (
          c.0 ++ (record { source_index = i; target_index = j; relation = r } ∷ []),
          (i, j) ∷ c.1,
        ) in
      if contains (i, j) c.1 then skipped else added
]

-- `for source in corners:`
unfoldable pub corners_from : List VerseId → List VerseId → Walks → Corners → Result Corners
corners_from source_list target_list [] c = ok c
corners_from source_list target_list ((source, w) ∷ ws) c = elim (position source source_list 0) [
  | none ↦ elim w.targets [
    | [] ↦ corners_from source_list target_list ws c
    | _ ∷ _ ↦ raised key_missing
  ]
  | some i ↦ corner_to target_list i w.composed w.targets c >>= λ next.
      corners_from source_list target_list ws next
]

unfoldable pub corner_edges : List VerseId → List VerseId → Walks → Result (List ResolutionEdge)
corner_edges source_list target_list [] = ok []
corner_edges source_list target_list (w ∷ ws) =
    corners_from source_list target_list (w ∷ last_of w ws ∷ []) ([], []) >>= λ c. ok c.0

-- The walks of all sources, or nothing if one of them is excluded.
unfoldable pub walk_all : List VerseId → List Hop → List Hop → Result (Option Walks)
walk_all [] src_hops tgt_hops = ok (some [])
walk_all (s ∷ ss) src_hops tgt_hops = walk_participant s src_hops tgt_hops >>= λ found. elim found [
  | none ↦ ok none
  | some w ↦ walk_all ss src_hops tgt_hops >>= λ rest.
      ok (elim rest as (λ x. Option Walks) [ none ↦ none | some ws ↦ some ((s, w) ∷ ws) ])
]

unfoldable pub all_targets : List ParticipantWalk → List VerseId
all_targets [] = []
all_targets (w ∷ ws) = w.targets ++ all_targets ws

-- Whether a corner fans out or an interior walk forces a complex hull.
unfoldable pub escalates : RangeTrigger → List ParticipantWalk → Bool
unfolding interior_requires_complex
escalates trigger [] = false
escalates trigger (w ∷ ws) =
    walk_has_fanout w
    || walk_has_fanout (last_of w ws)
    || interior_requires_complex trigger (interior_of ws)

-- The result, once every participant has its walk.
unfoldable pub range_result :
    RangeTrigger → List VerseId → List VerseId → Walks → Result (Option Resolution)
range_result trigger source_list target_list walks =
    let escalated = escalates trigger (values walks) in
    let labels = composed_axis_labels trigger (values walks) in
    let linked = corner_edges source_list target_list walks >>= λ edges. ok (
      some (
        if escalated
        then record {
          source_spans = map to_span source_list;
          target_spans = map to_span target_list;
          relation = complex;
          edges = edges;
          source_rel = labels.0;
          target_rel = labels.1;
        }
        else record {
          source_spans = map to_span source_list;
          target_spans = map to_span target_list;
          relation = range;
          edges = edges;
          source_rel = none;
          target_rel = none;
        })) in
    if length source_list == length target_list && not escalated then ok none else linked

-- `member_set.issubset(participants)`
unfoldable pub subset : List VerseId → List VerseId → Bool
subset [] ps = true
subset (v ∷ vs) ps = contains v ps && subset vs ps

unfoldable pub build_range_hull :
    RangeTrigger → List VerseId → List Hop → List Hop → Result (Option Resolution)
build_range_hull trigger members src_hops tgt_hops =
    participants_for_trigger trigger src_hops tgt_hops >>= λ participants.
    let source_list = sort_verses participants in
    let walked = walk_all source_list src_hops tgt_hops >>= λ found.
    elim found as (λ x. Result (Option Resolution)) [
      | none ↦ ok none
      | some walks ↦
          let target_list = sort_verses (all_targets (values walks)) in
          let result = range_result trigger source_list target_list walks in
          if is_empty target_list then ok none else result
    ] in
    if ltb (length (dedup participants)) 2 || not (subset members participants)
    then ok none
    else walked
