-- ===== src/Resolver/RangeHull.antt =====
-- frvt/resolver/range_hull.py: rows that zip ranges of unequal length.
pub mod Met
pub mod Offer
pub mod Collected
pub mod Trigger
pub mod Build
pub mod Least
use versification_tool.Prelude.{
  ℕ, zero, suc, ◌+◌, ◌-◌, Bool, true, false, not, ◌&&◌, ◌||◌, Option, none, some, List, [], ◌∷◌,
  ◌++◌, map, length, leb, ltb, if◌then◌else◌,
}
use versification_tool.Prelude.Equality.{nat_eq, pair_eq, contains, dedup, ◌==◌}
use versification_tool.Prelude.Texts.{Text}
use versification_tool.Resolver.Types.{
  Relation, split, merge, complex, range, VerseId, RefRange, MappingView, ResolutionEdge,
  Resolution, Hop, Result, ok, raised, key_missing, ◌>>=◌, verse_eq, relation_eq,
}
use versification_tool.Resolver.Reference.{expand}
use versification_tool.Resolver.Compose.{compose, dominant_relation}
use versification_tool.Resolver.Cover.{find_covering_record, project_verse, unequal_zip_cover}
use versification_tool.Resolver.Walk.{
  sort_verses, to_span, is_empty, apply_hops_forward, apply_hops_downward, src_of_pivot,
  piv_of_target,
}
use versification_tool.Resolver.Connect.{position}

pub data Side : Type 0 where
  on_source on_target : Side

pub record RangeTrigger : Type 0 where
  pub side : Side
  pub hop_index : ℕ
  pub cover : RefRange
  pub output : RefRange
  pub width : ℕ
  pub ordinal : ℕ

pub record ParticipantWalk : Type 0 where
  pub pivots : List VerseId
  pub targets : List VerseId
  pub up_rel : Relation
  pub down_rel : Relation
  pub composed : Relation

abbrev pub side_rank : Side → ℕ
side_rank on_source = 0
side_rank on_target = 1

-- Whether the rank of the first hop is below that of the second, on one side: the rank is the index
-- on the source side and its negative on the target side.
abbrev pub hop_rank_lt : Side → ℕ → ℕ → Bool
hop_rank_lt on_source i j = ltb i j
hop_rank_lt on_target i j = ltb j i

-- Whether `_trigger_order` of the first is below that of the second.
unfoldable pub trigger_lt : RangeTrigger → RangeTrigger → Bool
trigger_lt a b =
    if not (a.width == b.width)
    then ltb a.width b.width
    else if not (a.ordinal == b.ordinal)
    then ltb a.ordinal b.ordinal
    else if not (side_rank a.side == side_rank b.side)
    then ltb (side_rank a.side) (side_rank b.side)
    else hop_rank_lt a.side a.hop_index b.hop_index

-- `min(candidates, key=_trigger_order)`: the first of the least
unfoldable pub least_trigger : RangeTrigger → List RangeTrigger → RangeTrigger
least_trigger best [] = best
least_trigger best (c ∷ cs) =
    let kept = least_trigger best cs in
    let taken = least_trigger c cs in if trigger_lt c best then taken else kept

unfoldable pub candidate_from_record : MappingView → Side → ℕ → Bool → Option RangeTrigger
candidate_from_record row side hop_index upward = elim (unequal_zip_cover row upward) [
  | none ↦ none
  | some (cover, output) ↦ some (record {
    side = side;
    hop_index = hop_index;
    cover = cover;
    output = output;
    width = cover.verse_end - cover.verse_start;
    ordinal = row.ordinal;
  })
]

-- The candidates of a hop, one verse after the other.
unfoldable pub triggers_at : Side → ℕ → Bool → List MappingView → List VerseId → List RangeTrigger
triggers_at side hop_index upward rows [] = []
triggers_at side hop_index upward rows (v ∷ vs) =
    let rest = triggers_at side hop_index upward rows vs in
    elim (find_covering_record rows v upward) [
      | none ↦ rest
      | some row ↦ elim (candidate_from_record row side hop_index upward) [
        | none ↦ rest
        | some c ↦ c ∷ rest
      ]
    ]

-- The verses that a hop leads to, without those that it excludes.
unfoldable pub next_verses : Bool → List MappingView → List VerseId → Result (List VerseId)
next_verses upward rows [] = ok []
next_verses upward rows (v ∷ vs) = project_verse v rows upward >>= λ p.
    next_verses upward rows vs >>= λ rest. ok (if p.excluded then rest else p.verses ++ rest)

-- The loop over the hops of a side: the candidates, and the verses behind the last hop.
unfoldable pub scan :
    Side → Bool → ℕ → List Hop → List VerseId → Result (List RangeTrigger × List VerseId)
scan side upward hop_index [] current = ok ([], current)
scan side upward hop_index (hop ∷ hops) current =
    let found = triggers_at side hop_index upward hop.mappings current in
    next_verses upward hop.mappings current >>= λ gathered.
    let next = sort_verses gathered in
    let further =
      scan side upward (hop_index + 1) hops next >>= λ more. ok (found ++ more.0, more.1) in
    if is_empty next then ok (found, next) else further

-- `any(member.part for member in members)`
unfoldable pub any_part : List VerseId → Bool
any_part [] = false
any_part (v ∷ vs) =
    elim v.part [ none ↦ false | some [] ↦ false | some (c ∷ s) ↦ true ] || any_part vs

unfoldable pub find_range_trigger :
    List VerseId → List Hop → List Hop → Result (Option RangeTrigger)
find_range_trigger members src_hops tgt_hops =
    let found = scan on_source true 0 src_hops members >>= λ up.
    scan on_target false 0 tgt_hops up.1 >>= λ down.
    ok (elim (up.0 ++ down.0) as (λ x. Option RangeTrigger) [
      | [] ↦ none
      | c ∷ cs ↦ some (least_trigger c cs)
    ]) in
    if any_part members then ok none else found

-- `xs[:n]`
unfoldable pub take : ℕ → List Hop → List Hop
take zero hops = []
take (suc n) [] = []
take (suc n) (hop ∷ hops) = hop ∷ take n hops

-- The union of what a function returns for each verse.
unfoldable pub union_of : (VerseId → Result (List VerseId)) → List VerseId → Result (List VerseId)
union_of f [] = ok []
union_of f (v ∷ vs) = f v >>= λ found. union_of f vs >>= λ rest. ok (found ++ rest)

unfoldable pub participants_for_trigger : RangeTrigger → List Hop → List Hop → Result (List VerseId)
participants_for_trigger trigger src_hops tgt_hops = elim trigger.side [
  | on_source ↦
      union_of (λ v. src_of_pivot v (take trigger.hop_index src_hops)) (expand trigger.cover)
  | on_target ↦
      union_of
        (λ v. piv_of_target v (take trigger.hop_index tgt_hops) >>= λ pivots.
          union_of (λ p. src_of_pivot p src_hops) pivots)
        (expand trigger.cover)
]
