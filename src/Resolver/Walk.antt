-- ===== src/Resolver/Walk.antt =====
-- frvt/resolver/walk.py: walking verses through the hops of a chain. A Python set is a list without
-- repeats; it is read in sorted order, or through `in` and `update`.
pub mod Order
pub mod Exclusion
pub mod Total
use mathlib.Core.List.{reverse}
use versification_tool.Prelude.{
  ℕ, zero, suc, ◌+◌, Bool, true, false, not, ◌&&◌, ◌||◌, Option, none, some, List, [], ◌∷◌, ◌++◌,
  if◌then◌else◌,
}
use versification_tool.Prelude.Compare.{nat_ord, list_ord, pair_ord}
use versification_tool.Prelude.Equality.{nat_eq, contains, ◌==◌}
use versification_tool.Prelude.Sorting.{sorted_set}
use versification_tool.Prelude.Texts.{Text, text_eq}
use versification_tool.Resolver.Types.{
  Relation, one_to_one, VerseId, ResolvedSpan, MappingView, Hop, Result, ok, ◌>>=◌, verse_eq,
}
use versification_tool.Resolver.Reference.{format_bcv}
use versification_tool.Resolver.Compose.{compose}
use versification_tool.Resolver.Cover.{Projection, project_verse}

-- `v.part or ""`
abbrev pub part_or_empty : Option Text → Text
part_or_empty none = []
part_or_empty (some p) = p

abbrev pub verse_key : VerseId → Text × (ℕ × (ℕ × Text))
verse_key v = (v.book, (v.chapter, (v.verse, part_or_empty v.part)))

-- `sort_verses(set(vs))`
unfoldable pub sort_verses : List VerseId → List VerseId
sort_verses vs = sorted_set verse_key vs

unfoldable pub to_span : VerseId → ResolvedSpan
to_span v = record { ref = format_bcv v; part = v.part }

-- Each verse follows the one before it, counted from `first.verse + index`.
run_from : VerseId → ℕ → List VerseId → Bool
run_from first index [] = true
run_from first index (v ∷ vs) =
    v.book == first.book
    && v.chapter == first.chapter
    && v.verse == first.verse + index
    && run_from first (index + 1) vs

-- A list of fewer than two verses is contiguous.
unfoldable pub is_contiguous : List VerseId → Bool
unfolding run_from
is_contiguous [] = true
is_contiguous (v ∷ []) = true
is_contiguous (v ∷ w ∷ vs) = run_from v 0 (v ∷ w ∷ vs)

-- The variables of the loops: the verses gathered, the relation, the flag and the siblings.
pub record Walk : Type 0 where
  pub verses : List VerseId
  pub relation : Relation
  pub excluded : Bool
  pub merge_siblings : List VerseId

-- The body of the loop over the verses of a hop, behind `project_verse`.
unfoldable pub absorb : Walk → Projection → Walk
absorb w p =
    if p.excluded
    then record w { relation = compose w.relation p.relation; excluded = true }
    else record {
      verses = w.verses ++ p.verses;
      relation = compose w.relation p.relation;
      excluded = w.excluded;
      merge_siblings = w.merge_siblings ++ p.merge_siblings;
    }

unfoldable pub project_all : Bool → List MappingView → List VerseId → Walk → Result Walk
project_all upward rows [] w = ok w
project_all upward rows (v ∷ vs) w =
    project_verse v rows upward >>= λ p. project_all upward rows vs (absorb w p)

abbrev pub is_empty : List VerseId → Bool
is_empty [] = true
is_empty (v ∷ vs) = false

-- The verses of a hop, gathered afresh.
unfoldable pub walk_hop : Bool → Hop → Walk → Result Walk
walk_hop upward hop w = do
  gathered ← project_all upward hop.mappings w.verses (record w { verses = [] })
  ok (record gathered { verses = sort_verses gathered.verses })

unfoldable pub walk_hops : Bool → List Hop → Walk → Result Walk
walk_hops upward [] w = ok w
walk_hops upward (hop ∷ hops) w = walk_hop upward hop w >>= λ next.
    let rest = walk_hops upward hops next in
    if next.excluded && is_empty next.verses then ok next else rest

abbrev pub start_walk : List VerseId → Walk
start_walk vs = record { verses = vs; relation = one_to_one; excluded = false; merge_siblings = [] }

unfoldable pub apply_hops_forward : List VerseId → List Hop → Result Walk
apply_hops_forward vs hops = do
  w ← walk_hops true hops (start_walk vs)
  ok (record w { merge_siblings = sort_verses w.merge_siblings })

-- Downward the siblings are not reported.
unfoldable pub apply_hops_downward : List VerseId → List Hop → Result Walk
apply_hops_downward vs hops = do
  w ← walk_hops false hops (start_walk vs)
  ok (record w { merge_siblings = [] })

-- `set() if excluded else set(out)`
abbrev pub reached : Walk → List VerseId
reached w = if w.excluded then [] else w.verses

unfoldable pub up_set : VerseId → List Hop → Result (List VerseId)
up_set v hops = do w ← apply_hops_forward (v ∷ []) hops; ok (reached w)

unfoldable pub down_set : VerseId → List Hop → Result (List VerseId)
down_set v hops = do w ← apply_hops_downward (v ∷ []) hops; ok (reached w)

unfoldable pub src_of_pivot : VerseId → List Hop → Result (List VerseId)
src_of_pivot pivot hops = down_set pivot (reverse hops)

unfoldable pub piv_of_target : VerseId → List Hop → Result (List VerseId)
piv_of_target target hops = up_set target (reverse hops)

pub record Legs : Type 0 where
  pub up_rel : Relation
  pub down_rel : Relation
  pub composed : Relation

-- The relation of a leg, when the leg arrives at the verse.
abbrev pub leg_relation : Walk → VerseId → Relation
leg_relation w v = if w.excluded || not (contains v w.verses) then one_to_one else w.relation

unfoldable pub edge_legs : VerseId → VerseId → VerseId → List Hop → List Hop → Result Legs
edge_legs source pivot target src_hops tgt_hops = do
  up ← apply_hops_forward (source ∷ []) src_hops
  down ← apply_hops_downward (pivot ∷ []) tgt_hops
  let up_rel = leg_relation up pivot
  let down_rel = leg_relation down target
  ok (record { up_rel = up_rel; down_rel = down_rel; composed = compose up_rel down_rel })

unfoldable pub edge_relation : VerseId → VerseId → VerseId → List Hop → List Hop → Result Relation
edge_relation source pivot target src_hops tgt_hops = do
  legs ← edge_legs source pivot target src_hops tgt_hops
  ok legs.composed
