-- ===== src/Resolver/Compose.antt =====
-- frvt/resolver/compose.py: the order of relations, their inverses and their composition.
pub mod Laws
pub mod Dominance
use versification_tool.Prelude.{
  ℕ, suc, Bool, true, ◌&&◌, ◌||◌, Option, none, some, List, [], ◌∷◌, length, leb, ltb,
  if◌then◌else◌,
}
use versification_tool.Prelude.Equality.{◌==◌}
use versification_tool.Resolver.Types.{
  Relation, one_to_one, shift, renumber, split, merge, exclude, partial, relation_eq,
}

-- `_PRIORITY`
abbrev pub priority : List Relation
priority = exclude ∷ merge ∷ split ∷ renumber ∷ shift ∷ partial ∷ one_to_one ∷ []

-- `xs.index(r)`; `ValueError` is `none`
abbrev pub index_of : Relation → List Relation → Option ℕ
index_of r [] = none
index_of r (x ∷ xs) =
    let later = index_of r xs in
    if r == x then some 0 else elim later [ none ↦ none | some i ↦ some (suc i) ]

unfoldable pub priority_rank : Relation → ℕ
priority_rank r = elim (index_of r priority) [ none ↦ length priority | some i ↦ i ]

-- The loop of `dominant_relation` over `best` and `best_rank`.
dominant_from : Option Relation → ℕ → List Relation → Option Relation
dominant_from best best_rank [] = best
dominant_from best best_rank (r ∷ rs) =
    let skipped = dominant_from best best_rank rs in
    let taken = dominant_from (some r) (priority_rank r) rs in
    if r == one_to_one then skipped else if ltb (priority_rank r) best_rank then taken else skipped

unfoldable pub dominant_relation : List Relation → Option Relation
unfolding dominant_from priority_rank
dominant_relation rs = dominant_from none (length priority) rs

unfoldable pub invert_relation : Relation → Relation
invert_relation r = if r == split then merge else if r == merge then split else r

unfoldable pub compose : Relation → Relation → Relation
unfolding priority_rank
compose left right =
    if left == one_to_one
    then right
    else if right == one_to_one
    then left
    else if left == exclude || right == exclude
    then exclude
    else if (left == split && right == merge) || (left == merge && right == split)
    then one_to_one
    else if left == right
    then left
    else if leb (priority_rank left) (priority_rank right)
    then left
    else right
