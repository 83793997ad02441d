-- ===== src/Resolver/Compose/Laws.antt =====
-- `compose` and `invert_relation` of frvt/resolver/compose.py.
use versification_tool.Prelude.{◌<◌, ◌≡◌, refl, min, ◌≢◌, ◌⊎◌, ◌↔◌, arith}
use versification_tool.Resolver.Types.{Relation, one_to_one, exclude, merge, split, relation_eq}
use versification_tool.Resolver.Compose.{priority_rank, invert_relation, compose}

-- A relation that may be stored: all but `complex` and `range`.
abbrev pub IsAtomic : Relation → Type 0
IsAtomic r = priority_rank r < 7

pub invert_relation-invert_relation : (r : Relation) → invert_relation (invert_relation r) ≡ r
unfolding invert_relation
invert_relation-invert_relation r = ground arith

one_to_one-compose : (r : Relation) → compose one_to_one r ≡ r
unfolding compose
one_to_one-compose r = refl

compose-one_to_one : (r : Relation) → compose r one_to_one ≡ r
unfolding compose
compose-one_to_one r = ground arith

-- Composition of stored relations is commutative, commutes with inversion, and stays stored.
pub record Composes (a b : Relation) : Type 0 where
  pub comm : compose a b ≡ compose b a
  pub invert : invert_relation (compose a b) ≡ compose (invert_relation b) (invert_relation a)
  pub atomic : IsAtomic (compose a b)

pub compose-Composes : (a b : Relation) → IsAtomic a → IsAtomic b → Composes a b
unfolding compose invert_relation priority_rank
compose-Composes one_to_one b ha hb = ground arith
compose-Composes _ b ha hb = ground arith

-- An excluded leg excludes the path.
pub compose-eq-exclude :
    (a b : Relation) → (compose a b ≡ exclude) ↔ ((a ≡ exclude) ⊎ (b ≡ exclude))
unfolding compose priority_rank
compose-eq-exclude one_to_one b = ground arith
compose-eq-exclude _ b = ground arith

-- A split and a merge, in either order.
abbrev pub Cancels : Relation → Relation → Type 0
Cancels a b = ((a ≡ split) × (b ≡ merge)) ⊎ ((a ≡ merge) × (b ≡ split))

-- Two stored relations that are not a split and a merge compose to the one of higher precedence.
pub priority_rank-compose :
    (a b : Relation)
    → IsAtomic a
    → IsAtomic b
    → ¬ Cancels a b
    → priority_rank (compose a b) ≡ min (priority_rank a) (priority_rank b)
unfolding compose priority_rank
priority_rank-compose one_to_one b ha hb n = ground arith
priority_rank-compose split b ha hb n = ground (arith, n)
priority_rank-compose merge b ha hb n = ground (arith, n)
priority_rank-compose _ b ha hb n = ground arith

-- Two stored relations compose to the identity exactly when both are the identity or they are a
-- split and a merge.
pub compose-eq-one_to_one :
    (a b : Relation)
    → IsAtomic a
    → IsAtomic b
    → (compose a b ≡ one_to_one) ↔ (((a ≡ one_to_one) × (b ≡ one_to_one)) ⊎ Cancels a b)
unfolding compose priority_rank
compose-eq-one_to_one one_to_one b ha hb = ground arith
compose-eq-one_to_one split b ha hb = ground arith
compose-eq-one_to_one merge b ha hb = ground arith
compose-eq-one_to_one _ b ha hb = ground arith

-- A split and a merge cancel only when they meet: composition is not associative.
pub compose_not_assoc :
    (r : Relation)
    → IsAtomic r
    → r ≢ one_to_one
    → r ≢ merge
    → r ≢ split
    → r ≢ exclude
    → (compose (compose split merge) r ≡ r) × (compose split (compose merge r) ≡ one_to_one)
unfolding compose priority_rank
compose_not_assoc r h a b c d = ground arith
