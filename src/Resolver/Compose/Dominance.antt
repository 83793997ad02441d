-- ===== src/Resolver/Compose/Dominance.antt =====
-- `dominant_relation` of frvt/resolver/compose.py.
use versification_tool.Prelude.{
  ℕ, ◌≤◌, ◌≡◌, ◌∙◌, sym, ◌≢◌, ◌⊎◌, inl, inr, false, Option, none, some, List, [], ◌∷◌, arith,
  Bool-cases, ltb, some_inj,
}
use mathlib.Core.List.{Memᴰ}
use mathlib.Core.List.Memᴰ
use mathlib.Core.Logic.{⊎_elim}
use versification_tool.Prelude.Equality.{◌==◌}
use versification_tool.Resolver.Types.{Relation, one_to_one, relation_eq, relation_beq_iff}
use versification_tool.Resolver.Compose.{priority_rank, dominant_from, dominant_relation}
use versification_tool.Resolver.Compose.Laws.{IsAtomic}

-- The result `r` of the loop from `best`, whose rank is `rank`.
record Dominant (best : Option Relation) (rank : ℕ) (rs : List Relation) (r : Relation)
    : Type 0 where
  origin : (best ≡ some r) ⊎ (Memᴰ r rs × (r ≢ one_to_one))
  bound : priority_rank r ≤ rank
  least : (s : Relation) → Memᴰ s rs → s ≢ one_to_one → priority_rank r ≤ priority_rank s

not_one : (x : Relation) → (x == one_to_one) ≡ false → x ≢ one_to_one
not_one x f e = cc ((relation_beq_iff x one_to_one).1 e)

dominant_from_lem :
    (best : Option Relation) (rank : ℕ) (rs : List Relation) (r : Relation)
    → ((b : Relation) → best ≡ some b → priority_rank b ≤ rank)
    → dominant_from best rank rs ≡ some r
    → Dominant best rank rs r
unfolding dominant_from
dominant_from_lem best rank [] r inv h = record {
  origin = inl h;
  bound = inv r h;
  least = λ s m. elim m [ ];
}
dominant_from_lem best rank (x ∷ xs) r inv h = elim (Bool-cases (x == one_to_one)) [
  | inl t ↦
      let d = dominant_from_lem best rank xs r inv (rw (t, dominant_from) at h) in
      record {
        origin = ⊎_elim inl (λ (m, n). inr (Memᴰ.tail m, n)) d.origin;
        bound = d.bound;
        least = λ s m n.
            ⊎_elim (λ e. absurd (n (e ∙ (relation_beq_iff x one_to_one).0 t))) (λ q. d.least s q n)
              (Memᴰ.cases_cons m);
      }
  | inr f ↦ elim (Bool-cases (ltb (priority_rank x) rank)) [
    | inl t ↦
        let d =
          dominant_from_lem (some x) (priority_rank x) xs r (λ b e. rw (some_inj e) (omega arith))
            (rw (f, t, dominant_from) at h) in
        record {
          origin =
              ⊎_elim (λ e. inr (Memᴰ.head (sym (some_inj e)), rw (← some_inj e) (not_one x f)))
                (λ (m, n). inr (Memᴰ.tail m, n)) d.origin;
          bound = let low = d.bound in ground arith;
          least = λ s m n. ⊎_elim (λ e. rw e d.bound) (λ q. d.least s q n) (Memᴰ.cases_cons m);
        }
    | inr g ↦
        let d = dominant_from_lem best rank xs r inv (rw (f, g, dominant_from) at h) in
        record {
          origin = ⊎_elim inl (λ (m, n). inr (Memᴰ.tail m, n)) d.origin;
          bound = d.bound;
          least = λ s m n.
              ⊎_elim (λ e. let low = d.bound in rw e (ground arith)) (λ q. d.least s q n)
                (Memᴰ.cases_cons m);
        }
  ]
]

dominant_from-ne-none :
    (best : Option Relation) (rank : ℕ) (rs : List Relation)
    → best ≢ none
    → dominant_from best rank rs ≢ none
unfolding dominant_from
dominant_from-ne-none best rank [] n = n
dominant_from-ne-none best rank (x ∷ xs) n =
    ground (
      arith,
      dominant_from-ne-none best rank xs,
      dominant_from-ne-none (some x) (priority_rank x) xs,
    )

dominant_from-eq-none :
    (rs : List Relation)
    → dominant_from none 7 rs ≡ none
    → (s : Relation) → Memᴰ s rs
    → IsAtomic s
    → s ≡ one_to_one
unfolding dominant_from
dominant_from-eq-none [] h s m a = elim m [ ]
dominant_from-eq-none (x ∷ xs) h s m a = elim (Bool-cases (x == one_to_one)) [
  | inl t ↦
      ⊎_elim (λ e. e ∙ (relation_beq_iff x one_to_one).0 t)
        (λ q. dominant_from-eq-none xs (rw (t, dominant_from) at h) s q a) (Memᴰ.cases_cons m)
  | inr f ↦ elim (Bool-cases (ltb (priority_rank x) 7)) [
    | inl t ↦ absurd (
        dominant_from-ne-none (some x) (priority_rank x) xs (λ e. cc)
          (rw (f, t, dominant_from) at h))
    | inr g ↦
        ⊎_elim (λ e. absurd (let low = rw e at a in ground arith))
          (λ q. dominant_from-eq-none xs (rw (f, g, dominant_from) at h) s q a) (Memᴰ.cases_cons m)
  ]
]

-- The relation that `dominant_relation` returns stands in the list, is not the identity, and no
-- other such relation of the list has a higher precedence.
pub record IsDominant (rs : List Relation) (r : Relation) : Type 0 where
  pub member : Memᴰ r rs
  pub proper : r ≢ one_to_one
  pub least : (s : Relation) → Memᴰ s rs → s ≢ one_to_one → priority_rank r ≤ priority_rank s

pub dominant_relation-IsDominant :
    (rs : List Relation) (r : Relation) → dominant_relation rs ≡ some r → IsDominant rs r
unfolding dominant_relation
dominant_relation-IsDominant rs r h =
    let d = dominant_from_lem none 7 rs r (λ b e. cc) h in
    elim d.origin [ inl e ↦ cc | inr (m, n) ↦ record { member = m; proper = n; least = d.least } ]

-- Without a result, each stored relation of the list is the identity.
pub dominant_relation-eq-none :
    (rs : List Relation) (s : Relation)
    → dominant_relation rs ≡ none
    → Memᴰ s rs
    → IsAtomic s
    → s ≡ one_to_one
unfolding dominant_relation
dominant_relation-eq-none rs s h m a = dominant_from-eq-none rs h s m a
