-- ===== src/Api/Indexing/Claim.antt =====
-- The claim of `process_next_index` of frvt/api/indexing/worker.py.
use versification_tool.Prelude.{
  ℕ, ◌≤◌, ◌≡◌, refl, ap, sym, ◌⊎◌, inl, inr, true, false, ◌&&◌, none, some, List, [], ◌∷◌,
  Bool-cases, arith, some_inj, ltb, nat_beq_iff,
}
use mathlib.Core.Path.{subst}
use mathlib.Core.List.{Memᴰ}
use mathlib.Core.List.Memᴰ
use versification_tool.Prelude.Equality.{nat_eq, ◌==◌, contains}
use versification_tool.Prelude.Distinct.{IsDistinct}
use versification_tool.Api.Indexing.Rows.{
  IndexStatus, pending, building, ready, failed, cancelled, status_beq, TranslationIndex, find_row,
  ids,
}
use versification_tool.Api.Indexing.Worker.{next_from, next_pending}

pub status_beq→eq : (s : IndexStatus) → status_beq s pending ≡ true → s ≡ pending
status_beq→eq pending e = refl
status_beq→eq building e = cc
status_beq→eq ready e = cc
status_beq→eq failed e = cc
status_beq→eq cancelled e = cc

-- The row that is claimed: pending, of the table, and requested no later than any pending row.
pub record IsFirst (rows : List TranslationIndex) (row : TranslationIndex) : Type 0 where
  pub member : Memᴰ row rows
  pub waiting : row.status ≡ pending
  pub first :
      (other : TranslationIndex)
      → Memᴰ other rows
      → other.status ≡ pending
      → row.requested_at ≤ other.requested_at

-- What the loop knows when it has `best`.
record IsBest (best row : TranslationIndex) (rows : List TranslationIndex) : Type 0 where
  stands : (row ≡ best) ⊎ Memᴰ row rows
  waiting : row.status ≡ pending
  earlier : row.requested_at ≤ best.requested_at
  first :
      (other : TranslationIndex)
      → Memᴰ other rows
      → other.status ≡ pending
      → row.requested_at ≤ other.requested_at

next_from-IsBest :
    (best row : TranslationIndex) (rows : List TranslationIndex)
    → best.status ≡ pending
    → next_from (some best) rows ≡ some row
    → IsBest best row rows
unfolding next_from
next_from-IsBest best row [] p e =
    subst (λ (r : TranslationIndex). IsBest best r []) (some_inj e)
      (record {
        stands = inl refl;
        waiting = p;
        earlier = omega arith;
        first = λ other m q. elim m [ ];
      })
next_from-IsBest best row (r ∷ rows) p e =
    elim (Bool-cases (status_beq r.status pending && ltb r.requested_at best.requested_at)) [
      | inl t ↦
          let waits : r.status ≡ pending = status_beq→eq r.status (ground (arith, t)) in
          let b = next_from-IsBest r row rows waits (rw t at e) in
          let sooner : r.requested_at ≤ best.requested_at = ground (arith, t) in
          record {
            stands = inr (kept b.stands);
            waiting = b.waiting;
            earlier = omega (arith, b.earlier, sooner);
            first = λ other m q. elim (Memᴰ.cases_cons m) [
              | inl same ↦
                  subst (λ (o : TranslationIndex). row.requested_at ≤ o.requested_at) (sym same)
                    b.earlier
              | inr k ↦ b.first other k q
            ];
          }
      | inr f ↦
          let b = next_from-IsBest best row rows p (rw f at e) in
          record {
            stands = past b.stands;
            waiting = b.waiting;
            earlier = b.earlier;
            first = λ other m q. elim (Memᴰ.cases_cons m) [
              | inl same ↦
                  subst (λ (o : TranslationIndex). row.requested_at ≤ o.requested_at) (sym same)
                    (later r best row f b.earlier
                      (subst (λ (o : TranslationIndex). o.status ≡ pending) same q))
              | inr k ↦ b.first other k q
            ];
          }
    ]
  where
    kept :
        {r row : TranslationIndex} {rows : List TranslationIndex}
        → (row ≡ r) ⊎ Memᴰ row rows
        → Memᴰ row (r ∷ rows)
    kept (inl same) = Memᴰ.head same
    kept (inr m) = Memᴰ.tail m

    past :
        {best r row : TranslationIndex} {rows : List TranslationIndex}
        → (row ≡ best) ⊎ Memᴰ row rows
        → (row ≡ best) ⊎ Memᴰ row (r ∷ rows)
    past (inl same) = inl same
    past (inr m) = inr (Memᴰ.tail m)

    later :
        (r best row : TranslationIndex)
        → (status_beq r.status pending && ltb r.requested_at best.requested_at) ≡ false
        → row.requested_at ≤ best.requested_at
        → r.status ≡ pending
        → row.requested_at ≤ r.requested_at
    later r best row f le q = ground (arith, f, q, ap (λ s. status_beq s pending) q)

-- No row is pending.
abbrev pub NonePending : List TranslationIndex → Type 0
NonePending [] = Unit {0}
NonePending (r ∷ rows) = (status_beq r.status pending ≡ false) × NonePending rows

next_from-some :
    (best : TranslationIndex) (rows : List TranslationIndex)
    → (row : TranslationIndex) × (next_from (some best) rows ≡ some row)
unfolding next_from
next_from-some best [] = (best, refl)
next_from-some best (r ∷ rows) =
    elim (Bool-cases (status_beq r.status pending && ltb r.requested_at best.requested_at)) [
      | inl t ↦ let (row, e) = next_from-some r rows in (row, rw (t, next_from) e)
      | inr f ↦ let (row, e) = next_from-some best rows in (row, rw (f, next_from) e)
    ]

pub next_pending-eq-none :
    (rows : List TranslationIndex) → next_pending rows ≡ none → NonePending rows
unfolding next_pending next_from
next_pending-eq-none [] e = tt
next_pending-eq-none (r ∷ rows) e = elim (Bool-cases (status_beq r.status pending)) [
  | inl t ↦ let (row, found) = next_from-some r rows in let e' = rw t at e in cc
  | inr f ↦ (f, next_pending-eq-none rows (rw f at e))
]

-- The row that the worker claims is pending and was requested no later than any other pending row.
pub next_pending-IsFirst :
    (rows : List TranslationIndex) (row : TranslationIndex)
    → next_pending rows ≡ some row
    → IsFirst rows row
unfolding next_pending next_from
next_pending-IsFirst [] row e = cc
next_pending-IsFirst (r ∷ rows) row e = elim (Bool-cases (status_beq r.status pending)) [
  | inl t ↦
      let b = next_from-IsBest r row rows (status_beq→eq r.status t) (rw t at e) in
      record {
        member = elim b.stands [ inl same ↦ Memᴰ.head same | inr m ↦ Memᴰ.tail m ];
        waiting = b.waiting;
        first = λ other m q. elim (Memᴰ.cases_cons m) [
          | inl same ↦
              subst (λ (o : TranslationIndex). row.requested_at ≤ o.requested_at) (sym same)
                b.earlier
          | inr k ↦ b.first other k q
        ];
      }
  | inr f ↦
      let rest = next_pending-IsFirst rows row (rw f at e) in
      record {
        member = Memᴰ.tail rest.member;
        waiting = rest.waiting;
        first = λ other m q. elim (Memᴰ.cases_cons m) [
          | inl same ↦
              let q' = subst (λ (o : TranslationIndex). o.status ≡ pending) same q in
              let t = ap (λ s. status_beq s pending) q' in cc
          | inr k ↦ rest.first other k q
        ];
      }
]

contains-ids-member :
    (rows : List TranslationIndex) (row : TranslationIndex)
    → Memᴰ row rows
    → contains row.id (ids rows) ≡ true
unfolding contains
contains-ids-member [] row m = elim m [ ]
contains-ids-member (r ∷ rows) row m = elim (Memᴰ.cases_cons m) [
  | inl same ↦
      let own : (row.id == r.id) ≡ true =
        (nat_beq_iff row.id r.id).1 (ap (λ (t : TranslationIndex). t.id) same) in
      rw own
  | inr k ↦ ground (arith, contains-ids-member rows row k)
]

-- A member of a table without repeated ids is the row that its id finds.
pub find_row-member :
    (rows : List TranslationIndex) (row : TranslationIndex)
    → IsDistinct (ids rows)
    → Memᴰ row rows
    → find_row row.id rows ≡ some row
unfolding find_row
find_row-member [] row d m = elim m [ ]
find_row-member (r ∷ rows) row d m = elim (Memᴰ.cases_cons m) [
  | inl same ↦
      let own : (r.id == row.id) ≡ true =
        (nat_beq_iff r.id row.id).1 (ap (λ (t : TranslationIndex). t.id) (sym same)) in
      rw (own, find_row) (ap some (sym same))
  | inr k ↦
      let there = contains-ids-member rows row k in
      let other : (r.id == row.id) ≡ false = elim (Bool-cases (r.id == row.id)) [
        | inl t ↦
            let same = (nat_beq_iff r.id row.id).0 t in
            let gone = subst (λ (i : ℕ). contains i (ids rows) ≡ false) same d.0 in cc
        | inr f ↦ f
      ] in
      rw (other, find_row) (find_row-member rows row d.1 k)
]
