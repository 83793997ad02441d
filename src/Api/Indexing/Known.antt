-- ===== src/Api/Indexing/Known.antt =====
-- The ids of indexes that the tables of frvt/api/indexing know: those of rows, and those whose mappings
-- wait for the cleanup.
use versification_tool.Prelude.{
  ℕ, ◌≡◌, refl, ap, sym, ◌∙◌, inl, inr, Bool, true, false, ◌||◌, some, List, [], ◌∷◌, ◌++◌,
  map-append, Bool-cases, arith, some_inj, nat_beq_iff,
}
use mathlib.Core.Path.{subst}
use versification_tool.Prelude.Equality.{nat_eq, pair_eq, ◌==◌, contains}
use versification_tool.Api.Indexing.Rows.{
  TranslationIndex, Tables, find_row, on_row, on_rows, delete_row, ids,
}
use versification_tool.Api.Indexing.Registry.{queue_reclaim}
use versification_tool.Api.Indexing.Invalidation.{delete_rows}
use versification_tool.Api.Indexing.Sound.{map-on_row}
use versification_tool.Api.Indexing.Changes.{map-on_rows}
use versification_tool.Api.Indexing.Requests.{queue_reclaim-indexes}

abbrev pub known : ℕ → Tables → Bool
known i t = contains i (ids t.indexes) || contains i t.reclaim

-- It is known, or one of those that are lost.
abbrev pub accounted : List ℕ → ℕ → Tables → Bool
accounted lost i t = known i t || contains i lost

-- Nothing that was known is forgotten, and the mappings are the same.
pub record Grows (t u : Tables) : Type 0 where
  pub kept : (i : ℕ) → known i t ≡ true → known i u ≡ true
  pub mappings_same : u.mappings ≡ t.mappings

pub Grows-accounted :
    (lost : List ℕ) {t u : Tables} (i : ℕ)
    → Grows t u
    → accounted lost i t ≡ true
    → accounted lost i u ≡ true
Grows-accounted lost {t} {u} i g h = elim (Bool-cases (known i t)) [
  | inl y ↦ let k = g.kept i y in ground (arith, k)
  | inr n ↦ ground (arith, h, n)
]

-- The table of indexes has the same ids.
pub same_ids-Grows :
    (t : Tables) (rows : List TranslationIndex)
    → ids rows ≡ ids t.indexes
    → Grows t (record t { indexes = rows })
same_ids-Grows t rows e = record { kept = λ i h. rw e h; mappings_same = refl }

pub on_row-Grows :
    (id : ℕ) (change : TranslationIndex → TranslationIndex) (t : Tables)
    → ((row : TranslationIndex) → find_row id t.indexes ≡ some row → (change row).id ≡ row.id)
    → Grows t (record t { indexes = on_row id change t.indexes })
on_row-Grows id change t h =
    same_ids-Grows t (on_row id change t.indexes) (map-on_row (λ r. r.id) id change t.indexes h)

pub replace-Grows :
    (id : ℕ) (row changed : TranslationIndex) (t : Tables)
    → find_row id t.indexes ≡ some row
    → changed.id ≡ row.id
    → Grows t (record t { indexes = on_row id (λ _. changed) t.indexes })
replace-Grows id row changed t found same =
    on_row-Grows id (λ _. changed) t
      (λ r e. same ∙ ap (λ (x : TranslationIndex). x.id) (some_inj (sym found ∙ e)))

pub on_rows-Grows :
    (selects : TranslationIndex → Bool) (change : TranslationIndex → TranslationIndex) (t : Tables)
    → ((row : TranslationIndex) → (change row).id ≡ row.id)
    → Grows t (record t { indexes = on_rows selects change t.indexes })
on_rows-Grows selects change t h =
    same_ids-Grows t (on_rows selects change t.indexes)
      (map-on_rows (λ r. r.id) selects change t.indexes h)

pub contains-append :
    (i : ℕ) (xs ys : List ℕ) → contains i (xs ++ ys) ≡ (contains i xs || contains i ys)
unfolding contains
contains-append i [] ys = refl
contains-append i (x ∷ xs) ys = ground (arith, contains-append i xs ys)

-- What is queued is in the queue, and nothing leaves it.
pub contains-queue_reclaim :
    (i : ℕ) (l : List ℕ) (t : Tables)
    → contains i (queue_reclaim l t).reclaim ≡ (contains i l || contains i t.reclaim)
unfolding queue_reclaim contains
contains-queue_reclaim i [] t = refl
contains-queue_reclaim i (id ∷ l) t = elim (Bool-cases (contains id t.reclaim)) [
  | inl y ↦
      rw (y, queue_reclaim)
        (ground (arith, contains-queue_reclaim i l t, nat_beq_iff i id, subst_known i id t y))
  | inr n ↦
      rw (n, queue_reclaim)
        (ground (
          arith,
          contains-queue_reclaim i l (record t { reclaim = t.reclaim ++ (id ∷ []) }),
          contains-append i t.reclaim (id ∷ []),
        ))
]
  where
    subst_known :
        (i id : ℕ) (t : Tables)
        → contains id t.reclaim ≡ true
        → i ≡ id
        → contains i t.reclaim ≡ true
    subst_known i id t y e = subst (λ (x : ℕ). contains x t.reclaim ≡ true) (sym e) y

pub queue_reclaim-mappings : (l : List ℕ) (t : Tables) → (queue_reclaim l t).mappings ≡ t.mappings
unfolding queue_reclaim
queue_reclaim-mappings [] t = refl
queue_reclaim-mappings (id ∷ l) t = elim (Bool-cases (contains id t.reclaim)) [
  | inl y ↦ rw (y, queue_reclaim) (queue_reclaim-mappings l t)
  | inr n ↦
      rw (n, queue_reclaim)
        (queue_reclaim-mappings l (record t { reclaim = t.reclaim ++ (id ∷ []) }))
]

pub queue_reclaim-Grows : (l : List ℕ) (t : Tables) → Grows t (queue_reclaim l t)
queue_reclaim-Grows l t = record {
  kept = λ i h. rw (queue_reclaim-indexes l t) (ground (arith, contains-queue_reclaim i l t, h));
  mappings_same = queue_reclaim-mappings l t;
}

contains-ids-delete_row :
    (i id : ℕ) (rows : List TranslationIndex)
    → contains i (ids rows) ≡ true
    → (i == id) ≡ false
    → contains i (ids (delete_row id rows)) ≡ true
unfolding contains delete_row
contains-ids-delete_row i id [] h n = cc
contains-ids-delete_row i id (row ∷ rows) h n = elim (Bool-cases (row.id == id)) [
  | inl t ↦ rw t (ground (arith, nat_beq_iff row.id id, nat_beq_iff i row.id, nat_beq_iff i id))
  | inr f ↦ rw f (ground (arith, contains-ids-delete_row i id rows))
]

pub contains-ids-delete_rows :
    (i : ℕ) (l : List ℕ) (rows : List TranslationIndex)
    → contains i (ids rows) ≡ true
    → contains i l ≡ false
    → contains i (ids (delete_rows l rows)) ≡ true
unfolding contains delete_rows
contains-ids-delete_rows i [] rows h n = h
contains-ids-delete_rows i (id ∷ l) rows h n =
    contains-ids-delete_rows i l (delete_row id rows)
      (contains-ids-delete_row i id rows h (ground (arith, n))) (ground (arith, n))

-- Rows that are queued before they are deleted.
pub delete_rows-Grows :
    (l : List ℕ) (t : Tables)
    → Grows t (record (queue_reclaim l t) { indexes = delete_rows l (queue_reclaim l t).indexes })
delete_rows-Grows l t = record {
  kept = λ i h. rw (queue_reclaim-indexes l t) (elim (Bool-cases (contains i l)) [
    | inl y ↦ ground (arith, contains-queue_reclaim i l t, y)
    | inr n ↦ elim (Bool-cases (contains i (ids t.indexes))) [
      | inl here ↦ let stays = contains-ids-delete_rows i l t.indexes here n in rw stays
      | inr there ↦ ground (arith, contains-queue_reclaim i l t, h, there)
    ]
  ]);
  mappings_same = queue_reclaim-mappings l t;
}

pub append-Grows :
    (t : Tables) (row : TranslationIndex) → Grows t (record t { indexes = t.indexes ++ (row ∷ []) })
append-Grows t row = record {
  kept = λ i h.
      rw (map-append (λ r. r.id) t.indexes (row ∷ []))
        (ground (arith, contains-append i (ids t.indexes) (row.id ∷ []), h));
  mappings_same = refl;
}
