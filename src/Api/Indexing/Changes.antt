-- ===== src/Api/Indexing/Changes.antt =====
-- Changes of the table of indexes: of several rows, of a pair, and with a row more or less.
use versification_tool.Prelude.{
  ℕ, ◌≡◌, refl, ap, sym, ◌∙◌, inl, inr, Bool, false, List, [], ◌∷◌, ◌++◌, map, map-append,
  Bool-cases, arith, nat_beq_iff,
}
use mathlib.Core.Path.{subst}
use versification_tool.Prelude.Equality.{Eq, nat_eq, pair_eq, ◌==◌, contains}
use versification_tool.Prelude.Distinct.{IsDistinct, IsDistinct-append_one}
use versification_tool.Api.Indexing.Rows.{
  TranslationIndex, pair_of, on_row, on_rows, delete_row, clashes, ids,
}
use versification_tool.Api.Indexing.Sound.{IsSoundRow, AllSound, IsSound}

pub map-on_rows {ℓ} :
    {K : Type ℓ} (key : TranslationIndex → K) (selects : TranslationIndex → Bool)
    (change : TranslationIndex → TranslationIndex) (rows : List TranslationIndex)
    → ((row : TranslationIndex) → key (change row) ≡ key row)
    → map key (on_rows selects change rows) ≡ map key rows
unfolding on_rows
map-on_rows key selects change [] h = refl
map-on_rows key selects change (row ∷ rows) h = elim (Bool-cases (selects row)) [
  | inl t ↦ rw t (
      ap (λ k. k ∷ map key (on_rows selects change rows)) (h row)
      ∙ ap (λ ks. key row ∷ ks) (map-on_rows key selects change rows h))
  | inr f ↦ rw f (ap (λ ks. key row ∷ ks) (map-on_rows key selects change rows h))
]

AllSound-on_rows :
    (selects : TranslationIndex → Bool) (change : TranslationIndex → TranslationIndex)
    (rows : List TranslationIndex)
    → ((row : TranslationIndex) → IsSoundRow row → IsSoundRow (change row))
    → AllSound rows
    → AllSound (on_rows selects change rows)
unfolding on_rows
AllSound-on_rows selects change [] h a = a
AllSound-on_rows selects change (row ∷ rows) h a = elim (Bool-cases (selects row)) [
  | inl t ↦ rw t (h row a.0, AllSound-on_rows selects change rows h a.1)
  | inr f ↦ rw f (a.0, AllSound-on_rows selects change rows h a.1)
]

pub on_rows-IsSound :
    (selects : TranslationIndex → Bool) (change : TranslationIndex → TranslationIndex)
    (rows : List TranslationIndex)
    → ((row : TranslationIndex) → IsSoundRow row → IsSoundRow (change row))
    → ((row : TranslationIndex) → (change row).id ≡ row.id)
    → ((row : TranslationIndex) → pair_of (change row) ≡ pair_of row)
    → IsSound rows
    → IsSound (on_rows selects change rows)
on_rows-IsSound selects change rows h same_id same_pair s = record {
  distinct =
      subst IsDistinct (sym (map-on_rows (λ r. r.id) selects change rows same_id)) s.distinct;
  unique = subst IsDistinct (sym (map-on_rows pair_of selects change rows same_pair)) s.unique;
  sound = AllSound-on_rows selects change rows h s.sound;
}

contains-map-delete_row {ℓ} :
    {K : Type ℓ} ⦃e : Eq K⦄ (key : TranslationIndex → K) (k : K) (id : ℕ)
    (rows : List TranslationIndex)
    → contains k (map key rows) ≡ false
    → contains k (map key (delete_row id rows)) ≡ false
unfolding delete_row contains
contains-map-delete_row key k id [] h = refl
contains-map-delete_row key k id (row ∷ rows) h = elim (Bool-cases (row.id == id)) [
  | inl t ↦ rw t (ground (arith, h))
  | inr f ↦ rw f (ground (arith, h, contains-map-delete_row key k id rows))
]

IsDistinct-delete_row {ℓ} :
    {K : Type ℓ} ⦃e : Eq K⦄ (key : TranslationIndex → K) (id : ℕ) (rows : List TranslationIndex)
    → IsDistinct (map key rows)
    → IsDistinct (map key (delete_row id rows))
unfolding delete_row
IsDistinct-delete_row key id [] d = d
IsDistinct-delete_row key id (row ∷ rows) d = elim (Bool-cases (row.id == id)) [
  | inl t ↦ rw t d.1
  | inr f ↦
      rw f
        (contains-map-delete_row key (key row) id rows d.0, IsDistinct-delete_row key id rows d.1)
]

AllSound-delete_row :
    (id : ℕ) (rows : List TranslationIndex) → AllSound rows → AllSound (delete_row id rows)
unfolding delete_row
AllSound-delete_row id [] a = a
AllSound-delete_row id (row ∷ rows) a = elim (Bool-cases (row.id == id)) [
  | inl t ↦ rw t a.1
  | inr f ↦ rw f (a.0, AllSound-delete_row id rows a.1)
]

pub delete_row-IsSound :
    (id : ℕ) (rows : List TranslationIndex) → IsSound rows → IsSound (delete_row id rows)
delete_row-IsSound id rows s = record {
  distinct = IsDistinct-delete_row (λ r. r.id) id rows s.distinct;
  unique = IsDistinct-delete_row pair_of id rows s.unique;
  sound = AllSound-delete_row id rows s.sound;
}

AllSound-append :
    (rows : List TranslationIndex) (row : TranslationIndex)
    → AllSound rows
    → IsSoundRow row
    → AllSound (rows ++ (row ∷ []))
AllSound-append [] row a h = (h, tt)
AllSound-append (r ∷ rows) row a h = (a.0, AllSound-append rows row a.1 h)

pub append-IsSound :
    (rows : List TranslationIndex) (row : TranslationIndex)
    → contains row.id (ids rows) ≡ false
    → contains (pair_of row) (map pair_of rows) ≡ false
    → IsSoundRow row
    → IsSound rows
    → IsSound (rows ++ (row ∷ []))
append-IsSound rows row fresh free h s = record {
  distinct =
      rw (map-append (λ r. r.id) rows (row ∷ []))
        (IsDistinct-append_one row.id (ids rows) fresh s.distinct);
  unique =
      rw (map-append pair_of rows (row ∷ []))
        (IsDistinct-append_one (pair_of row) (map pair_of rows) free s.unique);
  sound = AllSound-append rows row s.sound h;
}

-- A row that takes a pair which no other row has.
contains-pair-on_row :
    (id : ℕ) (changed : TranslationIndex) (k : ℕ × ℕ) (rows : List TranslationIndex)
    → contains k (map pair_of rows) ≡ false
    → (k == pair_of changed) ≡ false
    → contains k (map pair_of (on_row id (λ _. changed) rows)) ≡ false
unfolding on_row contains
contains-pair-on_row id changed k [] h n = refl
contains-pair-on_row id changed k (row ∷ rows) h n = elim (Bool-cases (row.id == id)) [
  | inl t ↦ rw t (ground (arith, h, n))
  | inr f ↦ rw f (ground (arith, h, contains-pair-on_row id changed k rows, n))
]

-- Without the id no row of the rest is passed over.
clashes_absent :
    (id : ℕ) (k : ℕ × ℕ) (rows : List TranslationIndex)
    → contains id (ids rows) ≡ false
    → clashes id k rows ≡ false
    → contains k (map pair_of rows) ≡ false
unfolding clashes contains
clashes_absent id k [] a h = refl
clashes_absent id k (row ∷ rows) a h =
    let other : (row.id == id) ≡ false =
      ground (arith, nat_beq_iff row.id id, nat_beq_iff id row.id, a) in
    let apart : (pair_of row == k) ≡ false = ground (arith, h, other) in
    let here : (k == pair_of row) ≡ false =
      ground (arith, pair_eq.beq_iff k (pair_of row), pair_eq.beq_iff (pair_of row) k, apart) in
    let rest = clashes_absent id k rows (ground (arith, a)) (ground (arith, h)) in rw here rest

pub IsDistinct-pair-on_row :
    (id : ℕ) (changed : TranslationIndex) (rows : List TranslationIndex)
    → IsDistinct (ids rows)
    → IsDistinct (map pair_of rows)
    → clashes id (pair_of changed) rows ≡ false
    → IsDistinct (map pair_of (on_row id (λ _. changed) rows))
unfolding on_row clashes contains
IsDistinct-pair-on_row id changed [] d u c = u
IsDistinct-pair-on_row id changed (row ∷ rows) d u c = elim (Bool-cases (row.id == id)) [
  | inl t ↦
      let same = (nat_beq_iff row.id id).0 t in
      let absent = subst (λ (i : ℕ). contains i (ids rows) ≡ false) same d.0 in
      rw t (clashes_absent id (pair_of changed) rows absent (ground (arith, c)), u.1)
  | inr f ↦
      let apart : (pair_of row == pair_of changed) ≡ false = ground (arith, c, f) in
      rw f (
        contains-pair-on_row id changed (pair_of row) rows u.0 apart,
        IsDistinct-pair-on_row id changed rows d.1 u.1 (ground (arith, c)),
      )
]
