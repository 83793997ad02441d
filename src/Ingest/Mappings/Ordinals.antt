-- ===== src/Ingest/Mappings/Ordinals.antt =====
-- Invariants of the derivation of rows (frvt/ingest/derive_mappings.py), and the ordinals.
use versification_tool.Prelude.{
  ℕ, zero, suc, ◌+◌, ◌≡◌, refl, ap, sym, ◌∙◌, inl, inr, ◌||◌, Option, none, some, List, [], ◌∷◌,
  ◌++◌, arith, length, length-append, get_elem?, some_inj, Bool-cases, Option-cases,
}
use versification_tool.Prelude.Equality.{contains}
use versification_tool.Prelude.Texts.{Text, text_eq}
use versification_tool.Resolver.Types.{
  Relation, exclude, merge, split, partial, MappingView, Result-cases, ok,
}
use versification_tool.Ingest.Mappings.{
  Ingredient, classify_mapped, Derived, push, lookup, add_pair, add_mapped, add_excluded,
  add_merged, add_split, add_parts, add_partials, derive_mapping_records,
}

-- The relations that are pushed without parsing.
pub data IsListed : Relation → Type 0 where
  excluded : IsListed exclude
  merged : IsListed merge
  splits : IsListed split
  parts : IsListed partial

-- An invariant of `Derived` that both kinds of rows keep.
module _ (Inv : Derived → Type 0)
    (pair : (key value : Text) (r : Relation) (d : Derived)
      → classify_mapped key value ≡ ok r
      → Inv d
      → Inv (push key (some value) none r d))
    (listed : (s : Text) (b p : Option Text) (r : Relation) (d : Derived)
      → IsListed r
      → Inv d
      → Inv (push s b p r d)) where
  add_pair-keeps : (key value : Text) (d : Derived) → Inv d → Inv (add_pair key value d)
  unfolding add_pair
  add_pair-keeps key value d i = elim (Result-cases (classify_mapped key value)) [
    | inl (r, e) ↦ rw (e, add_pair) (pair key value r d e i)
    | inr (x, e) ↦ rw (e, add_pair) i
  ]

  add_mapped-keeps :
      (ms ss : List Text) (pairs : List (Text × Text)) (d : Derived)
      → Inv d
      → Inv (add_mapped ms ss pairs d)
  unfolding add_mapped
  add_mapped-keeps ms ss [] d i = i
  add_mapped-keeps ms ss ((key, value) ∷ rest) d i =
      elim (Bool-cases (contains key ms || contains key ss)) [
        | inl t ↦ rw t (add_mapped-keeps ms ss rest d i)
        | inr f ↦
            rw f (add_mapped-keeps ms ss rest (add_pair key value d) (add_pair-keeps key value d i))
      ]

  add_excluded-keeps : (refs : List Text) (d : Derived) → Inv d → Inv (add_excluded refs d)
  unfolding add_excluded
  add_excluded-keeps [] d i = i
  add_excluded-keeps (ref ∷ refs) d i =
      add_excluded-keeps refs _ (listed ref none none exclude d excluded i)

  add_merged-keeps :
      (mapped : List (Text × Text)) (refs : List Text) (d : Derived)
      → Inv d
      → Inv (add_merged mapped refs d)
  unfolding add_merged
  add_merged-keeps mapped [] d i = i
  add_merged-keeps mapped (ref ∷ refs) d i =
      add_merged-keeps mapped refs _ (listed ref (lookup ref mapped) none merge d merged i)

  add_split-keeps :
      (mapped : List (Text × Text)) (refs : List Text) (d : Derived)
      → Inv d
      → Inv (add_split mapped refs d)
  unfolding add_split
  add_split-keeps mapped [] d i = i
  add_split-keeps mapped (ref ∷ refs) d i = elim (Option-cases (lookup ref mapped)) [
    | inl n ↦ rw (n, add_split) (add_split-keeps mapped refs d i)
    | inr (base, e) ↦
        rw (e, add_split)
          (add_split-keeps mapped refs _ (listed ref (some base) none split d splits i))
  ]

  add_parts-keeps : (ref : Text) (ps : List Text) (d : Derived) → Inv d → Inv (add_parts ref ps d)
  unfolding add_parts
  add_parts-keeps ref [] d i = i
  add_parts-keeps ref (p ∷ ps) d i =
      add_parts-keeps ref ps _ (listed ref (some ref) (some p) partial d parts i)

  add_partials-keeps :
      (entries : List (Text × List Text)) (d : Derived) → Inv d → Inv (add_partials entries d)
  unfolding add_partials
  add_partials-keeps [] d i = i
  add_partials-keeps ((ref, ps) ∷ rest) d i = add_partials-keeps rest _ (add_parts-keeps ref ps d i)

  -- The invariant of the last state, whose rows are returned.
  pub derived-keeps :
      (g : Ingredient)
      → Inv (record { rows = []; ordinal = 0 })
      → (d : Derived) × Inv d × (derive_mapping_records g ≡ d.rows)
  unfolding derive_mapping_records
  derived-keeps g i = (
    _,
    add_partials-keeps g.partial_verses _ (
        add_split-keeps g.mapped_verses g.split_verses _ (
          add_merged-keeps g.mapped_verses g.merged_verses _ (
            add_excluded-keeps g.excluded_verses _
              (add_mapped-keeps g.merged_verses g.split_verses g.mapped_verses _ i)))),
    refl,
  )

-- Each row has its place in the list as its ordinal, and the counter is the number of rows.
record IsNumbered (d : Derived) : Type 0 where
  counter : d.ordinal ≡ length d.rows
  numbered : (i : ℕ) (row : MappingView) → get_elem? d.rows i ≡ some row → row.ordinal ≡ i

get_elem?-snoc :
    (rows : List MappingView) (last row : MappingView) (i k : ℕ)
    → ((j : ℕ) (r : MappingView) → get_elem? rows j ≡ some r → r.ordinal ≡ k + j)
    → last.ordinal ≡ k + length rows
    → get_elem? (rows ++ (last ∷ [])) i ≡ some row
    → row.ordinal ≡ k + i
get_elem?-snoc [] last row zero k h e q = ap (λ (r : MappingView). r.ordinal) (sym (some_inj q)) ∙ e
get_elem?-snoc [] last row (suc i) k h e q = cc
get_elem?-snoc (x ∷ rows) last row zero k h e q = h 0 row q
get_elem?-snoc (x ∷ rows) last row (suc i) k h e q =
    get_elem?-snoc rows last row i (suc k) (λ j r p. h (suc j) r p ∙ omega arith) (e ∙ omega arith)
      q
    ∙ omega arith

push-IsNumbered :
    (s : Text) (b p : Option Text) (r : Relation) (d : Derived)
    → IsNumbered d
    → IsNumbered (push s b p r d)
unfolding push
push-IsNumbered s b p r d h = record {
  counter = ap (λ (n : ℕ). n + 1) h.counter ∙ sym (length-append d.rows _);
  numbered = λ i row q.
      get_elem?-snoc d.rows _ row i 0 (λ j x e. h.numbered j x e ∙ omega arith)
        (h.counter ∙ omega arith) q
      ∙ omega arith;
}

-- The ordinal of each derived row is its place among the rows.
pub derive_mapping_records-ordinal :
    (g : Ingredient) (i : ℕ) (row : MappingView)
    → get_elem? (derive_mapping_records g) i ≡ some row
    → row.ordinal ≡ i
derive_mapping_records-ordinal g i row e =
    let (d, numbered, same) =
      derived-keeps IsNumbered (λ key value r d c. push-IsNumbered key (some value) none r d)
        (λ s b p r d l. push-IsNumbered s b p r d) g
        (record { counter = refl; numbered = λ j x q. cc }) in
    numbered.numbered i row (ap (λ (rows : List MappingView). get_elem? rows i) (sym same) ∙ e)
