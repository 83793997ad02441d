-- ===== src/Api/Indexing/Chunks.antt =====
-- The pages in which frvt/api/indexing/builder.py writes the mappings of a pair.
use versification_tool.Prelude.{
  ℕ, ◌≡◌, refl, ap, sym, ◌∙◌, inl, inr, Bool, true, false, Option, none, some, List, [], ◌∷◌, ◌++◌,
  length, leb, Bool-cases, Option-cases, some_inj,
}
use mathlib.Core.List.{append-nil, append_assoc}
use versification_tool.Prelude.Equality.{nat_eq, ◌==◌}
use versification_tool.Prelude.Texts.{Text, text_eq}
use versification_tool.Api.Indexing.Rows.{
  building, status_beq, TranslationIndex, IndexMapping, Tables, find_row, on_row,
}
use versification_tool.Api.Indexing.Builder.{
  stop_if_not_current, checked, upsert_chunk, write_chunk, entry, write_refs,
}

upsert_chunk-append :
    (source target : ℕ) (xs ys : List (Text × Text)) (ms : List IndexMapping)
    → upsert_chunk source target (xs ++ ys) ms
      ≡ upsert_chunk source target ys (upsert_chunk source target xs ms)
unfolding upsert_chunk
upsert_chunk-append source target [] ys ms = refl
upsert_chunk-append source target ((ref, payload) ∷ xs) ys ms =
    upsert_chunk-append source target xs ys _

-- The row of the build is being built, and no cancel was requested.
pub record IsCurrent (owner : ℕ) (t : Tables) : Type 0 where
  pub row : TranslationIndex
  pub found : find_row owner t.indexes ≡ some row
  pub at_work : row.status ≡ building
  pub free : row.cancel_requested ≡ false

on_row_same :
    (id : ℕ) (rows : List TranslationIndex) (row : TranslationIndex)
    → find_row id rows ≡ some row
    → on_row id (λ _. row) rows ≡ rows
unfolding find_row on_row
on_row_same id [] row e = refl
on_row_same id (r ∷ rows) row e = elim (Bool-cases (r.id == id)) [
  | inl t ↦ rw t (ap (λ (x : TranslationIndex). x ∷ rows) (sym (some_inj (rw t at e))))
  | inr f ↦ rw f (ap (λ (l : List TranslationIndex). r ∷ l) (on_row_same id rows row (rw f at e)))
]

-- A check of a current build changes nothing.
stop-current :
    (owner : ℕ) (t : Tables) → IsCurrent owner t → stop_if_not_current owner t ≡ (t, false)
unfolding stop_if_not_current
stop-current owner t c =
    let at_work : status_beq c.row.status building ≡ true =
      ap (λ s. status_beq s building) c.at_work in
    let same : checked c.row ≡ (c.row, false) = simp (at_work, c.free, checked) refl in
    rw (c.found, stop_if_not_current)
      (ap
          (λ (p : TranslationIndex × Bool).
            let after : Tables × Bool =
              (record t { indexes = on_row owner (λ _. p.0) t.indexes }, p.1) in
            after)
          same
        ∙ ap
            (λ (rows : List TranslationIndex).
              let after : Tables × Bool = (record t { indexes = rows }, false) in after)
            (on_row_same owner t.indexes c.row c.found))

module _ (resolve : Text → Option Text) where
  -- All that is stored for a list of references, in order.
  pub entries : List Text → List (Text × Text)
  unfolding entry
  entries [] = []
  entries (ref ∷ refs) = elim (entry resolve ref) [
    | none ↦ entries refs
    | some e ↦ e ∷ entries refs
  ]

  module _ (chunk_size owner source target : ℕ) where
    -- Whatever the size of a page, the mappings that a pair gets while its build is current are those
    -- that one insertion of all its entries would give; nothing else in the tables changes.
    pub write_refs-upsert_chunk :
        (refs : List Text) (chunk : List (Text × Text)) (t : Tables)
        → IsCurrent owner t
        → write_refs chunk_size owner source target resolve refs chunk t
          ≡ record t { mappings = upsert_chunk source target (chunk ++ entries refs) t.mappings }
    unfolding write_refs entries upsert_chunk
    write_refs-upsert_chunk [] [] t c = refl
    write_refs-upsert_chunk [] (e ∷ chunk) t c = rw append-nil
    write_refs-upsert_chunk (ref ∷ refs) chunk t c = elim (Option-cases (entry resolve ref)) [
      | inl n ↦ rw (n, write_refs, entries) (write_refs-upsert_chunk refs chunk t c)
      | inr (e, p) ↦
          let longer = chunk ++ (e ∷ []) in
          let written = write_chunk source target longer t in
          let current : IsCurrent owner written = record {
            row = c.row;
            found = c.found;
            at_work = c.at_work;
            free = c.free;
          } in
          let regroup : longer ++ entries refs ≡ chunk ++ (e ∷ entries refs) =
            append_assoc chunk (e ∷ []) (entries refs) in
          elim (Bool-cases (leb chunk_size (length longer))) [
            | inl full ↦
                rw (p, full, stop-current owner written current, write_refs, entries)
                  (write_refs-upsert_chunk refs [] written current
                    ∙ ap (λ (ms : List IndexMapping). record t { mappings = ms })
                        (sym (upsert_chunk-append source target longer (entries refs) t.mappings)
                          ∙ ap (λ (l : List (Text × Text)). upsert_chunk source target l t.mappings)
                              regroup))
            | inr room ↦
                rw (p, room, write_refs, entries)
                  (write_refs-upsert_chunk refs longer t c
                    ∙ ap
                        (λ (l : List (Text × Text)). record t {
                          mappings = upsert_chunk source target l t.mappings;
                        })
                        regroup)
          ]
    ]
