-- ===== src/Api/Indexing/Sound.antt =====
-- What holds of the rows of frvt/api/indexing between two transactions, and the changes of one row.
use versification_tool.Prelude.{
  ℕ, ◌≡◌, refl, ap, sym, ◌⊎◌, inl, inr, true, false, Option, none, some, List, [], ◌∷◌, map,
  Bool-cases, some_inj,
}
use mathlib.Core.Path.{subst}
use versification_tool.Prelude.Equality.{nat_eq, pair_eq, ◌==◌}
use versification_tool.Prelude.Distinct.{IsDistinct}
use versification_tool.Prelude.Texts.{Text}
use versification_tool.Api.Schemes.{reply}
use versification_tool.Api.Indexing.Rows.{
  IndexStatus, status_beq, pending, building, ready, failed, cancelled, TranslationIndex, pair_of,
  find_row, on_row, ids,
}
use versification_tool.Api.Indexing.Registry.{requeued, cancel_row}
use versification_tool.Api.Indexing.Worker.{recovered, failed_row}
use versification_tool.Api.Indexing.Builder.{
  checked, finished, opened, without_scheme, finish_row, with_digest,
}

-- A row is flagged for a cancel only while it is built, or when its build failed. A pending row has a
-- reason. A row that is built has a start. A ready row has a digest, an end, no reason and no error.
pub record IsSoundRow (row : TranslationIndex) : Type 0 where
  pub flagged : row.cancel_requested ≡ true → (row.status ≡ building) ⊎ (row.status ≡ failed)
  pub reasoned : row.status ≡ pending → (reason : Text) × (row.pending_reason ≡ some reason)
  pub begun : row.status ≡ building → (start : ℕ) × (row.started_at ≡ some start)
  pub digested :
      row.status ≡ ready
      → (digest : Text) × (end : ℕ) × (row.content_fingerprint ≡ some digest)
        × (row.completed_at ≡ some end)
        × (row.pending_reason ≡ none)
        × (row.last_error ≡ none)

abbrev pub AllSound : List TranslationIndex → Type 0
AllSound [] = Unit {0}
AllSound (row ∷ rows) = IsSoundRow row × AllSound rows

-- No two rows have an id or a pair in common.
pub record IsSound (rows : List TranslationIndex) : Type 0 where
  pub distinct : IsDistinct (ids rows)
  pub unique : IsDistinct (map pair_of rows)
  pub sound : AllSound rows

pub requeued-IsSoundRow :
    (reason : Text) (now : ℕ) (row : TranslationIndex) → IsSoundRow (requeued reason now row)
requeued-IsSoundRow reason now row = record {
  flagged = λ e. cc;
  reasoned = λ e. (reason, refl);
  begun = λ e. cc;
  digested = λ e. cc;
}

pub recovered-IsSoundRow : (row : TranslationIndex) → IsSoundRow (recovered row)
recovered-IsSoundRow row = elim (Bool-cases row.cancel_requested) [
  | inl t ↦
      simp (t, recovered)
        (record { flagged = λ e. cc; reasoned = λ e. cc; begun = λ e. cc; digested = λ e. cc })
  | inr f ↦
      simp (f, recovered)
        (record {
          flagged = λ e. cc;
          reasoned = λ e. (_, refl);
          begun = λ e. cc;
          digested = λ e. cc;
        })
]

pub failed_row-IsSoundRow :
    (message : Text) (row : TranslationIndex) → IsSoundRow (failed_row message row)
failed_row-IsSoundRow message row = record {
  flagged = λ e. inr refl;
  reasoned = λ e. cc;
  begun = λ e. cc;
  digested = λ e. cc;
}

pub withdrawn-IsSoundRow :
    (row : TranslationIndex)
    → IsSoundRow (record row { status = cancelled; cancel_requested = false })
withdrawn-IsSoundRow row = record {
  flagged = λ e. cc;
  reasoned = λ e. cc;
  begun = λ e. cc;
  digested = λ e. cc;
}

pub opened-IsSoundRow :
    (total : ℕ) (row : TranslationIndex) → IsSoundRow row → IsSoundRow (opened total row)
opened-IsSoundRow total row h = record {
  flagged = h.flagged;
  reasoned = h.reasoned;
  begun = h.begun;
  digested = h.digested;
}

pub Status-cases :
    (s : IndexStatus)
    → (s ≡ pending) ⊎ (s ≡ building) ⊎ (s ≡ ready) ⊎ (s ≡ failed) ⊎ (s ≡ cancelled)
Status-cases pending = inl refl
Status-cases building = inr (inl refl)
Status-cases ready = inr (inr (inl refl))
Status-cases failed = inr (inr (inr (inl refl)))
Status-cases cancelled = inr (inr (inr (inr refl)))

pub building-cases : (s : IndexStatus) → (status_beq s building ≡ false) ⊎ (s ≡ building)
building-cases pending = inl refl
building-cases building = inr refl
building-cases ready = inl refl
building-cases failed = inl refl
building-cases cancelled = inl refl

reply_inj : {a b : TranslationIndex} → reply a ≡ reply b → a ≡ b
reply_inj e = cc

-- What a change of a row keeps.
pub record IsKept (row changed : TranslationIndex) : Type 0 where
  pub same_id : changed.id ≡ row.id
  pub same_pair : pair_of changed ≡ pair_of row
  pub sound : IsSoundRow changed

pub cancel_row-IsKept :
    (row changed : TranslationIndex)
    → IsSoundRow row
    → cancel_row row ≡ reply changed
    → IsKept row changed
cancel_row-IsKept row changed h e = elim (Status-cases row.status) [
  | inl p ↦
      let e' = reply_inj (rw (p, cancel_row) at e) in
      subst (IsKept row) e'
        (record { same_id = refl; same_pair = refl; sound = withdrawn-IsSoundRow row })
  | inr (inl p) ↦
      let e' = reply_inj (rw (p, cancel_row) at e) in
      let flagged_row : IsSoundRow (record row { cancel_requested = true }) = record {
        flagged = λ _. inl p;
        reasoned = h.reasoned;
        begun = h.begun;
        digested = h.digested;
      } in
      subst (IsKept row) e' (record { same_id = refl; same_pair = refl; sound = flagged_row })
  | inr (inr (inl p)) ↦ let e' = rw (p, cancel_row) at e in cc
  | inr (inr (inr (inl p))) ↦ let e' = rw (p, cancel_row) at e in cc
  | inr (inr (inr (inr p))) ↦ let e' = rw (p, cancel_row) at e in cc
]

pub checked-IsSoundRow : (row : TranslationIndex) → IsSoundRow row → IsSoundRow (checked row).0
checked-IsSoundRow row h = elim (building-cases row.status) [
  | inl other ↦ simp (other, checked) h
  | inr here ↦ elim (Bool-cases row.cancel_requested) [
    | inl t ↦ simp (here, t, checked) (withdrawn-IsSoundRow row)
    | inr f ↦ simp (here, f, checked) h
  ]
]

pub checked-IsKept : (row : TranslationIndex) → IsSoundRow row → IsKept row (checked row).0
checked-IsKept row h = elim (building-cases row.status) [
  | inl other ↦ simp (other, checked) (record { same_id = refl; same_pair = refl; sound = h })
  | inr here ↦ elim (Bool-cases row.cancel_requested) [
    | inl t ↦
        simp (here, t, checked)
          (record { same_id = refl; same_pair = refl; sound = withdrawn-IsSoundRow row })
    | inr f ↦ simp (here, f, checked) (record { same_id = refl; same_pair = refl; sound = h })
  ]
]

finished-IsSoundRow :
    (now : ℕ) (digest : Text) (row : TranslationIndex)
    → row.cancel_requested ≡ false
    → IsSoundRow (finished now digest row)
finished-IsSoundRow now digest row f = record {
  flagged = λ e. cc;
  reasoned = λ e. cc;
  begun = λ e. cc;
  digested = λ e. (digest, now, refl, refl, refl, refl);
}

pub finish_row-IsKept :
    (now : ℕ) (digest : Option Text) (row : TranslationIndex)
    → IsSoundRow row
    → IsKept row (finish_row now digest row).0
finish_row-IsKept now digest row h = elim (building-cases row.status) [
  | inl other ↦ simp (other, finish_row) (record { same_id = refl; same_pair = refl; sound = h })
  | inr here ↦ elim (Bool-cases row.cancel_requested) [
    | inl t ↦
        simp (here, t, finish_row)
          (record { same_id = refl; same_pair = refl; sound = withdrawn-IsSoundRow row })
    | inr f ↦ simp (here, f, finish_row) (of_digest digest f)
  ]
]
  where
    of_digest :
        (digest : Option Text)
        → row.cancel_requested ≡ false
        → IsKept row (with_digest now digest row).0
    of_digest none f = record { same_id = refl; same_pair = refl; sound = h }
    of_digest (some d) f = record {
      same_id = refl;
      same_pair = refl;
      sound = finished-IsSoundRow now d row f;
    }

pub without_scheme-IsKept :
    (row : TranslationIndex) → IsSoundRow row → IsKept row (without_scheme row)
without_scheme-IsKept row h = elim (building-cases row.status) [
  | inl other ↦
      simp (other, without_scheme) (record { same_id = refl; same_pair = refl; sound = h })
  | inr here ↦
      simp (here, without_scheme)
        (record { same_id = refl; same_pair = refl; sound = failed_row-IsSoundRow _ row })
]

-- A property of a mapped table that a change of one row keeps.
pub map-on_row {ℓ} :
    {K : Type ℓ} (key : TranslationIndex → K) (id : ℕ)
    (change : TranslationIndex → TranslationIndex) (rows : List TranslationIndex)
    → ((row : TranslationIndex) → find_row id rows ≡ some row → key (change row) ≡ key row)
    → map key (on_row id change rows) ≡ map key rows
unfolding on_row find_row
map-on_row key id change [] h = refl
map-on_row key id change (row ∷ rows) h = elim (Bool-cases (row.id == id)) [
  | inl t ↦ rw t (ap (λ k. k ∷ map key rows) (h row (rw (t, find_row) refl)))
  | inr f ↦
      rw f
        (ap (λ ks. key row ∷ ks) (map-on_row key id change rows (λ r e. h r (rw (f, find_row) e))))
]

pub AllSound-on_row :
    (id : ℕ) (change : TranslationIndex → TranslationIndex) (rows : List TranslationIndex)
    → ((row : TranslationIndex) → find_row id rows ≡ some row → IsSoundRow (change row))
    → AllSound rows
    → AllSound (on_row id change rows)
unfolding on_row find_row
AllSound-on_row id change [] h a = a
AllSound-on_row id change (row ∷ rows) h a = elim (Bool-cases (row.id == id)) [
  | inl t ↦ rw t (h row (rw (t, find_row) refl), a.1)
  | inr f ↦ rw f (a.0, AllSound-on_row id change rows (λ r e. h r (rw (f, find_row) e)) a.1)
]

pub find_row-IsSoundRow :
    (id : ℕ) (rows : List TranslationIndex) (row : TranslationIndex)
    → AllSound rows
    → find_row id rows ≡ some row
    → IsSoundRow row
unfolding find_row
find_row-IsSoundRow id [] row a e = cc
find_row-IsSoundRow id (r ∷ rows) row a e = elim (Bool-cases (r.id == id)) [
  | inl t ↦ subst IsSoundRow (some_inj (rw t at e)) a.0
  | inr f ↦ find_row-IsSoundRow id rows row a.1 (rw f at e)
]

-- A change of the found row that keeps its id, its pair and its soundness.
pub on_row-IsSound :
    (id : ℕ) (change : TranslationIndex → TranslationIndex) (rows : List TranslationIndex)
    → ((row : TranslationIndex)
        → find_row id rows ≡ some row
        → IsSoundRow row
        → IsKept row (change row))
    → IsSound rows
    → IsSound (on_row id change rows)
on_row-IsSound id change rows h s =
    let kept = λ (row : TranslationIndex) (e : find_row id rows ≡ some row).
      h row e (find_row-IsSoundRow id rows row s.sound e) in
    record {
      distinct =
          subst IsDistinct
            (sym (map-on_row (λ r. r.id) id change rows (λ row e. (kept row e).same_id)))
            s.distinct;
      unique =
          subst IsDistinct
            (sym (map-on_row pair_of id change rows (λ row e. (kept row e).same_pair))) s.unique;
      sound = AllSound-on_row id change rows (λ row e. (kept row e).sound) s.sound;
    }
