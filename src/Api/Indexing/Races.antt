-- ===== src/Api/Indexing/Races.antt =====
-- Requests of frvt/api/indexing that come while an index is built.
use versification_tool.Prelude.{
  ℕ, ◌≡◌, refl, ap, sym, ◌∙◌, inl, inr, Bool, true, false, Option, some, List, [], ◌∷◌, Bool-cases,
  some_inj, nat_beq_iff,
}
use mathlib.Core.Path.{subst}
use versification_tool.Prelude.Equality.{nat_eq, pair_eq, ◌==◌}
use versification_tool.Prelude.Texts.{Text, codes}
use versification_tool.Api.Schemes.{reply}
use versification_tool.Api.Indexing.Rows.{
  pending, building, cancelled, status_beq, TranslationIndex, Tables, find_row, on_row,
}
use versification_tool.Api.Indexing.Registry.{
  requeued, get_index, request_rebuild, request_cancel, cancel_row,
}
use versification_tool.Api.Indexing.Worker.{record_failure, failed_row}
use versification_tool.Api.Indexing.Builder.{stop_if_not_current, checked, finish, finish_row}
use versification_tool.Api.Indexing.Sound.{Status-cases}
use versification_tool.Api.Indexing.Requests.{
  >>=-eq-reply, reply_inj, tables_eq, get_index→find_row,
}

pub find_row-on_row :
    (id : ℕ) (change : TranslationIndex → TranslationIndex) (rows : List TranslationIndex)
    (row : TranslationIndex)
    → find_row id rows ≡ some row
    → (change row).id ≡ row.id
    → find_row id (on_row id change rows) ≡ some (change row)
unfolding find_row on_row
find_row-on_row id change [] row e k = cc
find_row-on_row id change (r ∷ rows) row e k = elim (Bool-cases (r.id == id)) [
  | inl t ↦
      let same : r ≡ row = some_inj (rw t at e) in
      let own : (change row).id ≡ id =
        k ∙ ap (λ (x : TranslationIndex). x.id) (sym same) ∙ (nat_beq_iff r.id id).0 t in
      let own' : ((change r).id == id) ≡ true =
        (nat_beq_iff (change r).id id).1
          (ap (λ (x : TranslationIndex). (change x).id) same ∙ own) in
      rw (t, own', find_row) (ap (λ (x : TranslationIndex). some (change x)) same)
  | inr f ↦ rw (f, f, find_row) (find_row-on_row id change rows row (rw f at e) k)
]

-- The table after a replaced row holds it.
find_row-replace :
    (id : ℕ) (t : Tables) (row changed : TranslationIndex)
    → find_row id t.indexes ≡ some row
    → changed.id ≡ row.id
    → find_row id (on_row id (λ _. changed) t.indexes) ≡ some changed
find_row-replace id t row changed found same =
    find_row-on_row id (λ _. changed) t.indexes row found same

requested_row :
    (now id : ℕ) (t u : Tables) (row : TranslationIndex)
    → request_rebuild now id t ≡ reply (u, row)
    → (find_row id u.indexes ≡ some row) × (row.status ≡ pending)
unfolding request_rebuild
requested_row now id t u row e =
    let (r, got, rest) = >>=-eq-reply (get_index id t) _ e in
    let found = get_index→find_row id t r got in
    let changed = requeued (codes "manual rebuild") now r in
    let there = find_row-replace id t r changed found refl in
    let same_tables = tables_eq rest in
    let same_row = ap (λ (p : Tables × TranslationIndex). p.1) (reply_inj rest) in
    (
      subst (λ (x : TranslationIndex). find_row id u.indexes ≡ some x) same_row
          (subst (λ (x : Tables). find_row id x.indexes ≡ some changed) same_tables there),
      subst (λ (x : TranslationIndex). x.status ≡ pending) same_row refl,
    )

-- A row that waits is not what a running build works on.
not_building :
    (row : TranslationIndex) → row.status ≡ pending → status_beq row.status building ≡ false
not_building row p = ap (λ s. status_beq s building) p

-- A rebuild that is requested during a build stops it at its next check and is still queued after its
-- end; but if the build raises, the row becomes failed, and the request is lost.
pub request_rebuild-race :
    (now id later : ℕ) (digest : TranslationIndex → Option Text) (message : Text) (t u : Tables)
    (row : TranslationIndex)
    → request_rebuild now id t ≡ reply (u, row)
    → (row.status ≡ pending)
      × ((stop_if_not_current id u).1 ≡ true)
      × (find_row id (finish digest later id u).0.indexes ≡ some row)
      × (find_row id (record_failure id message u).indexes ≡ some (failed_row message row))
unfolding stop_if_not_current finish record_failure
request_rebuild-race now id later digest message t u row e =
    let (found, waits) = requested_row now id t u row e in
    let apart = not_building row waits in
    (
      waits,
      rw (found, stop_if_not_current) (simp (apart, checked)),
      rw (found, finish) (simp (apart, finish_row) (find_row-replace id u row row found refl)),
      find_row-on_row id (failed_row message) u.indexes row found refl,
    )

-- What a cancel makes of a row.
record IsCancelled (row changed : TranslationIndex) : Type 0 where
  same_id : changed.id ≡ row.id
  flag : changed.status ≡ building → changed.cancel_requested ≡ true

cancel_row-IsCancelled :
    (row changed : TranslationIndex) → cancel_row row ≡ reply changed → IsCancelled row changed
cancel_row-IsCancelled row changed e = elim (Status-cases row.status) [
  | inl p ↦
      subst (IsCancelled row) (reply_inj (rw (p, cancel_row) at e))
        (record { same_id = refl; flag = λ q. cc })
  | inr (inl p) ↦
      subst (IsCancelled row) (reply_inj (rw (p, cancel_row) at e))
        (record { same_id = refl; flag = λ q. refl })
  | inr (inr (inl p)) ↦ let e' = rw (p, cancel_row) at e in cc
  | inr (inr (inr (inl p))) ↦ let e' = rw (p, cancel_row) at e in cc
  | inr (inr (inr (inr p))) ↦ let e' = rw (p, cancel_row) at e in cc
]

cancelled_row :
    (id : ℕ) (t u : Tables) (row : TranslationIndex)
    → request_cancel id t ≡ reply (u, row)
    → (find_row id u.indexes ≡ some row) × (row.status ≡ building → row.cancel_requested ≡ true)
unfolding request_cancel
cancelled_row id t u row e =
    let (r, got, rest) = >>=-eq-reply (get_index id t) _ e in
    let (changed, done, last) = >>=-eq-reply (cancel_row r) _ rest in
    let c = cancel_row-IsCancelled r changed done in
    let found = get_index→find_row id t r got in
    let there = find_row-replace id t r changed found c.same_id in
    let same_row : changed ≡ row = ap (λ (p : Tables × TranslationIndex). p.1) (reply_inj last) in
    (
      subst (λ (x : TranslationIndex). find_row id u.indexes ≡ some x) same_row
          (subst (λ (x : Tables). find_row id x.indexes ≡ some changed) (tables_eq last) there),
      subst (λ (x : TranslationIndex). x.status ≡ building → x.cancel_requested ≡ true) same_row
          c.flag,
    )

-- A cancel that is requested during a build leaves it to the build's next check, or to its end:
-- either makes the row cancelled, and neither lets it become ready.
pub request_cancel-race :
    (id later : ℕ) (digest : TranslationIndex → Option Text) (t u : Tables) (row : TranslationIndex)
    → request_cancel id t ≡ reply (u, row)
    → row.status ≡ building
    → let ended = record row { status = cancelled; cancel_requested = false } in
      ((stop_if_not_current id u).1 ≡ true)
      × (find_row id (stop_if_not_current id u).0.indexes ≡ some ended)
      × (find_row id (finish digest later id u).0.indexes ≡ some ended)
unfolding stop_if_not_current finish request_cancel
request_cancel-race id later digest t u row e p =
    let (found, flag_of) = cancelled_row id t u row e in
    let flag = flag_of p in
    let here : status_beq row.status building ≡ true = ap (λ s. status_beq s building) p in
    let ended = record row { status = cancelled; cancel_requested = false } in
    let stopped : checked row ≡ (ended, true) = simp (here, flag, checked) refl in
    let closed : (finish_row later (digest row) row).0 ≡ ended =
      simp (here, flag, finish_row) refl in
    (
      rw (found, stop_if_not_current) (ap (λ (x : TranslationIndex × Bool). x.1) stopped),
      rw (found, stop_if_not_current)
          (find_row-replace id u row (checked row).0 found
              (ap (λ (x : TranslationIndex × Bool). x.0.id) stopped)
            ∙ ap (λ (x : TranslationIndex × Bool). some x.0) stopped),
      rw (found, finish)
          (find_row-replace id u row (finish_row later (digest row) row).0 found
              (ap (λ (x : TranslationIndex). x.id) closed)
            ∙ ap some closed),
    )
