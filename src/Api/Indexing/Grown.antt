-- ===== src/Api/Indexing/Grown.antt =====
-- The transactions of frvt/api/indexing that forget no index.
use versification_tool.Prelude.{
  ℕ, ◌≡◌, refl, ap, inl, inr, Bool, true, false, Option, none, some, [], ◌∷◌, map, Bool-cases,
  Option-cases,
}
use mathlib.Core.Path.{subst}
use versification_tool.Prelude.Equality.{nat_eq, pair_eq, contains}
use versification_tool.Prelude.Texts.{Text, text_eq, codes}
use versification_tool.Api.Schemes.{
  reply, Database, require_translation, selected_scheme_ref, batch_scheme_ref,
}
use versification_tool.Api.Indexing.Rows.{
  TranslationIndex, Tables, pair_of, find_row, delete_row, clashes, is_unique,
}
use versification_tool.Api.Indexing.Registry.{
  requeued, new_index, queue_reclaim, get_index, scheme_for, create_index, set_versification,
  delete_index, request_rebuild, request_cancel, cancel_row,
}
use versification_tool.Api.Indexing.Invalidation.{
  delete_rows, retarget_row, retarget_default_indexes,
}
use versification_tool.Api.Indexing.Worker.{claim_next, claim_row, next_pending}
use versification_tool.Api.Indexing.Builder.{stop_if_not_current, checked, finish, finish_row}
use versification_tool.Api.Indexing.Requests.{
  >>=-eq-reply, reply_inj, tables_eq, get_index→find_row, find_row-id, retargeted-AllSound,
}
use versification_tool.Api.Indexing.Sound.{
  IsSound, cancel_row-IsKept, checked-IsKept, finish_row-IsKept, find_row-IsSoundRow,
}
use versification_tool.Api.Indexing.Claim.{next_pending-IsFirst, find_row-member}
use versification_tool.Api.Indexing.Known.{
  Grows, same_ids-Grows, replace-Grows, delete_rows-Grows, append-Grows,
}

pub request_rebuild-Grows :
    (now id : ℕ) (t u : Tables) (row : TranslationIndex)
    → request_rebuild now id t ≡ reply (u, row)
    → Grows t u
unfolding request_rebuild
request_rebuild-Grows now id t u row e =
    let (r, got, rest) = >>=-eq-reply (get_index id t) _ e in
    subst (Grows t) (tables_eq rest) (
      replace-Grows id r (requeued (codes "manual rebuild") now r) t (get_index→find_row id t r got)
        refl)

pub request_cancel-Grows :
    (id : ℕ) (t u : Tables) (row : TranslationIndex)
    → IsSound t.indexes
    → request_cancel id t ≡ reply (u, row)
    → Grows t u
unfolding request_cancel
request_cancel-Grows id t u row s e =
    let (r, got, rest) = >>=-eq-reply (get_index id t) _ e in
    let (changed, done, last) = >>=-eq-reply (cancel_row r) _ rest in
    let found = get_index→find_row id t r got in
    let kept =
      cancel_row-IsKept r changed (find_row-IsSoundRow id t.indexes r s.sound found) done in
    subst (Grows t) (tables_eq last) (replace-Grows id r changed t found kept.same_id)

pub delete_index-Grows : (id : ℕ) (t u : Tables) → delete_index id t ≡ reply u → Grows t u
unfolding delete_index delete_rows
delete_index-Grows id t u e =
    let (r, got, rest) = >>=-eq-reply (get_index id t) _ e in
    let own : r.id ≡ id = find_row-id id t.indexes r (get_index→find_row id t r got) in
    subst (Grows t)
      (subst
        (λ (i : ℕ).
          record (queue_reclaim (i ∷ []) t) {
            indexes = delete_row id (queue_reclaim (i ∷ []) t).indexes;
          }
          ≡ u)
        own (reply_inj rest))
      (delete_rows-Grows (id ∷ []) t)

module _ {ℓ} {Translation : Type ℓ} (session : Database Translation) where
  pub create_index-Grows :
      (id now translation_id : ℕ) (scheme_id : Option ℕ) (t u : Tables) (row : TranslationIndex)
      → create_index session id now translation_id scheme_id t ≡ reply (u, row)
      → Grows t u
  unfolding create_index
  create_index-Grows id now translation_id scheme_id t u row e =
      let (_, _, e1) = >>=-eq-reply (require_translation session translation_id) _ e in
      let (picked, _, e2) = >>=-eq-reply (scheme_for session translation_id scheme_id) _ e1 in
      let new = new_index id now translation_id picked.0.scheme_id picked.1 in
      elim (Bool-cases (contains (pair_of new) (map pair_of t.indexes))) [
        | inl taken ↦ let e3 = rw taken at e2 in cc
        | inr free ↦ subst (Grows t) (tables_eq (rw free at e2)) (append-Grows t new)
      ]

  pub set_versification-Grows :
      (now id scheme_id : ℕ) (t u : Tables) (row : TranslationIndex)
      → set_versification session now id scheme_id t ≡ reply (u, row)
      → Grows t u
  unfolding set_versification
  set_versification-Grows now id scheme_id t u row e =
      let (r, got, e1) = >>=-eq-reply (get_index id t) _ e in
      let (scheme, _, e2) =
        >>=-eq-reply (selected_scheme_ref session r.translation_id (some scheme_id)) _ e1 in
      let changed = record (requeued (codes "versification changed") now r) {
        scheme_id = scheme.scheme_id;
        scheme_explicit = true;
      } in
      elim (Bool-cases (clashes r.id (pair_of changed) t.indexes)) [
        | inl taken ↦ let e3 = rw taken at e2 in cc
        | inr free ↦
            subst (Grows t) (tables_eq (rw free at e2))
              (replace-Grows id r changed t (get_index→find_row id t r got) refl)
      ]

  pub retarget-Grows :
      (translation_id now : ℕ) (t u : Tables) (changed : ℕ)
      → IsSound t.indexes
      → retarget_default_indexes session translation_id now t ≡ reply (u, changed)
      → Grows t u
  unfolding retarget_default_indexes
  retarget-Grows translation_id now t u changed s e =
      let (scheme, _, e1) = >>=-eq-reply (batch_scheme_ref session translation_id none) _ e in
      let rows = map (retarget_row translation_id scheme.scheme_id now t.indexes) t.indexes in
      let (_, same) =
        retargeted-AllSound translation_id scheme.scheme_id now t.indexes t.indexes s.sound in
      elim (Bool-cases (is_unique rows)) [
        | inr bad ↦ let e2 = rw bad at e1 in cc
        | inl good ↦
            subst (Grows t) (ap (λ (p : Tables × ℕ). p.0) (reply_inj (rw good at e1)))
              (same_ids-Grows t rows same)
      ]

pub check-Grows : (id : ℕ) (t : Tables) → IsSound t.indexes → Grows t (stop_if_not_current id t).0
unfolding stop_if_not_current
check-Grows id t s = elim (Option-cases (find_row id t.indexes)) [
  | inl gone ↦ rw (gone, stop_if_not_current) (same_ids-Grows t t.indexes refl)
  | inr (row, live) ↦
      rw (live, stop_if_not_current)
        (replace-Grows id row (checked row).0 t live
          (checked-IsKept row (find_row-IsSoundRow id t.indexes row s.sound live)).same_id)
]

pub close-Grows :
    (digest : TranslationIndex → Option Text) (now id : ℕ) (t : Tables)
    → IsSound t.indexes
    → Grows t (finish digest now id t).0
unfolding finish
close-Grows digest now id t s = elim (Option-cases (find_row id t.indexes)) [
  | inl gone ↦ rw (gone, finish) (same_ids-Grows t t.indexes refl)
  | inr (row, live) ↦
      rw (live, finish)
        (replace-Grows id row (finish_row now (digest row) row).0 t live
          (finish_row-IsKept now (digest row) row
            (find_row-IsSoundRow id t.indexes row s.sound live)).same_id)
]

pub claim-Grows : (now : ℕ) (t : Tables) → IsSound t.indexes → Grows t (claim_next now t).0
unfolding claim_next
claim-Grows now t s = elim (Option-cases (next_pending t.indexes)) [
  | inl none_waits ↦ rw (none_waits, claim_next) (same_ids-Grows t t.indexes refl)
  | inr (row, e) ↦
      let found =
        find_row-member t.indexes row s.distinct (next_pending-IsFirst t.indexes row e).member in
      rw (e, claim_next)
        (replace-Grows row.id row (claim_row now row.cancel_requested row).0 t found
          (claim_row-same now row.cancel_requested row))
]
  where
    claim_row-same :
        (now : ℕ) (flag : Bool) (row : TranslationIndex) → (claim_row now flag row).0.id ≡ row.id
    claim_row-same now true row = refl
    claim_row-same now false row = refl
