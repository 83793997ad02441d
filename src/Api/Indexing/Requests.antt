-- ===== src/Api/Indexing/Requests.antt =====
-- The requests of frvt/api/indexing, one row or table at a time.
use versification_tool.Prelude.{
  ℕ, ◌≡◌, refl, ap, sym, ◌∙◌, inl, inr, Bool, true, false, Option, none, some, List, [], ◌∷◌, ◌++◌,
  map, Bool-cases, Option-cases, arith, some_inj, nat_beq_iff,
}
use mathlib.Core.Path.{ap₂, subst}
use versification_tool.Prelude.Equality.{nat_eq, pair_eq, ◌==◌, contains}
use versification_tool.Prelude.Distinct.{IsDistinct}
use versification_tool.Prelude.Texts.{Text, codes}
use versification_tool.Api.Schemes.{
  Reply, reply, refused, Database, require_translation, selected_scheme_ref, batch_scheme_ref,
}
use versification_tool.Api.Indexing.Rows.{
  TranslationIndex, Tables, pair_of, find_row, on_row, delete_row, clashes, ids, is_unique,
  selected,
}
use versification_tool.Api.Indexing.Registry.{
  ◌>>=◌, requeued, new_index, queue_reclaim, get_index, scheme_for, create_index, set_versification,
  delete_index, request_rebuild, request_cancel, cancel_row,
}
use versification_tool.Api.Indexing.Invalidation.{
  requeue, delete_rows, drop_rows, retarget_row, to_move, moved, noted, retarget_default_indexes,
}
use versification_tool.Api.Indexing.Sound.{
  IsSoundRow, AllSound, IsSound, IsKept, requeued-IsSoundRow, cancel_row-IsKept, on_row-IsSound,
  find_row-IsSoundRow, map-on_row, AllSound-on_row,
}
use versification_tool.Api.Indexing.Changes.{
  on_rows-IsSound, delete_row-IsSound, append-IsSound, IsDistinct-pair-on_row,
}

-- What a bind that replies has replied before.
pub >>=-eq-reply {ℓ κ} :
    {A : Type ℓ} {B : Type κ} (m : Reply A) (f : A → Reply B) {b : B}
    → (m >>= f) ≡ reply b
    → (a : A) × (m ≡ reply a) × (f a ≡ reply b)
>>=-eq-reply (reply a) f e = (a, refl, e)
>>=-eq-reply (refused status) f e = cc

pub reply_inj {ℓ} : {A : Type ℓ} {a b : A} → reply a ≡ reply b → a ≡ b
reply_inj e = cc

-- The tables of a reply.
pub tables_eq :
    {t u : Tables} {r s : TranslationIndex}
    → ◌≡◌ {A = Reply (Tables × TranslationIndex)} (reply (t, r)) (reply (u, s))
    → t ≡ u
tables_eq e = ap (λ (p : Tables × TranslationIndex). p.0) (reply_inj e)

pub get_index→find_row :
    (id : ℕ) (t : Tables) (row : TranslationIndex)
    → get_index id t ≡ reply row
    → find_row id t.indexes ≡ some row
unfolding get_index
get_index→find_row id t row e = elim (Option-cases (find_row id t.indexes)) [
  | inl n ↦ let e' = rw (n, get_index) at e in cc
  | inr (r, s) ↦ let e' = reply_inj (rw (s, get_index) at e) in s ∙ ap some e'
]

pub find_row-id :
    (id : ℕ) (rows : List TranslationIndex) (row : TranslationIndex)
    → find_row id rows ≡ some row
    → row.id ≡ id
unfolding find_row
find_row-id id [] row e = cc
find_row-id id (r ∷ rows) row e = elim (Bool-cases (r.id == id)) [
  | inl t ↦
      subst (λ (x : TranslationIndex). x.id ≡ id) (some_inj (rw t at e)) ((nat_beq_iff r.id id).0 t)
  | inr f ↦ find_row-id id rows row (rw f at e)
]

-- A found row that is replaced by one which keeps its id, pair and soundness.
pub replace-IsSound :
    (id : ℕ) (row changed : TranslationIndex) (rows : List TranslationIndex)
    → find_row id rows ≡ some row
    → IsKept row changed
    → IsSound rows
    → IsSound (on_row id (λ _. changed) rows)
replace-IsSound id row changed rows found kept s =
    on_row-IsSound id (λ _. changed) rows
      (λ r e h. subst (λ (x : TranslationIndex). IsKept x changed) (some_inj (sym found ∙ e)) kept)
      s

pub request_rebuild-IsSound :
    (now id : ℕ) (t u : Tables) (row : TranslationIndex)
    → request_rebuild now id t ≡ reply (u, row)
    → IsSound t.indexes
    → IsSound u.indexes
unfolding request_rebuild
request_rebuild-IsSound now id t u row e s =
    let (r, got, rest) = >>=-eq-reply (get_index id t) _ e in
    subst (λ (x : Tables). IsSound x.indexes) (tables_eq rest)
      (replace-IsSound id r (requeued (codes "manual rebuild") now r) t.indexes
        (get_index→find_row id t r got)
        (record { same_id = refl; same_pair = refl; sound = requeued-IsSoundRow _ now r }) s)

pub request_cancel-IsSound :
    (id : ℕ) (t u : Tables) (row : TranslationIndex)
    → request_cancel id t ≡ reply (u, row)
    → IsSound t.indexes
    → IsSound u.indexes
unfolding request_cancel
request_cancel-IsSound id t u row e s =
    let (r, got, rest) = >>=-eq-reply (get_index id t) _ e in
    let (changed, done, last) = >>=-eq-reply (cancel_row r) _ rest in
    let found = get_index→find_row id t r got in
    subst (λ (x : Tables). IsSound x.indexes) (tables_eq last)
      (replace-IsSound id r changed t.indexes found
        (cancel_row-IsKept r changed (find_row-IsSoundRow id t.indexes r s.sound found) done) s)

pub queue_reclaim-indexes : (l : List ℕ) (t : Tables) → (queue_reclaim l t).indexes ≡ t.indexes
unfolding queue_reclaim
queue_reclaim-indexes [] t = refl
queue_reclaim-indexes (id ∷ l) t = elim (Bool-cases (contains id t.reclaim)) [
  | inl y ↦ rw (y, queue_reclaim) (queue_reclaim-indexes l t)
  | inr n ↦
      rw (n, queue_reclaim)
        (queue_reclaim-indexes l (record t { reclaim = t.reclaim ++ (id ∷ []) }))
]

pub delete_index-IsSound :
    (id : ℕ) (t u : Tables) → delete_index id t ≡ reply u → IsSound t.indexes → IsSound u.indexes
unfolding delete_index
delete_index-IsSound id t u e s =
    let (r, got, rest) = >>=-eq-reply (get_index id t) _ e in
    let same = queue_reclaim-indexes (r.id ∷ []) t in
    subst (λ (x : Tables). IsSound x.indexes) (reply_inj rest)
      (delete_row-IsSound id _ (subst IsSound (sym same) s))

pub delete_rows-IsSound :
    (l : List ℕ) (rows : List TranslationIndex) → IsSound rows → IsSound (delete_rows l rows)
unfolding delete_rows
delete_rows-IsSound [] rows s = s
delete_rows-IsSound (id ∷ l) rows s =
    delete_rows-IsSound l (delete_row id rows) (delete_row-IsSound id rows s)

pub drop_rows-IsSound :
    (selects : TranslationIndex → Bool) (t : Tables)
    → IsSound t.indexes
    → IsSound (drop_rows selects t).0.indexes
unfolding drop_rows
drop_rows-IsSound selects t s =
    let dropped = ids (selected selects t.indexes) in
    delete_rows-IsSound dropped (queue_reclaim dropped t).indexes
      (subst IsSound (sym (queue_reclaim-indexes dropped t)) s)

pub requeue-IsSound :
    (selects : TranslationIndex → Bool) (reason : Text) (now : ℕ) (t : Tables)
    → IsSound t.indexes
    → IsSound (requeue selects reason now t).0.indexes
unfolding requeue
requeue-IsSound selects reason now t s =
    on_rows-IsSound selects (requeued reason now) t.indexes
      (λ row h. requeued-IsSoundRow reason now row) (λ row. refl) (λ row. refl) s

-- What the loop of `retarget_default_indexes` makes of a row is sound and keeps the id.
pub retarget_row-kept :
    (tr sc now : ℕ) (all : List TranslationIndex) (row : TranslationIndex)
    → IsSoundRow row
    → IsSoundRow (retarget_row tr sc now all row) × ((retarget_row tr sc now all row).id ≡ row.id)
unfolding retarget_row
retarget_row-kept tr sc now all row h = elim (Bool-cases (to_move tr sc row)) [
  | inr stays ↦ rw (stays, retarget_row) (h, refl)
  | inl moves ↦ elim (Bool-cases (clashes row.id (tr, sc) all)) [
    | inl taken ↦
        let kept : IsSoundRow (noted row) = record {
          flagged = h.flagged;
          reasoned = h.reasoned;
          begun = h.begun;
          digested = h.digested;
        } in
        rw (moves, taken, retarget_row) (kept, refl)
    | inr free ↦
        let kept : IsSoundRow (moved sc now row) = record {
          flagged = λ q. cc;
          reasoned = λ q. (_, refl);
          begun = λ q. cc;
          digested = λ q. cc;
        } in
        rw (moves, free, retarget_row) (kept, refl)
  ]
]

pub retargeted-AllSound :
    (tr sc now : ℕ) (all rows : List TranslationIndex)
    → AllSound rows
    → AllSound (map (retarget_row tr sc now all) rows)
      × (ids (map (retarget_row tr sc now all) rows) ≡ ids rows)
retargeted-AllSound tr sc now all [] a = (tt, refl)
retargeted-AllSound tr sc now all (row ∷ rows) a =
    let (kept, same) = retarget_row-kept tr sc now all row a.0 in
    let (rest, others) = retargeted-AllSound tr sc now all rows a.1 in
    ((kept, rest), ap₂ (λ (i : ℕ) is. i ∷ is) same others)

pub is_unique→IsDistinct :
    (rows : List TranslationIndex) → is_unique rows ≡ true → IsDistinct (map pair_of rows)
unfolding is_unique
is_unique→IsDistinct [] e = tt
is_unique→IsDistinct (row ∷ rows) e =
    (ground (arith, e), is_unique→IsDistinct rows (ground (arith, e)))

module _ {ℓ} {Translation : Type ℓ} (session : Database Translation) where
  pub create_index-IsSound :
      (id now translation_id : ℕ) (scheme_id : Option ℕ) (t u : Tables) (row : TranslationIndex)
      → contains id (ids t.indexes) ≡ false
      → create_index session id now translation_id scheme_id t ≡ reply (u, row)
      → IsSound t.indexes
      → IsSound u.indexes
  unfolding create_index
  create_index-IsSound id now translation_id scheme_id t u row fresh e s =
      let (_, _, e1) = >>=-eq-reply (require_translation session translation_id) _ e in
      let (picked, _, e2) = >>=-eq-reply (scheme_for session translation_id scheme_id) _ e1 in
      let new = new_index id now translation_id picked.0.scheme_id picked.1 in
      let new_sound : IsSoundRow new = record {
        flagged = λ q. cc;
        reasoned = λ q. (_, refl);
        begun = λ q. cc;
        digested = λ q. cc;
      } in
      elim (Bool-cases (contains (pair_of new) (map pair_of t.indexes))) [
        | inl taken ↦ let e3 = rw taken at e2 in cc
        | inr free ↦
            subst (λ (x : Tables). IsSound x.indexes) (tables_eq (rw free at e2))
              (append-IsSound t.indexes new fresh free new_sound s)
      ]

  pub set_versification-IsSound :
      (now id scheme_id : ℕ) (t u : Tables) (row : TranslationIndex)
      → set_versification session now id scheme_id t ≡ reply (u, row)
      → IsSound t.indexes
      → IsSound u.indexes
  unfolding set_versification
  set_versification-IsSound now id scheme_id t u row e s =
      let (r, got, e1) = >>=-eq-reply (get_index id t) _ e in
      let (scheme, _, e2) =
        >>=-eq-reply (selected_scheme_ref session r.translation_id (some scheme_id)) _ e1 in
      let found = get_index→find_row id t r got in
      let changed = record (requeued (codes "versification changed") now r) {
        scheme_id = scheme.scheme_id;
        scheme_explicit = true;
      } in
      elim (Bool-cases (clashes r.id (pair_of changed) t.indexes)) [
        | inl taken ↦ let e3 = rw taken at e2 in cc
        | inr free ↦
            let own : r.id ≡ id = find_row-id id t.indexes r found in
            let apart = subst (λ (i : ℕ). clashes i (pair_of changed) t.indexes ≡ false) own free in
            let same_id = λ (x : TranslationIndex) (q : find_row id t.indexes ≡ some x).
              ap (λ (y : TranslationIndex). y.id) (some_inj (sym found ∙ q)) in
            let after : IsSound (on_row id (λ _. changed) t.indexes) = record {
              distinct =
                  subst IsDistinct
                    (sym (map-on_row (λ x. x.id) id (λ _. changed) t.indexes same_id)) s.distinct;
              unique = IsDistinct-pair-on_row id changed t.indexes s.distinct s.unique apart;
              sound =
                  AllSound-on_row id (λ _. changed) t.indexes
                    (λ x q. record {
                      flagged = λ q. cc;
                      reasoned = λ q. (_, refl);
                      begun = λ q. cc;
                      digested = λ q. cc;
                    })
                    s.sound;
            } in
            subst (λ (x : Tables). IsSound x.indexes) (tables_eq (rw free at e2)) after
      ]

  pub retarget-IsSound :
      (translation_id now : ℕ) (t u : Tables) (changed : ℕ)
      → retarget_default_indexes session translation_id now t ≡ reply (u, changed)
      → IsSound t.indexes
      → IsSound u.indexes
  unfolding retarget_default_indexes
  retarget-IsSound translation_id now t u changed e s =
      let (scheme, _, e1) = >>=-eq-reply (batch_scheme_ref session translation_id none) _ e in
      let rows = map (retarget_row translation_id scheme.scheme_id now t.indexes) t.indexes in
      let (kept, same) =
        retargeted-AllSound translation_id scheme.scheme_id now t.indexes t.indexes s.sound in
      elim (Bool-cases (is_unique rows)) [
        | inr bad ↦ let e2 = rw bad at e1 in cc
        | inl good ↦
            let after : IsSound rows = record {
              distinct = subst IsDistinct (sym same) s.distinct;
              unique = is_unique→IsDistinct rows good;
              sound = kept;
            } in
            subst (λ (x : Tables). IsSound x.indexes)
              (ap (λ (p : Tables × ℕ). p.0) (reply_inj (rw good at e1))) after
      ]
