-- ===== src/Api/Indexing/Deleted.antt =====
-- What the deletion of a translation leaves of the tables of frvt/api/indexing.
use versification_tool.Prelude.{
  ℕ, ◌≡◌, inl, inr, true, Option, none, some, List, ◌++◌, ltb, Bool-cases, arith,
}
use mathlib.Core.Path.{subst}
use versification_tool.Prelude.Equality.{nat_eq, contains}
use versification_tool.Api.Schemes.{reply, Database, require_translation}
use versification_tool.Api.Indexing.Rows.{Tables, ids, selected}
use versification_tool.Api.Indexing.Invalidation.{of_scheme, drop_indexes_for_translation}
use versification_tool.Api.Indexing.Deletion.{cascade_scheme, drop_coupled, delete_translation}
use versification_tool.Api.Indexing.Sound.{IsSound}
use versification_tool.Api.Indexing.Requests.{
  >>=-eq-reply, reply_inj, delete_rows-IsSound, drop_rows-IsSound,
}
use versification_tool.Api.Indexing.Known.{accounted, contains-append, contains-ids-delete_rows}

cascade_scheme-IsSound :
    (scheme_id : ℕ) (t : Tables) → IsSound t.indexes → IsSound (cascade_scheme scheme_id t).indexes
unfolding cascade_scheme
cascade_scheme-IsSound scheme_id t s = delete_rows-IsSound _ t.indexes s

drop_coupled-IsSound :
    (coupled : Option ℕ) (t : Tables) → IsSound t.indexes → IsSound (drop_coupled coupled t).indexes
drop_coupled-IsSound none t s = s
drop_coupled-IsSound (some scheme_id) t s = cascade_scheme-IsSound scheme_id t s

-- What a deletion that is not refused leaves.
pub delete_translation-eq-reply {ℓ} :
    {Translation : Type ℓ} (session : Database Translation) (referenced : ℕ) (coupled : Option ℕ)
    (id : ℕ) (t u : Tables)
    → delete_translation session referenced coupled id t ≡ reply u
    → drop_coupled coupled (drop_indexes_for_translation id t).0 ≡ u
unfolding delete_translation
delete_translation-eq-reply session referenced coupled id t u e =
    let (row, got, rest) = >>=-eq-reply (require_translation session id) _ e in
    elim (Bool-cases (ltb 0 referenced)) [
      | inl r ↦ cc (rw r at rest)
      | inr f ↦ reply_inj (rw f at rest)
    ]

pub delete_translation-IsSound {ℓ} :
    {Translation : Type ℓ} (session : Database Translation) (referenced : ℕ) (coupled : Option ℕ)
    (id : ℕ) (t u : Tables)
    → delete_translation session referenced coupled id t ≡ reply u
    → IsSound t.indexes
    → IsSound u.indexes
unfolding drop_indexes_for_translation
delete_translation-IsSound session referenced coupled id t u e s =
    subst (λ (x : Tables). IsSound x.indexes)
      (delete_translation-eq-reply session referenced coupled id t u e)
      (drop_coupled-IsSound coupled _ (drop_rows-IsSound _ t s))

-- An index that a deleted scheme takes with it is lost; the others stay known.
pub cascade_scheme-accounted :
    (scheme_id : ℕ) (lost : List ℕ) (t : Tables) (i : ℕ)
    → accounted lost i t ≡ true
    → accounted
        (ids (selected (of_scheme scheme_id) t.indexes) ++ lost)
        i
        (cascade_scheme scheme_id t)
      ≡ true
unfolding cascade_scheme
cascade_scheme-accounted scheme_id lost t i h =
    let gone = ids (selected (of_scheme scheme_id) t.indexes) in
    let split = contains-append i gone lost in
    elim (Bool-cases (contains i gone)) [
      | inl y ↦ ground (arith, split, y)
      | inr n ↦ elim (Bool-cases (contains i (ids t.indexes))) [
        | inl here ↦
            let stays = contains-ids-delete_rows i gone t.indexes here n in ground (arith, stays)
        | inr there ↦ ground (arith, split, h, there)
      ]
    ]
