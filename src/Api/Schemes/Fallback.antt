-- ===== src/Api/Schemes/Fallback.antt =====
-- `batch_scheme_ref` and `selected_scheme_ref` of frvt/api/scheme_select.py.
use versification_tool.Prelude.{ℕ, ◌≡◌, refl, ◌⊎◌, inl, inr, Option, none, some, Option-cases}
use versification_tool.Api.Schemes.{
  refused, Database, preferred_association, selected_scheme_ref, org_scheme_ref, batch_scheme_ref,
}

module _ {ℓ} {Translation : Type ℓ} (session : Database Translation) where
  -- A batch selects the scheme that a single request selects; only where there is no override and the
  -- translation prefers no scheme, the single request is refused with 409 and the batch gets `org`.
  pub batch_scheme_ref-selected_scheme_ref :
      (translation_id : ℕ) (override : Option ℕ)
      → (batch_scheme_ref session translation_id override
          ≡ selected_scheme_ref session translation_id override)
        ⊎ ((override ≡ none)
            × (preferred_association session translation_id ≡ none)
            × (selected_scheme_ref session translation_id override ≡ refused 409)
            × (batch_scheme_ref session translation_id override ≡ org_scheme_ref session))
  unfolding batch_scheme_ref selected_scheme_ref
  batch_scheme_ref-selected_scheme_ref t (some s) = inl refl
  batch_scheme_ref-selected_scheme_ref t none =
      elim (Option-cases (preferred_association session t)) [
        | inl n ↦ inr (refl, n, rw (n, selected_scheme_ref), rw (n, batch_scheme_ref))
        | inr (s, e) ↦ inl (rw (e, batch_scheme_ref, selected_scheme_ref))
      ]
