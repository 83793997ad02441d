-- ===== src/Api/Jump/Agree.antt =====
-- A navigation of frvt/api/jump_cancel.py and `resolve` of frvt/resolver/resolve.py, which reads the
-- reference before the chains and not behind them.
use versification_tool.Prelude.{ℕ, ◌≡◌, sym, ◌∙◌, ◌↔◌, inl, inr, Option, some, List, Bool-cases}
use versification_tool.Prelude.Texts.{Text}
use versification_tool.Resolver.Types.{
  VerseId, Resolution, Result, ok, raised, Raised, Result-cases, >>=-eq-ok,
}
use versification_tool.Resolver.Reference.{parse_ref}
use versification_tool.Resolver.Chains.{build_chain, nearest_shared_translation}
use versification_tool.Resolver.Assemble.{select_scheme, resolve}
use versification_tool.Api.Jump.{
  Context, Memo, load_path, assemble_navigation, fail_open, is_caught, resolve_navigation_dto,
}
use versification_tool.Api.Jump.Uncached.{
  navigate, resolved, IsTruthful, resolve_navigation_dto-resolved,
}

fail_open_iff : (m : Result Resolution) (r : Resolution) → (fail_open m ≡ ok (some r)) ↔ (m ≡ ok r)
unfolding fail_open
fail_open_iff (ok d) r = (λ h. cc, λ h. cc)
fail_open_iff (raised e) r = elim (Bool-cases (is_caught e)) [
  | inl t ↦ (λ h. cc (rw t at h), λ h. cc)
  | inr f ↦ (λ h. cc (rw f at h), λ h. cc)
]

module _ (arrange : List VerseId → List VerseId) (chain_fuel fuel : ℕ) (c : Context) where
  -- `resolve` with the schemes and translations of the context
  abbrev resolve_in : Text → Option Text → Result Resolution
  resolve_in navigation_ref part =
      resolve c.session arrange chain_fuel fuel navigation_ref (some c.source_scheme)
        (some c.target_scheme) (some c.from_translation) (some c.to_translation) part

  -- A reference that is not read resolves to nothing on either route.
  assemble_navigation-returns :
      (navigation_ref : Text) (part : Option Text) (r : Resolution) {x : Raised}
      → parse_ref navigation_ref ≡ raised x
      → ¬ (navigate arrange chain_fuel fuel c (navigation_ref, part) ≡ ok r)
  unfolding navigate assemble_navigation
  assemble_navigation-returns navigation_ref part r e h =
      let (path, loaded, out) =
        >>=-eq-ok (load_path chain_fuel c) (assemble_navigation arrange fuel (navigation_ref, part))
          h in
      cc (simp e at out)

  navigate_iff :
      (navigation_ref : Text) (part : Option Text) (r : Resolution)
      → (navigate arrange chain_fuel fuel c (navigation_ref, part) ≡ ok r)
        ↔ (resolve_in navigation_ref part ≡ ok r)
  unfolding navigate load_path assemble_navigation resolve select_scheme
  navigate_iff navigation_ref part r = elim (Result-cases (parse_ref navigation_ref)) [
    | inr (x, e) ↦ (
      λ h. elim (assemble_navigation-returns navigation_ref part r e h) [ ],
      λ h. cc (simp e at h),
    )
    | inl (parsed, e) ↦ elim (Result-cases (build_chain c.session chain_fuel c.source_scheme)) [
      | inr (x, f) ↦ simp (e, f) ((λ h. h), (λ h. h))
      | inl (src, f) ↦ elim (Result-cases (build_chain c.session chain_fuel c.target_scheme)) [
        | inr (x, g) ↦ simp (e, f, g) ((λ h. h), (λ h. h))
        | inl (tgt, g) ↦ elim (Result-cases (nearest_shared_translation c.session src tgt)) [
          | inr (x, i) ↦ simp (e, f, g, i) ((λ h. h), (λ h. h))
          | inl (a, i) ↦ simp (e, f, g, i) ((λ h. h), (λ h. h))
        ]
      ]
    ]
  ]

  -- From truthful caches a navigation gives a result exactly if `resolve` returns it for the schemes
  -- and translations of the request.
  pub resolve_navigation_dto-resolve :
      (navigation_ref : Text) (part : Option Text) (m : Memo) (r : Resolution)
      → IsTruthful arrange chain_fuel fuel c m
      → ((resolve_navigation_dto arrange chain_fuel fuel c (navigation_ref, part) m).0
          ≡ ok (some r))
        ↔ (resolve c.session arrange chain_fuel fuel navigation_ref
              (some c.source_scheme)
              (some c.target_scheme)
              (some c.from_translation)
              (some c.to_translation)
              part
            ≡ ok r)
  unfolding resolved
  resolve_navigation_dto-resolve navigation_ref part m r h =
      let same =
        (resolve_navigation_dto-resolved arrange chain_fuel fuel c (navigation_ref, part) m h).0 in
      let opened = fail_open_iff (navigate arrange chain_fuel fuel c (navigation_ref, part)) r in
      let routes = navigate_iff navigation_ref part r in
      (λ k. routes.0 (opened.0 (sym same ∙ k)), λ k. same ∙ opened.1 (routes.1 k))
