-- ===== src/Api/Navigation/Reciprocal.antt =====
-- The reciprocal rows of frvt/api/routers/navigation.py: each row of the loop keeps what holds between
-- its rows.
use versification_tool.Prelude.{
  ℕ, ◌≡◌, refl, sym, ap, ◌∙◌, inl, inr, true, false, Bool, ◌||◌, Option, none, some, List, [], ◌∷◌,
  ◌++◌, map, map-append, Bool-cases, arith,
}
use mathlib.Core.Path.{subst}
use mathlib.Core.List.{append-nil, append_assoc}
use versification_tool.Prelude.Equality.{nat_eq, pair_eq, option_eq, contains}
use versification_tool.Prelude.Distinct.{IsDistinct, IsDistinct-append_one}
use versification_tool.Prelude.Texts.{Text, text_eq, strip}
use versification_tool.Resolver.Types.{VerseId, Resolution, Result, ok, raised, ok_inj}
use versification_tool.Api.Jump.{
  Navigation, Context, Memo, ProcessCache, resolved_target_ref_for_jump,
}
use versification_tool.Api.Jump.Uncached.{
  cancels, resolved, IsTruthful, IsTruthfulProcess, resolve_navigation_dto-resolved,
}
use versification_tool.Api.Navigation.{JumpMapping, jump_navigation_ref}
use versification_tool.Api.Navigation.Menu.{
  key_of, has_join, Menu, composed_target, append_reciprocal, expose_dto, expose, expose_new,
  on_target, next_row, reciprocal_row, reciprocal_jump_mappings,
}
use versification_tool.Api.Navigation.Shown.{
  strands_any, AllShown, AllShown-append_one, IsListed, recached, composed_target-IsListed,
  IsChecked, is_hidden-IsChecked,
}

module _ (arrange : List VerseId → List VerseId) (chain_fuel fuel : ℕ) (c counterpart : Context)
    (books : Option (List Text)) where
  module _ (initial : List Navigation) where
    append_reciprocal-IsListed :
        (row : JumpMapping) (n : Navigation) (dto : Resolution) (base : Result (Option Text) × Memo)
        (s : Menu)
        → contains n s.existing_nav ≡ false
        → (cancels arrange chain_fuel fuel c n ≡ ok false)
          × (strands_any arrange chain_fuel fuel c books n ≡ ok false)
        → resolved arrange chain_fuel fuel c n ≡ ok (some dto)
        → IsTruthful arrange chain_fuel fuel c base.1
        → IsListed arrange chain_fuel fuel c books initial s
        → IsListed arrange chain_fuel fuel c books initial
            (append_reciprocal arrange chain_fuel fuel c counterpart books row n dto base s).1
    append_reciprocal-IsListed row n dto (raised e, m) s new checked found x h =
        recached arrange chain_fuel fuel c books initial s m _ s.process h x h.process_true
    append_reciprocal-IsListed row n dto (ok base, m) s new checked found x h = record {
      memo_true = x;
      process_true = h.process_true;
      listed =
          ap (λ (nav : List Navigation). nav ++ (n ∷ [])) h.listed
          ∙ append_assoc initial (map key_of s.reciprocals) (n ∷ [])
          ∙ ap (λ (nav : List Navigation). initial ++ nav)
              (sym (map-append key_of s.reciprocals _));
      distinct = IsDistinct-append_one n s.existing_nav new h.distinct;
      shown = AllShown-append_one arrange chain_fuel fuel c books s.reciprocals _ h.shown (record {
        stays = checked.0;
        reached = checked.1;
        dto = dto;
        found = found;
        related = refl;
      });
    }

    expose_dto-IsListed :
        (row : JumpMapping) (n : Navigation) (out : Result (Option Resolution) × Memo) (s : Menu)
        → contains n s.existing_nav ≡ false
        → (cancels arrange chain_fuel fuel c n ≡ ok false)
          × (strands_any arrange chain_fuel fuel c books n ≡ ok false)
        → out.0 ≡ resolved arrange chain_fuel fuel c n
        → IsTruthful arrange chain_fuel fuel c out.1
        → IsListed arrange chain_fuel fuel c books initial s
        → IsListed arrange chain_fuel fuel c books initial
            (expose_dto arrange chain_fuel fuel c counterpart books row n out s).1
    unfolding resolved_target_ref_for_jump
    expose_dto-IsListed row n (raised e, m) s new checked same x h =
        recached arrange chain_fuel fuel c books initial s m _ s.process h x h.process_true
    expose_dto-IsListed row n (ok none, m) s new checked same x h =
        recached arrange chain_fuel fuel c books initial s m _ s.process h x h.process_true
    expose_dto-IsListed row n (ok (some dto), m) s new checked same x h =
        append_reciprocal-IsListed row n dto _ s new checked (sym same)
          (resolve_navigation_dto-resolved arrange chain_fuel fuel c n m x).1 h

    expose-IsListed :
        (row : JumpMapping) (n : Navigation) (before : Menu) (out : Result Bool × Menu)
        → contains n before.existing_nav ≡ false
        → IsChecked arrange chain_fuel fuel c books initial n before out
        → IsListed arrange chain_fuel fuel c books initial
            (expose arrange chain_fuel fuel c counterpart books row n out).1
    expose-IsListed row n before (raised e, s) new h = h.kept
    expose-IsListed row n before (ok true, s) new h = h.kept
    expose-IsListed row n before (ok false, s) new h =
        let (same, x) =
          resolve_navigation_dto-resolved arrange chain_fuel fuel c n s.memo h.kept.memo_true in
        expose_dto-IsListed row n _ s (ap (λ (nav : List Navigation). contains n nav) h.same ∙ new)
          (h.passed refl) same x h.kept

    expose_new-IsListed :
        (row : JumpMapping) (target : Text) (s : Menu)
        → IsListed arrange chain_fuel fuel c books initial s
        → IsListed arrange chain_fuel fuel c books initial
            (expose_new arrange chain_fuel fuel c counterpart books row target s).1
    unfolding expose_new
    expose_new-IsListed row target s h =
        elim (Bool-cases (has_join target || contains (strip target, row.part) s.existing_nav)) [
          | inl t ↦ simp t h
          | inr f ↦
              let new : contains (strip target, row.part) s.existing_nav ≡ false =
                ground (arith, f) in
              simp f (
                expose-IsListed row (strip target, row.part) s _ new
                  (is_hidden-IsChecked arrange chain_fuel fuel c books initial counterpart
                    (strip target, row.part) s h))
        ]

    on_target-IsListed :
        (row : JumpMapping) (out : Result (Option Text) × Menu)
        → IsListed arrange chain_fuel fuel c books initial out.1
        → IsListed arrange chain_fuel fuel c books initial
            (on_target arrange chain_fuel fuel c counterpart books row out).1
    on_target-IsListed row (raised e, s) h = h
    on_target-IsListed row (ok none, s) h = h
    on_target-IsListed row (ok (some target), s) h = expose_new-IsListed row target s h

    next_row-eq-ok :
        (out : Result Bool × Menu) (rest : Result (List JumpMapping) × Menu)
        (found : List JumpMapping)
        → (next_row arrange chain_fuel fuel c counterpart books out rest).0 ≡ ok found
        → rest.0 ≡ ok found
    next_row-eq-ok (raised e, s) rest found h = cc
    next_row-eq-ok (ok added, s) rest found h = h

    rows-IsListed :
        (rows : List JumpMapping) (s : Menu)
        → IsListed arrange chain_fuel fuel c books initial s
        → (found : List JumpMapping)
        → (reciprocal_jump_mappings arrange chain_fuel fuel c counterpart books rows s).0 ≡ ok found
        → IsDistinct (initial ++ map key_of found) × AllShown arrange chain_fuel fuel c books found
    unfolding reciprocal_jump_mappings reciprocal_row
    rows-IsListed [] s h found e =
        subst
          (λ (rs : List JumpMapping).
            IsDistinct (initial ++ map key_of rs) × AllShown arrange chain_fuel fuel c books rs)
          (ok_inj e) (subst IsDistinct h.listed h.distinct, h.shown)
    rows-IsListed (row ∷ rows) s h found e =
        let kept =
          on_target-IsListed row
            (composed_target arrange chain_fuel fuel c counterpart books (jump_navigation_ref row)
              s)
            (composed_target-IsListed arrange chain_fuel fuel c books initial counterpart
              (jump_navigation_ref row) s h) in
        rows-IsListed rows _ kept found (next_row-eq-ok _ _ found e)

  -- From truthful caches, and rows whose navigations differ, a menu's rows and the reciprocal rows
  -- that are found lead to navigations that differ; each reciprocal row's navigation resolves with
  -- its relation, does not cancel, and is not hidden for the books that it leads to.
  pub reciprocal_jump_mappings-AllShown :
      (rows : List JumpMapping) (initial : List Navigation) (m k : Memo) (p : ProcessCache)
      (found : List JumpMapping)
      → IsTruthful arrange chain_fuel fuel c m
      → IsTruthfulProcess arrange chain_fuel fuel c p
      → IsDistinct initial
      → (reciprocal_jump_mappings arrange chain_fuel fuel c counterpart books rows (record {
        existing_nav = initial;
        memo = m;
        counterpart_memo = k;
        process = p;
        reciprocals = [];
      })).0
        ≡ ok found
      → IsDistinct (initial ++ map key_of found) × AllShown arrange chain_fuel fuel c books found
  reciprocal_jump_mappings-AllShown rows initial m k p found x y d e =
      rows-IsListed initial rows _
        (record {
          memo_true = x;
          process_true = y;
          listed = sym (append-nil initial);
          distinct = d;
          shown = tt;
        })
        found e
