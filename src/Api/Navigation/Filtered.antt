-- ===== src/Api/Navigation/Filtered.antt =====
-- Both filters of the jump menu, one behind the other, against filters without caches.
use versification_tool.Prelude.{ℕ, ◌≡◌, refl, ap, ◌∙◌, Option, List}
use versification_tool.Prelude.Texts.{Text}
use versification_tool.Resolver.Types.{VerseId, Result, ok, raised, ◌>>=◌}
use versification_tool.Api.Jump.{Context, Memo, ProcessCache, no_memo}
use versification_tool.Api.Jump.Uncached.{IsTruthful, IsTruthfulProcess, no_memo-IsTruthful}
use versification_tool.Api.Jump.Filter.{visible, filter_canceling_jump_rows-visible}
use versification_tool.Api.Jump.Content.Filter.{reachable, filter_unreachable_jump_rows-reachable}
use versification_tool.Api.Navigation.{JumpMapping, jump_navigation_ref}
use versification_tool.Api.Navigation.Menu.{then_reached, scheme_diff_filtered_jump_mappings}

module _ (arrange : List VerseId → List VerseId) (chain_fuel fuel : ℕ) (c : Context)
    (books : Option (List Text)) where
  then_reached-reachable :
      (out : Result (List JumpMapping) × Memo × ProcessCache)
      → IsTruthful arrange chain_fuel fuel c out.1
      → IsTruthfulProcess arrange chain_fuel fuel c out.2
      → ((then_reached arrange chain_fuel fuel c books out).0
          ≡ (out.0 >>= reachable arrange chain_fuel fuel c jump_navigation_ref books))
        × IsTruthful arrange chain_fuel fuel c (then_reached arrange chain_fuel fuel c books out).1
        × IsTruthfulProcess arrange chain_fuel fuel c
            (then_reached arrange chain_fuel fuel c books out).2
  then_reached-reachable (raised e, m, p) x y = (refl, x, y)
  then_reached-reachable (ok rows, m, p) x y =
      let (same, kept) =
        filter_unreachable_jump_rows-reachable arrange chain_fuel fuel c jump_navigation_ref books
          rows m x in
      (same, kept, y)

  -- A new request whose process cache is truthful shows the rows that the two filters without
  -- caches leave, the one for cancelling rows first, in their order, and raises what these raise;
  -- the caches that it leaves are truthful.
  pub scheme_diff_filtered_jump_mappings-visible :
      (rows : List JumpMapping) (p : ProcessCache)
      → IsTruthfulProcess arrange chain_fuel fuel c p
      → ((scheme_diff_filtered_jump_mappings arrange chain_fuel fuel c books rows p).0 ≡ (
          visible arrange chain_fuel fuel c jump_navigation_ref rows
          >>= reachable arrange chain_fuel fuel c jump_navigation_ref books))
        × IsTruthful arrange chain_fuel fuel c
            (scheme_diff_filtered_jump_mappings arrange chain_fuel fuel c books rows p).1
        × IsTruthfulProcess arrange chain_fuel fuel c
            (scheme_diff_filtered_jump_mappings arrange chain_fuel fuel c books rows p).2
  unfolding scheme_diff_filtered_jump_mappings
  scheme_diff_filtered_jump_mappings-visible rows p y =
      let (same, x, z) =
        filter_canceling_jump_rows-visible arrange chain_fuel fuel c jump_navigation_ref rows
          no_memo p (no_memo-IsTruthful arrange chain_fuel fuel c) y in
      let (then_, after, last) = then_reached-reachable _ x z in
      (
        then_
            ∙ ap
                (λ (r : Result (List JumpMapping)).
                  r >>= reachable arrange chain_fuel fuel c jump_navigation_ref books)
                same,
        after,
        last,
      )
