-- ===== src/Api/Jump/Content/Filter.antt =====
-- The filter of frvt/api/jump_target_content.py against one without caches.
use versification_tool.Prelude.{
  ℕ, ◌≡◌, refl, ap, ◌∙◌, Bool, Option, none, some, List, [], ◌∷◌, if◌then◌else◌,
}
use versification_tool.Prelude.Texts.{Text}
use versification_tool.Resolver.Types.{VerseId, Resolution, Result, ok, raised, ◌>>=◌}
use versification_tool.Api.Jump.{Navigation, Context, Memo}
use versification_tool.Api.Jump.Uncached.{resolved, IsTruthful, resolve_navigation_dto-resolved}
use versification_tool.Api.Jump.Content.{
  unreachable_dto, keep_reached, is_unreachable_jump_entry, is_unreachable_row, reached_rows,
  filter_unreachable_jump_rows,
}

module _ (arrange : List VerseId → List VerseId) (chain_fuel fuel : ℕ) (c : Context) where
  -- Whether a navigation leads to none of the books.
  unfoldable pub strands : List Text → Navigation → Result Bool
  strands books n = resolved arrange chain_fuel fuel c n >>= λ d. ok (unreachable_dto books d)

  is_unreachable_row-strands :
      (n : Result Navigation) (books : List Text) (m : Memo)
      → IsTruthful arrange chain_fuel fuel c m
      → ((is_unreachable_row arrange chain_fuel fuel c n books m).0 ≡ (n >>= strands books))
        × IsTruthful arrange chain_fuel fuel c
            (is_unreachable_row arrange chain_fuel fuel c n books m).1
  unfolding is_unreachable_jump_entry strands
  is_unreachable_row-strands (raised e) books m h = (refl, h)
  is_unreachable_row-strands (ok n) books m h =
      let (same, kept) = resolve_navigation_dto-resolved arrange chain_fuel fuel c n m h in
      (ap (λ (r : Result (Option Resolution)). r >>= λ d. ok (unreachable_dto books d)) same, kept)

  -- The rows that lead to one of the books, or are not filtered, in their order.
  unfoldable pub reachable {ℓ} :
      {Row : Type ℓ} → (Row → Result Navigation) → Option (List Text) → List Row → Result (List Row)
  reachable navigation_for_row none rows = ok rows
  reachable navigation_for_row (some books) [] = ok []
  reachable navigation_for_row (some books) (row ∷ rows) =
      (navigation_for_row row >>= strands books) >>= λ b.
      reachable navigation_for_row (some books) rows >>= λ kept. ok (if b then kept else row ∷ kept)

  module _ {ℓ} {Row : Type ℓ} (navigation_for_row : Row → Result Navigation) where
    -- What a filter may leave.
    abbrev Reaches : Result (List Row) → Result (List Row) × Memo → Type ℓ
    Reaches expected out = (out.0 ≡ expected) × IsTruthful arrange chain_fuel fuel c out.1

    keep_reached-reachable :
        (row : Row) (answer : Result Bool × Memo) (out : Result (List Row) × Memo)
        (expected : Result (List Row))
        → IsTruthful arrange chain_fuel fuel c answer.1
        → Reaches expected out
        → Reaches
            (answer.0 >>= λ b. expected >>= λ kept. ok (if b then kept else row ∷ kept))
            (keep_reached row answer out)
    keep_reached-reachable row (raised e, m) out expected h after = (refl, h)
    keep_reached-reachable row (ok b, m) (rest, m2) expected h (same, h2) =
        (ap (λ (r : Result (List Row)). r >>= λ kept. ok (if b then kept else row ∷ kept)) same, h2)

    reached_rows-reachable :
        (books : List Text) (rows : List Row) (m : Memo)
        → IsTruthful arrange chain_fuel fuel c m
        → Reaches
            (reachable navigation_for_row (some books) rows)
            (reached_rows arrange chain_fuel fuel c navigation_for_row books rows m)
    unfolding reached_rows reachable
    reached_rows-reachable books [] m h = (refl, h)
    reached_rows-reachable books (row ∷ rows) m h =
        let (same, kept) = is_unreachable_row-strands (navigation_for_row row) books m h in
        let (all, after) =
          keep_reached-reachable row _ _ _ kept (reached_rows-reachable books rows _ kept) in
        (
          all
              ∙ ap
                  (λ (r : Result Bool). r >>= λ b.
                    reachable navigation_for_row (some books) rows >>= λ kept.
                    ok (if b then kept else row ∷ kept))
                  same,
          after,
        )

    -- From truthful caches the filter keeps the rows that lead to one of the books, or all where
    -- nothing is filtered, and the caches stay truthful.
    pub filter_unreachable_jump_rows-reachable :
        (books : Option (List Text)) (rows : List Row) (m : Memo)
        → IsTruthful arrange chain_fuel fuel c m
        → ((filter_unreachable_jump_rows arrange chain_fuel fuel c navigation_for_row books rows
              m).0
            ≡ reachable navigation_for_row books rows)
          × IsTruthful arrange chain_fuel fuel c
              (filter_unreachable_jump_rows arrange chain_fuel fuel c navigation_for_row books rows
                m).1
    unfolding filter_unreachable_jump_rows reachable
    filter_unreachable_jump_rows-reachable none rows m h = (refl, h)
    filter_unreachable_jump_rows-reachable (some books) rows m h =
        reached_rows-reachable books rows m h
