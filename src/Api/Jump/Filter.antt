-- ===== src/Api/Jump/Filter.antt =====
-- The filter of frvt/api/jump_cancel.py against one without caches, and the size of the cache of the
-- process.
use versification_tool.Prelude.{ℕ, ◌≡◌, refl, ap, ◌∙◌, Bool, List, [], ◌∷◌, if◌then◌else◌}
use versification_tool.Resolver.Types.{VerseId, Result, ok, raised, ◌>>=◌}
use versification_tool.Api.Jump.{
  Navigation, Context, Memo, ProcessCache, is_canceling_row, keep_row, filter_canceling_jump_rows,
}
use versification_tool.Api.Jump.Uncached.{
  cancels, IsTruthful, IsTruthfulProcess, is_canceling_jump_entry-cancels,
}

module _ (arrange : List VerseId → List VerseId) (chain_fuel fuel : ℕ) (c : Context) where
  is_canceling_row-cancels :
      (n : Result Navigation) (m : Memo) (p : ProcessCache)
      → IsTruthful arrange chain_fuel fuel c m
      → IsTruthfulProcess arrange chain_fuel fuel c p
      → ((is_canceling_row arrange chain_fuel fuel c n m p).0
          ≡ (n >>= cancels arrange chain_fuel fuel c))
        × IsTruthful arrange chain_fuel fuel c (is_canceling_row arrange chain_fuel fuel c n m p).1
        × IsTruthfulProcess arrange chain_fuel fuel c
            (is_canceling_row arrange chain_fuel fuel c n m p).2
  is_canceling_row-cancels (raised e) m p h k = (refl, h, k)
  is_canceling_row-cancels (ok n) m p h k =
      is_canceling_jump_entry-cancels arrange chain_fuel fuel c n m p h k

  -- The rows whose navigation does not cancel, in their order; the first error that is not caught
  -- ends it.
  unfoldable pub visible {ℓ} :
      {Row : Type ℓ} → (Row → Result Navigation) → List Row → Result (List Row)
  visible navigation_for_row [] = ok []
  visible navigation_for_row (row ∷ rows) =
      (navigation_for_row row >>= cancels arrange chain_fuel fuel c) >>= λ b.
      visible navigation_for_row rows >>= λ kept. ok (if b then kept else row ∷ kept)

  module _ {ℓ} {Row : Type ℓ} (navigation_for_row : Row → Result Navigation) where
    -- What a filter may leave.
    abbrev Filters : Result (List Row) → Result (List Row) × Memo × ProcessCache → Type ℓ
    Filters expected out =
        (out.0 ≡ expected)
        × IsTruthful arrange chain_fuel fuel c out.1
        × IsTruthfulProcess arrange chain_fuel fuel c out.2

    keep_row-visible :
        (row : Row) (answer : Result Bool × Memo × ProcessCache)
        (out : Result (List Row) × Memo × ProcessCache) (expected : Result (List Row))
        → IsTruthful arrange chain_fuel fuel c answer.1
        → IsTruthfulProcess arrange chain_fuel fuel c answer.2
        → Filters expected out
        → Filters
            (answer.0 >>= λ b. expected >>= λ kept. ok (if b then kept else row ∷ kept))
            (keep_row row answer out)
    keep_row-visible row (raised e, m, p) out expected h k after = (refl, h, k)
    keep_row-visible row (ok b, m, p) (rest, m2, p2) expected h k (same, h2, k2) = (
      ap (λ (r : Result (List Row)). r >>= λ kept. ok (if b then kept else row ∷ kept)) same,
      h2,
      k2,
    )

    -- From truthful caches the filter keeps the rows that do not cancel, and the caches stay truthful.
    pub filter_canceling_jump_rows-visible :
        (rows : List Row) (m : Memo) (p : ProcessCache)
        → IsTruthful arrange chain_fuel fuel c m
        → IsTruthfulProcess arrange chain_fuel fuel c p
        → ((filter_canceling_jump_rows arrange chain_fuel fuel c navigation_for_row rows m p).0
            ≡ visible navigation_for_row rows)
          × IsTruthful arrange chain_fuel fuel c
              (filter_canceling_jump_rows arrange chain_fuel fuel c navigation_for_row rows m p).1
          × IsTruthfulProcess arrange chain_fuel fuel c
              (filter_canceling_jump_rows arrange chain_fuel fuel c navigation_for_row rows m p).2
    unfolding filter_canceling_jump_rows visible
    filter_canceling_jump_rows-visible [] m p h k = (refl, h, k)
    filter_canceling_jump_rows-visible (row ∷ rows) m p h k =
        let (same, h2, k2) = is_canceling_row-cancels (navigation_for_row row) m p h k in
        let rest =
          filter_canceling_jump_rows-visible rows
            (is_canceling_row arrange chain_fuel fuel c (navigation_for_row row) m p).1
            (is_canceling_row arrange chain_fuel fuel c (navigation_for_row row) m p).2 h2 k2 in
        let (all, h3, k3) = keep_row-visible row _ _ _ h2 k2 rest in
        (
          all
              ∙ ap
                  (λ (r : Result Bool). r >>= λ b.
                    visible navigation_for_row rows >>= λ kept. ok (if b then kept else row ∷ kept))
                  same,
          h3,
          k3,
        )
