-- ===== src/Api/Navigation/Shown.antt =====
-- The reciprocal rows of frvt/api/routers/navigation.py: what holds for each of them, and that no two
-- rows lead to one place.
use versification_tool.Prelude.{
  ℕ, ◌≡◌, refl, sym, ap, ◌∙◌, true, false, Bool, Option, none, some, List, [], ◌∷◌, ◌++◌, map,
}
use versification_tool.Prelude.Equality.{nat_eq, pair_eq, option_eq}
use versification_tool.Prelude.Distinct.{IsDistinct}
use versification_tool.Prelude.Texts.{Text, text_eq}
use versification_tool.Resolver.Types.{VerseId, Resolution, Result, ok, raised, ◌>>=◌}
use versification_tool.Api.Jump.{Navigation, Context, Memo, ProcessCache}
use versification_tool.Api.Jump.Uncached.{
  cancels, resolved, IsTruthful, IsTruthfulProcess, resolve_navigation_dto-resolved,
  is_canceling_jump_entry-cancels,
}
use versification_tool.Api.Jump.Content.{unreachable_dto, is_unreachable_jump_entry}
use versification_tool.Api.Jump.Content.Filter.{strands}
use versification_tool.Api.Navigation.{JumpMapping}
use versification_tool.Api.Navigation.Menu.{
  key_of, Menu, composed_target, unreachable_next, is_hidden,
}

module _ (arrange : List VerseId → List VerseId) (chain_fuel fuel : ℕ) (c : Context) where
  -- Whether a navigation leads to none of the books, if they are filtered.
  unfoldable pub strands_any : Option (List Text) → Navigation → Result Bool
  strands_any none n = ok false
  strands_any (some bs) n = strands arrange chain_fuel fuel c bs n

  is_unreachable_jump_entry-strands_any :
      (n : Navigation) (bs : Option (List Text)) (m : Memo)
      → IsTruthful arrange chain_fuel fuel c m
      → ((is_unreachable_jump_entry arrange chain_fuel fuel c n bs m).0 ≡ strands_any bs n)
        × IsTruthful arrange chain_fuel fuel c
            (is_unreachable_jump_entry arrange chain_fuel fuel c n bs m).1
  unfolding is_unreachable_jump_entry strands_any strands
  is_unreachable_jump_entry-strands_any n none m h = (refl, h)
  is_unreachable_jump_entry-strands_any n (some bs) m h =
      let (same, kept) = resolve_navigation_dto-resolved arrange chain_fuel fuel c n m h in
      (ap (λ (r : Result (Option Resolution)). r >>= λ d. ok (unreachable_dto bs d)) same, kept)

module _ (arrange : List VerseId → List VerseId) (chain_fuel fuel : ℕ) (c : Context)
    (books : Option (List Text)) where
  -- A row of the menu: its navigation resolves with the row's relation, does not cancel and passes
  -- the check of the books.
  pub record IsShown (row : JumpMapping) : Type 0 where
    pub stays : cancels arrange chain_fuel fuel c (key_of row) ≡ ok false
    pub reached : strands_any arrange chain_fuel fuel c books (key_of row) ≡ ok false
    pub dto : Resolution
    pub found : resolved arrange chain_fuel fuel c (key_of row) ≡ ok (some dto)
    pub related : row.relation ≡ dto.relation

  abbrev pub AllShown : List JumpMapping → Type 0
  AllShown [] = Unit {0}
  AllShown (row ∷ rows) = IsShown row × AllShown rows

  pub AllShown-append_one :
      (rows : List JumpMapping) (row : JumpMapping)
      → AllShown rows
      → IsShown row
      → AllShown (rows ++ (row ∷ []))
  AllShown-append_one [] row h k = (k, tt)
  AllShown-append_one (r ∷ rows) row h k = (h.0, AllShown-append_one rows row h.1 k)

  module _ (initial : List Navigation) where
    -- What holds between the rows of the loop.
    pub record IsListed (s : Menu) : Type 0 where
      pub memo_true : IsTruthful arrange chain_fuel fuel c s.memo
      pub process_true : IsTruthfulProcess arrange chain_fuel fuel c s.process
      pub listed : s.existing_nav ≡ initial ++ map key_of s.reciprocals
      pub distinct : IsDistinct s.existing_nav
      pub shown : AllShown s.reciprocals

    -- The caches may change, as long as they stay truthful.
    pub recached :
        (s : Menu) (m k : Memo) (p : ProcessCache)
        → IsListed s
        → IsTruthful arrange chain_fuel fuel c m
        → IsTruthfulProcess arrange chain_fuel fuel c p
        → IsListed (record s { memo = m; counterpart_memo = k; process = p })
    recached s m k p h x y = record {
      memo_true = x;
      process_true = y;
      listed = h.listed;
      distinct = h.distinct;
      shown = h.shown;
    }

    -- What the two checks say of a navigation.
    pub record IsChecked (n : Navigation) (s : Menu) (out : Result Bool × Menu) : Type 0 where
      pub kept : IsListed out.1
      pub same : out.1.existing_nav ≡ s.existing_nav
      pub passed :
          out.0 ≡ ok false
          → (cancels arrange chain_fuel fuel c n ≡ ok false)
            × (strands_any arrange chain_fuel fuel c books n ≡ ok false)

    module _ (counterpart : Context) where
      pub composed_target-IsListed :
          (n : Result Navigation) (s : Menu)
          → IsListed s
          → IsListed (composed_target arrange chain_fuel fuel c counterpart books n s).1
      composed_target-IsListed (raised e) s h = h
      composed_target-IsListed (ok n) s h =
          recached s s.memo _ s.process h h.memo_true h.process_true

      unreachable_next-IsChecked :
          (n : Navigation) (answer : Result Bool × Memo × ProcessCache) (s : Menu)
          → answer.0 ≡ cancels arrange chain_fuel fuel c n
          → IsTruthful arrange chain_fuel fuel c answer.1
          → IsTruthfulProcess arrange chain_fuel fuel c answer.2
          → IsListed s
          → IsChecked n s (unreachable_next arrange chain_fuel fuel c counterpart books n answer s)
      unreachable_next-IsChecked n (raised e, m, p) s same x y h = record {
        kept = recached s m _ p h x y;
        same = refl;
        passed = λ k. cc;
      }
      unreachable_next-IsChecked n (ok true, m, p) s same x y h = record {
        kept = recached s m _ p h x y;
        same = refl;
        passed = λ k. cc;
      }
      unreachable_next-IsChecked n (ok false, m, p) s same x y h =
          let (answered, after) =
            is_unreachable_jump_entry-strands_any arrange chain_fuel fuel c n books m x in
          record {
            kept = recached s _ _ p h after y;
            same = refl;
            passed = λ k. (sym same, sym answered ∙ k);
          }

      pub is_hidden-IsChecked :
          (n : Navigation) (s : Menu)
          → IsListed s
          → IsChecked n s (is_hidden arrange chain_fuel fuel c counterpart books n s)
      unfolding is_hidden
      is_hidden-IsChecked n s h =
          let (same, x, y) =
            is_canceling_jump_entry-cancels arrange chain_fuel fuel c n s.memo s.process h.memo_true
              h.process_true in
          unreachable_next-IsChecked n _ s same x y h
