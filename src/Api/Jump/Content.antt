-- ===== src/Api/Jump/Content.antt =====
-- frvt/api/jump_target_content.py: whether a row of the jump menu leads to a book that has verses.
pub mod Filter
use versification_tool.Prelude.{
  ℕ, Bool, true, false, not, ◌&&◌, Option, none, some, List, [], ◌∷◌, if◌then◌else◌,
}
use versification_tool.Prelude.Equality.{contains, dedup}
use versification_tool.Prelude.Texts.{Text, text_eq}
use versification_tool.Resolver.Types.{VerseId, ResolvedSpan, Resolution, Result, ok, raised, ◌>>=◌}
use versification_tool.Resolver.Reference.{parse_ref}
use versification_tool.Api.Jump.{Navigation, Context, Memo, resolve_navigation_dto}

-- The queries: whether a translation, if there is one, is an anchor, and the books of its spans.
pub record Contents : Type 0 where
  pub is_anchor : ℕ → Option Bool
  pub span_books : ℕ → List Text

module _ (session : Contents) where
  -- A set of books.
  unfoldable pub translation_books_with_content : ℕ → List Text
  translation_books_with_content translation_id = dedup (session.span_books translation_id)

  unfoldable pub target_content_books_or_unfiltered : ℕ → Option (List Text)
  target_content_books_or_unfiltered translation_id = elim (session.is_anchor translation_id) [
    | none ↦ some (translation_books_with_content translation_id)
    | some anchor ↦ if anchor then none else some (translation_books_with_content translation_id)
  ]

-- The books of the spans that can be read; parse_ref raises nothing but ReferenceError.
unfoldable pub books_of : List ResolvedSpan → List Text
books_of [] = []
books_of (span ∷ spans) = elim (parse_ref span.ref) [
  | raised e ↦ books_of spans
  | ok found ↦ found.book ∷ books_of spans
]

unfoldable pub target_books_from_resolution : Resolution → List Text
target_books_from_resolution dto = dedup (books_of dto.target_spans)

-- `xs.isdisjoint(ys)`
unfoldable pub isdisjoint : List Text → List Text → Bool
isdisjoint [] ys = true
isdisjoint (x ∷ xs) ys = not (contains x ys) && isdisjoint xs ys

-- `if not resolved_targets: return False`
abbrev pub misses : List Text → List Text → Bool
misses [] books = false
misses (x ∷ xs) books = isdisjoint (x ∷ xs) books

-- What a resolve result says of the books.
unfoldable pub unreachable_dto : List Text → Option Resolution → Bool
unreachable_dto books none = false
unreachable_dto books (some dto) = misses (target_books_from_resolution dto) books

-- `continue` or `kept.append(row)`, and the rest of the loop
abbrev pub keep_reached {ℓ} :
    {Row : Type ℓ} → Row → Result Bool × Memo → Result (List Row) × Memo → Result (List Row) × Memo
keep_reached row (raised e, m) rest = (raised e, m)
keep_reached row (ok b, m) (rest, m2) = (rest >>= λ kept. ok (if b then kept else row ∷ kept), m2)

module _ (arrange : List VerseId → List VerseId) (chain_fuel fuel : ℕ) (c : Context) where
  unfoldable pub is_unreachable_jump_entry :
      Navigation → Option (List Text) → Memo → Result Bool × Memo
  is_unreachable_jump_entry n none m = (ok false, m)
  is_unreachable_jump_entry n (some books) m =
      let (dto, kept) = resolve_navigation_dto arrange chain_fuel fuel c n m in
      (dto >>= λ d. ok (unreachable_dto books d), kept)

  -- With the navigation of a row, or what it raised.
  abbrev pub is_unreachable_row : Result Navigation → List Text → Memo → Result Bool × Memo
  is_unreachable_row (raised e) books m = (raised e, m)
  is_unreachable_row (ok n) books m = is_unreachable_jump_entry n (some books) m

  unfoldable pub reached_rows {ℓ} :
      {Row : Type ℓ}
      → (Row → Result Navigation)
      → List Text
      → List Row
      → Memo
      → Result (List Row) × Memo
  reached_rows navigation_for_row books [] m = (ok [], m)
  reached_rows navigation_for_row books (row ∷ rows) m =
      let answer = is_unreachable_row (navigation_for_row row) books m in
      keep_reached row answer (reached_rows navigation_for_row books rows answer.1)

  unfoldable pub filter_unreachable_jump_rows {ℓ} :
      {Row : Type ℓ}
      → (Row → Result Navigation)
      → Option (List Text)
      → List Row
      → Memo
      → Result (List Row) × Memo
  filter_unreachable_jump_rows navigation_for_row none rows m = (ok rows, m)
  filter_unreachable_jump_rows navigation_for_row (some books) rows m =
      reached_rows navigation_for_row books rows m
