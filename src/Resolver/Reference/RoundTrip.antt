-- ===== src/Resolver/Reference/RoundTrip.antt =====
-- `format_bcv`, `parse_ref` and `expand` of frvt/resolver/parse_ref.py.
use versification_tool.Prelude.{
  ℕ, zero, suc, ◌+◌, ◌-◌, ◌≤◌, ◌<◌, ◌≡◌, refl, ap, ◌∙◌, ◌↔◌, true, none, some, arith, length,
  get_elem?,
}
use mathlib.Core.List.{append-nil, Memᴰ}
use mathlib.Core.List.Memᴰ
use mathlib.Core.Logic.{⊎_elim}
use native.Mathlib.Decide.{dec_le}
use versification_tool.Prelude.Texts.{Text, text_beq_iff}
use versification_tool.Prelude.Decimal.{show}
use versification_tool.Prelude.Decimal.RoundTrip.{int-show, show-ne-nil, all_digits-show}
use versification_tool.Resolver.Types.{VerseId, RefRange, ok}
use versification_tool.Resolver.Reference.{
  parse_ref, format_bcv, verse_run, expand, covers, index_in_range,
}
use versification_tool.Resolver.Reference.Grammar.{IsNumber, IsBook}
use versification_tool.Resolver.Reference.Accepts.{parse_ref_iff}

show-IsNumber : (n : ℕ) → IsNumber (show n)
show-IsNumber n = record { some_digit = show-ne-nil n; digits = all_digits-show n }

-- The range of one verse.
abbrev pub single : VerseId → RefRange
single v = record { book = v.book; chapter = v.chapter; verse_start = v.verse; verse_end = v.verse }

-- A formatted verse with a book code of the grammar parses as the range of that verse.
pub parse_ref-format_bcv : (v : VerseId) → IsBook v.book → parse_ref (format_bcv v) ≡ ok (single v)
unfolding format_bcv
parse_ref-format_bcv v book = (parse_ref_iff (format_bcv v) (single v)).1 (
  record { book = v.book; chapter_s = show v.chapter; start_s = show v.verse; end_s = none },
  record {
    book = book;
    chapter = show-IsNumber v.chapter;
    start = show-IsNumber v.verse;
    end_ = tt;
  },
  rw append-nil,
  rw (int-show v.chapter, int-show v.verse),
  omega arith,
)

-- The verse of a run at a number.
abbrev pub verse_at : Text → ℕ → ℕ → VerseId
verse_at book chapter n = record { book = book; chapter = chapter; verse = n; part = none }

Memᴰ-verse_run :
    (book : Text) (chapter start n : ℕ) (v : VerseId)
    → Memᴰ v (verse_run book chapter start n)
    → (v ≡ verse_at book chapter v.verse) × (start ≤ v.verse) × (v.verse < start + n)
unfolding verse_run
Memᴰ-verse_run book chapter start zero v m = elim m [ ]
Memᴰ-verse_run book chapter start (suc n) v m =
    ⊎_elim (λ e. ground (arith, e))
      (λ t. ground (arith, Memᴰ-verse_run book chapter (start + 1) n v t)) (Memᴰ.cases_cons m)

verse_run-complete :
    (book : Text) (chapter start n k : ℕ)
    → start ≤ k
    → k < start + n
    → Memᴰ (verse_at book chapter k) (verse_run book chapter start n)
unfolding verse_run
verse_run-complete book chapter start zero k h l = absurd (omega arith)
verse_run-complete book chapter start (suc n) k h l = elim (dec_le k start) [
  | yes p ↦ Memᴰ.head (ground arith)
  | no p ↦ Memᴰ.tail (verse_run-complete book chapter (start + 1) n k (omega arith) (omega arith))
]

expand_sound :
    (r : RefRange) (v : VerseId) → Memᴰ v (expand r) → (covers r v ≡ true) × (v.part ≡ none)
unfolding expand covers
expand_sound r v m =
    let (shape, low, high) = Memᴰ-verse_run r.book r.chapter r.verse_start _ v m in
    ground (arith, shape, text_beq_iff r.book v.book)

expand_complete :
    (r : RefRange) (v : VerseId) → covers r v ≡ true → v.part ≡ none → Memᴰ v (expand r)
unfolding expand covers
expand_complete r v h p =
    let same : v ≡ verse_at r.book r.chapter v.verse = ground (arith, text_beq_iff r.book v.book) in
    rw same
      (verse_run-complete r.book r.chapter r.verse_start _ v.verse (ground arith) (ground arith))

-- The verses of an expanded range are the whole verses that the range covers.
pub expand_iff :
    (r : RefRange) (v : VerseId) → Memᴰ v (expand r) ↔ ((covers r v ≡ true) × (v.part ≡ none))
expand_iff r v = (expand_sound r v, λ (h, p). expand_complete r v h p)

length-verse_run : (book : Text) (chapter start n : ℕ) → length (verse_run book chapter start n) ≡ n
unfolding verse_run
length-verse_run book chapter start zero = refl
length-verse_run book chapter start (suc n) = ap suc (length-verse_run book chapter (start + 1) n)

pub length-expand : (r : RefRange) → length (expand r) ≡ r.verse_end + 1 - r.verse_start
unfolding expand
length-expand r = length-verse_run r.book r.chapter r.verse_start _

get_elem?-verse_run :
    (book : Text) (chapter start n i : ℕ)
    → i < n
    → get_elem? (verse_run book chapter start n) i ≡ some (verse_at book chapter (start + i))
unfolding verse_run
get_elem?-verse_run book chapter start zero i h = absurd (omega arith)
get_elem?-verse_run book chapter start (suc n) zero h =
    ap (λ (k : ℕ). some (verse_at book chapter k)) (omega arith)
get_elem?-verse_run book chapter start (suc n) (suc i) h =
    get_elem?-verse_run book chapter (start + 1) n i (omega arith)
    ∙ ap (λ (k : ℕ). some (verse_at book chapter k)) (omega arith)

-- A covered whole verse stands in the expanded range at its index.
pub get_elem?-expand-index_in_range :
    (r : RefRange) (v : VerseId)
    → covers r v ≡ true
    → v.part ≡ none
    → get_elem? (expand r) (index_in_range r v) ≡ some v
unfolding expand covers index_in_range
get_elem?-expand-index_in_range r v h p =
    get_elem?-verse_run r.book r.chapter r.verse_start _ (v.verse - r.verse_start) (ground arith)
    ∙ ground (arith, text_beq_iff r.book v.book)
