-- ===== src/Resolver/Reference.antt =====
-- frvt/resolver/parse_ref.py and `strip_part_suffix` of frvt/ingest/normalize.py. The regular
-- expressions share the prefix `BOOK C:V` or `BOOK C:V-V`; each run of digits is followed by what
-- is no digit, so that matching never has to give digits back.
pub mod Grammar
pub mod Accepts
pub mod RoundTrip
pub mod Plain
use versification_tool.Prelude.{
  ℕ, zero, suc, ◌+◌, ◌-◌, Bool, true, false, ◌&&◌, ◌||◌, Option, none, some, List, [], ◌∷◌, ◌++◌,
  leb, ltb, if◌then◌else◌,
}
use versification_tool.Prelude.Equality.{nat_eq, ◌==◌}
use versification_tool.Prelude.Texts.{Text, text_eq, is_digit, is_letter, is_upper, strip}
use versification_tool.Prelude.Decimal.{show, int}
use versification_tool.Resolver.Types.{
  VerseId, RefRange, Result, ok, raised, embedded_part, invalid_reference, reversed_range,
}

-- `[A-Z1-6]`
abbrev pub is_book_char : ℕ → Bool
is_book_char c = is_upper c || (leb b'1' c && leb c b'6')

-- `[0-9]*` at the front: what it takes, and the rest
unfoldable pub span_digits : Text → Text × Text
span_digits [] = ([], [])
span_digits (c ∷ s) = let r = span_digits s in if is_digit c then (c ∷ r.0, r.1) else ([], c ∷ s)

-- `[0-9]+` at the front
abbrev pub nonempty : Text × Text → Option (Text × Text)
nonempty ([], rest) = none
nonempty (c ∷ s, rest) = some (c ∷ s, rest)

-- The groups of a match.
pub record Groups : Type 0 where
  pub book : Text
  pub chapter_s : Text
  pub start_s : Text
  pub end_s : Option Text

-- `(?:-([0-9]+))?` behind the three groups
abbrev pub match_end : Text → Text → Text → Text → Groups × Text
match_end b c v [] = (record { book = b; chapter_s = c; start_s = v; end_s = none }, [])
match_end b c v (h ∷ s) =
    if h == b'-'
    then elim (nonempty (span_digits s)) [
      | none ↦ (record { book = b; chapter_s = c; start_s = v; end_s = none }, h ∷ s)
      | some (e, rest) ↦ (record { book = b; chapter_s = c; start_s = v; end_s = some e }, rest)
    ]
    else (record { book = b; chapter_s = c; start_s = v; end_s = none }, h ∷ s)

-- `:([0-9]+)` behind the chapter
abbrev pub match_verses : Text → Text → Text → Option (Groups × Text)
match_verses b c [] = none
match_verses b c (h ∷ s) =
    if h == b':'
    then elim (nonempty (span_digits s)) [
      | none ↦ none
      | some (v, rest) ↦ some (match_end b c v rest)
    ]
    else none

-- `([A-Z1-6]{3}) ([0-9]+):([0-9]+)(?:-([0-9]+))?` at the front
unfoldable pub match_prefix : Text → Option (Groups × Text)
match_prefix (x ∷ y ∷ z ∷ h ∷ s) =
    if is_book_char x && is_book_char y && is_book_char z && h == b' '
    then elim (nonempty (span_digits s)) [
      | none ↦ none
      | some (c, rest) ↦ match_verses (x ∷ y ∷ z ∷ []) c rest
    ]
    else none
match_prefix _ = none

-- `_BCV_RANGE.fullmatch`
unfoldable pub bcv_range : Text → Option Groups
bcv_range s = elim (match_prefix s) [ none ↦ none | some (g, []) ↦ some g | some (g, _ ∷ _) ↦ none ]

-- Whether a letter stands at the front.
abbrev pub starts_with_letter : Text → Bool
starts_with_letter [] = false
starts_with_letter (c ∷ s) = is_letter c

-- `[0-9]+(?:-[0-9]+)?[A-Za-z]` at the front
abbrev pub letter_behind : Option (Text × Text) → Bool
letter_behind none = false
letter_behind (some (d, [])) = false
letter_behind (some (d, h ∷ s)) =
    is_letter h
    || (h == b'-'
        && elim (nonempty (span_digits s)) [ none ↦ false | some (e, r) ↦ starts_with_letter r ])

-- `_EMBEDDED_PART.search`
unfoldable pub has_embedded_part : Text → Bool
has_embedded_part [] = false
has_embedded_part (c ∷ s) =
    (c == b':' && letter_behind (nonempty (span_digits s))) || has_embedded_part s

-- `int(end_s) if end_s is not None else verse_start`
abbrev pub end_verse : Option Text → ℕ → ℕ
end_verse none start = start
end_verse (some e) start = int e

-- The range that the groups of a match stand for.
unfoldable pub read_groups : Groups → Result RefRange
read_groups g =
    let start = int g.start_s in
    let end_ = end_verse g.end_s start in
    if ltb end_ start
    then raised reversed_range
    else ok
        (record { book = g.book; chapter = int g.chapter_s; verse_start = start; verse_end = end_ })

unfoldable pub parse_ref : Text → Result RefRange
parse_ref value =
    if has_embedded_part value
    then raised embedded_part
    else elim (bcv_range value) [ none ↦ raised invalid_reference | some g ↦ read_groups g ]

-- One verse for each number of `range(start, start + n)`.
unfoldable pub verse_run : Text → ℕ → ℕ → ℕ → List VerseId
verse_run book chapter start zero = []
verse_run book chapter start (suc n) =
    record { book = book; chapter = chapter; verse = start; part = none }
    ∷ verse_run book chapter (start + 1) n

unfoldable pub expand : RefRange → List VerseId
unfolding verse_run
expand r = verse_run r.book r.chapter r.verse_start (r.verse_end + 1 - r.verse_start)

unfoldable pub format_bcv : VerseId → Text
format_bcv v = v.book ++ (b' ' ∷ (show v.chapter ++ (b':' ∷ show v.verse)))

unfoldable pub covers : RefRange → VerseId → Bool
covers r v =
    r.book == v.book
    && r.chapter == v.chapter
    && leb r.verse_start v.verse
    && leb v.verse r.verse_end

unfoldable pub index_in_range : RefRange → VerseId → ℕ
index_in_range r v = v.verse - r.verse_start

-- `(?:-([0-9]+))?` as it was matched
abbrev pub write_end : Option Text → Text
write_end none = []
write_end (some e) = b'-' ∷ e

-- What the prefix matched, from its groups.
abbrev pub write_groups : Groups → Text
write_groups g = g.book ++ (b' ' ∷ (g.chapter_s ++ (b':' ∷ (g.start_s ++ write_end g.end_s))))

-- `[A-Za-z-]*` matches the whole text
abbrev pub all_suffix : Text → Bool
all_suffix [] = true
all_suffix (c ∷ s) = (is_letter c || c == b'-') && all_suffix s

-- `_PART_SUFFIX.match`
unfoldable pub part_suffix : Text → Option (Text × Text)
part_suffix s = elim (match_prefix s) [
  | none ↦ none
  | some (g, []) ↦ none
  | some (g, c ∷ rest) ↦ if all_suffix (c ∷ rest) then some (write_groups g, c ∷ rest) else none
]

unfoldable pub strip_part_suffix : Text → Text × Option Text
strip_part_suffix value = elim (part_suffix (strip value)) [
  | none ↦ (value, none)
  | some (plain, part) ↦ (plain, some part)
]
