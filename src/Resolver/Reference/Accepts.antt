-- ===== src/Resolver/Reference/Accepts.antt =====
-- `parse_ref` of frvt/resolver/parse_ref.py, and the texts of the grammar.
use versification_tool.Prelude.{
  ◌≡◌, refl, sym, ◌∙◌, ◌↔◌, ◌≤◌, true, false, Option, none, some, [], ◌∷◌, ◌++◌, arith, inl, inr,
  Bool-cases, Option-cases, some_inj, ltb,
}
use mathlib.Core.List.{append-nil}
use versification_tool.Prelude.Equality.{nat_eq, ◌==◌}
use versification_tool.Prelude.Texts.{Text, is_digit}
use versification_tool.Prelude.Decimal.{int}
use versification_tool.Prelude.Decimal.RoundTrip.{all_digits}
use versification_tool.Resolver.Types.{RefRange, ok, ok_inj}
use versification_tool.Resolver.Reference.{
  Groups, span_digits, nonempty, match_end, match_prefix, bcv_range, letter_behind,
  has_embedded_part, write_end, write_groups, end_verse, read_groups, parse_ref,
}
use versification_tool.Resolver.Reference.Grammar.{
  IsNumber, IsEnd, IsReference, Stops, nonempty-span_digits, write_groups-append, PrefixSound,
  match_prefix_sound,
}

-- Neither a digit nor a dash stands at the front.
abbrev pub Follows : Text → Type 0
Follows [] = Unit
Follows (c ∷ s) = (is_digit c ≡ false) × ((c == b'-') ≡ false)

match_end_complete :
    (b c v : Text) (e : Option Text) (rest : Text)
    → IsEnd e
    → Follows rest
    → match_end b c v (write_end e ++ rest)
      ≡ (record { book = b; chapter_s = c; start_s = v; end_s = e }, rest)
match_end_complete b c v none [] n f = refl
match_end_complete b c v none (h ∷ s) n f = rw f.1
match_end_complete b c v (some e) [] n f = rw (nonempty-span_digits e [] n tt)
match_end_complete b c v (some e) (h ∷ s) n f = rw (nonempty-span_digits e (h ∷ s) n f.0)

Stops-write_end : (e : Option Text) (rest : Text) → Follows rest → Stops (write_end e ++ rest)
Stops-write_end none [] f = tt
Stops-write_end none (h ∷ s) f = f.0
Stops-write_end (some e) rest f = refl

match_prefix_written :
    (b c v : Text) (e : Option Text) (rest : Text)
    → IsReference (record { book = b; chapter_s = c; start_s = v; end_s = e })
    → Follows rest
    → match_prefix (b ++ (b' ' ∷ (c ++ (b':' ∷ (v ++ (write_end e ++ rest))))))
      ≡ some (record { book = b; chapter_s = c; start_s = v; end_s = e }, rest)
unfolding match_prefix
match_prefix_written [] c v e rest r f = elim r.book [ ]
match_prefix_written (x ∷ []) c v e rest r f = elim r.book [ ]
match_prefix_written (x ∷ y ∷ []) c v e rest r f = elim r.book [ ]
match_prefix_written (x ∷ y ∷ z ∷ w ∷ b) c v e rest r f = elim r.book [ ]
match_prefix_written (x ∷ y ∷ z ∷ []) c v e rest r f = rw (
  r.book.0,
  r.book.1,
  r.book.2,
  nonempty-span_digits c (b':' ∷ (v ++ (write_end e ++ rest))) r.chapter refl,
  nonempty-span_digits v (write_end e ++ rest) r.start (Stops-write_end e rest f),
  match_end_complete (x ∷ y ∷ z ∷ []) c v e rest r.end_ f,
)

pub match_prefix_complete :
    (g : Groups) (rest : Text)
    → IsReference g
    → Follows rest
    → match_prefix (write_groups g ++ rest) ≡ some (g, rest)
match_prefix_complete g rest r f =
    rw (write_groups-append g rest)
      (match_prefix_written g.book g.chapter_s g.start_s g.end_s rest r f)

bcv_range_sound : (s : Text) (g : Groups) → bcv_range s ≡ some g → PrefixSound s g []
unfolding bcv_range
bcv_range_sound s g h = elim (Option-cases (match_prefix s)) [
  | inl n ↦ cc (rw (n, bcv_range) at h)
  | inr ((g', []), p) ↦ rw (← some_inj (rw (p, bcv_range) at h)) (match_prefix_sound s [] g' p)
  | inr ((g', c ∷ rest), p) ↦ cc (rw (p, bcv_range) at h)
]

-- `_BCV_RANGE.fullmatch` matches exactly the written references, with their groups.
pub bcv_range_iff :
    (s : Text) (g : Groups) → (bcv_range s ≡ some g) ↔ (IsReference g × (s ≡ write_groups g))
unfolding bcv_range
bcv_range_iff s g = (
  λ h.
      let found = bcv_range_sound s g h in
      (found.reference, found.text ∙ append-nil (write_groups g)),
  λ (r, e).
      let at_end = match_prefix_complete g [] r tt in rw (e, rw append-nil at at_end, bcv_range),
)

-- Digits hide no colon.
has_embedded_part-digits :
    (d rest : Text) → all_digits d ≡ true → has_embedded_part (d ++ rest) ≡ has_embedded_part rest
unfolding has_embedded_part
has_embedded_part-digits [] rest h = refl
has_embedded_part-digits (c ∷ d) rest h = ground (arith, has_embedded_part-digits d rest)

no_letter_behind :
    (v : Text) (e : Option Text)
    → IsNumber v
    → IsEnd e
    → letter_behind (nonempty (span_digits (v ++ write_end e))) ≡ false
no_letter_behind v none n m = rw (nonempty-span_digits v [] n tt)
no_letter_behind v (some e) n m =
    rw (nonempty-span_digits v (b'-' ∷ e) n refl)
      (let at_end = nonempty-span_digits e [] m tt in rw (rw append-nil at at_end))

no_part_behind : (e : Option Text) → IsEnd e → has_embedded_part (write_end e) ≡ false
unfolding has_embedded_part
no_part_behind none n = refl
no_part_behind (some e) n =
    let skipped = has_embedded_part-digits e [] n.digits in rw append-nil at skipped

at_colon :
    (v : Text) (e : Option Text)
    → IsNumber v
    → IsEnd e
    → has_embedded_part (b':' ∷ (v ++ write_end e)) ≡ false
unfolding has_embedded_part
at_colon v e n m =
    rw (no_letter_behind v e n m, has_embedded_part-digits v (write_end e) n.digits)
      (no_part_behind e m)

no_embedded_part :
    (b c v : Text) (e : Option Text)
    → IsReference (record { book = b; chapter_s = c; start_s = v; end_s = e })
    → has_embedded_part (b ++ (b' ' ∷ (c ++ (b':' ∷ (v ++ write_end e))))) ≡ false
unfolding has_embedded_part
no_embedded_part [] c v e r = elim r.book [ ]
no_embedded_part (x ∷ []) c v e r = elim r.book [ ]
no_embedded_part (x ∷ y ∷ []) c v e r = elim r.book [ ]
no_embedded_part (x ∷ y ∷ z ∷ w ∷ b) c v e r = elim r.book [ ]
no_embedded_part (x ∷ y ∷ z ∷ []) c v e r = ground (
  arith,
  r.book,
  has_embedded_part-digits c (b':' ∷ (v ++ write_end e)) r.chapter.digits,
  at_colon v e r.start r.end_,
)

-- The range that groups stand for.
abbrev pub range_of : Groups → RefRange
range_of g = record {
  book = g.book;
  chapter = int g.chapter_s;
  verse_start = int g.start_s;
  verse_end = end_verse g.end_s (int g.start_s);
}

-- A text that `parse_ref` accepts as `r`, described by its parts.
abbrev pub Denotes : Text → RefRange → Type 0
Denotes s r =
    (g : Groups) × IsReference g
    × (s ≡ write_groups g)
    × (r ≡ range_of g)
    × (r.verse_start ≤ r.verse_end)

read_groups-eq-ok :
    (g : Groups) (r : RefRange)
    → read_groups g ≡ ok r
    → (r ≡ range_of g) × (r.verse_start ≤ r.verse_end)
unfolding read_groups
read_groups-eq-ok g r h = elim (Bool-cases (ltb (range_of g).verse_end (range_of g).verse_start)) [
  | inl t ↦ cc (rw (t, read_groups) at h)
  | inr f ↦
      let same : range_of g ≡ r = ok_inj (rw (f, read_groups) at h) in
      (sym same, rw (← same) (ground arith))
]

Denotes-sound : (s : Text) (r : RefRange) → parse_ref s ≡ ok r → Denotes s r
unfolding parse_ref
Denotes-sound s r h = elim (Bool-cases (has_embedded_part s)) [
  | inl t ↦ cc (rw (t, parse_ref) at h)
  | inr f ↦ elim (Option-cases (bcv_range s)) [
    | inl n ↦ cc (rw (f, n, parse_ref) at h)
    | inr (g, m) ↦
        let (reference, text) = (bcv_range_iff s g).0 m in
        let (same, ordered) = read_groups-eq-ok g r (rw (f, m, parse_ref) at h) in
        (g, reference, text, same, ordered)
  ]
]

read_groups-ordered :
    (g : Groups)
    → (range_of g).verse_start ≤ (range_of g).verse_end
    → read_groups g ≡ ok (range_of g)
unfolding read_groups
read_groups-ordered g h = ground arith

Denotes-complete : (s : Text) (r : RefRange) → Denotes s r → parse_ref s ≡ ok r
unfolding parse_ref
Denotes-complete s r (g, reference, text, same, ordered) =
    rw
      (
        text,
        no_embedded_part g.book g.chapter_s g.start_s g.end_s reference,
        (bcv_range_iff (write_groups g) g).1 (reference, refl),
        parse_ref,
      )
      (rw same (read_groups-ordered g (rw same at ordered)))

-- `parse_ref` returns a range exactly for the texts `BOOK C:V` and `BOOK C:V-V` whose end is not
-- before their start, and it returns the range that the text names.
pub parse_ref_iff : (s : Text) (r : RefRange) → (parse_ref s ≡ ok r) ↔ Denotes s r
parse_ref_iff s r = (Denotes-sound s r, Denotes-complete s r)
