-- ===== src/Resolver/Cover/Search.antt =====
-- `find_covering_record` of frvt/resolver/cover.py.
use versification_tool.Prelude.{
  ℕ, ◌-◌, ◌≤◌, ◌<◌, ◌≡◌, refl, sym, ◌∙◌, ap, ◌⊎◌, inl, inr, true, false, Bool, none, some, List, [],
  ◌∷◌, head?, arith, Bool-cases, Option-cases, List-cases, some_inj,
}
use mathlib.Core.List.{Memᴰ}
use mathlib.Core.List.Memᴰ
use mathlib.Core.Path.{subst}
use versification_tool.Prelude.Compare.{nat_ord, pair_ord}
use versification_tool.Prelude.Sorting.{not_gt, sorted_by, head?-sorted_by, Memᴰ→Memᴰ-sorted_by}
use versification_tool.Resolver.Types.{VerseId, RefRange, MappingView}
use versification_tool.Resolver.Reference.{covers}
use versification_tool.Resolver.Cover.{
  Candidate, skips_part, record_range, candidate, candidates, candidate_key, find_covering_record,
}

-- The row answers a query for the verse: the part rule lets it through, and the side that is
-- searched is a range that covers the verse. Its width is that of the range.
pub record Applies (verse : VerseId) (upward : Bool) (row : MappingView) (width : ℕ) : Type 0 where
  pub cover : RefRange
  pub part : skips_part row verse ≡ false
  pub side : record_range row upward ≡ some cover
  pub covered : covers cover verse ≡ true
  pub wide : width ≡ cover.verse_end - cover.verse_start

candidate-eq-some :
    (verse : VerseId) (upward : Bool) (row : MappingView) (c : Candidate)
    → candidate verse upward row ≡ some c
    → Applies verse upward row c.width × (c.row ≡ row) × (c.ordinal ≡ row.ordinal)
unfolding candidate
candidate-eq-some verse upward row c h = elim (Bool-cases (skips_part row verse)) [
  | inl t ↦ cc (rw (t, candidate) at h)
  | inr f ↦ elim (Option-cases (record_range row upward)) [
    | inl n ↦ cc (rw (f, n, candidate) at h)
    | inr (cover, e) ↦ elim (Bool-cases (covers cover verse)) [
      | inr g ↦ cc (rw (f, e, g, candidate) at h)
      | inl t ↦
          let made = some_inj (rw (f, e, t, candidate) at h) in
          (
            record {
              cover = cover;
              part = f;
              side = e;
              covered = t;
              wide = ap (λ (x : Candidate). x.width) (sym made);
            },
            ap (λ (x : Candidate). x.row) (sym made),
            ap (λ (x : Candidate). x.ordinal) (sym made),
          )
    ]
  ]
]

candidate_of_Applies :
    (verse : VerseId) (upward : Bool) (row : MappingView) (width : ℕ)
    → Applies verse upward row width
    → candidate verse upward row ≡ some (record { width = width; ordinal = row.ordinal; row = row })
unfolding candidate
candidate_of_Applies verse upward row width a = rw (a.part, a.side, a.covered, a.wide)

Memᴰ-candidates :
    (verse : VerseId) (upward : Bool) (rows : List MappingView) (c : Candidate)
    → Memᴰ c (candidates verse upward rows)
    → (row : MappingView) × Memᴰ row rows × (candidate verse upward row ≡ some c)
unfolding candidates
Memᴰ-candidates verse upward [] c m = elim m [ ]
Memᴰ-candidates verse upward (row ∷ rows) c m = elim (Option-cases (candidate verse upward row)) [
  | inl n ↦
      let (r, k, e) = Memᴰ-candidates verse upward rows c (rw (n, candidates) at m) in
      (r, Memᴰ.tail k, e)
  | inr (d, e) ↦ elim (Memᴰ.cases_cons (rw (e, candidates) at m)) [
    | inl p ↦ (row, Memᴰ.head refl, rw p e)
    | inr q ↦ let (r, k, e') = Memᴰ-candidates verse upward rows c q in (r, Memᴰ.tail k, e')
  ]
]

Memᴰ-candidates-complete :
    (verse : VerseId) (upward : Bool) (rows : List MappingView) (row : MappingView) (c : Candidate)
    → Memᴰ row rows
    → candidate verse upward row ≡ some c
    → Memᴰ c (candidates verse upward rows)
unfolding candidates
Memᴰ-candidates-complete verse upward [] row c m e = elim m [ ]
Memᴰ-candidates-complete verse upward (r ∷ rows) row c m e = elim (Memᴰ.cases_cons m) [
  | inl p ↦
      let here = subst (λ (t : MappingView). candidate verse upward t ≡ some c) p e in
      rw (here, candidates) (Memᴰ.head refl)
  | inr q ↦
      let rest = Memᴰ-candidates-complete verse upward rows row c q e in
      elim (Option-cases (candidate verse upward r)) [
        | inl n ↦ rw (n, candidates) rest
        | inr (d, e2) ↦ rw (e2, candidates) (Memᴰ.tail rest)
      ]
]

-- The row is one of the rows, it answers the query, and each other row that answers it is wider,
-- or as wide and no earlier by its ordinal.
pub record IsNarrowest (rows : List MappingView) (verse : VerseId) (upward : Bool)
    (row : MappingView) : Type 0 where
  pub width : ℕ
  pub member : Memᴰ row rows
  pub applies : Applies verse upward row width
  pub least :
      (other : MappingView) (w : ℕ)
      → Memᴰ other rows
      → Applies verse upward other w
      → (width < w) ⊎ ((width ≡ w) × (row.ordinal ≤ other.ordinal))

key_le : (a b c d : ℕ) → not_gt (pair_ord.cmp (a, b) (c, d)) ≡ true → (a < c) ⊎ ((a ≡ c) × (b ≤ d))
key_le a b c d h = ground arith

module _ (rows : List MappingView) (verse : VerseId) (upward : Bool) where
  abbrev sorted_candidates : List Candidate
  sorted_candidates = sorted_by candidate_key (candidates verse upward rows)

  IsNarrowest-first :
      (row : MappingView) (c : Candidate)
      → Memᴰ row rows
      → candidate verse upward row ≡ some c
      → head? sorted_candidates ≡ some c
      → IsNarrowest rows verse upward row
  IsNarrowest-first row c m e h =
      let (applies, _, place) = candidate-eq-some verse upward row c e in
      record {
        width = c.width;
        member = m;
        applies = applies;
        least = λ other w k a. rw (← place) (
            key_le c.width c.ordinal w other.ordinal (
              (head?-sorted_by candidate_key (candidates verse upward rows) c h).1
                (record { width = w; ordinal = other.ordinal; row = other })
                (Memᴰ-candidates-complete verse upward rows other _ k
                  (candidate_of_Applies verse upward other w a))));
      }

  -- A row that the search returns is one of the rows and answers the query: the part rule lets it
  -- through and its searched side covers the verse. Any other row that answers the query is wider,
  -- or as wide with an ordinal that is no smaller.
  pub find_covering_record-IsNarrowest :
      (row : MappingView)
      → find_covering_record rows verse upward ≡ some row
      → IsNarrowest rows verse upward row
  unfolding find_covering_record
  find_covering_record-IsNarrowest row h = elim (Option-cases (head? sorted_candidates)) [
    | inl n ↦ cc (rw (n, find_covering_record) at h)
    | inr (c, e) ↦
        let m = (head?-sorted_by candidate_key (candidates verse upward rows) c e).0 in
        let (r, k, made) = Memᴰ-candidates verse upward rows c m in
        let (_, same, _) = candidate-eq-some verse upward r c made in
        let found : c.row ≡ row = some_inj (rw (e, find_covering_record) at h) in
        subst (IsNarrowest rows verse upward) (sym same ∙ found) (IsNarrowest-first r c k made e)
  ]

  -- The search returns nothing only if no row answers the query.
  pub find_covering_record-eq-none :
      (row : MappingView) (w : ℕ)
      → find_covering_record rows verse upward ≡ none
      → Memᴰ row rows
      → ¬ Applies verse upward row w
  unfolding find_covering_record
  find_covering_record-eq-none row w h m a = elim (List-cases sorted_candidates) [
    | inl empty ↦ Memᴰ.not-nil (
        subst (Memᴰ _) empty (
          Memᴰ→Memᴰ-sorted_by candidate_key _ (candidates verse upward rows) (
            Memᴰ-candidates-complete verse upward rows row _ m
              (candidate_of_Applies verse upward row w a))))
    | inr (c, rest, e) ↦ cc (rw (e, find_covering_record) at h)
  ]
