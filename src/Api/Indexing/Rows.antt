-- ===== src/Api/Indexing/Rows.antt =====
-- The tables of frvt/api/indexing, on classes of frvt/api/models/__init__.py, and the queries on them.
-- A table is the list of its rows. The payload of a mapping is its text.
use versification_tool.Prelude.{
  ℕ, Bool, true, false, not, ◌&&◌, ◌||◌, Option, none, some, List, [], ◌∷◌, if◌then◌else◌, map,
}
use versification_tool.Prelude.Equality.{nat_eq, pair_eq, ◌==◌, contains}
use versification_tool.Prelude.Texts.{Text, text_eq}

-- `INDEX_STATUSES`
pub data IndexStatus : Type 0 where
  pending building ready failed cancelled : IndexStatus

abbrev pub status_beq : IndexStatus → IndexStatus → Bool
status_beq pending pending = true
status_beq building building = true
status_beq ready ready = true
status_beq failed failed = true
status_beq cancelled cancelled = true
status_beq _ _ = false

pub record TranslationIndex : Type 0 where
  pub id : ℕ
  pub translation_id : ℕ
  pub scheme_id : ℕ
  pub scheme_explicit : Bool
  pub status : IndexStatus
  pub cancel_requested : Bool
  pub content_fingerprint : Option Text
  pub pending_reason : Option Text
  pub build_notes : Option Text
  pub last_error : Option Text
  pub pairs_total : ℕ
  pub pairs_completed : ℕ
  pub requested_at : ℕ
  pub started_at : Option ℕ
  pub completed_at : Option ℕ

pub record IndexMapping : Type 0 where
  pub source_index_id : ℕ
  pub target_index_id : ℕ
  pub source_ref : Text
  pub payload : Text

-- The ids of `index_reclaim` stand in the order of their requests.
pub record Tables : Type 0 where
  pub indexes : List TranslationIndex
  pub reclaim : List ℕ
  pub mappings : List IndexMapping

-- What is unique in the table.
abbrev pub pair_of : TranslationIndex → ℕ × ℕ
pair_of row = (row.translation_id, row.scheme_id)

-- `session.get(TranslationIndex, id)`
unfoldable pub find_row : ℕ → List TranslationIndex → Option TranslationIndex
find_row id [] = none
find_row id (row ∷ rows) = let rest = find_row id rows in if row.id == id then some row else rest

-- A change of the row with an id.
unfoldable pub on_row :
    ℕ → (TranslationIndex → TranslationIndex) → List TranslationIndex → List TranslationIndex
on_row id change [] = []
on_row id change (row ∷ rows) =
    let rest = on_row id change rows in if row.id == id then change row ∷ rows else row ∷ rest

unfoldable pub delete_row : ℕ → List TranslationIndex → List TranslationIndex
delete_row id [] = []
delete_row id (row ∷ rows) =
    let rest = delete_row id rows in if row.id == id then rows else row ∷ rest

-- Whether a row other than `id` has the pair.
unfoldable pub clashes : ℕ → ℕ × ℕ → List TranslationIndex → Bool
clashes id pair [] = false
clashes id pair (row ∷ rows) = (not (row.id == id) && pair_of row == pair) || clashes id pair rows

-- A change of every row that a query selects.
unfoldable pub on_rows :
    (TranslationIndex → Bool)
    → (TranslationIndex → TranslationIndex)
    → List TranslationIndex
    → List TranslationIndex
on_rows selects change [] = []
on_rows selects change (row ∷ rows) =
    let rest = on_rows selects change rows in if selects row then change row ∷ rest else row ∷ rest

unfoldable pub selected : (TranslationIndex → Bool) → List TranslationIndex → List TranslationIndex
selected selects [] = []
selected selects (row ∷ rows) =
    let rest = selected selects rows in if selects row then row ∷ rest else rest

abbrev pub ids : List TranslationIndex → List ℕ
ids = map (λ row. row.id)

-- `unique (translation_id, scheme_id)`, which the database checks at a flush.
unfoldable pub is_unique : List TranslationIndex → Bool
unfolding contains
is_unique [] = true
is_unique (row ∷ rows) = not (contains (pair_of row) (map pair_of rows)) && is_unique rows
