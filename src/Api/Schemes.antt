-- ===== src/Api/Schemes.antt =====
-- frvt/api/scheme_select.py: bounds of a page, and the scheme that a request selects. What the code
-- reads from the database is a field of `Database`. An `AppError` is its status; its message and code
-- are left out.
pub mod Bounds
pub mod Fallback
use versification_tool.Prelude.{
  ℕ, zero, suc, Bool, true, false, Option, none, some, leb, ltb, if◌then◌else◌,
}
use versification_tool.Resolver.Types.{SchemeRef}

-- Python's integers, as far as a query parameter needs them: `pos n`, and `negsuc n` for `-1 - n`.
pub data ℤ : Type 0 where
  pos negsuc : ℕ → ℤ

-- What a request gets: a value, or an `AppError` of a status.
pub data Reply {ℓ} (A : Type ℓ) : Type ℓ where
  reply : A → Reply A
  refused : ℕ → Reply A

abbrev pub default_limit : ℕ
default_limit = 100

abbrev pub max_limit : ℕ
max_limit = 500

-- `resolved_limit`
abbrev pub or_default : ℕ → Option ℤ → ℤ
or_default d none = pos d
or_default d (some n) = n

-- `if resolved_offset < 0: resolved_offset = 0`
abbrev pub not_negative : ℤ → ℕ
not_negative (pos n) = n
not_negative (negsuc n) = 0

-- The guards on a limit.
unfoldable pub check_limit : ℤ → Reply ℕ
check_limit (negsuc n) = refused 422
check_limit (pos n) =
    if ltb n 1 then refused 422 else if ltb max_limit n then refused 422 else reply n

unfoldable pub clamp_page : Option ℤ → Option ℤ → Reply (ℕ × ℕ)
clamp_page limit offset = elim (check_limit (or_default default_limit limit)) [
  | refused status ↦ refused status
  | reply l ↦ reply (l, not_negative (or_default 0 offset))
]

-- The rows that the queries find: a translation and a scheme by key, whether a scheme is associated
-- with a translation, the scheme that a translation prefers, and the canonical scheme `org`.
pub record Database {ℓ} (Translation : Type ℓ) : Type ℓ where
  pub get_translation : ℕ → Option Translation
  pub get_scheme : ℕ → Option SchemeRef
  pub associated : ℕ → ℕ → Bool
  pub preferred : ℕ → Option ℕ
  pub org : Option SchemeRef

module _ {ℓ} {Translation : Type ℓ} (session : Database Translation) where
  unfoldable pub require_translation : ℕ → Reply Translation
  require_translation translation_id = elim (session.get_translation translation_id) [
    | none ↦ refused 404
    | some t ↦ reply t
  ]

  unfoldable pub require_scheme : ℕ → Reply SchemeRef
  require_scheme scheme_id = elim (session.get_scheme scheme_id) [
    | none ↦ refused 404
    | some s ↦ reply s
  ]

  unfoldable pub preferred_association : ℕ → Option ℕ
  preferred_association translation_id = session.preferred translation_id

  -- The branch with an override.
  unfoldable pub override_scheme : ℕ → ℕ → Reply SchemeRef
  override_scheme translation_id scheme_id = elim (session.get_scheme scheme_id) [
    | none ↦ refused 404
    | some s ↦ if session.associated translation_id scheme_id then reply s else refused 409
  ]

  unfoldable pub selected_scheme_ref : ℕ → Option ℕ → Reply SchemeRef
  unfolding override_scheme
  selected_scheme_ref translation_id (some scheme_id) = override_scheme translation_id scheme_id
  selected_scheme_ref translation_id none = elim (preferred_association translation_id) [
    | none ↦ refused 409
    | some scheme_id ↦ require_scheme scheme_id
  ]

  unfoldable pub org_scheme_ref : Reply SchemeRef
  org_scheme_ref = elim session.org [ none ↦ refused 409 | some s ↦ reply s ]

  unfoldable pub batch_scheme_ref : ℕ → Option ℕ → Reply SchemeRef
  batch_scheme_ref translation_id (some scheme_id) =
      selected_scheme_ref translation_id (some scheme_id)
  batch_scheme_ref translation_id none = elim (preferred_association translation_id) [
    | none ↦ org_scheme_ref
    | some scheme_id ↦ require_scheme scheme_id
  ]
