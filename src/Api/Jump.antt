-- ===== src/Api/Jump.antt =====
-- frvt/api/jump_cancel.py: whether a row of the jump menu lands on its own coordinate. `Memo` is what
-- one request has kept in its context, `ProcessCache` what the process keeps between requests. A
-- dictionary is a list of its entries.
pub mod Entries
pub mod Uncached
pub mod Filter
pub mod Content
pub mod Stale
pub mod Agree
pub mod Size
use versification_tool.Prelude.{
  ℕ, Bool, true, false, Option, none, some, List, [], ◌∷◌, ◌++◌, map, length, leb, if◌then◌else◌,
}
use versification_tool.Prelude.Equality.{Eq, nat_eq, pair_eq, option_eq, ◌==◌}
use versification_tool.Prelude.Texts.{Text, text_eq, codes}
use versification_tool.Resolver.Types.{
  Relation, partial, VerseId, SchemeRef, ResolvedSpan, Resolution, Hop, Raised, embedded_part,
  invalid_reference, reversed_range, cycle, no_scheme, no_shared_ancestor, key_missing, Result, ok,
  raised, ◌>>=◌, relation_eq,
}
use versification_tool.Resolver.Reference.{parse_ref, expand}
use versification_tool.Resolver.Cover.{with_part}
use versification_tool.Resolver.Chains.{
  Session, build_chain, nearest_shared_translation, hops_to_ancestor, hops_from_ancestor,
}
use versification_tool.Resolver.Assemble.{lands_on_itself, assemble, select_scheme}

-- `(navigation_ref, part)`
abbrev pub Navigation : Type 0
Navigation = Text × Option Text

-- `d.get(key)`
unfoldable pub get {ℓ κ} : {K : Type ℓ} {V : Type κ} ⦃by : Eq K⦄ → K → List (K × V) → Option V
get k [] = none
get k ((j, v) ∷ d) = let rest = get k d in if k == j then some v else rest

-- `d[key] = value`
unfoldable pub put {ℓ κ} :
    {K : Type ℓ} {V : Type κ} ⦃by : Eq K⦄ → K → V → List (K × V) → List (K × V)
put k v [] = (k, v) ∷ []
put k v ((j, w) ∷ d) = let rest = put k v d in if k == j then (j, v) ∷ d else (j, w) ∷ rest

-- `JumpCancelContext` without its caches
pub record Context : Type 0 where
  pub session : Session
  pub from_translation : ℕ
  pub to_translation : ℕ
  pub source_scheme : SchemeRef
  pub target_scheme : SchemeRef

-- The caches of a `JumpCancelContext`.
pub record Memo : Type 0 where
  pub cancel_cache : List (Navigation × Bool)
  pub resolution_cache : List (Navigation × Option Resolution)
  pub src_hops : Option (List Hop)
  pub tgt_hops : Option (List Hop)

-- The caches of a new request.
abbrev pub no_memo : Memo
no_memo = record { cancel_cache = []; resolution_cache = []; src_hops = none; tgt_hops = none }

abbrev pub ProcessCache : Type 0
ProcessCache = List (((ℕ × ℕ) × Navigation) × Bool)

abbrev pub process_cache_max : ℕ
process_cache_max = 8192

-- `except (ReferenceError, LookupError, ValueError)` catches these; a `KeyError` is a `LookupError`.
unfoldable pub is_caught : Raised → Bool
is_caught embedded_part = true
is_caught invalid_reference = true
is_caught reversed_range = true
is_caught cycle = true
is_caught no_scheme = true
is_caught no_shared_ancestor = true
is_caught key_missing = true
is_caught _ = false

-- Identity loci that are `partial` stay visible.
unfoldable pub is_canceling_resolution : Resolution → Bool
is_canceling_resolution dto =
    if dto.relation == partial then false else lands_on_itself dto.source_spans dto.target_spans

-- `", ".join(refs)`
unfoldable pub join_refs : List Text → Text
join_refs [] = []
join_refs (r ∷ []) = r
join_refs (r ∷ s ∷ refs) = r ++ codes ", " ++ join_refs (s ∷ refs)

unfoldable pub resolved_target_ref_from_dto : Resolution → Option Text
resolved_target_ref_from_dto dto = elim dto.target_spans [
  | [] ↦ none
  | s ∷ spans ↦ some (join_refs (map (λ span. span.ref) (s ∷ spans)))
]

-- `except ...: return None`; what is not caught goes on.
unfoldable pub fail_open : Result Resolution → Result (Option Resolution)
fail_open (ok dto) = ok (some dto)
fail_open (raised e) = if is_caught e then ok none else raised e

unfoldable pub remember_dto :
    Navigation → Result (Option Resolution) → Memo → Result (Option Resolution) × Memo
remember_dto n (raised e) m = (raised e, m)
remember_dto n (ok dto) m = (ok dto, record m { resolution_cache = put n dto m.resolution_cache })

-- The label of an optional result.
unfoldable pub label_of : Option Resolution → Option Text
label_of none = none
label_of (some dto) = resolved_target_ref_from_dto dto

unfoldable pub remember_cancel : Navigation → Bool → Memo → Memo
remember_cancel n b m = record m { cancel_cache = put n b m.cancel_cache }

-- `result`
unfoldable pub cancels_dto : Option Resolution → Bool
cancels_dto none = false
cancels_dto (some dto) = is_canceling_resolution dto

-- `_resolve_navigation` behind its path
unfoldable pub assemble_navigation :
    (List VerseId → List VerseId) → ℕ → Navigation → List Hop × List Hop → Result Resolution
assemble_navigation arrange fuel (navigation_ref, part) (src_hops, tgt_hops) =
    parse_ref navigation_ref >>= λ parsed.
    let members = elim part as (λ x. List VerseId) [
      | none ↦ expand parsed
      | some p ↦ map (with_part (some p)) (expand parsed)
    ] in
    assemble arrange fuel src_hops tgt_hops members

-- `self._src_hops, self._tgt_hops = ...`
unfoldable pub keep_path : Result (List Hop × List Hop) → Memo → Result (List Hop × List Hop) × Memo
keep_path (raised e) m = (raised e, m)
keep_path (ok (s, t)) m = (ok (s, t), record m { src_hops = some s; tgt_hops = some t })

-- The hop lists that a context holds; `none` where one of them is missing.
unfoldable pub held_path : Option (List Hop) → Option (List Hop) → Option (List Hop × List Hop)
held_path (some s) (some t) = some (s, t)
held_path _ _ = none

module _ (chain_fuel : ℕ) (c : Context) where
  -- The hop lists where the context does not hold both.
  unfoldable pub load_path : Result (List Hop × List Hop)
  load_path = do
    src ← select_scheme c.session (some c.source_scheme) (some c.from_translation)
    tgt ← select_scheme c.session (some c.target_scheme) (some c.to_translation)
    src_chain ← build_chain c.session chain_fuel src
    tgt_chain ← build_chain c.session chain_fuel tgt
    ancestor ← nearest_shared_translation c.session src_chain tgt_chain
    ok (hops_to_ancestor src_chain ancestor, hops_from_ancestor tgt_chain ancestor)

  abbrev pub path_or_load :
      Option (List Hop × List Hop) → Memo → Result (List Hop × List Hop) × Memo
  path_or_load (some path) m = (ok path, m)
  path_or_load none m = keep_path load_path m

  unfoldable pub resolve_path : Memo → Result (List Hop × List Hop) × Memo
  resolve_path m = path_or_load (held_path m.src_hops m.tgt_hops) m

-- A full cache is emptied.
unfoldable pub make_room : ProcessCache → ProcessCache
make_room p = if leb process_cache_max (length p) then [] else p

module _ (c : Context) where
  abbrev pub process_key : Navigation → (ℕ × ℕ) × Navigation
  process_key n = ((c.source_scheme.scheme_id, c.target_scheme.scheme_id), n)

  unfoldable pub remember_process : Navigation → Bool → ProcessCache → ProcessCache
  remember_process n b p = put (process_key n) b (make_room p)

  -- What a computed result leaves in the caches.
  abbrev pub keep_cancel :
      Navigation
      → Result (Option Resolution)
      → Memo
      → ProcessCache
      → Result Bool × Memo × ProcessCache
  keep_cancel n (raised e) m p = (raised e, m, p)
  keep_cancel n (ok dto) m p =
      let result = cancels_dto dto in
      (ok result, remember_cancel n result m, remember_process n result p)

-- `continue` or `kept.append(row)`, and the rest of the loop
abbrev pub keep_row {ℓ} :
    {Row : Type ℓ}
    → Row
    → Result Bool × Memo × ProcessCache
    → Result (List Row) × Memo × ProcessCache
    → Result (List Row) × Memo × ProcessCache
keep_row row (raised e, m, p) rest = (raised e, m, p)
keep_row row (ok b, m, p) (rest, m2, p2) =
    (rest >>= λ kept. ok (if b then kept else row ∷ kept), m2, p2)

module _ (arrange : List VerseId → List VerseId) (chain_fuel fuel : ℕ) (c : Context) where
  unfoldable pub resolve_navigation : Navigation → Memo → Result Resolution × Memo
  resolve_navigation n m =
      let (path, kept) = resolve_path chain_fuel c m in
      (path >>= assemble_navigation arrange fuel n, kept)

  abbrev pub dto_or_resolve :
      Option (Option Resolution) → Navigation → Memo → Result (Option Resolution) × Memo
  dto_or_resolve (some dto) n m = (ok dto, m)
  dto_or_resolve none n m =
      let (dto, kept) = resolve_navigation n m in remember_dto n (fail_open dto) kept

  unfoldable pub resolve_navigation_dto : Navigation → Memo → Result (Option Resolution) × Memo
  resolve_navigation_dto n m = dto_or_resolve (get n m.resolution_cache) n m

  unfoldable pub resolved_target_ref_for_jump : Navigation → Memo → Result (Option Text) × Memo
  resolved_target_ref_for_jump n m =
      let (dto, kept) = resolve_navigation_dto n m in (dto >>= λ d. ok (label_of d), kept)

  -- With what the cache of the request and that of the process give.
  abbrev pub answer_or_compute :
      Option Bool
      → Option Bool
      → Navigation
      → Memo
      → ProcessCache
      → Result Bool × Memo × ProcessCache
  answer_or_compute (some b) _ n m p = (ok b, m, p)
  answer_or_compute none (some b) n m p = (ok b, remember_cancel n b m, p)
  answer_or_compute none none n m p =
      let (dto, kept) = resolve_navigation_dto n m in keep_cancel c n dto kept p

  unfoldable pub is_canceling_jump_entry :
      Navigation → Memo → ProcessCache → Result Bool × Memo × ProcessCache
  is_canceling_jump_entry n m p =
      answer_or_compute (get n m.cancel_cache) (get (process_key c n) p) n m p

  -- With the navigation of a row, or what it raised.
  abbrev pub is_canceling_row :
      Result Navigation → Memo → ProcessCache → Result Bool × Memo × ProcessCache
  is_canceling_row (raised e) m p = (raised e, m, p)
  is_canceling_row (ok n) m p = is_canceling_jump_entry n m p

  -- The rows that do not cancel, with the caches behind the last row that was looked at.
  unfoldable pub filter_canceling_jump_rows {ℓ} :
      {Row : Type ℓ}
      → (Row → Result Navigation)
      → List Row
      → Memo
      → ProcessCache
      → Result (List Row) × Memo × ProcessCache
  filter_canceling_jump_rows navigation_for_row [] m p = (ok [], m, p)
  filter_canceling_jump_rows navigation_for_row (row ∷ rows) m p =
      let answer = is_canceling_row (navigation_for_row row) m p in
      keep_row row answer (filter_canceling_jump_rows navigation_for_row rows answer.1 answer.2)
