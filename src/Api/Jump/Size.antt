-- ===== src/Api/Jump/Size.antt =====
-- The size of the cache that frvt/api/jump_cancel.py keeps between requests.
use versification_tool.Prelude.{
  ℕ, suc, ◌≤◌, inl, inr, Bool, Option, none, some, List, [], ◌∷◌, length, leb, Bool-cases, arith,
}
use versification_tool.Prelude.Equality.{nat_eq, pair_eq, option_eq}
use versification_tool.Prelude.Texts.{text_eq}
use versification_tool.Resolver.Types.{VerseId, Resolution, Result, ok, raised}
use versification_tool.Api.Jump.{
  Navigation, get, Context, Memo, ProcessCache, process_cache_max, make_room, process_key,
  remember_process, cancels_dto, keep_cancel, answer_or_compute, is_canceling_jump_entry,
  is_canceling_row, keep_row, filter_canceling_jump_rows,
}
use versification_tool.Api.Jump.Entries.{length-put}

length-make_room : (p : ProcessCache) → suc (length (make_room p)) ≤ process_cache_max
unfolding make_room
length-make_room p = elim (Bool-cases (leb process_cache_max (length p))) [
  | inl t ↦ simp t (omega arith)
  | inr f ↦ simp f (ground (arith, f))
]

-- Whether a cache is within its bound.
abbrev Fits : ProcessCache → Type 0
Fits p = length p ≤ process_cache_max

keep_cancel-Fits :
    (c : Context) (n : Navigation) (d : Result (Option Resolution)) (m : Memo) (p : ProcessCache)
    → Fits p
    → Fits (keep_cancel c n d m p).2
unfolding remember_process
keep_cancel-Fits c n (raised e) m p h = h
keep_cancel-Fits c n (ok d) m p h =
    let room = length-make_room p in
    let grown = length-put (process_key c n) (cancels_dto d) (make_room p) in omega arith

keep_row-Fits {ℓ} :
    {Row : Type ℓ} (row : Row) (answer : Result Bool × Memo × ProcessCache)
    (out : Result (List Row) × Memo × ProcessCache)
    → Fits answer.2
    → Fits out.2
    → Fits (keep_row row answer out).2
keep_row-Fits row (raised e, m, p) out h k = h
keep_row-Fits row (ok b, m, p) out h k = k

module _ (arrange : List VerseId → List VerseId) (chain_fuel fuel : ℕ) (c : Context) where
  answer_or_compute-Fits :
      (kept shared : Option Bool) (n : Navigation) (m : Memo) (p : ProcessCache)
      → Fits p
      → Fits (answer_or_compute arrange chain_fuel fuel c kept shared n m p).2
  answer_or_compute-Fits (some b) shared n m p h = h
  answer_or_compute-Fits none (some b) n m p h = h
  answer_or_compute-Fits none none n m p h = keep_cancel-Fits c n _ _ p h

  is_canceling_row-Fits :
      (n : Result Navigation) (m : Memo) (p : ProcessCache)
      → Fits p
      → Fits (is_canceling_row arrange chain_fuel fuel c n m p).2
  unfolding is_canceling_jump_entry
  is_canceling_row-Fits (raised e) m p h = h
  is_canceling_row-Fits (ok n) m p h =
      answer_or_compute-Fits (get n m.cancel_cache) (get (process_key c n) p) n m p h

  -- A filter leaves the cache of the process within its bound, whatever the rows and the errors.
  pub filter_canceling_jump_rows-bounded {ℓ} :
      {Row : Type ℓ} (navigation_for_row : Row → Result Navigation) (rows : List Row) (m : Memo)
      (p : ProcessCache)
      → length p ≤ process_cache_max
      → length (filter_canceling_jump_rows arrange chain_fuel fuel c navigation_for_row rows m p).2
        ≤ process_cache_max
  unfolding filter_canceling_jump_rows
  filter_canceling_jump_rows-bounded navigation_for_row [] m p h = h
  filter_canceling_jump_rows-bounded navigation_for_row (row ∷ rows) m p h =
      let first = is_canceling_row-Fits (navigation_for_row row) m p h in
      keep_row-Fits row _ _ first
        (filter_canceling_jump_rows-bounded navigation_for_row rows _ _ first)
