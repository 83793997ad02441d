-- ===== src/Api/Jump/Stale.antt =====
-- Two requests of frvt/api/jump_cancel.py with the same schemes: the cache of the process does not
-- look at what the schemes hold.
use versification_tool.Prelude.{
  ℕ, ◌≡◌, refl, sym, ap, ◌∙◌, Bool, Option, none, some, List, some_inj,
}
use versification_tool.Prelude.Equality.{nat_eq, pair_eq, option_eq}
use versification_tool.Prelude.Texts.{text_eq}
use versification_tool.Resolver.Types.{VerseId, Resolution, Result, ok, raised, ok_inj}
use versification_tool.Api.Jump.{
  Navigation, get, Context, Memo, no_memo, ProcessCache, process_key, remember_process, keep_cancel,
  answer_or_compute, is_canceling_jump_entry,
}
use versification_tool.Api.Jump.Entries.{get-put_same}

keep_cancel-process :
    (c : Context) (n : Navigation) (d : Result (Option Resolution)) (m : Memo) (p : ProcessCache)
    (b : Bool)
    → (keep_cancel c n d m p).0 ≡ ok b
    → get (process_key c n) (keep_cancel c n d m p).2 ≡ some b
unfolding remember_process
keep_cancel-process c n (raised e) m p b h = cc
keep_cancel-process c n (ok d) m p b h = get-put_same _ _ _ ∙ ap (λ (x : Bool). some x) (ok_inj h)

module _ (arrange : List VerseId → List VerseId) (chain_fuel fuel : ℕ) where
  answer_or_compute-process :
      (c : Context) (shared : Option Bool) (n : Navigation) (m : Memo) (p : ProcessCache) (b : Bool)
      → shared ≡ get (process_key c n) p
      → (answer_or_compute arrange chain_fuel fuel c none shared n m p).0 ≡ ok b
      → get (process_key c n) (answer_or_compute arrange chain_fuel fuel c none shared n m p).2
        ≡ some b
  answer_or_compute-process c (some a) n m p b e h = sym e ∙ ap (λ (x : Bool). some x) (ok_inj h)
  answer_or_compute-process c none n m p b e h = keep_cancel-process c n _ _ p b h

  answer_or_compute-shared :
      (c : Context) (shared : Option Bool) (n : Navigation) (m : Memo) (p : ProcessCache) (b : Bool)
      → shared ≡ some b
      → (answer_or_compute arrange chain_fuel fuel c none shared n m p).0 ≡ ok b
  answer_or_compute-shared c (some a) n m p b e = ap (λ (x : Bool). ok x) (some_inj e)
  answer_or_compute-shared c none n m p b e = cc

  -- What a new request is answered, the next new request with schemes of the same ids is answered
  -- too, whatever the mappings of the schemes are by then.
  pub is_canceling_jump_entry-repeats :
      (c d : Context) (n : Navigation) (p : ProcessCache) (b : Bool)
      → c.source_scheme.scheme_id ≡ d.source_scheme.scheme_id
      → c.target_scheme.scheme_id ≡ d.target_scheme.scheme_id
      → (is_canceling_jump_entry arrange chain_fuel fuel c n no_memo p).0 ≡ ok b
      → (is_canceling_jump_entry arrange chain_fuel fuel d n no_memo
          (is_canceling_jump_entry arrange chain_fuel fuel c n no_memo p).2).0
        ≡ ok b
  unfolding is_canceling_jump_entry get
  is_canceling_jump_entry-repeats c d n p b source target h =
      let left = (is_canceling_jump_entry arrange chain_fuel fuel c n no_memo p).2 in
      let key : process_key d n ≡ process_key c n = cc in
      let found = answer_or_compute-process c (get (process_key c n) p) n no_memo p b refl h in
      answer_or_compute-shared d (get (process_key d n) left) n no_memo left b
        (ap (λ (k : (ℕ × ℕ) × Navigation). get k left) key ∙ found)
