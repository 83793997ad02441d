-- ===== src/Api/Jump/Uncached.antt =====
-- frvt/api/jump_cancel.py without its caches.
use versification_tool.Prelude.{
  ℕ, ◌≡◌, refl, sym, ap, ◌∙◌, inl, inr, Bool, Option, none, some, List, [], Bool-cases, leb, length,
}
use versification_tool.Prelude.Equality.{nat_eq, pair_eq, option_eq}
use versification_tool.Prelude.Texts.{text_eq}
use versification_tool.Resolver.Types.{VerseId, Resolution, Hop, Result, ok, raised, ◌>>=◌}
use versification_tool.Api.Jump.{
  Navigation, get, Context, Memo, no_memo, ProcessCache, load_path, keep_path, held_path,
  path_or_load, resolve_path, dto_or_resolve, keep_cancel, answer_or_compute, assemble_navigation,
  resolve_navigation, fail_open, remember_dto, resolve_navigation_dto, cancels_dto, process_key,
  remember_cancel, remember_process, make_room, process_cache_max, is_canceling_jump_entry,
}
use versification_tool.Api.Jump.Entries.{get-put}

module _ (arrange : List VerseId → List VerseId) (chain_fuel fuel : ℕ) (c : Context) where
  -- What a navigation resolves to.
  unfoldable pub navigate : Navigation → Result Resolution
  navigate n = load_path chain_fuel c >>= assemble_navigation arrange fuel n

  unfoldable pub resolved : Navigation → Result (Option Resolution)
  resolved n = fail_open (navigate n)

  -- Whether it cancels.
  unfoldable pub cancels : Navigation → Result Bool
  cancels n = resolved n >>= λ d. ok (cancels_dto d)

  -- The caches of a request hold what the functions without caches return.
  pub record IsTruthful (m : Memo) : Type 0 where
    pub paths :
        (s t : List Hop)
        → m.src_hops ≡ some s
        → m.tgt_hops ≡ some t
        → load_path chain_fuel c ≡ ok (s, t)
    pub resolutions :
        (n : Navigation) (d : Option Resolution)
        → get n m.resolution_cache ≡ some d
        → resolved n ≡ ok d
    pub answers : (n : Navigation) (b : Bool) → get n m.cancel_cache ≡ some b → cancels n ≡ ok b

  -- So does the cache of the process, for the schemes of the request.
  pub record IsTruthfulProcess (p : ProcessCache) : Type 0 where
    pub entries : (n : Navigation) (b : Bool) → get (process_key c n) p ≡ some b → cancels n ≡ ok b

  keep_path-IsTruthful :
      (m : Memo) (path : Result (List Hop × List Hop))
      → load_path chain_fuel c ≡ path
      → IsTruthful m
      → ((keep_path path m).0 ≡ path) × IsTruthful (keep_path path m).1
  unfolding keep_path
  keep_path-IsTruthful m (raised x) e h = (refl, h)
  keep_path-IsTruthful m (ok (s, t)) e h =
      (refl, record { paths = λ x y f g. cc; resolutions = h.resolutions; answers = h.answers })

  path_or_load-IsTruthful :
      (m : Memo) (held : Option (List Hop × List Hop))
      → ((path : List Hop × List Hop) → held ≡ some path → load_path chain_fuel c ≡ ok path)
      → IsTruthful m
      → ((path_or_load chain_fuel c held m).0 ≡ load_path chain_fuel c)
        × IsTruthful (path_or_load chain_fuel c held m).1
  path_or_load-IsTruthful m (some path) e h = (sym (e path refl), h)
  path_or_load-IsTruthful m none e h = keep_path-IsTruthful m (load_path chain_fuel c) refl h

  held_path-load_path :
      (s t : Option (List Hop)) (path : List Hop × List Hop)
      → held_path s t ≡ some path
      → (s ≡ some path.0) × (t ≡ some path.1)
  unfolding held_path
  held_path-load_path (some s) (some t) path e = (cc, cc)
  held_path-load_path (some s) none path e = cc
  held_path-load_path none t path e = cc

  resolve_path-IsTruthful :
      (m : Memo)
      → IsTruthful m
      → ((resolve_path chain_fuel c m).0 ≡ load_path chain_fuel c)
        × IsTruthful (resolve_path chain_fuel c m).1
  unfolding resolve_path
  resolve_path-IsTruthful m h =
      path_or_load-IsTruthful m (held_path m.src_hops m.tgt_hops)
        (λ path e.
          let held = held_path-load_path m.src_hops m.tgt_hops path e in
          h.paths path.0 path.1 held.0 held.1)
        h

  remember_dto-IsTruthful :
      (n : Navigation) (m : Memo) (d : Result (Option Resolution))
      → resolved n ≡ d
      → IsTruthful m
      → ((remember_dto n d m).0 ≡ d) × IsTruthful (remember_dto n d m).1
  unfolding remember_dto
  remember_dto-IsTruthful n m (raised x) e h = (refl, h)
  remember_dto-IsTruthful n m (ok d) e h = (
    refl,
    record {
      paths = h.paths;
      answers = h.answers;
      resolutions = λ j w f. elim (get-put j n m.resolution_cache f) [
        | inl (same, v) ↦ ap resolved same ∙ e ∙ ap (λ (o : Option Resolution). ok o) v
        | inr old ↦ h.resolutions j w old
      ];
    },
  )

  dto_or_resolve-resolved :
      (n : Navigation) (m : Memo) (held : Option (Option Resolution))
      → ((d : Option Resolution) → held ≡ some d → resolved n ≡ ok d)
      → IsTruthful m
      → ((dto_or_resolve arrange chain_fuel fuel c held n m).0 ≡ resolved n)
        × IsTruthful (dto_or_resolve arrange chain_fuel fuel c held n m).1
  unfolding resolve_navigation resolved navigate
  dto_or_resolve-resolved n m (some d) e h = (sym (e d refl), h)
  dto_or_resolve-resolved n m none e h =
      let (same, kept) = resolve_path-IsTruthful m h in
      let found =
        ap
          (λ (r : Result (List Hop × List Hop)).
            fail_open (r >>= assemble_navigation arrange fuel n))
          (sym same) in
      let after = remember_dto-IsTruthful n (resolve_path chain_fuel c m).1 _ found kept in
      (after.0 ∙ sym found, after.1)

  -- The cache of results gives what resolving gives.
  pub resolve_navigation_dto-resolved :
      (n : Navigation) (m : Memo)
      → IsTruthful m
      → ((resolve_navigation_dto arrange chain_fuel fuel c n m).0 ≡ resolved n)
        × IsTruthful (resolve_navigation_dto arrange chain_fuel fuel c n m).1
  unfolding resolve_navigation_dto
  resolve_navigation_dto-resolved n m h =
      dto_or_resolve-resolved n m (get n m.resolution_cache) (h.resolutions n) h

  -- An answer and the caches that it leaves.
  abbrev Answers : Result Bool → Navigation → Result Bool × Memo × ProcessCache → Type 0
  Answers expected n out = (out.0 ≡ expected) × IsTruthful out.1 × IsTruthfulProcess out.2

  remember_cancel-IsTruthful :
      (n : Navigation) (b : Bool) (m : Memo)
      → cancels n ≡ ok b
      → IsTruthful m
      → IsTruthful (remember_cancel n b m)
  unfolding remember_cancel
  remember_cancel-IsTruthful n b m e h = record {
    paths = h.paths;
    resolutions = h.resolutions;
    answers = λ j w f. elim (get-put j n m.cancel_cache f) [
      | inl (same, v) ↦ ap cancels same ∙ e ∙ ap (λ (o : Bool). ok o) v
      | inr old ↦ h.answers j w old
    ];
  }

  -- A new request and a new process start truthful.
  pub no_memo-IsTruthful : IsTruthful no_memo
  unfolding get
  no_memo-IsTruthful = record {
    paths = λ s t e f. cc;
    resolutions = λ n d e. cc;
    answers = λ n b e. cc;
  }

  pub empty-IsTruthfulProcess : IsTruthfulProcess []
  unfolding get
  empty-IsTruthfulProcess = record { entries = λ n b e. cc }

  make_room-IsTruthful : (p : ProcessCache) → IsTruthfulProcess p → IsTruthfulProcess (make_room p)
  unfolding make_room
  make_room-IsTruthful p k = elim (Bool-cases (leb process_cache_max (length p))) [
    | inl t ↦ simp t empty-IsTruthfulProcess
    | inr f ↦ simp f k
  ]

  remember_process-IsTruthful :
      (n : Navigation) (b : Bool) (p : ProcessCache)
      → cancels n ≡ ok b
      → IsTruthfulProcess p
      → IsTruthfulProcess (remember_process c n b p)
  unfolding remember_process
  remember_process-IsTruthful n b p e k =
      let roomy = make_room-IsTruthful p k in
      record {
        entries = λ j w f. elim (get-put (process_key c j) (process_key c n) (make_room p) f) [
          | inl (same, v) ↦
              ap (λ (q : (ℕ × ℕ) × Navigation). cancels q.1) same ∙ e ∙ ap (λ (o : Bool). ok o) v
          | inr old ↦ roomy.entries j w old
        ];
      }

  keep_cancel-cancels :
      (n : Navigation) (d : Result (Option Resolution)) (m : Memo) (p : ProcessCache)
      → resolved n ≡ d
      → IsTruthful m
      → IsTruthfulProcess p
      → Answers (d >>= λ o. ok (cancels_dto o)) n (keep_cancel c n d m p)
  unfolding cancels
  keep_cancel-cancels n (raised x) m p e h k = (refl, h, k)
  keep_cancel-cancels n (ok o) m p e h k =
      let known : cancels n ≡ ok (cancels_dto o) =
        ap (λ (r : Result (Option Resolution)). r >>= λ d. ok (cancels_dto d)) e in
      (
        refl,
        remember_cancel-IsTruthful n (cancels_dto o) m known h,
        remember_process-IsTruthful n (cancels_dto o) p known k,
      )

  answer_or_compute-cancels :
      (kept shared : Option Bool) (n : Navigation) (m : Memo) (p : ProcessCache)
      → ((b : Bool) → kept ≡ some b → cancels n ≡ ok b)
      → ((b : Bool) → shared ≡ some b → cancels n ≡ ok b)
      → IsTruthful m
      → IsTruthfulProcess p
      → Answers (cancels n) n (answer_or_compute arrange chain_fuel fuel c kept shared n m p)
  unfolding cancels
  answer_or_compute-cancels (some b) shared n m p e f h k = (sym (e b refl), h, k)
  answer_or_compute-cancels none (some b) n m p e f h k =
      (sym (f b refl), remember_cancel-IsTruthful n b m (f b refl) h, k)
  answer_or_compute-cancels none none n m p e f h k =
      let (same, kept) = resolve_navigation_dto-resolved n m h in
      let (now, after, process) = keep_cancel-cancels n _ _ p (sym same) kept k in
      (
        now ∙ ap (λ (r : Result (Option Resolution)). r >>= λ d. ok (cancels_dto d)) same,
        after,
        process,
      )

  -- From truthful caches the answer is the one that is found without caches, and the caches stay
  -- truthful.
  pub is_canceling_jump_entry-cancels :
      (n : Navigation) (m : Memo) (p : ProcessCache)
      → IsTruthful m
      → IsTruthfulProcess p
      → ((is_canceling_jump_entry arrange chain_fuel fuel c n m p).0 ≡ cancels n)
        × IsTruthful (is_canceling_jump_entry arrange chain_fuel fuel c n m p).1
        × IsTruthfulProcess (is_canceling_jump_entry arrange chain_fuel fuel c n m p).2
  unfolding is_canceling_jump_entry
  is_canceling_jump_entry-cancels n m p h k =
      answer_or_compute-cancels (get n m.cancel_cache) (get (process_key c n) p) n m p (h.answers n)
        (k.entries n) h k
