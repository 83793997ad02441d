-- ===== src/Api/Limiter/Refines.antt =====
-- frvt/api/failed_auth_limiter.py against a limiter that forgets nothing: the history is the list of
-- all failures, and an answer counts those of an address within the window.
use versification_tool.Prelude.{
  ℕ, zero, suc, ◌≤◌, ◌≡◌, refl, ap, ◌∙◌, ◌≢◌, true, Option, none, some, List, [], ◌∷◌, ◌++◌, length,
  leb, inl, inr, Bool-cases, arith, if◌then◌else◌,
}
use mathlib.Core.List.{append-nil}
use versification_tool.Prelude.Equality.{nat_eq, ◌==◌, contains}
use versification_tool.Prelude.Distinct.{length-le_of_distinct}
use versification_tool.Prelude.Texts.{Text, text_eq, text_beq_iff}
use versification_tool.Api.Limiter.{
  Failures, Settings, stamps_of, store, delete_all, expired, in_window, verdict, enabled,
  evict_if_needed, evict_loop, register_failure,
}
use versification_tool.Api.Limiter.Evict.{
  keys, IsStored, length-keys, store-IsStored, delete_all-IsStored, append-ne_nil,
}
use versification_tool.Api.Limiter.Window.{
  stamps_of-store, in_window-append, in_window-in_window, delete_all-expired-live,
  delete_all-expired-window,
}

-- Every failure so far, by address and time, in order.
abbrev pub History : Type 0
History = List (Text × ℕ)

-- The times of one address.
unfoldable pub failures_of : Text → History → List ℕ
failures_of ip [] = []
failures_of ip ((k, t) ∷ h) = let rest = failures_of ip h in if k == ip then t ∷ rest else rest

failures_of-append :
    (ip : Text) (h g : History) → failures_of ip (h ++ g) ≡ failures_of ip h ++ failures_of ip g
unfolding failures_of
failures_of-append ip [] g = refl
failures_of-append ip ((k, t) ∷ h) g = ground (arith, failures_of-append ip h g)

module _ (c : Settings) where
  -- What the ideal limiter answers to a failure at `now`: a refusal exactly if the failures of the
  -- address within the window, with this one, are more than the limit. The client is to wait until
  -- the first of them has left the window.
  unfoldable pub answer : Text → ℕ → History → Option ℕ
  answer ip now h = verdict c now (in_window c now (failures_of ip h) ++ (now ∷ []))

  -- Whatever window opens from `now` on, the store and the history show the same failures in it.
  pub record Represents (s : Failures) (h : History) (now : ℕ) : Type 0 where
    pub stored : IsStored s
    pub agrees :
        (ip : Text) (later : ℕ)
        → now ≤ later
        → in_window c later (stamps_of ip s) ≡ in_window c later (failures_of ip h)

  -- At most as many addresses as the cap have a failure within the window.
  pub record IsCalm (now : ℕ) (h : History) : Type 0 where
    pub active : List Text
    pub few : length active ≤ c.max_keys
    pub listed : (ip : Text) → in_window c now (failures_of ip h) ≢ [] → contains ip active ≡ true

  loop-stops : (fuel : ℕ) (s : Failures) → length s ≤ c.max_keys → evict_loop c fuel s ≡ some s
  unfolding evict_loop
  loop-stops zero s h = ground (arith, h)
  loop-stops (suc fuel) s h =
      let few : leb (length s) c.max_keys ≡ true = ground (arith, h) in rw few

  module _ (ip : Text) (now before : ℕ) (s : Failures) (h : History) (ordered : before ≤ now)
      (r : Represents s h before) where
    abbrev recent : List ℕ
    recent = in_window c now (stamps_of ip s) ++ (now ∷ [])

    abbrev extended : History
    extended = h ++ ((ip, now) ∷ [])

    kept_after : IsStored (store ip recent s)
    kept_after =
        store-IsStored ip recent s (append-ne_nil (in_window c now (stamps_of ip s)) now) r.stored

    same-agrees :
        (later : ℕ)
        → now ≤ later
        → in_window c later recent ≡ in_window c later (failures_of ip extended)
    unfolding failures_of
    same-agrees later le =
        let own : (ip == ip) ≡ true = (text_beq_iff ip ip).1 refl in
        let left = in_window-append c later (in_window c now (stamps_of ip s)) (now ∷ []) in
        let right = in_window-append c later (failures_of ip h) (now ∷ []) in
        rw (
          left,
          in_window-in_window c now later (stamps_of ip s) le,
          failures_of-append ip h ((ip, now) ∷ []),
          own,
          right,
          r.agrees ip later (omega arith),
        )

    store-agrees :
        (k : Text) (later : ℕ)
        → now ≤ later
        → in_window c later (stamps_of k (store ip recent s))
          ≡ in_window c later (failures_of k extended)
    unfolding failures_of
    store-agrees k later le = elim (Bool-cases (ip == k)) [
      | inl t ↦
          rw (stamps_of-store ip k recent s, t)
            (same-agrees later le
              ∙ ap (λ (x : Text). in_window c later (failures_of x extended))
                  ((text_beq_iff ip k).0 t))
      | inr f ↦
          rw
            (
              stamps_of-store ip k recent s,
              f,
              failures_of-append k h ((ip, now) ∷ []),
              f,
              append-nil,
            )
            (r.agrees k later (omega arith))
    ]

    -- What is left after expiry is not more than the cap.
    expiry-fits :
        IsCalm now extended
        → length (delete_all (expired c now (store ip recent s)) (store ip recent s)) ≤ c.max_keys
    expiry-fits calm =
        let put = store ip recent s in
        let left = delete_all (expired c now put) put in
        let kept = delete_all-IsStored (expired c now put) put kept_after in
        let fits : length (keys left) ≤ length calm.active =
          length-le_of_distinct (keys left) calm.active kept.distinct (λ k m. calm.listed k (λ e.
            delete_all-expired-live c now k put kept_after m
              (store-agrees k now (omega arith) ∙ e))) in
        omega (arith, length-keys left, calm.few)

    evict-Represents :
        IsCalm now extended
        → (left : Failures) × (evict_if_needed c now (store ip recent s) ≡ some left)
          × Represents left extended now
    unfolding evict_if_needed
    evict-Represents calm =
        let put = store ip recent s in
        let left = delete_all (expired c now put) put in
        elim (Bool-cases (leb (length put) c.max_keys)) [
          | inl few ↦ (put, rw few, record { stored = kept_after; agrees = store-agrees })
          | inr many ↦ (
            left,
            rw many (loop-stops (length left) left (expiry-fits calm)),
            record {
              stored = delete_all-IsStored (expired c now put) put kept_after;
              agrees = λ k later le.
                  delete_all-expired-window c now later k put kept_after le
                  ∙ store-agrees k later le;
            },
          )
        ]

    -- Where at most as many addresses as the cap have a failure within the window, a limiter whose
    -- store agrees with a history answers as one that forgets nothing does, and its store agrees with
    -- the longer history.
    pub register_failure-Represents :
        enabled c ≡ true
        → IsCalm now extended
        → (left : Failures) × (register_failure c ip now s ≡ some (left, answer ip now h))
          × Represents left extended now
    unfolding register_failure answer
    register_failure-Represents on calm =
        let (left, e, after) = evict-Represents calm in
        let same : in_window c now (stamps_of ip s) ≡ in_window c now (failures_of ip h) =
          r.agrees ip now ordered in
        (
          left,
          rw (on, e, register_failure)
              (ap (λ (ts : List ℕ). some (left, verdict c now (ts ++ (now ∷ [])))) same),
          after,
        )

  -- The failures one after another: the store at the end, and the answers.
  unfoldable pub run : History → Failures → Option (Failures × List (Option ℕ))
  run [] s = some (s, [])
  run ((ip, now) ∷ events) s = elim (register_failure c ip now s) [
    | none ↦ none
    | some (left, reply) ↦ elim (run events left) [
      | none ↦ none
      | some (last, replies) ↦ some (last, reply ∷ replies)
    ]
  ]

  unfoldable pub answers : History → History → List (Option ℕ)
  answers h [] = []
  answers h ((ip, now) ∷ events) = answer ip now h ∷ answers (h ++ ((ip, now) ∷ [])) events

  -- The clock does not go back, and whenever a failure comes, at most as many addresses as the cap
  -- have one within the window.
  abbrev pub IsCalmRun : ℕ → History → History → Type 0
  IsCalmRun before h [] = Unit {0}
  IsCalmRun before h ((ip, now) ∷ events) =
      (before ≤ now)
      × IsCalm now (h ++ ((ip, now) ∷ []))
      × IsCalmRun now (h ++ ((ip, now) ∷ [])) events

  -- Over a run of failures a limiter whose store agrees with a history gives the answers of one that
  -- forgets nothing, if it is enabled, the clock does not go back and the addresses with a failure
  -- within the window are never more than the cap.
  pub run-answers :
      (events : History) (before : ℕ) (s : Failures) (h : History)
      → enabled c ≡ true
      → Represents s h before
      → IsCalmRun before h events
      → (left : Failures) × (run events s ≡ some (left, answers h events))
  unfolding run answers
  run-answers [] before s h on r calm = (s, refl)
  run-answers ((ip, now) ∷ events) before s h on r calm =
      let (left, e, after) = register_failure-Represents ip now before s h calm.0 r on calm.1 in
      let (last, f) = run-answers events now left (h ++ ((ip, now) ∷ [])) on after calm.2 in
      (last, rw (e, f, run))

  pub empty-Represents : (now : ℕ) → Represents [] [] now
  unfolding stamps_of failures_of
  empty-Represents now = record {
    stored = record { distinct = tt; stamped = tt };
    agrees = λ ip later le. refl;
  }
