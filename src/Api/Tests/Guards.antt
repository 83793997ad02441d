-- ===== src/Api/Tests/Guards.antt =====
-- Tests of the limiter of failed logins.
use versification_tool.Prelude.{
  ℕ, ◌+◌, ◌*◌, ◌≤◌, ◌≡◌, refl, ◌≢◌, true, false, inl, inr, Bool-cases, Option, none, some, List, [],
  ◌∷◌, ◌++◌, length, arith,
}
use versification_tool.Prelude.Equality.{contains, nat_eq, ◌==◌}
use versification_tool.Prelude.Texts.{Text, text_eq, text_beq_iff, codes, strip, lstrip, is_space}
use versification_tool.Api.Limiter.{
  Failures, Settings, stamps_of, in_window, enabled, register_failure, evict_if_needed, evict_loop,
  expired, delete_all, delete, store, oldest, oldest_from, last?, verdict, client_ip_for_request,
}
use versification_tool.Api.Limiter.Evict.{IsStored, register_failure-IsStored}
use versification_tool.Api.Limiter.Refines.{
  History, failures_of, IsCalmRun, run, answers, run-answers, empty-Represents,
}
use versification_tool.Api.Limiter.Wait.{AllPast, register_failure-bounds}
use versification_tool.Api.Limiter.Address.{client_ip_for_request-last}

-- Two failures in three seconds, of two addresses; a second has ten ticks.
abbrev settings : Settings
settings = record { limit = 2; window_seconds = 3; per_second = 10; max_keys = 2 }

abbrev home : Text
home = codes "10.0.0.1"

abbrev away : Text
away = codes "10.0.0.2"

abbrev filled : Failures
filled = (home, 1 ∷ 8 ∷ []) ∷ (away, 5 ∷ []) ∷ []

third :
    register_failure settings home 12 filled
    ≡ some ((home, 1 ∷ 8 ∷ 12 ∷ []) ∷ (away, 5 ∷ []) ∷ [], some 2)
unfolding register_failure enabled in_window stamps_of store evict_if_needed evict_loop verdict
third = refl

-- The address with the oldest last failure goes.
evicts :
    register_failure settings (codes "x") 12 filled
    ≡ some ((home, 1 ∷ 8 ∷ []) ∷ (codes "x", 12 ∷ []) ∷ [], none)
unfolding register_failure enabled in_window stamps_of store evict_if_needed evict_loop verdict
    expired delete_all delete oldest oldest_from last?
evicts = refl

filled-IsStored : IsStored filled
unfolding contains
filled-IsStored = record { distinct = (refl, (refl, tt)); stamped = ((λ e. cc), ((λ e. cc), tt)) }

register_failure-IsStored_example :
    (left : Failures) × (answer : Option ℕ) × (register_failure settings (codes "x") 12 filled
      ≡ some (left, answer))
    × IsStored left
    × (length left ≤ 2)
register_failure-IsStored_example =
    register_failure-IsStored settings (codes "x") 12 filled filled-IsStored (omega arith)

home_past : AllPast 12 (stamps_of home filled)
unfolding stamps_of
home_past = (omega arith, (omega arith, tt))

register_failure-bounds_example :
    (1 ≤ 2)
    × (2 ≤ 3)
    × (first : ℕ) × (later : List ℕ) × (in_window settings 12 (stamps_of home filled) ++ (12 ∷ [])
        ≡ first ∷ later)
    × (in_window settings (12 + 2 * 10) (first ∷ []) ≡ [])
register_failure-bounds_example =
    register_failure-bounds settings home 12 2 filled
      ((home, 1 ∷ 8 ∷ 12 ∷ []) ∷ (away, 5 ∷ []) ∷ []) (omega arith) home_past third

abbrev two_failures : History
two_failures = (home, 1) ∷ (away, 4) ∷ []

-- Whatever the time and address, an address of the history is one of the two.
two_calm :
    (now : ℕ) (ip : Text)
    → in_window settings now (failures_of ip two_failures) ≢ []
    → contains ip (home ∷ away ∷ []) ≡ true
unfolding failures_of contains in_window
two_calm now ip h = elim (Bool-cases (home == ip)) [
  | inl t ↦ ground (arith, text_beq_iff home ip, text_beq_iff ip home, t)
  | inr f ↦ elim (Bool-cases (away == ip)) [
    | inl t ↦ ground (arith, text_beq_iff away ip, text_beq_iff ip away, t)
    | inr g ↦ absurd (h (rw (f, g) refl))
  ]
]

one_calm :
    (now : ℕ) (ip : Text)
    → in_window settings now (failures_of ip ((home, 1) ∷ [])) ≢ []
    → contains ip (home ∷ []) ≡ true
unfolding failures_of contains in_window
one_calm now ip h = elim (Bool-cases (home == ip)) [
  | inl t ↦ ground (arith, text_beq_iff home ip, text_beq_iff ip home, t)
  | inr f ↦ absurd (h (rw f refl))
]

two-IsCalmRun : IsCalmRun settings 0 [] two_failures
two-IsCalmRun = (
  omega arith,
  (record { active = home ∷ []; few = omega arith; listed = one_calm 1 }),
  (omega arith, (record { active = home ∷ away ∷ []; few = omega arith; listed = two_calm 4 }), tt),
)

on : enabled settings ≡ true
unfolding enabled
on = refl

run-answers_example :
    (left : Failures) × (run settings two_failures []
      ≡ some (left, answers settings [] two_failures))
run-answers_example =
    run-answers settings two_failures 0 [] [] on (empty-Represents settings 0) two-IsCalmRun

plain_hop : contains b',' (codes " 10.0.0.1") ≡ false
unfolding contains
plain_hop = refl

filled_hop : strip (codes " 10.0.0.1") ≢ []
unfolding strip lstrip is_space
filled_hop e = cc

client_ip_for_request-last_example :
    client_ip_for_request true (some (codes "6.6.6.6" ++ (b',' ∷ codes " 10.0.0.1"))) none
    ≡ strip (codes " 10.0.0.1")
client_ip_for_request-last_example =
    client_ip_for_request-last (codes "6.6.6.6") (codes " 10.0.0.1") none plain_hop filled_hop
