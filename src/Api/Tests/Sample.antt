-- ===== src/Api/Tests/Sample.antt =====
-- A sample database of schemes for the tests.
use versification_tool.Prelude.{ℕ, none, some, if◌then◌else◌}
use versification_tool.Prelude.Equality.{nat_eq, ◌==◌}
use versification_tool.Resolver.Types.{SchemeRef}
use versification_tool.Api.Schemes.{Database}

abbrev pub org_scheme : SchemeRef
org_scheme = record { scheme_id = 7; based_on_id = none; based_on_name = none }

-- Translation 1 prefers scheme 7; no other prefers one.
abbrev pub database : Database ℕ
database = record {
  get_translation = λ t. some t;
  get_scheme = λ s. if s == 7 then some org_scheme else none;
  associated = λ t s. t == 1;
  preferred = λ t. if t == 1 then some 7 else none;
  org = some org_scheme;
}
