-- ===== src/Api/Tests.antt =====
-- Tests of pages and of claims.
pub mod Sample
pub mod Guards
pub mod Index
pub mod Jump
pub mod Menu
use versification_tool.Prelude.{ℕ, ◌≡◌, refl, none, some, [], ◌∷◌}
use versification_tool.Prelude.Texts.{codes}
use versification_tool.Api.Registry.{Key, Report, running, claim_report}
use versification_tool.Api.Registry.Claims.{IsClaimed, IsDecided, claim_report-IsClaimed}
use versification_tool.Api.Schemes.{pos, negsuc, reply, refused, check_limit, clamp_page}

defaults : clamp_page none (some (negsuc 4)) ≡ reply (100, 0)
unfolding clamp_page check_limit
defaults = refl

too_long : clamp_page (some (pos 501)) none ≡ refused 422
unfolding clamp_page check_limit
too_long = refl

abbrev a_key : Key
a_key = ((1, 2), (3, 4))

-- It reports since the moment 50, of the digest `x`.
abbrev at_work : Report
at_work = record {
  id = 1;
  key = a_key;
  status = running;
  fingerprint = codes "x";
  payload = none;
  error = none;
  stage = none;
  stage_index = 0;
  completed = 0;
  total = 0;
  heartbeat_at = some 50;
}

claim_report-IsClaimed_example :
    IsClaimed 30 60 a_key (codes "y") (claim_report 30 60 9 a_key (codes "y") (at_work ∷ [])).1
    × IsDecided 30 60 a_key
        (codes "y")
        (at_work ∷ [])
        (claim_report 30 60 9 a_key (codes "y") (at_work ∷ [])).1
claim_report-IsClaimed_example = claim_report-IsClaimed 30 60 9 a_key (codes "y") (at_work ∷ [])
