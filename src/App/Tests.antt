-- ===== src/App/Tests.antt =====
-- Runs of the inbox (app/src/lib/inbox.ts).
use square.Base.{false, codes}
use square.App.Actions.{JobSummary}

abbrev job : JobSummary
job = record {
  client = codes "0xc";
  provider = codes "0xd";
  evaluator = codes "0xe";
  status = 2;
  budget = 500;
  expired_at = 900;
  settlement_horizon = 100;
  challenge_end = 400;
  disputed = false;
}
