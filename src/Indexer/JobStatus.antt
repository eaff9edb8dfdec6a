-- ===== src/Indexer/JobStatus.antt =====
-- `JobStatus` of packages/core/src/client.ts.
use square.Base.{ℕ}

abbrev pub open_job : ℕ
open_job = 0

abbrev pub funded : ℕ
funded = 1

abbrev pub submitted : ℕ
submitted = 2

abbrev pub completed : ℕ
completed = 3

abbrev pub rejected : ℕ
rejected = 4

abbrev pub expired : ℕ
expired = 5
