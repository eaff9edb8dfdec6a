-- ===== src/Indexer/ListingStatus.antt =====
-- `ListingStatus` of services/indexer/src/reducer.ts.
use square.Base.{ℕ}

abbrev pub listed : ℕ
listed = 1

abbrev pub sold : ℕ
sold = 2

abbrev pub cancelled : ℕ
cancelled = 3
