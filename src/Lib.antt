-- ===== src/Lib.antt =====
-- Square: escrowed settlement of work that agents do for each other. These modules model the
-- TypeScript services and packages that decide on, record and serve a settlement, and state what
-- each of them promises.
--
-- How the parts interact: clients pay over HTTP (packages/x402) and hand tasks to agents
-- (packages/a2a), whose calls of tools are cached (packages/mcp) and limited and retried
-- (packages/hardening); a hosted agent delegates under an allowance (packages/hosted). The
-- contracts emit events, from which the indexer (services/indexer) rebuilds jobs, disputes,
-- listings and ledgers. The keeper (services/keeper) reads that state and decides which calls
-- finish a job, if its fee covers the gas.
--
-- The files, and the code that each models:
--
--   Keeper/Decide: services/keeper/src/decide.ts, one function for each of its functions
--     (decide, decideOpen and so on). Keeper/Budget: the budgets that pay for the gas.
--   Keeper/Gas: services/keeper/src/gas.ts, the gas oracle with its window of samples as a list.
--   Keeper/JobState: packages/data/src/repositories/keeperJobState.ts. Keeper/Retry,
--     Keeper/Holds, Keeper/Report, Keeper/Settle, Keeper/Tick, Keeper/Expiries:
--     services/keeper/src/run.ts, the class Keeper. Retry has its memory, the failures and the
--     backoff, Holds the rules that hold a job back, Settle the loops over the candidates, Tick
--     a whole tick, Expiries the sweep. Keeper/Chain is what they read: the mirror by
--     packages/data/src/repositories/jobs.ts, and the chain's answers as an argument.
--   A2a/States: packages/a2a/src/states.ts, the states of tasks and jobs. A2a/Machine:
--     packages/a2a/src/task-machine.ts, each call as a function of the machine and the clock's
--     answer, with what listeners are told as a list.
--   Hardening/RateLimit: packages/hardening/src/rateLimit.ts, the limiter over any store, and
--     the store in memory.
--   Hardening/Idempotency: packages/hardening/src/idempotency.ts, the store in memory and
--     withIdempotency. Hardening/RpcFailover: packages/hardening/src/rpcFailover.ts, the health
--     of an endpoint and the retry loop. Hardening/Ssrf: packages/hardening/src/ssrf.ts, the
--     guard of URLs; Ssrf/Addresses and Ssrf/Ipv6 read address literals, Ssrf/Scopes says which
--     are public, Ssrf/Pinned is the lookup that a fetch is given and Ssrf/ByteCap the limit on
--     a body, Ssrf/Redirects follows redirects; the parser of URLs, the resolver, the test of an
--     address's family and the fetch that follows a redirect are arguments.
--   Hosted/Allowance: packages/hosted/src/allowance.ts, PolicyAllowance, with what the chain
--     answers as an argument.
--   Mcp/Cache: packages/mcp/src/cache.ts, ToolResultCache.
--   App/Actions, App/Clock, App/Phase, App/Inbox: app/src/lib/actions.ts, clock.ts, phase.ts and
--     inbox.ts, with the equality of addresses as an argument.
--   X402/Store: packages/x402/src/replay-store.ts, the store in memory. X402/Reconcile:
--     packages/x402/src/reconcile.ts.
--   Indexer/State, Indexer/Events, Indexer/Reducer, Indexer/Apply, Indexer/Views:
--     services/indexer/src/reducer.ts. State has the records, Events the events that are read,
--     Reducer the kernel's events, Apply those of the other contracts and a run of events.
--   Indexer/Rows: the rows of packages/data/src/repositories that the indexer writes.
--     Indexer/Decode: packages/core/src/events.ts. Indexer/Draft, Indexer/Persist, Indexer/Sync:
--     services/indexer/src/sync.ts. Draft takes the events of a batch into a copy of the mirror,
--     Persist writes what they changed, Sync has the rounds, the start and the restart.
--   Base: shared types, tests and lemmas. Base/JsMap is JavaScript's Map as an association list
--     in insertion order, Base/Lru its use as a store that evicts the entries used longest ago,
--     Base/Int the integers over native numbers.
--
-- Numbers of type bigint and number are natural numbers, since the code holds amounts, times,
-- counts and identifiers in them; where it subtracts, the model says what becomes of a negative
-- result, and the ledger is over integers. JavaScript numbers are taken below 2 ^ 53, where they
-- are exact. Texts that the code compares or takes apart are lists of code units; lower case is
-- that of the ASCII letters, which is all that addresses and the names of headers and methods
-- have. Clocks and the chain's receipts are arguments, promises are their results, and calls of
-- one object follow each other.
--
-- Loops are recursion on the list they run through. Fuel is used for decimal numerals, where it
-- is larger than the number of digits, and for the count of votes, where it is the mask, which
-- every round halves; the retry loop counts the attempts that are left. The halving of a range
-- of blocks takes one more than the distance of its ends, since each half is shorter.
--
-- Not modelled: input and output (HTTP, SQL, logs, the chain client), the contracts and the
-- circuits, which are other languages, the pages of the application, and the packages that only
-- pass calls on. Failures of listeners, which the task machine swallows, and requests that wait
-- for one with the same idempotency key are left out. Also left out are a database write of the
-- keeper that fails after a mined transaction, a change of the chain within a tick, a second
-- reading of the clock in putIfAbsent, a throw while a restart replays the journal, and a throw
-- of getBlockNumber, which leaves the state as the other failures of a round do. The fetch of a
-- redirect answers equal requests equally.
pub mod Base
pub mod Keeper
pub mod A2a
pub mod App
pub mod Hardening
pub mod Hosted
pub mod Mcp
pub mod X402
pub mod Indexer
