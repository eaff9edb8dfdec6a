-- ===== src/Indexer/Apply.antt =====
-- services/indexer/src/reducer.ts: the events of the other contracts, one event, and a run of events.
pub mod After
pub mod Ledger
pub mod Written
pub mod Jobs
pub mod Missing
use square.Base.{ℕ, true, false, Option, none, some, List, [], ◌∷◌, ◌++◌, get_or, nat_eq, text_eq}
use square.Base.JsMap
use square.Base.Int.{pos, neg}
use square.Indexer.State.{
  Address, DisputeState, ListingState, IndexerState, ReducerNotice, reputation_write_failed,
  validation_write_failed, release_refused, release_unconfirmed, ReducerError, unlisted_purchase,
  unlisted_cancellation, ok, err,
}
use square.Indexer.ListingStatus
use square.Indexer.Events.{
  KeeperEvent, windows_configured, dispute_raised, decision_applied, ArbitrationEvent,
  arbiters_updated, dispute_opened, vote_cast, decision_reached, bond_settled, bond_withdrawn,
  MarketEvent, claim_listed, claim_bought, claim_cancelled, HookEvent,
  reputation_write_failed_event, validation_write_failed_event, release_unconfirmed_event,
  agent_bound, ModuleEvent, release_refused_event, EventBody, kernel, keeper, arbitration, market,
  hook, compliance, SquareEvent,
}
use square.Indexer.Reducer.{
  Reduced, arbitration_ledger, credit, quiet, notify, on_job, on_dispute, close_dispute,
  apply_kernel,
}

unfoldable pub apply_keeper : IndexerState → KeeperEvent → ℕ → Reduced
apply_keeper s (windows_configured effective_from challenge_window dispute_window) block =
    quiet (record s {
      windows =
          s.windows
          ++ (record {
            effective_from = effective_from;
            challenge_window = challenge_window;
            dispute_window = dispute_window;
          }
              ∷ []);
    })
apply_keeper s (dispute_raised id) block = on_job s id block (λ j. record j { disputed = true })
apply_keeper s (decision_applied id) block =
    on_job (close_dispute s id block) id block (λ j. record j { disputed = false })
apply_keeper s KeeperEvent.other block = quiet s

abbrev new_dispute : ℕ → Address → ℕ → ℕ → ℕ → ℕ → ℕ → DisputeState
new_dispute id disputer bond disputed_at resolve_by set_version block = record {
  job_id = id;
  disputer = disputer;
  bond = bond;
  disputed_at = disputed_at;
  resolve_by = resolve_by;
  set_version = set_version;
  approvals = [];
  outcome = none;
  provider_bps = none;
  closed = false;
  updated_block = block;
}

unfoldable pub apply_arbitration : IndexerState → ArbitrationEvent → ℕ → Reduced
apply_arbitration s (arbiters_updated version arbiters threshold) block = quiet (record s {
  arbiter_sets =
      JsMap.set version (record { version = version; arbiters = arbiters; threshold = threshold })
        s.arbiter_sets;
})
apply_arbitration s (dispute_opened id disputer bond disputed_at resolve_by set_version) block =
    quiet (record s {
      disputes =
          JsMap.set id (new_dispute id disputer bond disputed_at resolve_by set_version block)
            s.disputes;
    })
apply_arbitration s (vote_cast id resolution_hash approvals) block =
    on_dispute s id block
      (λ d. record d { approvals = JsMap.set resolution_hash approvals d.approvals })
apply_arbitration s (decision_reached id outcome provider_bps) block =
    on_dispute s id block
      (λ d. record d { outcome = some outcome; provider_bps = some provider_bps })
apply_arbitration s (bond_settled id to amount) block =
    quiet (close_dispute (credit s arbitration_ledger to (pos amount)) id block)
apply_arbitration s (bond_withdrawn account amount) block =
    quiet (credit s arbitration_ledger account (neg amount))
apply_arbitration s ArbitrationEvent.other block = quiet s

abbrev put_listing : IndexerState → ℕ → ListingState → IndexerState
put_listing s id l = record s { listings = JsMap.set id l s.listings }

-- A listing that the event changes must be there.
unfoldable pub on_listing :
    IndexerState → ℕ → ReducerError → (ListingState → ListingState) → Reduced
on_listing s id e f = elim (JsMap.get id s.listings) [
  | none ↦ err e
  | some l ↦ quiet (put_listing s id (f l))
]

unfoldable pub apply_market : IndexerState → MarketEvent → ℕ → Reduced
apply_market s (claim_listed id seller price face_value) block = quiet (
    put_listing s id (record {
      job_id = id;
      seller = seller;
      buyer = none;
      price = price;
      face_value = face_value;
      status = ListingStatus.listed;
      updated_block = block;
    }))
apply_market s (claim_bought id buyer) block =
    on_listing s id (unlisted_purchase id)
      (λ l. record l { buyer = some buyer; status = ListingStatus.sold; updated_block = block })
apply_market s (claim_cancelled id) block =
    on_listing s id (unlisted_cancellation id)
      (λ l. record l { status = ListingStatus.cancelled; updated_block = block })
apply_market s MarketEvent.other block = quiet s

unfoldable pub apply_hook : IndexerState → HookEvent → ℕ → Reduced
apply_hook s (reputation_write_failed_event id agent_id) block =
    notify s (reputation_write_failed id agent_id)
apply_hook s (validation_write_failed_event id request_hash) block =
    notify s (validation_write_failed id request_hash)
apply_hook s (release_unconfirmed_event id payee amount) block =
    notify s (release_unconfirmed id payee amount)
apply_hook s (agent_bound id agent_id) block =
    on_job s id block (λ j. record j { agent_id = some agent_id })
apply_hook s HookEvent.other block = quiet s

unfoldable pub apply_module : IndexerState → ModuleEvent → Reduced
apply_module s (release_refused_event id statement reason) =
    notify s (release_refused id statement reason)
apply_module s ModuleEvent.other = quiet s

unfoldable pub apply_body : IndexerState → EventBody → ℕ → Reduced
apply_body s (kernel e) block = apply_kernel s e block
apply_body s (keeper e) block = apply_keeper s e block
apply_body s (arbitration e) block = apply_arbitration s e block
apply_body s (market e) block = apply_market s e block
apply_body s (hook e) block = apply_hook s e block
apply_body s (compliance e) block = apply_module s e

unfoldable pub apply_event : IndexerState → SquareEvent → Reduced
apply_event s e = apply_body s e.body (get_or e.block_number 0)

-- The state when the run stops, the notices it gave, and what it threw. An event that throws has
-- changed nothing.
pub record Reduction : Type 0 where
  pub state : IndexerState
  pub notices : List ReducerNotice
  pub thrown : Option ReducerError

unfoldable pub reduce : List SquareEvent → IndexerState → Reduction
reduce [] s = record { state = s; notices = []; thrown = none }
reduce (e ∷ es) s = elim (apply_event s e) [
  | err x ↦ record { state = s; notices = []; thrown = some x }
  | ok (next, notices) ↦
      let rest = reduce es next in record rest { notices = notices ++ rest.notices }
]
