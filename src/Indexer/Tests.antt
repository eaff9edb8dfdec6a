-- ===== src/Indexer/Tests.antt =====
-- Runs of the reducer (services/indexer/src/reducer.ts).
use square.Base.{
  to_lower_case, text_beq, ◌≡◌, ◌≢◌, refl, some, none, List, [], ◌∷◌, codes, nat_eq, text_eq, arith,
}
use square.Base.JsMap
use square.Base.Int.{pos, ◌+ℤ◌}
use square.Indexer.State.{IndexerState, empty_state, unknown_job}
use square.Indexer.Events.{
  SquareEvent, kernel, keeper, job_created, job_funded, job_submitted, payment_released, withdrawn,
  dispute_raised,
}
use square.Indexer.Reducer.{
  square_job, ledger_key, apply_kernel, quiet, on_job, new_job, nullable, credit,
}
use square.Indexer.Apply.{reduce, apply_event, apply_body}
use square.Indexer.Apply.After.{threw}
use square.Indexer.Apply.Ledger.{moves, kernel_moves, balance, total_moved, reduce-balance}
use square.Indexer.Apply.Jobs.{IsIndexed, reduce-known}
use square.Indexer.Apply.Missing.{keeper_need, missing, need, threw-apply_event}

abbrev history : List SquareEvent
history =
    record {
      body = kernel (job_created 7 (codes "0xC") (codes "0xD") (codes "0xE") (codes "0x0") 900);
      block_number = some 1;
    }
    ∷ record { body = kernel (job_funded 7 500); block_number = some 2 }
    ∷ record { body = kernel (payment_released (codes "0xD") 490); block_number = some 3 }
    ∷ record { body = kernel (withdrawn (codes "0xd") 90); block_number = none }
    ∷ []

history_runs : (reduce history empty_state).thrown ≡ none
unfolding reduce apply_event apply_body apply_kernel quiet on_job new_job nullable credit ledger_key
    to_lower_case text_beq JsMap.get JsMap.set
history_runs = refl

reduce-balance_example :
    balance (ledger_key square_job (codes "0xD")) (reduce history empty_state).state
    ≡ balance (ledger_key square_job (codes "0xD")) empty_state
      +ℤ total_moved history (ledger_key square_job (codes "0xD"))
reduce-balance_example =
    reduce-balance (ledger_key square_job (codes "0xD")) history empty_state history_runs

history_moves : total_moved history (ledger_key square_job (codes "0xD")) ≡ pos 400
unfolding total_moved moves kernel_moves ledger_key to_lower_case text_beq ◌+ℤ◌
history_moves = refl

abbrev funded_state : IndexerState
funded_state = (reduce history empty_state).state

empty_state-IsIndexed : IsIndexed empty_state
unfolding JsMap.get
empty_state-IsIndexed = λ id j found. absurd (ground arith)

job_known : JsMap.get 7 funded_state.jobs ≢ none
unfolding reduce apply_event apply_body apply_kernel quiet on_job new_job nullable credit ledger_key
    to_lower_case text_beq JsMap.get JsMap.set
job_known = λ gone. ground arith

abbrev later_history : List SquareEvent
later_history =
    record { body = kernel (job_submitted 7 (codes "0xF")); block_number = some 4 }
    ∷ record { body = kernel (job_submitted 8 (codes "0xF")); block_number = some 4 }
    ∷ []

reduce-known_example : JsMap.get 7 (reduce later_history funded_state).state.jobs ≢ none
reduce-known_example = reduce-known later_history funded_state 7 job_known

abbrev unknown_event : SquareEvent
unknown_event = record { body = keeper (dispute_raised 8); block_number = none }

threw-apply_event_example :
    threw (apply_event empty_state unknown_event) ≡ missing empty_state (need unknown_event.body)
threw-apply_event_example = threw-apply_event empty_state unknown_event

unknown_need : missing empty_state (need unknown_event.body) ≡ some (unknown_job 8)
unfolding missing need keeper_need JsMap.get
unknown_need = refl
