-- ===== src/Keeper/Settle.antt =====
-- services/keeper/src/run.ts: the loops of a tick.
use square.Base.{
  ℕ, Bool, true, false, not, ◌&&◌, ◌||◌, Option, none, some, List, [], ◌∷◌, ◌++◌, Text, codes,
  nat_beq, if◌then◌else◌, nat_eq, get_or,
}
use square.Base.JsMap
use square.Base.JsMap.{JsMap}
use square.Keeper.Decide.{
  KeeperCandidate, KeeperEconomics, KeeperAction, finalize, finalize_decided, lapse, skip,
  SkipReason, unprofitable, decide, expiry_is_near,
}
use square.Keeper.Gas.{SettlementAction, record_receipt}
use square.Keeper.JobState.{HoldReason, no_proof, hold, release_hold}
use square.Keeper.Retry.{ActionName, plain_action, append, note_failure, is_blocked, RetryState}
use square.Keeper.Chain.{
  Chain, SettlementCall, finalize_call, finalize_decided_call, lapse_call, settle_bond_call, sent,
  threw, Screening, screened, screening_failed,
}
use square.Keeper.Holds.{rules_of, cleared, held_back, cleared_by_holds}
use square.Keeper.Report.{
  TickSkip, not_worth, gave_up, backoff, unscreened, held_as, not_yet, KeeperOptions, Pass,
  not_yet_on_chain, refused_for_want_of_a_proof, skip_job, with_keeper, forget_retry,
  note_unprofitable, note_near_expiry,
}

-- Whether the call is `finalize` or `finalizeDecided`: its name in the journal, in the client, and in the gas
-- assumption.
abbrev pub action_name : SettlementAction → ActionName
action_name SettlementAction.finalize = ActionName.finalize
action_name SettlementAction.finalize_decided = ActionName.finalize_decided

abbrev pub call_of : SettlementAction → SettlementCall
call_of SettlementAction.finalize = finalize_call
call_of SettlementAction.finalize_decided = finalize_decided_call

-- A failed call, which is no failure where the chain has not come to the job's deadline.
unfoldable pub failed_call : KeeperOptions → ℕ → ActionName → ℕ → Text → Pass → Pass
failed_call o now action id message p = elim (not_yet_on_chain message) [
  | none ↦ with_keeper (note_failure o.policy id action message now) p
  | some behind ↦ skip_job id (not_yet behind) p
]

unfoldable pub lapsed_job : ℕ → ℕ → Pass → Pass
lapsed_job id gas p = record p {
  keeper =
      forget_retry id
        (append (record (plain_action id ActionName.lapse) { gas_used = some gas }) p.keeper);
  report = record p.report { lapsed = p.report.lapsed ++ id ∷ [] };
}

unfoldable pub lapse_job : KeeperOptions → Chain → ℕ → ℕ → Pass → Pass
lapse_job o chain now id p = elim (chain.send lapse_call id) [
  | sent gas fee ↦ lapsed_job id gas p
  | threw message ↦ failed_call o now ActionName.lapse id message p
]

-- What the loop over the candidates has gathered.
pub record Deciding : Type 0 where
  pub pass : Pass
  pub sending : List (KeeperCandidate × SettlementAction)

unfoldable pub why_blocked : Option RetryState → TickSkip
why_blocked none = backoff
why_blocked (some r) = if r.gave_up then gave_up else backoff

unfoldable pub skip_worthless : ℕ → SkipReason → Pass → Pass
skip_worthless id unprofitable p = note_unprofitable id (skip_job id (not_worth unprofitable) p)
skip_worthless id why p = skip_job id (not_worth why) p

-- An action that is not a skip, on a job that is not blocked.
unfoldable pub act :
    KeeperOptions → Chain → ℕ → KeeperCandidate → KeeperAction → Deciding → Deciding
act o chain now c (lapse id by) d = record d { pass = lapse_job o chain now c.job_id d.pass }
act o chain now c (finalize id fee cost) d = record d {
  sending = d.sending ++ (c, SettlementAction.finalize) ∷ [];
}
act o chain now c (finalize_decided id fee cost) d = record d {
  sending = d.sending ++ (c, SettlementAction.finalize_decided) ∷ [];
}
act o chain now c (skip id why) d = record d { pass = skip_worthless c.job_id why d.pass }

unfoldable pub is_skip : KeeperAction → Bool
is_skip (skip id why) = true
is_skip _ = false

unfoldable pub decide_candidate :
    KeeperOptions → Chain → ℕ → KeeperEconomics → KeeperCandidate → Deciding → Deciding
decide_candidate o chain now e c d =
    let seen = record d { pass = note_near_expiry c.job_id (expiry_is_near c now) d.pass } in
    let retry = JsMap.get c.job_id seen.pass.keeper.retries in
    if not (is_skip (decide c now e)) && is_blocked now retry
    then record seen { pass = skip_job c.job_id (why_blocked retry) seen.pass }
    else act o chain now c (decide c now e) seen

unfoldable pub decide_candidates :
    KeeperOptions → Chain → ℕ → KeeperEconomics → List KeeperCandidate → Deciding → Deciding
decide_candidates o chain now e [] d = d
decide_candidates o chain now e (c ∷ cs) d =
    decide_candidates o chain now e cs (decide_candidate o chain now e c d)

unfoldable pub hold_job : ℕ → HoldReason → Pass → Pass
hold_job id reason p =
    skip_job id (held_as reason)
      (record p { report = record p.report { held = p.report.held ++ (id, reason) ∷ [] } })

unfoldable pub hold_for_want_of_a_proof : ℕ → ℕ → Pass → Pass
hold_for_want_of_a_proof id now p =
    hold_job id no_proof
      (with_keeper (λ k. forget_retry id (record k { rows = (hold id no_proof now k.rows).1 })) p)

unfoldable pub settled_job : SettlementAction → ℕ → ℕ → ℕ → Pass → Pass
settled_job kind id gas fee p =
    let row = record (plain_action id (action_name kind)) {
      gas_used = some gas;
      fee_earned = some fee;
    } in
    let k = append row p.keeper in
    record p {
      keeper =
          forget_retry id
            (record k { gas = record_receipt k.gas kind gas; rows = release_hold id k.rows });
      report = elim kind [
        | SettlementAction.finalize ↦ record p.report { finalized = p.report.finalized ++ id ∷ [] }
        | SettlementAction.finalize_decided ↦ record p.report {
          applied = p.report.applied ++ id ∷ [];
        }
      ];
    }

unfoldable pub settle_job : KeeperOptions → Chain → ℕ → SettlementAction → ℕ → Pass → Pass
settle_job o chain now kind id p = elim (chain.send (call_of kind) id) [
  | sent gas fee ↦ settled_job kind id gas fee p
  | threw message ↦
      if refused_for_want_of_a_proof message
      then hold_for_want_of_a_proof id now p
      else failed_call o now (action_name kind) id message p
]

-- What the screening says of a job; without screening every job goes on.
unfoldable pub screening_of : Option (JsMap ℕ Screening) → ℕ → Screening
screening_of none id = screened true
screening_of (some screenings) id =
    get_or (JsMap.get id screenings)
      (screening_failed (codes "the screening returned nothing for this job"))

unfoldable pub send_cleared :
    KeeperOptions → Chain → ℕ → KeeperCandidate × SettlementAction → Pass → Pass
send_cleared o chain now (c, kind) p =
    let (clearance, rows) =
      cleared_by_holds (rules_of o.gated chain o.proof_grace_seconds) c now p.keeper.rows in
    let held = with_keeper (λ k. record k { rows = rows }) p in
    elim clearance [
      | cleared ↦ settle_job o chain now kind c.job_id held
      | held_back reason ↦ hold_job c.job_id reason held
    ]

unfoldable pub send_candidate :
    KeeperOptions
    → Chain
    → ℕ
    → Option (JsMap ℕ Screening)
    → KeeperCandidate × SettlementAction
    → Pass
    → Pass
send_candidate o chain now screenings (c, kind) p = elim (screening_of screenings c.job_id) [
  | screening_failed message ↦
      with_keeper
        (note_failure o.policy c.job_id (action_name kind)
          (codes "screening the payee failed: " ++ message) now)
        p
  | screened proceed ↦
      if proceed then send_cleared o chain now (c, kind) p else skip_job c.job_id unscreened p
]

unfoldable pub send_candidates :
    KeeperOptions
    → Chain
    → ℕ
    → Option (JsMap ℕ Screening)
    → List (KeeperCandidate × SettlementAction)
    → Pass
    → Pass
send_candidates o chain now screenings [] p = p
send_candidates o chain now screenings (s ∷ ss) p =
    send_candidates o chain now screenings ss (send_candidate o chain now screenings s p)

unfoldable pub bond_settled_job : ℕ → ℕ → Pass → Pass
bond_settled_job id gas p = record p {
  keeper =
      forget_retry id
        (append (record (plain_action id ActionName.settle_bond) { gas_used = some gas }) p.keeper);
  report = record p.report { bonds_settled = p.report.bonds_settled ++ id ∷ [] };
}

unfoldable pub settle_bond : KeeperOptions → Chain → ℕ → ℕ → Pass → Pass
settle_bond o chain now id p =
    let retry = JsMap.get id p.keeper.retries in
    let dispute = chain.dispute id in
    if is_blocked now retry
    then skip_job id (why_blocked retry) p
    else if nat_beq dispute.disputed_at 0 || dispute.bond_settled
    then p
    else elim (chain.send settle_bond_call id) [
      | sent gas fee ↦ bond_settled_job id gas p
      | threw message ↦ with_keeper (note_failure o.policy id ActionName.settle_bond message now) p
    ]

unfoldable pub settle_bonds : KeeperOptions → Chain → ℕ → List ℕ → Pass → Pass
settle_bonds o chain now [] p = p
settle_bonds o chain now (id ∷ ids) p = settle_bonds o chain now ids (settle_bond o chain now id p)
