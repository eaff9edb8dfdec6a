-- ===== src/Keeper/Tick/Chosen.antt =====
-- services/keeper/src/run.ts: why a job is sent, in the loops over the candidates.
use square.Base.{
  ℕ, ◌≡◌, refl, sym, subst, ◌∙◌, inl, inr, true, not, Option, some, List, [], ◌∷◌, nat_eq,
  Bool-cases, ◌&&◌, All, All-append,
}
use square.Base.JsMap
use square.Base.JsMap.{JsMap}
use square.Keeper.Decide.{
  KeeperCandidate, KeeperEconomics, KeeperAction, finalize, finalize_decided, lapse, skip, decide,
  expiry_is_near,
}
use square.Keeper.Gas.{SettlementAction}
use square.Keeper.Retry.{is_blocked}
use square.Keeper.Chain.{Chain, Screening, screened, Sent-cases, sent, candidate_from_chain}
use square.Keeper.Holds.{cleared_by_holds, rules_of}
use square.Keeper.Report.{KeeperOptions, Pass, refused_for_want_of_a_proof, note_near_expiry}
use square.Keeper.Settle.{
  settled_job, settle_job, hold_for_want_of_a_proof, send_cleared, send_candidate, send_candidates,
  Deciding, act, decide_candidate, decide_candidates, is_skip, screening_of, call_of,
}
use square.Keeper.Tick.Quiet.{
  settled_by, IsQuiet, skip_job-IsQuiet, with_keeper-IsQuiet, failed_call-IsQuiet, hold_job-IsQuiet,
  note_near_expiry-IsQuiet, skip_worthless-IsQuiet, lapse_job-IsQuiet,
}
use square.Keeper.Holds.{Clearance-cases}
use square.Keeper.Chain.{Screening-cases}

-- The action that a kind of call is chosen by.
abbrev pub action_of : SettlementAction → ℕ → ℕ → ℕ → KeeperAction
action_of SettlementAction.finalize id fee cost = finalize id fee cost
action_of SettlementAction.finalize_decided id fee cost = finalize_decided id fee cost

-- What the chain said of a job in a tick is what the decision was taken on, and it was for the call.
pub record IsChosen (chain : Chain) (now : ℕ) (e : KeeperEconomics) (kind : SettlementAction)
    (c : KeeperCandidate) : Type 0 where
  pub id : ℕ
  pub fee : ℕ
  pub cost : ℕ
  pub from_chain : candidate_from_chain chain c.job_id ≡ some c
  pub chosen : decide c now e ≡ action_of kind id fee cost

-- A call that is reported: it was chosen, the screening let it pass, and it was mined.
pub record IsJustified (chain : Chain) (now : ℕ) (e : KeeperEconomics)
    (screenings : Option (JsMap ℕ Screening)) (kind : SettlementAction) (id : ℕ) : Type 0 where
  pub candidate : KeeperCandidate
  pub is_of : candidate.job_id ≡ id
  pub chosen : IsChosen chain now e kind candidate
  pub passed : screening_of screenings id ≡ screened true
  pub gas : ℕ
  pub fee : ℕ
  pub mined : chain.send (call_of kind) id ≡ sent gas fee

pub quiet_All :
    (P : SettlementAction → ℕ → Type 0) (p q : Pass)
    → IsQuiet p q
    → ((kind : SettlementAction) → All (P kind) (settled_by kind p))
    → (kind : SettlementAction) → All (P kind) (settled_by kind q)
quiet_All P p q quiet h kind = subst (All (P kind)) (sym (quiet kind)) (h kind)

settled_job-All :
    (P : SettlementAction → ℕ → Type 0) (kind : SettlementAction) (id gas fee : ℕ) (p : Pass)
    → P kind id
    → ((k : SettlementAction) → All (P k) (settled_by k p))
    → (k : SettlementAction) → All (P k) (settled_by k (settled_job kind id gas fee p))
unfolding settled_job
settled_job-All P SettlementAction.finalize id gas fee p new h SettlementAction.finalize =
    All-append (P SettlementAction.finalize) p.report.finalized (id ∷ [])
      (h SettlementAction.finalize) (new, tt)
settled_job-All P SettlementAction.finalize id gas fee p new h SettlementAction.finalize_decided =
    h SettlementAction.finalize_decided
settled_job-All P SettlementAction.finalize_decided id gas fee p new h SettlementAction.finalize =
    h SettlementAction.finalize
settled_job-All P SettlementAction.finalize_decided id gas fee p new h
      SettlementAction.finalize_decided =
    All-append (P SettlementAction.finalize_decided) p.report.applied (id ∷ [])
      (h SettlementAction.finalize_decided) (new, tt)

pub none_All : (P : ℕ → Type 0) (xs : List ℕ) → xs ≡ [] → All P xs
none_All P xs empty = subst (All P) (sym empty) tt

hold_for_want_of_a_proof-IsQuiet :
    (id now : ℕ) (p : Pass) → IsQuiet p (hold_for_want_of_a_proof id now p)
unfolding hold_for_want_of_a_proof
hold_for_want_of_a_proof-IsQuiet id now p =
    λ kind. hold_job-IsQuiet id _ _ kind ∙ with_keeper-IsQuiet _ p kind

module _ (o : KeeperOptions) (chain : Chain) (now : ℕ) (e : KeeperEconomics) where
  settle_job-All :
      (P : SettlementAction → ℕ → Type 0) (kind : SettlementAction) (id : ℕ) (p : Pass)
      → ((gas fee : ℕ) → chain.send (call_of kind) id ≡ sent gas fee → P kind id)
      → ((k : SettlementAction) → All (P k) (settled_by k p))
      → (k : SettlementAction) → All (P k) (settled_by k (settle_job o chain now kind id p))
  unfolding settle_job
  settle_job-All P kind id p new h = elim (Sent-cases (chain.send (call_of kind) id)) [
    | inl (gas, fee, mined) ↦
        rw (mined, settle_job) (settled_job-All P kind id gas fee p (new gas fee mined) h)
    | inr (message, error) ↦ elim (Bool-cases (refused_for_want_of_a_proof message)) [
      | inl proof ↦
          rw (error, proof, settle_job)
            (quiet_All P p _ (hold_for_want_of_a_proof-IsQuiet id now p) h)
      | inr failed ↦
          rw (error, failed, settle_job)
            (quiet_All P p _ (failed_call-IsQuiet o now _ id message p) h)
    ]
  ]

  send_cleared-All :
      (P : SettlementAction → ℕ → Type 0) (c : KeeperCandidate) (kind : SettlementAction) (p : Pass)
      → ((gas fee : ℕ) → chain.send (call_of kind) c.job_id ≡ sent gas fee → P kind c.job_id)
      → ((k : SettlementAction) → All (P k) (settled_by k p))
      → (k : SettlementAction) → All (P k) (settled_by k (send_cleared o chain now (c, kind) p))
  unfolding send_cleared
  send_cleared-All P c kind p new h =
      let found =
        cleared_by_holds (rules_of o.gated chain o.proof_grace_seconds) c now p.keeper.rows in
      elim (Clearance-cases found.0) [
        | inl free ↦
            rw (free, send_cleared)
              (settle_job-All P kind c.job_id _ new (quiet_All P p _ (with_keeper-IsQuiet _ p) h))
        | inr (reason, stays) ↦
            rw (stays, send_cleared)
              (quiet_All P p _
                (λ k. hold_job-IsQuiet c.job_id reason _ k ∙ with_keeper-IsQuiet _ p k) h)
      ]

  module _ (screenings : Option (JsMap ℕ Screening)) where
    abbrev Justified : SettlementAction → ℕ → Type 0
    Justified kind id = IsJustified chain now e screenings kind id

    send_candidate-All :
        (c : KeeperCandidate) (kind : SettlementAction) (p : Pass)
        → IsChosen chain now e kind c
        → ((k : SettlementAction) → All (Justified k) (settled_by k p))
        → (k : SettlementAction)
        → All (Justified k) (settled_by k (send_candidate o chain now screenings (c, kind) p))
    unfolding send_candidate
    send_candidate-All c kind p chosen h =
        elim (Screening-cases (screening_of screenings c.job_id)) [
          | inl go ↦
              rw (go, send_candidate)
                (send_cleared-All Justified c kind p
                  (λ gas fee mined. record {
                    candidate = c;
                    is_of = refl;
                    chosen = chosen;
                    passed = go;
                    gas = gas;
                    fee = fee;
                    mined = mined;
                  })
                  h)
          | inr (inl stay) ↦
              rw (stay, send_candidate) (quiet_All Justified p _ (skip_job-IsQuiet c.job_id _ p) h)
          | inr (inr (message, error)) ↦
              rw (error, send_candidate) (quiet_All Justified p _ (with_keeper-IsQuiet _ p) h)
        ]

    pub send_candidates-All :
        (ss : List (KeeperCandidate × SettlementAction)) (p : Pass)
        → All (λ t. IsChosen chain now e t.1 t.0) ss
        → ((k : SettlementAction) → All (Justified k) (settled_by k p))
        → (k : SettlementAction)
        → All (Justified k) (settled_by k (send_candidates o chain now screenings ss p))
    unfolding send_candidates
    send_candidates-All [] p chosen h = h
    send_candidates-All ((c, kind) ∷ ss) p (new, chosen) h =
        send_candidates-All ss _ chosen (send_candidate-All c kind p new h)

  -- What the loop over the candidates gathers.
  abbrev pub IsGathered : Deciding → Type 0
  IsGathered d =
      All (λ t. IsChosen chain now e t.1 t.0) d.sending
      × ((k : SettlementAction) → settled_by k d.pass ≡ [])

  act-IsGathered :
      (c : KeeperCandidate) (a : KeeperAction) (d : Deciding)
      → candidate_from_chain chain c.job_id ≡ some c
      → decide c now e ≡ a
      → IsGathered d
      → IsGathered (act o chain now c a d)
  unfolding act
  act-IsGathered c (skip i why) d known same (all, none_yet) =
      (all, λ k. skip_worthless-IsQuiet c.job_id why d.pass k ∙ none_yet k)
  act-IsGathered c (lapse i by) d known same (all, none_yet) =
      (all, λ k. lapse_job-IsQuiet o chain now c.job_id d.pass k ∙ none_yet k)
  act-IsGathered c (finalize i fee cost) d known same (all, none_yet) = (
    All-append (λ t. IsChosen chain now e t.1 t.0) d.sending ((c, SettlementAction.finalize) ∷ [])
        all (record { id = i; fee = fee; cost = cost; from_chain = known; chosen = same }, tt),
    none_yet,
  )
  act-IsGathered c (finalize_decided i fee cost) d known same (all, none_yet) = (
    All-append (λ t. IsChosen chain now e t.1 t.0) d.sending
        ((c, SettlementAction.finalize_decided) ∷ []) all
        (record { id = i; fee = fee; cost = cost; from_chain = known; chosen = same }, tt),
    none_yet,
  )

  decide_candidate-IsGathered :
      (c : KeeperCandidate) (d : Deciding)
      → candidate_from_chain chain c.job_id ≡ some c
      → IsGathered d
      → IsGathered (decide_candidate o chain now e c d)
  unfolding decide_candidate
  decide_candidate-IsGathered c d known (all, none_yet) =
      let near = note_near_expiry c.job_id (expiry_is_near c now) d.pass in
      elim (Bool-cases (
        not (is_skip (decide c now e))
        && is_blocked now (JsMap.get c.job_id near.keeper.retries))) [
          | inl stop ↦
              rw (stop, decide_candidate)
                (
                  all,
                  λ k.
                      skip_job-IsQuiet c.job_id _ near k
                      ∙ note_near_expiry-IsQuiet c.job_id (expiry_is_near c now) d.pass k
                      ∙ none_yet k,
                )
          | inr go ↦
              rw (go, decide_candidate)
                (act-IsGathered c (decide c now e) (record d { pass = near }) known refl
                  (
                    all,
                    λ k.
                        note_near_expiry-IsQuiet c.job_id (expiry_is_near c now) d.pass k
                        ∙ none_yet k,
                  ))
        ]

  pub decide_candidates-IsGathered :
      (cs : List KeeperCandidate) (d : Deciding)
      → All (λ c. candidate_from_chain chain c.job_id ≡ some c) cs
      → IsGathered d
      → IsGathered (decide_candidates o chain now e cs d)
  unfolding decide_candidates
  decide_candidates-IsGathered [] d known h = h
  decide_candidates-IsGathered (c ∷ cs) d (k, known) h =
      decide_candidates-IsGathered cs _ known (decide_candidate-IsGathered c d k h)
