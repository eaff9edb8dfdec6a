-- ===== src/Keeper/Holds.antt =====
-- services/keeper/src/run.ts: the rules that hold a job back, and the holds.
pub mod Grace
use square.Base.{
  ◌≡◌, ◌⊎◌, refl, inl, inr, ℕ, ◌*◌, ◌+◌, ◌/◌, Bool, false, Option, none, some, List, [], ◌∷◌, any,
  nat_beq, leb, if◌then◌else◌,
}
use square.Keeper.Decide.{KeeperCandidate, full_bps}
use square.Keeper.JobState.{HoldReason, no_proof, proof_stale, Rows, hold, release_hold, list_held}
use square.Keeper.Chain.{
  Chain, not_gated, decidable, ProofState, missing, stale, Preview, would_refuse, would_pay,
}

-- What a rule finds: nothing, a reason to hold, or that it could not be read.
pub data Examined : Type 0 where
  clear refuses unread : Examined

pub record HoldRule : Type 0 where
  pub reason : HoldReason
  pub grace_seconds : Option ℕ
  pub examine : KeeperCandidate → Examined

by_proof_state : Option ProofState → Examined
by_proof_state none = unread
by_proof_state (some not_gated) = clear
by_proof_state (some decidable) = clear
by_proof_state (some missing) = refuses
by_proof_state (some stale) = refuses

unfoldable pub no_proof_rule : Chain → HoldRule
unfolding by_proof_state
no_proof_rule chain = record {
  reason = no_proof;
  grace_seconds = none;
  examine = λ c. by_proof_state (chain.proof_state c.job_id);
}

by_preview : Option Preview → Examined
by_preview none = unread
by_preview (some would_refuse) = refuses
by_preview (some would_pay) = clear

-- The provider's share of the net payout.
unfoldable pub amount_of_share : Option ℕ → ℕ → ℕ
amount_of_share none net = net
amount_of_share (some share) net = net * share / full_bps

examine_release : Chain → KeeperCandidate → Examined
unfolding by_preview
examine_release chain c = elim c.client [
  | none ↦ clear
  | some owner ↦ elim (chain.release c.job_id) [
    | none ↦ unread
    | some r ↦
        by_preview
          (chain.preview c.job_id r.payee (amount_of_share c.provider_bps r.net) owner r.proof)
  ]
]

unfoldable pub proof_rule : Chain → ℕ → HoldRule
unfolding examine_release
proof_rule chain grace = record {
  reason = proof_stale;
  grace_seconds = some grace;
  examine = examine_release chain;
}

unfoldable pub rules_of : Bool → Chain → ℕ → List HoldRule
rules_of gated chain grace = if gated then no_proof_rule chain ∷ proof_rule chain grace ∷ [] else []

-- The first rule that refuses; one that could not be read is passed over.
unfoldable pub first_refusal : List HoldRule → KeeperCandidate → Option HoldRule
first_refusal [] c = none
first_refusal (rule ∷ rules) c =
    let rest = first_refusal rules c in
    elim (rule.examine c) [ refuses ↦ some rule | clear ↦ rest | unread ↦ rest ]

-- Whether the wait since a hold is the rule's grace at least.
unfoldable pub is_past_grace : Option ℕ → ℕ → ℕ → Bool
is_past_grace none since now = false
is_past_grace (some grace) since now = leb (since + grace) now

-- What becomes of a job that is about to be sent.
pub data Clearance : Type 0 where
  cleared : Clearance
  held_back : HoldReason → Clearance

unfoldable pub cleared_by_holds : List HoldRule → KeeperCandidate → ℕ → Rows → Clearance × Rows
cleared_by_holds [] c now rows = (cleared, rows)
cleared_by_holds (rule ∷ rules) c now rows = elim (first_refusal (rule ∷ rules) c) [
  | none ↦ (cleared, release_hold c.job_id rows)
  | some refusal ↦
      let (since, held) = hold c.job_id refusal.reason now rows in
      if is_past_grace refusal.grace_seconds since now
      then (cleared, held)
      else (held_back refusal.reason, held)
]

unfoldable pub release_left : List ℕ → List ℕ → Rows → Rows
release_left present [] rows = rows
release_left present (id ∷ ids) rows =
    release_left present ids
      (if any (λ p. nat_beq p id) present then rows else release_hold id rows)

unfoldable pub forget_jobs_that_left : List ℕ → Rows → Rows
forget_jobs_that_left mirrored rows = release_left mirrored (list_held rows) rows

pub Clearance-cases :
    (c : Clearance) → (c ≡ cleared) ⊎ ((reason : HoldReason) × (c ≡ held_back reason))
Clearance-cases cleared = inl refl
Clearance-cases (held_back reason) = inr (reason, refl)
