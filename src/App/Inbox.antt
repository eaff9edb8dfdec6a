-- ===== src/App/Inbox.antt =====
-- app/src/lib/inbox.ts: what waits for a wallet. The texts of the groups are left out.
pub mod Laws
use square.Base.{
  ◌≡◌, ◌↔◌, ◌++◌, [], ◌∷◌, get_or, Eq, arith, ℕ, Bool, true, false, not, ◌&&◌, ◌||◌, Option, none,
  some, List, [], ◌∷◌, ◌++◌, leb, ltb, nat_beq, filter, length, Text, if◌then◌else◌,
}
use square.Base.JsMap
use square.Base.JsMap.{JsMap}
use square.Indexer.JobStatus
use square.App.Actions.{JobSummary, submit_available, refund_available, keeper_evaluates}

pub data InboxKind : Type 0 where
  submit fund budget dispute finalize refund : InboxKind

pub record InboxGroup : Type 0 where
  pub kind : InboxKind
  pub jobs : List JobSummary

abbrev pub code : InboxKind → ℕ
code submit = 0
code fund = 1
code budget = 2
code dispute = 3
code finalize = 4
code refund = 5

pub kind_beq_iff : (j k : InboxKind) → (nat_beq (code j) (code k) ≡ true) ↔ (j ≡ k)
kind_beq_iff j k = (λ h. ground arith, λ h. ground arith)

instance abbrev pub kind_eq : Eq InboxKind
kind_eq = record { beq_iff = kind_beq_iff; beq = λ j k. nat_beq (code j) (code k) }

abbrev pub order : List InboxKind
order = submit ∷ fund ∷ budget ∷ dispute ∷ finalize ∷ refund ∷ []

module _ (is_address_equal : Text → Text → Bool) (zero_address : Text) where
  open_kind : JobSummary → Bool → Bool → Option InboxKind
  open_kind job client live =
      if not client || not live
      then none
      else if nat_beq job.budget 0
      then some budget
      else if is_address_equal job.provider zero_address
      then none
      else some fund

  submitted_kind : JobSummary → Text → ℕ → Bool → Bool → Option InboxKind
  submitted_kind job keeper now client live =
      if job.disputed
      then none
      else if not (keeper_evaluates is_address_equal job keeper)
      then none
      else if ltb 0 job.challenge_end && leb job.challenge_end now
      then some finalize
      else if client && live && ltb 0 job.challenge_end
      then some dispute
      else none

  unfoldable pub classify : JobSummary → Text → Text → ℕ → Option InboxKind
  unfolding open_kind submitted_kind
  classify job address keeper now =
      let client = is_address_equal job.client address in
      let provider = is_address_equal job.provider address in
      let live = ltb now job.expired_at in
      if not client && not provider
      then none
      else if client && refund_available is_address_equal job keeper now
      then some refund
      else if nat_beq job.status JobStatus.open_job
      then open_kind job client live
      else if nat_beq job.status JobStatus.funded
      then if provider && submit_available job now then some submit else none
      else if nat_beq job.status JobStatus.submitted
      then submitted_kind job keeper now client live
      else none

  -- `address` is none where no wallet is connected.
  unfoldable pub wallet_job_count : List JobSummary → Option Text → ℕ
  wallet_job_count jobs address = elim address [
    | none ↦ 0
    | some a ↦
        length (filter (λ j. is_address_equal j.client a || is_address_equal j.provider a) jobs)
  ]

  bucket :
      List JobSummary
      → Text
      → Text
      → ℕ
      → JsMap InboxKind (List JobSummary)
      → JsMap InboxKind (List JobSummary)
  bucket [] address keeper now buckets = buckets
  bucket (job ∷ jobs) address keeper now buckets =
      bucket jobs address keeper now (elim (classify job address keeper now) [
        | none ↦ buckets
        | some kind ↦ JsMap.set kind (get_or (JsMap.get kind buckets) [] ++ job ∷ []) buckets
      ])

  group_of : JsMap InboxKind (List JobSummary) → List InboxKind → List InboxGroup
  group_of buckets [] = []
  group_of buckets (kind ∷ kinds) =
      let rest = group_of buckets kinds in
      elim (JsMap.get kind buckets) [
        | none ↦ rest
        | some jobs ↦ record { kind = kind; jobs = jobs } ∷ rest
      ]

  unfoldable pub wallet_inbox : List JobSummary → Option Text → Text → ℕ → List InboxGroup
  unfolding bucket group_of
  wallet_inbox jobs address keeper now = elim address [
    | none ↦ []
    | some a ↦ group_of (bucket jobs a keeper now []) order
  ]
