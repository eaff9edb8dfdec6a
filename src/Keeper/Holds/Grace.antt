-- ===== src/Keeper/Holds/Grace.antt =====
-- services/keeper/src/run.ts: how long a rule holds a job back.
use square.Base.{
  ℕ, ◌+◌, ◌≡◌, refl, ap, sym, subst, ◌∙◌, true, false, Bool, ◌≢◌, some, List, [], ◌∷◌, arith, leb,
  nat_eq, if◌then◌else◌,
}
use square.Base.JsMap.{get_self}
use square.Keeper.Decide.{KeeperCandidate}
use square.Keeper.JobState.{
  HoldReason, no_proof, proof_stale, same_reason, held_for, KeeperJobState, hold_since, hold, Rows,
}
use square.Keeper.Chain.{row_of}
use square.Keeper.Holds.{
  HoldRule, cleared, held_back, first_refusal, is_past_grace, cleared_by_holds,
}

-- The rows after a job was examined at each of some times.
unfoldable pub examined : List HoldRule → KeeperCandidate → List ℕ → Rows → Rows
examined rules c [] rows = rows
examined rules c (t ∷ ts) rows = examined rules c ts (cleared_by_holds rules c t rows).1

-- Since when a row says that a job is held for a reason.
abbrev IsHeldSince : HoldReason → ℕ → ℕ → Rows → Type 0
IsHeldSince reason since id rows =
    ((row_of rows id).held_reason ≡ some reason) × ((row_of rows id).held_since ≡ some since)

same_reason_self : (reason : HoldReason) → same_reason reason reason ≡ true
unfolding same_reason
same_reason_self no_proof = refl
same_reason_self proof_stale = refl

if_pair :
    {A B : Type 0} (b : Bool) (x y : A) (z : B)
    → ◌≡◌ {A = A × B} (if b then (x, z) else (y, z)) ((if b then x else y), z)
if_pair true x y z = refl
if_pair false x y z = refl

no_refusal : (rule : HoldRule) (c : KeeperCandidate) → first_refusal [] c ≢ some rule
unfolding first_refusal
no_refusal rule c = λ refused. ground (arith, refused)

refused_lem :
    (rules : List HoldRule) (rule : HoldRule) (c : KeeperCandidate) (now : ℕ) (rows : Rows)
    → first_refusal rules c ≡ some rule
    → cleared_by_holds rules c now rows ≡ (
      (if is_past_grace rule.grace_seconds (hold_since rule.reason now (row_of rows c.job_id)) now
          then cleared
          else held_back rule.reason),
      (hold c.job_id rule.reason now rows).1,
    )
unfolding cleared_by_holds hold
refused_lem [] rule c now rows refused = absurd (no_refusal rule c refused)
refused_lem (r ∷ rules) rule c now rows refused =
    rw (refused, cleared_by_holds)
      (if_pair
        (is_past_grace rule.grace_seconds (hold_since rule.reason now (row_of rows c.job_id)) now)
        cleared (held_back rule.reason) (hold c.job_id rule.reason now rows).1)

hold-IsHeldSince :
    (reason : HoldReason) (id now : ℕ) (rows : Rows)
    → IsHeldSince reason (hold_since reason now (row_of rows id)) id (hold id reason now rows).1
unfolding hold
hold-IsHeldSince reason id now rows = (rw (get_self id _ rows) refl, rw (get_self id _ rows) refl)

since_kept :
    (reason : HoldReason) (since id now : ℕ) (rows : Rows)
    → IsHeldSince reason since id rows
    → hold_since reason now (row_of rows id) ≡ since
unfolding hold_since
since_kept reason since id now rows (why, at) = rw (why, same_reason_self reason, at) refl

not_held_since :
    (reason : HoldReason) (now : ℕ) (r : KeeperJobState)
    → held_for reason r.held_reason ≡ false
    → hold_since reason now r ≡ now
unfolding hold_since
not_held_since reason now r other = rw (other) refl

module _ (rules : List HoldRule) (rule : HoldRule) (c : KeeperCandidate)
    (refused : first_refusal rules c ≡ some rule) where
  examined_once :
      (now since : ℕ) (rows : Rows)
      → hold_since rule.reason now (row_of rows c.job_id) ≡ since
      → IsHeldSince rule.reason since c.job_id (cleared_by_holds rules c now rows).1
  examined_once now since rows at =
      subst (λ out. IsHeldSince rule.reason since c.job_id out.1)
        (sym (refused_lem rules rule c now rows refused))
        (subst (λ t. IsHeldSince rule.reason t c.job_id (hold c.job_id rule.reason now rows).1) at
          (hold-IsHeldSince rule.reason c.job_id now rows))

  examined-IsHeldSince :
      (ts : List ℕ) (since : ℕ) (rows : Rows)
      → IsHeldSince rule.reason since c.job_id rows
      → IsHeldSince rule.reason since c.job_id (examined rules c ts rows)
  unfolding examined
  examined-IsHeldSince [] since rows held = held
  examined-IsHeldSince (t ∷ ts) since rows held =
      examined-IsHeldSince ts since _
        (examined_once t since rows (since_kept rule.reason since c.job_id t rows held))

-- A job that a rule with a grace keeps refusing is held back until that long after it was first refused, and
-- cleared from then on, however often it is examined in between.
pub cleared_by_holds-grace :
    (rules : List HoldRule) (rule : HoldRule) (grace : ℕ) (c : KeeperCandidate) (first : ℕ)
    (ts : List ℕ) (now : ℕ) (rows : Rows)
    → first_refusal rules c ≡ some rule
    → rule.grace_seconds ≡ some grace
    → held_for rule.reason (row_of rows c.job_id).held_reason ≡ false
    → (cleared_by_holds rules c now (examined rules c (first ∷ ts) rows)).0
      ≡ (if leb (first + grace) now then cleared else held_back rule.reason)
unfolding examined is_past_grace
cleared_by_holds-grace rules rule grace c first ts now rows refused has_grace new =
    let held =
      examined-IsHeldSince rules rule c refused ts first (cleared_by_holds rules c first rows).1 (
        examined_once rules rule c refused first first rows
          (not_held_since rule.reason first (row_of rows c.job_id) new)) in
    ap (λ out. out.0) (refused_lem rules rule c now (examined rules c (first ∷ ts) rows) refused)
    ∙ ap
        (λ since.
          if is_past_grace rule.grace_seconds since now then cleared else held_back rule.reason)
        (since_kept rule.reason first c.job_id now (examined rules c (first ∷ ts) rows) held)
    ∙ ap (λ g. if is_past_grace g first now then cleared else held_back rule.reason) has_grace
