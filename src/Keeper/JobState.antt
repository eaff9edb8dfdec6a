-- ===== src/Keeper/JobState.antt =====
-- packages/data/src/repositories/keeperJobState.ts: what the keeper remembers of a job in the database, one
-- chain's rows. The times of `now()` are left out: whether a column has one is all that is read.
use square.Base.{
  ℕ, ◌+◌, Bool, true, false, Option, none, some, List, [], ◌∷◌, ltb, if◌then◌else◌, nat_eq, get_or,
}
use square.Base.JsMap
use square.Base.JsMap.{JsMap}
use square.Base.Sort.{sort}

-- `HOLD_REASONS` of services/keeper/src/run.ts.
pub data HoldReason : Type 0 where
  no_proof proof_stale : HoldReason

unfoldable pub same_reason : HoldReason → HoldReason → Bool
same_reason no_proof no_proof = true
same_reason proof_stale proof_stale = true
same_reason _ _ = false

pub record KeeperJobState : Type 0 where
  pub finalize_gave_up : Bool
  pub expiry_recorded : Bool
  pub expiry_attempts : ℕ
  pub expiry_next_at : Option ℕ
  pub expiry_gave_up : Bool
  pub unprofitable_journaled : Bool
  pub held_reason : Option HoldReason
  pub held_since : Option ℕ

-- The columns' defaults.
abbrev pub new_row : KeeperJobState
new_row = record {
  finalize_gave_up = false;
  expiry_recorded = false;
  expiry_attempts = 0;
  expiry_next_at = none;
  expiry_gave_up = false;
  unprofitable_journaled = false;
  held_reason = none;
  held_since = none;
}

abbrev pub Rows : Type 0
Rows = JsMap ℕ KeeperJobState

-- `insert … on conflict do update`.
abbrev pub upsert_row : ℕ → (KeeperJobState → KeeperJobState) → Rows → Rows
upsert_row id f rows = JsMap.set id (f (get_or (JsMap.get id rows) new_row)) rows

-- `update … where …`: how many rows, and the rows.
abbrev pub update_row :
    ℕ → (KeeperJobState → Bool) → (KeeperJobState → KeeperJobState) → Rows → ℕ × Rows
update_row id test f rows = elim (JsMap.get id rows) [
  | none ↦ (0, rows)
  | some row ↦ if test row then (1, JsMap.set id (f row) rows) else (0, rows)
]

-- The ids of the rows that pass, in their order.
unfoldable pub ids_where : (KeeperJobState → Bool) → Rows → List ℕ
ids_where test [] = []
ids_where test ((id, row) ∷ rows) =
    let rest = ids_where test rows in if test row then id ∷ rest else rest

unfoldable pub list_finalize_gave_up : Rows → List ℕ
list_finalize_gave_up rows = sort ltb (ids_where (λ r. r.finalize_gave_up) rows)

unfoldable pub mark_finalize_gave_up : ℕ → Rows → Rows
mark_finalize_gave_up id = upsert_row id (λ r. record r { finalize_gave_up = true })

unfoldable pub clear_finalize_give_up : ℕ → Rows → ℕ × Rows
clear_finalize_give_up id =
    update_row id (λ r. r.finalize_gave_up) (λ r. record r { finalize_gave_up = false })

unfoldable pub mark_expiry_recorded : ℕ → Rows → Rows
mark_expiry_recorded id = upsert_row id (λ r. record r { expiry_recorded = true })

unfoldable pub bump_expiry_attempts : ℕ → Rows → ℕ × Rows
bump_expiry_attempts id rows = (
  (get_or (JsMap.get id rows) new_row).expiry_attempts + 1,
  upsert_row id (λ r. record r { expiry_attempts = r.expiry_attempts + 1 }) rows,
)

unfoldable pub schedule_expiry_retry : ℕ → ℕ → Bool → Rows → Rows
schedule_expiry_retry id next_attempt_at gave_up rows =
    (update_row id (λ r. true)
      (λ r. record r { expiry_next_at = some next_attempt_at; expiry_gave_up = gave_up }) rows).1

unfoldable pub list_expiry_gave_up : Rows → List ℕ
list_expiry_gave_up rows = sort ltb (ids_where (λ r. r.expiry_gave_up) rows)

unfoldable pub clear_expiry_give_up : ℕ → Rows → ℕ × Rows
clear_expiry_give_up id =
    update_row id (λ r. r.expiry_gave_up)
      (λ r. record r { expiry_gave_up = false; expiry_attempts = 0; expiry_next_at = none })

-- Whether it was the first time.
unfoldable pub mark_unprofitable_journaled : ℕ → Rows → Bool × Rows
mark_unprofitable_journaled id rows =
    if (get_or (JsMap.get id rows) new_row).unprofitable_journaled
    then (false, rows)
    else (true, upsert_row id (λ r. record r { unprofitable_journaled = true }) rows)

abbrev pub held_for : HoldReason → Option HoldReason → Bool
held_for reason none = false
held_for reason (some r) = same_reason r reason

-- Since when a job is held for a reason, once it is held for it.
unfoldable pub hold_since : HoldReason → ℕ → KeeperJobState → ℕ
hold_since reason since r =
    if held_for reason r.held_reason then get_or r.held_since since else since

unfoldable pub hold : ℕ → HoldReason → ℕ → Rows → ℕ × Rows
hold id reason since rows = (
  hold_since reason since (get_or (JsMap.get id rows) new_row),
  upsert_row id
      (λ r. record r { held_reason = some reason; held_since = some (hold_since reason since r) })
      rows,
)

abbrev pub is_held : KeeperJobState → Bool
is_held r = elim r.held_reason [ none ↦ false | some reason ↦ true ]

unfoldable pub release_hold : ℕ → Rows → Rows
release_hold id rows =
    (update_row id is_held (λ r. record r { held_reason = none; held_since = none }) rows).1

unfoldable pub list_held : Rows → List ℕ
list_held rows = sort ltb (ids_where is_held rows)
