-- ===== src/Hosted/Tests.antt =====
-- Runs of the allowance (packages/hosted/src/allowance.ts).
use square.Base.{
  ◌+◌, ◌≤◌, ◌≡◌, ◌↔◌, refl, true, some, none, [], ◌∷◌, nat_eq, nat_beq, sum, arith, if◌then◌else◌,
}
use square.Base.JsMap
use square.Base.JsMap.{JsMap, values}
use square.Hosted.Allowance.{PolicyAllowance, Chain, funded, is_settled, settle, view, admit}
use square.Hosted.Allowance.Laws.{admit_iff, admit-funded}

-- Job 1 is completed, every other is funded.
abbrev chain : Chain
chain = record {
  committed = true;
  daily_limit = 100;
  spent_today = 30;
  status_of = λ id. if nat_beq id 1 then 3 else 1;
}

abbrev two_jobs : PolicyAllowance
two_jobs = record { max_per_job = some 50; in_flight = (1, 40) ∷ (2, 25) ∷ [] }

view_run : (view chain two_jobs).0.available ≡ 45
unfolding view settle is_settled JsMap.get JsMap.delete
view_run = refl

admit_iff_example :
    ((admit chain two_jobs 45).0 ≡ none)
    ↔ ((true ≡ true) × (45 ≤ 50) × (30 + sum (values (settle chain two_jobs).in_flight) + 45 ≤ 100))
admit_iff_example = admit_iff chain two_jobs 45 (omega arith)

admitted : (admit chain two_jobs 45).0 ≡ none
unfolding admit view settle is_settled JsMap.get JsMap.delete
admitted = refl

new_job : JsMap.get 3 (admit chain two_jobs 45).1.in_flight ≡ none
unfolding admit view settle is_settled JsMap.get JsMap.delete
new_job = refl

admit-funded_example : 30 + sum (values (funded (admit chain two_jobs 45).1 3 45).in_flight) ≤ 100
admit-funded_example = admit-funded chain two_jobs 45 3 (omega arith) admitted new_job
