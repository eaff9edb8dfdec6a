-- ===== src/Keeper/Gas.antt =====
-- services/keeper/src/gas.ts: what a settlement call is assumed to cost in gas.
pub mod Window
use square.Base.{
  ℕ, ◌+◌, ◌-◌, ◌/◌, Bool, true, false, not, ◌&&◌, ◌||◌, Option, none, some, List, [], ◌∷◌, ◌++◌,
  leb, ltb, nat_beq, if◌then◌else◌, Text, get_or, length, drop, sum, zero, suc,
}

pub data SettlementAction : Type 0 where
  finalize finalize_decided : SettlementAction

abbrev pub moduleless_finalize_gas : ℕ
moduleless_finalize_gas = 560000

abbrev pub moduleless_finalize_decided_gas : ℕ
moduleless_finalize_decided_gas = 610000

abbrev pub gated_finalize_gas : ℕ
gated_finalize_gas = 1090000

abbrev pub gated_finalize_decided_gas : ℕ
gated_finalize_decided_gas = 1140000

abbrev pub default_finalize_gas_samples : ℕ
default_finalize_gas_samples = 5

pub data GasSource : Type 0 where
  operator receipts default : GasSource

pub record FinalizeGasDefaults : Type 0 where
  pub finalize_gas : ℕ
  pub finalize_decided_gas : ℕ

unfoldable pub finalize_gas_defaults : Bool → FinalizeGasDefaults
finalize_gas_defaults gated =
    if gated
    then record {
      finalize_gas = gated_finalize_gas;
      finalize_decided_gas = gated_finalize_decided_gas;
    }
    else record {
      finalize_gas = moduleless_finalize_gas;
      finalize_decided_gas = moduleless_finalize_decided_gas;
    }

pub record ComplianceGate : Type 0 where
  pub installed : Option Text
  pub tolerance : Option ℕ
  pub gated : Bool
  pub known : Bool

-- The answers of the chain client, `none` where the call throws. The warning is not modelled.
unfoldable pub read_compliance_gate : Option (Option Text) → Option ℕ → ComplianceGate
read_compliance_gate none tolerance = record {
  installed = none;
  tolerance = none;
  gated = true;
  known = false;
}
read_compliance_gate (some none) tolerance = record {
  installed = none;
  tolerance = none;
  gated = false;
  known = true;
}
read_compliance_gate (some (some address)) none = record {
  installed = none;
  tolerance = none;
  gated = true;
  known = false;
}
read_compliance_gate (some (some address)) (some t) = record {
  installed = some address;
  tolerance = some t;
  gated = true;
  known = true;
}

pub record GasAssumptionOptions : Type 0 where
  pub finalize_gas : ℕ
  pub finalize_decided_gas : ℕ
  pub pinned : Bool
  pub samples : Option ℕ

-- The closure's state: its constants, and the receipts of each action, the newest last.
pub record GasAssumption : Type 0 where
  pub pinned : Bool
  pub keep : ℕ
  pub constant : SettlementAction → ℕ
  pub window : SettlementAction → List ℕ

constants : GasAssumptionOptions → SettlementAction → ℕ
constants o finalize = o.finalize_gas
constants o finalize_decided = o.finalize_decided_gas

-- `Math.max(0, samples)` is the count itself, since counts are natural numbers.
unfoldable pub gas_assumption : GasAssumptionOptions → GasAssumption
unfolding constants
gas_assumption o = record {
  pinned = o.pinned;
  keep = get_or o.samples default_finalize_gas_samples;
  constant = constants o;
  window = λ a. [];
}

unfoldable pub average : List ℕ → Option ℕ
average [] = none
average (g ∷ gs) = let count = length (g ∷ gs) in some ((sum (g ∷ gs) + count - 1) / count)

unfoldable pub assumed : GasAssumption → SettlementAction → ℕ
assumed s a = if s.pinned then s.constant a else get_or (average (s.window a)) (s.constant a)

same_action : SettlementAction → SettlementAction → Bool
same_action finalize finalize = true
same_action finalize_decided finalize_decided = true
same_action _ _ = false

-- `push`, then `splice` off what is more than `keep` at the front.
unfoldable pub push_sample : ℕ → List ℕ → ℕ → List ℕ
push_sample keep w gas =
    let w' = w ++ gas ∷ [] in if ltb keep (length w') then drop (length w' - keep) w' else w'

unfoldable pub record_receipt : GasAssumption → SettlementAction → ℕ → GasAssumption
unfolding same_action
record_receipt s a gas = if s.pinned || nat_beq s.keep 0 || leb gas 0 then s else record s {
  window = λ b. if same_action a b then push_sample s.keep (s.window a) gas else s.window b;
}

unfoldable pub source : GasAssumption → SettlementAction → GasSource
source s a =
    if s.pinned then operator else (if ltb 0 (length (s.window a)) then receipts else default)

unfoldable pub seen : GasAssumption → SettlementAction → ℕ
seen s a = length (s.window a)
