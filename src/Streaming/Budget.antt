-- ===== src/Streaming/Budget.antt =====
-- streaming/budget.go: `Budget`. Costs are float64; their arithmetic is a parameter. The mutex makes
-- every operation one step.
pub mod Limits
use kae_agent_public.Base.{
  ℕ, ℤ, pos, negsuc, ◌+ℤ◌, ◌-ℤ◌, ltb_ℤ, wrap64, Bool, Option, none, some, if◌then◌else◌, ◌&&◌, List,
  [], ◌∷◌,
}

-- What the package uses of float64.
pub record Floats (F : Type 0) : Type 0 where
  pub of_int : ℤ → F
  pub plus : F → F → F
  pub minus : F → F → F
  pub times : F → F → F
  pub less : F → F → Bool

pub data Exceeded (F : Type 0) : Type 0 where
  tokens_exceeded : ℤ → ℤ → Exceeded F
  cost_exceeded : F → F → Exceeded F

pub record Budget (F : Type 0) : Type 0 where
  pub max_tokens : ℤ
  pub max_cost_usd : F
  pub total_input : ℤ
  pub total_output : ℤ
  pub total_cost_usd : F
  pub cost_per_input_token : F
  pub cost_per_output_token : F

pub record BudgetConfig (F : Type 0) : Type 0 where
  pub max_tokens : ℤ
  pub max_cost_usd : F
  pub cost_per_input_token : F
  pub cost_per_output_token : F

-- It has the fields of `Budget`.
pub record BudgetSnapshot (F : Type 0) : Type 0 where
  pub max_tokens : ℤ
  pub max_cost_usd : F
  pub total_input : ℤ
  pub total_output : ℤ
  pub total_cost_usd : F
  pub cost_per_input_token : F
  pub cost_per_output_token : F

pub record UsageReport (F : Type 0) : Type 0 where
  pub input_tokens : ℤ
  pub output_tokens : ℤ
  pub total_tokens : ℤ
  pub cost_usd : F

-- a + b on a 64-bit int.
abbrev pub add_int : ℤ → ℤ → ℤ
add_int a b = wrap64 (a +ℤ b)

module _ {F : Type 0} where
  unfoldable pub snapshot : Budget F → BudgetSnapshot F
  snapshot b = record {
    max_tokens = b.max_tokens;
    max_cost_usd = b.max_cost_usd;
    total_input = b.total_input;
    total_output = b.total_output;
    total_cost_usd = b.total_cost_usd;
    cost_per_input_token = b.cost_per_input_token;
    cost_per_output_token = b.cost_per_output_token;
  }

  unfoldable pub new_budget_from_snapshot : BudgetSnapshot F → Budget F
  new_budget_from_snapshot s = record {
    max_tokens = s.max_tokens;
    max_cost_usd = s.max_cost_usd;
    total_input = s.total_input;
    total_output = s.total_output;
    total_cost_usd = s.total_cost_usd;
    cost_per_input_token = s.cost_per_input_token;
    cost_per_output_token = s.cost_per_output_token;
  }

  -- It overwrites every field of the budget.
  unfoldable pub restore : BudgetSnapshot F → Budget F → Budget F
  unfolding new_budget_from_snapshot
  restore s b = new_budget_from_snapshot s

module _ {F : Type 0} (fl : Floats F) where
  unfoldable pub new_budget : BudgetConfig F → Budget F
  new_budget cfg = record {
    max_tokens = cfg.max_tokens;
    max_cost_usd = cfg.max_cost_usd;
    total_input = pos 0;
    total_output = pos 0;
    total_cost_usd = fl.of_int (pos 0);
    cost_per_input_token = cfg.cost_per_input_token;
    cost_per_output_token = cfg.cost_per_output_token;
  }

  unfoldable pub add : ℤ → ℤ → Budget F → Budget F
  add input output b = record b {
    total_input = add_int b.total_input input;
    total_output = add_int b.total_output output;
    total_cost_usd = fl.plus b.total_cost_usd (
        fl.plus (fl.times (fl.of_int input) b.cost_per_input_token)
          (fl.times (fl.of_int output) b.cost_per_output_token));
  }

  unfoldable pub check : Budget F → Option (Exceeded F)
  check b =
      let total = add_int b.total_input b.total_output in
      if ltb_ℤ (pos 0) b.max_tokens && ltb_ℤ b.max_tokens total
      then some (tokens_exceeded total b.max_tokens)
      else if fl.less (fl.of_int (pos 0)) b.max_cost_usd && fl.less b.max_cost_usd b.total_cost_usd
      then some (cost_exceeded b.total_cost_usd b.max_cost_usd)
      else none

  unfoldable pub usage : Budget F → UsageReport F
  usage b = record {
    input_tokens = b.total_input;
    output_tokens = b.total_output;
    total_tokens = add_int b.total_input b.total_output;
    cost_usd = b.total_cost_usd;
  }

  unfoldable pub remaining_tokens : Budget F → ℤ
  remaining_tokens b =
      if ltb_ℤ (pos 0) b.max_tokens
      then (let left = wrap64 (b.max_tokens -ℤ add_int b.total_input b.total_output) in
          if ltb_ℤ left (pos 0) then pos 0 else left)
      else negsuc 0

  unfoldable pub remaining_cost : Budget F → F
  remaining_cost b =
      if fl.less (fl.of_int (pos 0)) b.max_cost_usd
      then (let left = fl.minus b.max_cost_usd b.total_cost_usd in
          if fl.less left (fl.of_int (pos 0)) then fl.of_int (pos 0) else left)
      else fl.of_int (negsuc 0)

  unfoldable pub remaining : Budget F → ℤ × F
  unfolding remaining_tokens remaining_cost
  remaining b = (remaining_tokens b, remaining_cost b)

  unfoldable pub reset : Budget F → Budget F
  reset b = record b {
    total_input = pos 0;
    total_output = pos 0;
    total_cost_usd = fl.of_int (pos 0);
  }
