-- ===== src/Control/Policy.antt =====
-- control/policy-compile.ts and the policy types of contracts/index.ts: the effective policy is the
-- most restrictive intersection of the layers. `none` is the error thrown on an empty list.
pub mod Meet
mod Tests
use casper_agops_server.Prelude.{
  ℕ, String, Bool, true, Option, none, some, List, [], ◌∷◌, map, ◌≡◌, ◌↔◌, arith, ltb, ◌=?◌,
  HasEquality, includes, select, if◌then◌else◌, ◌&&◌, string_eq,
}

pub data Rail : Type 0 where
  raw_x402 circle_nano casper_x402 cspr_trade casper_deploy evm_transfer : Rail

abbrev pub rail_index : Rail → ℕ
rail_index raw_x402 = 0
rail_index circle_nano = 1
rail_index casper_x402 = 2
rail_index cspr_trade = 3
rail_index casper_deploy = 4
rail_index evm_transfer = 5

abbrev pub rail_beq : Rail → Rail → Bool
rail_beq a b = rail_index a =? rail_index b

pub rail_beq_iff : (a b : Rail) → (rail_beq a b ≡ true) ↔ (a ≡ b)
rail_beq_iff a b = ground arith

instance abbrev pub rail_eq : HasEquality Rail
rail_eq = record { is_equal = rail_beq; is_equal_iff = rail_beq_iff }

pub record SpendPolicy : Type 0 where
  pub spend_cap : ℕ
  pub per_transaction_max : ℕ
  pub service_scope : List String
  pub rail_permission : List Rail
  pub velocity_limit_per_hour : ℕ

pub record AllocationPolicy : Type 0 where
  pub total_budget : ℕ
  pub per_agent_max : ℕ
  pub cooldown_seconds : ℕ
  pub allowed_destinations : List String

pub record EffectivePolicy : Type 0 where
  pub agent_id : ℕ
  pub org_id : ℕ
  pub policy_id : String
  pub policy_epoch : ℕ
  pub spend : SpendPolicy
  pub allocation : AllocationPolicy

unfoldable pub smaller : ℕ → ℕ → ℕ
smaller a b = if ltb b a then b else a

unfoldable pub larger : ℕ → ℕ → ℕ
larger a b = if ltb a b then b else a

-- `values.reduce(f)` on a list with a head; `bigintMin`, `numberMin` and `numberMax` are uses.
unfoldable pub reduce : (ℕ → ℕ → ℕ) → ℕ → List ℕ → ℕ
reduce f a [] = a
reduce f a (b ∷ bs) = reduce f (f a b) bs

module _ {A : Type 0} ⦃e : HasEquality A⦄ where
  unfoldable pub in_every : List (List A) → A → Bool
  in_every [] item = true
  in_every (layer ∷ layers) item = includes layer item && in_every layers item

  unfoldable pub intersect_all : List (List A) → List A
  intersect_all [] = []
  intersect_all (first ∷ rest) = select (in_every (first ∷ rest)) first

unfoldable pub meet_spend : SpendPolicy → List SpendPolicy → SpendPolicy
meet_spend l ls = record {
  spend_cap = reduce smaller l.spend_cap (map (λ p. p.spend_cap) ls);
  per_transaction_max = reduce smaller l.per_transaction_max (map (λ p. p.per_transaction_max) ls);
  service_scope = intersect_all (map (λ p. p.service_scope) (l ∷ ls));
  rail_permission = intersect_all (map (λ p. p.rail_permission) (l ∷ ls));
  velocity_limit_per_hour =
      reduce smaller l.velocity_limit_per_hour (map (λ p. p.velocity_limit_per_hour) ls);
}

unfoldable pub compile_spend : List SpendPolicy → Option SpendPolicy
unfolding meet_spend
compile_spend [] = none
compile_spend (l ∷ ls) = some (meet_spend l ls)

unfoldable pub meet_allocation : AllocationPolicy → List AllocationPolicy → AllocationPolicy
meet_allocation l ls = record {
  total_budget = reduce smaller l.total_budget (map (λ p. p.total_budget) ls);
  per_agent_max = reduce smaller l.per_agent_max (map (λ p. p.per_agent_max) ls);
  cooldown_seconds = reduce larger l.cooldown_seconds (map (λ p. p.cooldown_seconds) ls);
  allowed_destinations = intersect_all (map (λ p. p.allowed_destinations) (l ∷ ls));
}

unfoldable pub compile_allocation : List AllocationPolicy → Option AllocationPolicy
unfolding meet_allocation
compile_allocation [] = none
compile_allocation (l ∷ ls) = some (meet_allocation l ls)

pub record CompileInput : Type 0 where
  pub agent_id : ℕ
  pub org_id : ℕ
  pub policy_id : String
  pub policy_epoch : ℕ
  pub spend_layers : List SpendPolicy
  pub allocation_layers : List AllocationPolicy

infixl 5 ◌>>=◌
abbrev ◌>>=◌ : {A B : Type 0} → Option A → (A → Option B) → Option B
none >>= f = none
some a >>= f = f a

unfoldable pub compile_effective_policy : CompileInput → Option EffectivePolicy
compile_effective_policy input = do
  spend ← compile_spend input.spend_layers
  allocation ← compile_allocation input.allocation_layers
  some (record {
    agent_id = input.agent_id;
    org_id = input.org_id;
    policy_id = input.policy_id;
    policy_epoch = input.policy_epoch;
    spend = spend;
    allocation = allocation;
  })
