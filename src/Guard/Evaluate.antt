-- ===== src/Guard/Evaluate.antt =====
-- casper-guard/policy.ts, `evaluateCasperGuardPolicy`, with casper-guard/quote-verification.ts.
pub mod Laws
use text.Mathlib.Text.{starts_with}
use casper_agops_server.Prelude.{
  ℕ, ◌+◌, ◌-◌, ◌*◌, ◌/◌, String, Bool, true, false, not, ◌&&◌, ◌||◌, Option, none, some, List, [],
  ◌∷◌, map, arith, ltb, leb, ◌=?◌, ◌==◌, includes, string_eq, nat_eq, if◌then◌else◌, codes,
  to_lower, same_codes, trim,
}
use casper_agops_server.Guard.Intent.{
  Network, ActionKind, Asset, cep18, Intent, pays, trades, deploys, transfers, kind, network,
  resource_id, amount, asset_kind, asset_kind_beq, asset_ref, network_eq, kind_eq, CsprTrade,
  X402Payment, CasperDeploy,
}

pub data DenyReason : Type 0 where
  per_transaction_max_exceeded spend_cap_exceeded insufficient_float action_not_allowed : DenyReason
  network_not_allowed service_not_allowed service_scope_destination_mismatch : DenyReason
  velocity_exceeded org_suspended agent_suspended trade_risk_exceeded : DenyReason
  idempotency_in_progress idempotency_conflict x402_asset_not_supported : DenyReason
  action_kind_resource_mismatch legal_acceptance_required legal_context_fetch_failed : DenyReason
  legal_terms_hash_mismatch : DenyReason

pub record TradePolicy : Type 0 where
  pub max_slippage_bps : ℕ
  pub allowed_risk_labels : List String

pub record GuardPolicy : Type 0 where
  pub policy_ref : String
  pub spend_cap : ℕ
  pub per_transaction_max : ℕ
  pub service_scope : List String
  pub service_destinations : List (String × String)
  pub allowed_actions : List ActionKind
  pub allowed_networks : List Network
  pub velocity_limit_per_hour : ℕ
  pub trade : Option TradePolicy

-- `verifyMinReceivedWithinSlippage`. A policy above 10000 bps gives the floor 0 here and a floor of
-- at most 0 in the source, which admit the same amounts.
pub amount_out_min : ℕ → ℕ → ℕ
amount_out_min quoted max_slippage_bps = quoted * (10_000 - max_slippage_bps) / 10_000

pub verify_min_received_within_slippage : ℕ → ℕ → ℕ → Bool
unfolding amount_out_min
verify_min_received_within_slippage quoted max_slippage_bps min_received =
    leb (amount_out_min quoted max_slippage_bps) min_received

-- `trim().toLowerCase()`.
normalise : String → List ℕ
normalise s = map to_lower (codes (trim s))

pub same_destination : String → String → Bool
unfolding normalise
same_destination a b = same_codes (normalise a) (normalise b)

pub registered_destination : List (String × String) → String → Option String
registered_destination [] resource = none
registered_destination ((r, d) ∷ table) resource =
    if r == resource then some d else registered_destination table resource

unfoldable pub is_x402_or_trade_resource : String → Bool
is_x402_or_trade_resource r = starts_with r "svc:" || starts_with r "cspr.trade:"

pub destination_mismatch : GuardPolicy → X402Payment → Bool
destination_mismatch policy i =
    elim (registered_destination policy.service_destinations i.resource_id) [
      | none ↦ false
      | some d ↦ not (same_destination d i.destination)
    ]

-- The market's amount out for a swap; the inner `none` is a quoter that throws.
abbrev pub Quoter : Type 0
Quoter = Option (String → String → ℕ → Option ℕ)

pub data Verdict : Type 0 where
  permit quoter_failed : Verdict
  refuse : DenyReason → Verdict

pub risk_allowed : List String → Option String → Bool
risk_allowed labels none = false
risk_allowed labels (some label) = not (label == "") && includes labels label

pub check_quote : TradePolicy → CsprTrade → Option ℕ → Verdict
check_quote t i none = quoter_failed
check_quote t i (some quoted) =
    if verify_min_received_within_slippage quoted t.max_slippage_bps i.min_received
    then permit
    else refuse trade_risk_exceeded

pub ask_quoter : Quoter → TradePolicy → CsprTrade → Verdict
ask_quoter none t i = permit
ask_quoter (some quote) t i =
    check_quote t i (quote (asset_ref i.from_asset) (asset_ref i.to_asset) i.amount)

pub check_trade : Quoter → Option TradePolicy → CsprTrade → Verdict
check_trade quoter none i = refuse trade_risk_exceeded
check_trade quoter (some t) i =
    if ltb t.max_slippage_bps i.slippage_bps
      || not (risk_allowed t.allowed_risk_labels i.risk_label)
    then refuse trade_risk_exceeded
    else ask_quoter quoter t i

-- The checks before the amount that look at the kind of the intent.
unfoldable pub check_shape : GuardPolicy → Intent → Verdict
check_shape policy (pays i) =
    if destination_mismatch policy i
    then refuse service_scope_destination_mismatch
    else if asset_kind_beq (asset_kind i.asset) cep18
    then permit
    else refuse x402_asset_not_supported
check_shape policy (trades i) = permit
check_shape policy (deploys i) =
    if is_x402_or_trade_resource i.resource_id then refuse action_kind_resource_mismatch else permit
check_shape policy (transfers i) = permit

unfoldable pub check_kind : Quoter → GuardPolicy → Intent → Verdict
check_kind quoter policy (pays i) = permit
check_kind quoter policy (trades i) = check_trade quoter policy.trade i
check_kind quoter policy (deploys i) = permit
check_kind quoter policy (transfers i) = permit

-- The next check runs only if this one permits.
infixr 5 ◌and_then◌
abbrev pub ◌and_then◌ : Verdict → Verdict → Verdict
permit and_then next = next
quoter_failed and_then next = quoter_failed
(refuse r) and_then next = refuse r

abbrev pub require : Bool → DenyReason → Verdict
require true r = permit
require false r = refuse r

-- The first argument says whether the org's `deny_all` key exists.
unfoldable pub evaluate_policy : Bool → Quoter → GuardPolicy → Intent → Verdict
evaluate_policy suspended quoter policy intent =
    require (not suspended) org_suspended
    and_then require (includes policy.allowed_actions (kind intent)) action_not_allowed
    and_then require (includes policy.allowed_networks (network intent)) network_not_allowed
    and_then require (includes policy.service_scope (resource_id intent)) service_not_allowed
    and_then check_shape policy intent
    and_then require (leb (amount intent) policy.per_transaction_max) per_transaction_max_exceeded
    and_then check_kind quoter policy intent
