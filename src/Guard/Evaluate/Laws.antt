-- ===== src/Guard/Evaluate/Laws.antt =====
-- What an intent satisfies when the policy evaluation lets it through.
use text.Mathlib.TextEquality.{eq_iff}
use casper_agops_server.Prelude.{
  ℕ, ◌+◌, ◌-◌, ◌*◌, ◌<◌, ◌≤◌, String, Bool, true, false, Option, none, some, ◌≡◌, ◌≢◌, ◌↔◌, refl,
  inl, inr, arith, includes, string_eq, Option-cases,
}
use casper_agops_server.Guard.Intent.{
  cep18, Intent, pays, trades, deploys, transfers, kind, network, resource_id, amount, asset_kind,
  asset_ref, network_eq, kind_eq, CsprTrade,
}
use casper_agops_server.Guard.Evaluate.{
  GuardPolicy, TradePolicy, Quoter, permit, amount_out_min, verify_min_received_within_slippage,
  same_destination, registered_destination, destination_mismatch, is_x402_or_trade_resource,
  risk_allowed, check_quote, ask_quoter, check_trade, check_shape, check_kind, evaluate_policy,
}

-- A payment is in a CEP-18 token, and to the destination registered for its resource, if there is
-- one; a deploy does not name an x402 service or a swap route.
abbrev pub HasShape : GuardPolicy → Intent → Type 0
HasShape policy (pays i) =
    ((d : String)
      → registered_destination policy.service_destinations i.resource_id ≡ some d
      → same_destination d i.destination ≡ true)
    × (asset_kind i.asset ≡ cep18)
HasShape policy (trades i) = Unit
HasShape policy (deploys i) = is_x402_or_trade_resource i.resource_id ≡ false
HasShape policy (transfers i) = Unit

-- A swap has a trade policy, a slippage within it, a risk label that it lists, and, where a quoter is
-- there, a minimum that is above the quoted amount less the slippage, rounded down.
pub record IsSafeTrade (quoter : Quoter) (policy : GuardPolicy) (i : CsprTrade) : Type 0 where
  pub trade : TradePolicy
  pub listed : policy.trade ≡ some trade
  pub slippage : i.slippage_bps ≤ trade.max_slippage_bps
  pub label : String
  pub labelled : i.risk_label ≡ some label
  pub not_empty : label ≢ ""
  pub allowed : includes trade.allowed_risk_labels label ≡ true
  pub priced :
      (quote : String → String → ℕ → Option ℕ)
      → quoter ≡ some quote
      → (quoted : ℕ) × (quote (asset_ref i.from_asset) (asset_ref i.to_asset) i.amount
          ≡ some quoted)
        × (quoted * (10_000 - trade.max_slippage_bps) < (i.min_received + 1) * 10_000)

abbrev pub HasTrade : Quoter → GuardPolicy → Intent → Type 0
HasTrade quoter policy (pays i) = Unit
HasTrade quoter policy (trades i) = IsSafeTrade quoter policy i
HasTrade quoter policy (deploys i) = Unit
HasTrade quoter policy (transfers i) = Unit

pub record IsPermitted (suspended : Bool) (quoter : Quoter) (policy : GuardPolicy) (intent : Intent)
    : Type 0 where
  pub running : suspended ≡ false
  pub action : includes policy.allowed_actions (kind intent) ≡ true
  pub on_network : includes policy.allowed_networks (network intent) ≡ true
  pub in_scope : includes policy.service_scope (resource_id intent) ≡ true
  pub shape : HasShape policy intent
  pub within_max : amount intent ≤ policy.per_transaction_max
  pub trade : HasTrade quoter policy intent

check_shape_iff :
    (policy : GuardPolicy) (intent : Intent)
    → (check_shape policy intent ≡ permit) ↔ HasShape policy intent
unfolding check_shape destination_mismatch
check_shape_iff policy (pays i) =
    elim (Option-cases (registered_destination policy.service_destinations i.resource_id)) [
      | inl missing ↦
          (λ e. (λ d f. absurd (cc (missing, f)), ground arith), λ s. ground (arith, s.1))
      | inr (d, e) ↦ (λ c. (λ d' f. ground arith, ground arith), λ s. ground (arith, s.0 d e, s.1))
    ]
check_shape_iff policy (trades i) = ground arith
check_shape_iff policy (deploys i) = ground arith
check_shape_iff policy (transfers i) = ground arith

floor_iff :
    (quoted bps received : ℕ)
    → (verify_min_received_within_slippage quoted bps received ≡ true)
      ↔ (quoted * (10_000 - bps) < (received + 1) * 10_000)
unfolding verify_min_received_within_slippage amount_out_min
floor_iff quoted bps received = ground arith

IsSafeTrade→permit :
    (quoter : Quoter) (policy : GuardPolicy) (i : CsprTrade)
    → IsSafeTrade quoter policy i
    → check_trade quoter policy.trade i ≡ permit
unfolding check_trade ask_quoter check_quote risk_allowed
IsSafeTrade→permit none policy i s =
    ground (arith, s.listed, s.slippage, s.labelled, s.allowed, s.not_empty, eq_iff s.label "")
IsSafeTrade→permit (some quote) policy i s =
    let (quoted, known, above) = s.priced quote refl in
    ground (
      arith,
      s.listed,
      s.slippage,
      s.labelled,
      s.allowed,
      s.not_empty,
      eq_iff s.label "",
      (floor_iff quoted s.trade.max_slippage_bps i.min_received).1 above,
    )

ask_quoter-permit :
    (quoter : Quoter) (t : TradePolicy) (i : CsprTrade)
    → ask_quoter quoter t i ≡ permit
    → (quote : String → String → ℕ → Option ℕ) → quoter ≡ some quote
    → (quoted : ℕ) × (quote (asset_ref i.from_asset) (asset_ref i.to_asset) i.amount ≡ some quoted)
      × (quoted * (10_000 - t.max_slippage_bps) < (i.min_received + 1) * 10_000)
unfolding ask_quoter check_quote
ask_quoter-permit quoter t i e quote q =
    elim (Option-cases (quote (asset_ref i.from_asset) (asset_ref i.to_asset) i.amount)) [
      | inl failed ↦ absurd (ground arith)
      | inr (quoted, known) ↦
          (quoted, known, (floor_iff quoted t.max_slippage_bps i.min_received).0 (ground arith))
    ]

permit→IsSafeTrade :
    (quoter : Quoter) (policy : GuardPolicy) (i : CsprTrade)
    → check_trade quoter policy.trade i ≡ permit
    → IsSafeTrade quoter policy i
unfolding check_trade risk_allowed
permit→IsSafeTrade quoter policy i e = elim (Option-cases policy.trade) [
  | inl missing ↦ absurd (ground arith)
  | inr (t, listed) ↦ elim (Option-cases i.risk_label) [
    | inl unlabelled ↦ absurd (ground arith)
    | inr (label, labelled) ↦ record {
      trade = t;
      listed = listed;
      slippage = ground arith;
      label = label;
      labelled = labelled;
      not_empty = ground (arith, eq_iff label "");
      allowed = ground arith;
      priced = ask_quoter-permit quoter t i (ground arith);
    }
  ]
]

check_kind_iff :
    (quoter : Quoter) (policy : GuardPolicy) (intent : Intent)
    → (check_kind quoter policy intent ≡ permit) ↔ HasTrade quoter policy intent
unfolding check_kind
check_kind_iff quoter policy (pays i) = ground arith
check_kind_iff quoter policy (trades i) =
    (permit→IsSafeTrade quoter policy i, IsSafeTrade→permit quoter policy i)
check_kind_iff quoter policy (deploys i) = ground arith
check_kind_iff quoter policy (transfers i) = ground arith

-- The evaluation permits an intent exactly if the org is not suspended, the kind, the network and
-- the resource are on the policy's lists, the intent has the shape that its kind asks for, the amount
-- is within the per-transaction maximum, and a swap is a safe one.
pub evaluate_policy_iff :
    (suspended : Bool) (quoter : Quoter) (policy : GuardPolicy) (intent : Intent)
    → (evaluate_policy suspended quoter policy intent ≡ permit)
      ↔ IsPermitted suspended quoter policy intent
unfolding evaluate_policy
evaluate_policy_iff suspended quoter policy intent = (
  λ e. record {
    running = ground arith;
    action = ground arith;
    on_network = ground arith;
    in_scope = ground arith;
    shape = (check_shape_iff policy intent).0 (ground arith);
    within_max = ground arith;
    trade = (check_kind_iff quoter policy intent).0 (ground arith);
  },
  λ p. ground (
    arith,
    p.running,
    p.action,
    p.on_network,
    p.in_scope,
    p.within_max,
    (check_shape_iff policy intent).1 p.shape,
    (check_kind_iff quoter policy intent).1 p.trade,
  ),
)
