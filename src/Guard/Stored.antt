-- ===== src/Guard/Stored.antt =====
-- The intent of a decision as casper-guard/store.ts stores it, and what the trade reader of
-- lib/casper/settlement-reader.ts looks up in it.
use casper_agops_server.Prelude.{
  ℕ, String, Option, none, some, List, [], ◌∷◌, ◌==◌, string_eq, if◌then◌else◌,
}
use Prim.Native.String.{◌++◌}
use casper_agops_server.Guard.Intent.{
  Network, casper_test, casper, evm_sepolia, evm_base_sepolia, DeployKind, transfer, contract_call,
  contract_install, Asset, cep18_asset, native_asset, native_eth_asset, erc20_asset, network,
  resource_id, Intent, pays, trades, deploys, transfers, amount,
}

-- The fields of a stored intent, as JSON: `CasperGuardIntent` under its keys. `digits` are numbers and
-- decimal strings; an optional field that is not there is left out.
pub data Field : Type 0 where
  text : String → Field
  digits : ℕ → Field
  asset_object : Asset → Field

abbrev pub optional : String → Option String → List (String × Field) → List (String × Field)
optional key none l = l
optional key (some x) l = (key, text x) ∷ l

abbrev network_name : Network → String
network_name casper_test = "casper:casper-test"
network_name casper = "casper:casper"
network_name evm_sepolia = "evm:sepolia"
network_name evm_base_sepolia = "evm:base-sepolia"

abbrev deploy_kind_name : DeployKind → String
deploy_kind_name transfer = "transfer"
deploy_kind_name contract_call = "contract-call"
deploy_kind_name contract_install = "contract-install"

abbrev shared_fields : String → Intent → List (String × Field) → List (String × Field)
shared_fields name i l =
    ("kind", text name)
    ∷ ("network", text (network_name (network i)))
    ∷ ("resourceId", text (resource_id i))
    ∷ ("amount", digits (amount i))
    ∷ l

unfoldable pub stored_fields : Intent → List (String × Field)
stored_fields (pays i) = shared_fields "x402-payment" (pays i) (
    ("asset", asset_object i.asset)
    ∷ ("destination", text i.destination)
    ∷ ("maxTimeoutSeconds", digits i.max_timeout_seconds)
    ∷ optional "rawRequirementHash" i.raw_requirement_hash [])
stored_fields (trades i) = shared_fields "cspr-trade" (trades i) (
    ("fromAsset", asset_object i.from_asset)
    ∷ ("toAsset", asset_object i.to_asset)
    ∷ ("minReceived", digits i.min_received)
    ∷ ("slippageBps", digits i.slippage_bps)
    ∷ optional "routeId" i.route_id (optional "riskLabel" i.risk_label []))
stored_fields (deploys i) = shared_fields "casper-deploy" (deploys i) (
    ("asset", asset_object i.asset)
    ∷ ("deployKind", text (deploy_kind_name i.deploy_kind))
    ∷ ("target", text i.target)
    ∷ optional "entryPoint" i.entry_point (optional "argsHash" i.args_hash []))
stored_fields (transfers i) =
    shared_fields "evm-transfer" (transfers i)
      (("asset", asset_object i.asset) ∷ ("to", text i.to) ∷ [])

unfoldable pub field_at : String → List (String × Field) → Option Field
field_at key [] = none
field_at key ((k, f) ∷ l) = if k == key then some f else field_at key l

-- A field that is there and is not the empty string.
unfoldable pub text_at : String → List (String × Field) → Option String
unfolding field_at
text_at key l = elim (field_at key l) [
  | none ↦ none
  | some f ↦ elim f [
    | text x ↦ if x == "" then none else some x
    | digits n ↦ none
    | asset_object a ↦ none
  ]
]

unfoldable pub digits_at : String → List (String × Field) → Option ℕ
unfolding field_at
digits_at key l = elim (field_at key l) [
  | none ↦ none
  | some f ↦ elim f [ text x ↦ none | digits n ↦ some n | asset_object a ↦ none ]
]

unfoldable pub asset_at : String → List (String × Field) → Option Asset
unfolding field_at
asset_at key l = elim (field_at key l) [
  | none ↦ none
  | some f ↦ elim f [ text x ↦ none | digits n ↦ none | asset_object a ↦ some a ]
]

-- `symbol ?? name`; every asset has one of them.
abbrev pub asset_symbol : Asset → String
asset_symbol (cep18_asset package_hash name version) = name
asset_symbol native_asset = "CSPR"
asset_symbol native_eth_asset = "ETH"
asset_symbol (erc20_asset address name decimals) = name

unfoldable pub route_pair : (String → String) → List (String × Field) → String
unfolding text_at
route_pair dash_to_slash l = elim (text_at "route_id" l) [
  | some r ↦ dash_to_slash r
  | none ↦ "CSPR/sCSPR"
]

unfoldable pub asset_pair : (String → String) → List (String × Field) → String
unfolding asset_at route_pair
asset_pair dash_to_slash l = elim (asset_at "from_asset" l) [
  | none ↦ route_pair dash_to_slash l
  | some from ↦ elim (asset_at "to_asset" l) [
    | none ↦ route_pair dash_to_slash l
    | some to ↦ asset_symbol from ++ "/" ++ asset_symbol to
  ]
]

-- The pair of a trade; `dash_to_slash` is the `replace` of the first dash of a route.
unfoldable pub pair_of : (String → String) → List (String × Field) → String
unfolding text_at asset_pair
pair_of dash_to_slash l = elim (text_at "trade_pair" l) [
  | some p ↦ p
  | none ↦ elim (text_at "pair" l) [ some p ↦ p | none ↦ asset_pair dash_to_slash l ]
]
