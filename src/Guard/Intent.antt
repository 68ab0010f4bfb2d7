-- ===== src/Guard/Intent.antt =====
-- casper-guard/types.ts: the assets and intents that the schemas let through, with their accessors.
-- Amounts are canonical positive decimal strings there (`^[1-9][0-9]*$`), so numbers stand for them.
-- The native assets have one symbol each.
use casper_agops_server.Prelude.{
  ℕ, String, Bool, true, false, Option, none, some, ◌≡◌, ◌↔◌, arith, ◌=?◌, HasEquality, Bool-cases,
  inl, inr, string_eq,
}
use package.native.Mathlib.Decide.{ℕ_discrete}

pub data Network : Type 0 where
  casper_test casper evm_sepolia evm_base_sepolia : Network

pub data ActionKind : Type 0 where
  x402_payment cspr_trade casper_deploy evm_transfer : ActionKind

pub data AssetKind : Type 0 where
  cep18 native native_eth erc20 : AssetKind

pub data DeployKind : Type 0 where
  transfer contract_call contract_install : DeployKind

pub data Asset : Type 0 where
  cep18_asset : (package_hash name version : String) → Asset
  native_asset native_eth_asset : Asset
  erc20_asset : (address name : String) (decimals : ℕ) → Asset

pub record X402Payment : Type 0 where
  pub network : Network
  pub resource_id : String
  pub amount : ℕ
  pub asset : Asset
  pub destination : String
  pub max_timeout_seconds : ℕ
  pub raw_requirement_hash : Option String

pub record CsprTrade : Type 0 where
  pub network : Network
  pub resource_id : String
  pub amount : ℕ
  pub from_asset : Asset
  pub to_asset : Asset
  pub min_received : ℕ
  pub slippage_bps : ℕ
  pub route_id : Option String
  pub risk_label : Option String

pub record CasperDeploy : Type 0 where
  pub network : Network
  pub resource_id : String
  pub amount : ℕ
  pub asset : Asset
  pub deploy_kind : DeployKind
  pub target : String
  pub entry_point : Option String
  pub args_hash : Option String

pub record EvmTransfer : Type 0 where
  pub network : Network
  pub resource_id : String
  pub amount : ℕ
  pub asset : Asset
  pub to : String

pub data Intent : Type 0 where
  pays : X402Payment → Intent
  trades : CsprTrade → Intent
  deploys : CasperDeploy → Intent
  transfers : EvmTransfer → Intent

abbrev pub kind : Intent → ActionKind
kind (pays i) = x402_payment
kind (trades i) = cspr_trade
kind (deploys i) = casper_deploy
kind (transfers i) = evm_transfer

abbrev pub network : Intent → Network
network (pays i) = i.network
network (trades i) = i.network
network (deploys i) = i.network
network (transfers i) = i.network

abbrev pub resource_id : Intent → String
resource_id (pays i) = i.resource_id
resource_id (trades i) = i.resource_id
resource_id (deploys i) = i.resource_id
resource_id (transfers i) = i.resource_id

abbrev pub amount : Intent → ℕ
amount (pays i) = i.amount
amount (trades i) = i.amount
amount (deploys i) = i.amount
amount (transfers i) = i.amount

unfoldable pub intent_primary_asset : Intent → Asset
intent_primary_asset (pays i) = i.asset
intent_primary_asset (trades i) = i.from_asset
intent_primary_asset (deploys i) = i.asset
intent_primary_asset (transfers i) = i.asset

abbrev pub asset_kind : Asset → AssetKind
asset_kind (cep18_asset hash name version) = cep18
asset_kind native_asset = native
asset_kind native_eth_asset = native_eth
asset_kind (erc20_asset address name decimals) = erc20

pub asset_ref : Asset → String
asset_ref (cep18_asset package_hash name version) = package_hash
asset_ref native_asset = "CSPR"
asset_ref native_eth_asset = "ETH"
asset_ref (erc20_asset address name decimals) = address

pub intent_destination : Intent → Option String
intent_destination (pays i) = some i.destination
intent_destination (trades i) = i.route_id
intent_destination (deploys i) = some i.target
intent_destination (transfers i) = some i.to

unfoldable pub raw_requirement_hash_from_intent : Intent → Option String
raw_requirement_hash_from_intent (pays i) = i.raw_requirement_hash
raw_requirement_hash_from_intent (trades i) = none
raw_requirement_hash_from_intent (deploys i) = none
raw_requirement_hash_from_intent (transfers i) = none

abbrev network_index : Network → ℕ
network_index casper_test = 0
network_index casper = 1
network_index evm_sepolia = 2
network_index evm_base_sepolia = 3

abbrev kind_index : ActionKind → ℕ
kind_index x402_payment = 0
kind_index cspr_trade = 1
kind_index casper_deploy = 2
kind_index evm_transfer = 3

abbrev asset_kind_index : AssetKind → ℕ
asset_kind_index cep18 = 0
asset_kind_index native = 1
asset_kind_index native_eth = 2
asset_kind_index erc20 = 3

abbrev pub network_beq : Network → Network → Bool
network_beq a b = network_index a =? network_index b

abbrev pub kind_beq : ActionKind → ActionKind → Bool
kind_beq a b = kind_index a =? kind_index b

abbrev pub asset_kind_beq : AssetKind → AssetKind → Bool
asset_kind_beq a b = asset_kind_index a =? asset_kind_index b

pub network_beq_iff : (a b : Network) → (network_beq a b ≡ true) ↔ (a ≡ b)
network_beq_iff a b = ground arith

pub kind_beq_iff : (a b : ActionKind) → (kind_beq a b ≡ true) ↔ (a ≡ b)
kind_beq_iff a b = ground arith

instance abbrev pub network_eq : HasEquality Network
network_eq = record { is_equal = network_beq; is_equal_iff = network_beq_iff }

instance abbrev pub kind_eq : HasEquality ActionKind
kind_eq = record { is_equal = kind_beq; is_equal_iff = kind_beq_iff }

string_discrete : Discrete String
string_discrete s t = elim (Bool-cases (string_eq.is_equal s t)) [
  | inl same ↦ yes ((string_eq.is_equal_iff s t).0 same)
  | inr other ↦ no (λ e. absurd (cc ((string_eq.is_equal_iff s t).1 e, other)))
]

intent_discrete : Discrete Intent
intent_discrete = hlevel (ℕ_discrete, string_discrete)

-- `stableJson(a) === stableJson(b)`: intents are equal as data exactly if their canonical texts are.
pub intent_beq : Intent → Intent → Bool
intent_beq a b = elim (intent_discrete a b) [ yes same ↦ true | no other ↦ false ]

pub intent_beq_iff : (a b : Intent) → (intent_beq a b ≡ true) ↔ (a ≡ b)
unfolding intent_beq
intent_beq_iff a b = ground arith
