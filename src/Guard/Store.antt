-- ===== src/Guard/Store.antt =====
-- casper-guard/store.ts over the tables of db/migrations/0009_casper_guard.sql and 0013. A table is
-- a map from its key, the holds' from the decision that they belong to; `orgs` and `agents` are the keys
-- that rows refer to; `ids` lists the decisions in the order of their creation. Identifiers and
-- hashes are numbers, which the code only compares and stores. An update that a CHECK refuses
-- throws and writes nothing.
pub mod Rows
pub mod Writes
pub mod Listing
pub mod Transitions
pub mod Callers
use casper_agops_server.Prelude.{
  ℕ, suc, ◌+◌, ◌-◌, String, Bool, true, false, not, ◌&&◌, ◌||◌, Option, none, some, List, [], ◌∷◌,
  ◌++◌, ◌≡◌, ◌↔◌, arith, ltb, leb, ◌=?◌, HasEquality, ◌==◌, includes, update, is_some, find,
  if◌then◌else◌,
}
use casper_agops_server.Guard.Intent.{
  Network, casper_test, casper, ActionKind, evm_transfer, AssetKind, cep18, native, Intent, kind,
  network, resource_id, amount, asset_kind, asset_kind_beq, asset_ref, intent_primary_asset,
  intent_destination, raw_requirement_hash_from_intent, kind_beq, network_beq,
}
use casper_agops_server.Guard.Evaluate.{DenyReason}

pub data DecisionStatus : Type 0 where
  quoted reserved signed broadcasting expiry_check settled denied : DecisionStatus
  failed_terminal expired : DecisionStatus

pub data HoldStatus : Type 0 where
  held settled_hold released : HoldStatus

pub data Outcome : Type 0 where
  allows denies : Outcome

abbrev pub status_index : DecisionStatus → ℕ
status_index quoted = 0
status_index reserved = 1
status_index signed = 2
status_index broadcasting = 3
status_index expiry_check = 4
status_index settled = 5
status_index denied = 6
status_index failed_terminal = 7
status_index expired = 8

abbrev pub status_beq : DecisionStatus → DecisionStatus → Bool
status_beq a b = status_index a =? status_index b

pub status_beq_iff : (a b : DecisionStatus) → (status_beq a b ≡ true) ↔ (a ≡ b)
status_beq_iff a b = ground arith

instance abbrev pub status_eq : HasEquality DecisionStatus
status_eq = record { is_equal = status_beq; is_equal_iff = status_beq_iff }

abbrev pub is_held : HoldStatus → Bool
is_held held = true
is_held settled_hold = false
is_held released = false

abbrev pub is_allow : Outcome → Bool
is_allow allows = true
is_allow denies = false

pub record Decision : Type 0 where
  pub decision_id : ℕ
  pub idempotency_key : ℕ
  pub org_id : ℕ
  pub agent_id : ℕ
  pub intent : Intent
  pub status : DecisionStatus
  pub outcome : Outcome
  pub reason_code : Option DenyReason
  pub policy_ref : String
  pub signer_kind : Option ℕ
  pub raw_requirement_hash : Option String
  pub signed_header_hash : Option ℕ
  pub signed_header_value : Option ℕ
  pub tx_hash : Option ℕ
  pub deploy_hash : Option ℕ

pub record HoldRow : Type 0 where
  pub hold_id : ℕ
  pub org_id : ℕ
  pub agent_id : ℕ
  pub amount : ℕ
  pub status : HoldStatus

pub record Db : Type 0 where
  pub ids : List ℕ
  pub decision : ℕ → Option Decision
  pub hold : ℕ → Option HoldRow
  pub agent_suspended : ℕ → ℕ → Bool
  pub orgs : ℕ → Bool
  pub agents : ℕ → Bool

pub data DbError : Type 0 where
  unique_violation check_violation foreign_key_violation : DbError

-- `rows b` answers `rowCount === 1`.
pub data Written : Type 0 where
  rows : Bool → Written
  throws : DbError → Written

-- The CHECKs of the decisions table. The columns of the asset and the amount are those of the intent.
unfoldable pub row_check : Decision → Bool
row_check d =
    not (kind_beq (kind d.intent) evm_transfer)
    && (network_beq (network d.intent) casper_test || network_beq (network d.intent) casper)
    && ltb 0 (amount d.intent)
    && (asset_kind_beq (asset_kind (intent_primary_asset d.intent)) cep18
        || asset_kind_beq (asset_kind (intent_primary_asset d.intent)) native)
    && (if is_allow d.outcome
        then not (status_beq d.status denied) && not (is_some d.reason_code)
        else status_beq d.status denied
          && is_some d.reason_code
          && not (is_some d.signed_header_hash))
    && (if includes (quoted ∷ reserved ∷ denied ∷ []) d.status
        then not (is_some d.signed_header_hash)
        else if includes (signed ∷ broadcasting ∷ expiry_check ∷ settled ∷ []) d.status
        then is_some d.signed_header_hash
        else true)

unfoldable pub matches_key : Db → ℕ → ℕ → ℕ → Bool
matches_key db org key id = elim (db.decision id) [
  | none ↦ false
  | some d ↦ d.org_id =? org && d.idempotency_key =? key
]

-- The oldest decision with the org and the idempotency key.
unfoldable pub find_by_key : Db → ℕ → ℕ → List ℕ → Option Decision
find_by_key db org key [] = none
find_by_key db org key (id ∷ ids) =
    if matches_key db org key id then db.decision id else find_by_key db org key ids

unfoldable pub read_decision_by_idempotency : Db → ℕ → ℕ → Option Decision
unfolding find_by_key matches_key
read_decision_by_idempotency db org key = find_by_key db org key db.ids

unfoldable pub insert_decision : Decision → Db → Db × Written
insert_decision d db =
    if not (row_check d)
    then (db, throws check_violation)
    else if is_some (db.decision d.decision_id)
        || is_some (read_decision_by_idempotency db d.org_id d.idempotency_key)
    then (db, throws unique_violation)
    else if not (db.orgs d.org_id) || not (db.agents d.agent_id)
    then (db, throws foreign_key_violation)
    else (
      record db {
        ids = db.ids ++ d.decision_id ∷ [];
        decision = update db.decision d.decision_id (some d);
      },
      rows true,
    )

-- The primary key of the holds, which stand under the ids of their decisions.
unfoldable pub has_hold : (ℕ → Option HoldRow) → ℕ → List ℕ → Bool
has_hold hold hold_id [] = false
has_hold hold hold_id (id ∷ ids) = elim (hold id) [
  | none ↦ has_hold hold hold_id ids
  | some h ↦ h.hold_id =? hold_id || has_hold hold hold_id ids
]

unfoldable pub insert_hold : ℕ → HoldRow → Db → Db × Written
unfolding has_hold
insert_hold decision_id h db =
    if not (ltb 0 h.amount)
    then (db, throws check_violation)
    else if has_hold db.hold h.hold_id db.ids || is_some (db.hold decision_id)
    then (db, throws unique_violation)
    else if not (db.orgs h.org_id) || not (db.agents h.agent_id)
    then (db, throws foreign_key_violation)
    else (record db { hold = update db.hold decision_id (some h) }, rows true)

-- BEGIN, both inserts, COMMIT; a failure of either rolls both back.
unfoldable pub create_decision_and_hold : Decision → HoldRow → Db → Db × Written
create_decision_and_hold d h db =
    let (db', written) = insert_decision d db in
    elim written [
      | rows b ↦
          let (db'', written') = insert_hold d.decision_id h db' in
          elim written' [ rows b' ↦ (db'', rows b') | throws e ↦ (db, throws e) ]
      | throws e ↦ (db, throws e)
    ]

-- `UPDATE casper_guard_decisions SET … WHERE decision_id = $1 AND …`.
unfoldable pub update_found :
    (Decision → Bool) → (Decision → Decision) → ℕ → Option Decision → Db → Db × Written
update_found guard change id none db = (db, rows false)
update_found guard change id (some d) db =
    if not (guard d)
    then (db, rows false)
    else if not (row_check (change d))
    then (db, throws check_violation)
    else (record db { decision = update db.decision id (some (change d)) }, rows true)

unfoldable pub update_decision : (Decision → Bool) → (Decision → Decision) → ℕ → Db → Db × Written
unfolding update_found
update_decision guard change id db = update_found guard change id (db.decision id) db

-- `EXISTS (SELECT 1 FROM casper_guard_holds WHERE decision_id = $1 AND status = 'RESERVED')`.
abbrev pub holds_reserved : Option HoldRow → Bool
holds_reserved none = false
holds_reserved (some h) = is_held h.status

-- `COALESCE(a, b)`.
abbrev pub coalesce {ℓ} : {A : Type ℓ} → Option A → Option A → Option A
coalesce none b = b
coalesce (some a) b = some a

-- `headers` stands for the record of the headers, of which `header_value` is PAYMENT-SIGNATURE.
pub record Signature : Type 0 where
  pub headers : Option ℕ
  pub header_hash : ℕ
  pub header_value : Option ℕ
  pub tx_hash : Option ℕ
  pub deploy_hash : Option ℕ

abbrev pub sign_row : Signature → Decision → Decision
sign_row s d = record d {
  status = signed;
  signed_header_hash = some s.header_hash;
  signed_header_value = coalesce s.header_value d.signed_header_value;
  tx_hash = coalesce s.tx_hash d.tx_hash;
  deploy_hash = coalesce s.deploy_hash d.deploy_hash;
}

unfoldable pub mark_decision_signed : ℕ → Signature → Db → Db × Written
unfolding update_decision
mark_decision_signed id s db =
    update_decision
      (λ d. status_beq d.status reserved && is_allow d.outcome && holds_reserved (db.hold id))
      (sign_row s) id db

abbrev pub terminal_statuses : List DecisionStatus
terminal_statuses = denied ∷ settled ∷ failed_terminal ∷ expired ∷ []

-- The source passes FAILED_TERMINAL or EXPIRED.
unfoldable pub mark_decision_terminal : ℕ → DecisionStatus → Db → Db × Written
unfolding update_decision
mark_decision_terminal id status db =
    update_decision (λ d. not (includes terminal_statuses d.status))
      (λ d. record d { status = status }) id db

unfoldable pub mark_decision_expiry_check : ℕ → Db → Db × Written
unfolding update_decision
mark_decision_expiry_check id db =
    update_decision
      (λ d.
        includes (signed ∷ broadcasting ∷ []) d.status
        && is_allow d.outcome
        && is_some d.signed_header_hash)
      (λ d. record d { status = expiry_check }) id db

unfoldable pub mark_decision_settled : ℕ → Option ℕ → Option ℕ → Db → Db × Written
unfolding update_decision
mark_decision_settled id tx deploy db =
    update_decision
      (λ d.
        includes (signed ∷ broadcasting ∷ expiry_check ∷ []) d.status
        && is_allow d.outcome
        && is_some d.signed_header_hash
        && holds_reserved (db.hold id))
      (λ d. record d {
        status = settled;
        tx_hash = coalesce tx d.tx_hash;
        deploy_hash = coalesce deploy d.deploy_hash;
      })
      id db

pub mark_decision_settled_by_user : ℕ → ℕ → Db → Db × Written
unfolding update_decision
mark_decision_settled_by_user id tx db =
    update_decision
      (λ d.
        includes (reserved ∷ signed ∷ []) d.status
        && is_allow d.outcome
        && holds_reserved (db.hold id))
      (λ d. record d { status = settled; tx_hash = some tx; deploy_hash = some tx }) id db

unfoldable pub resolve_found : HoldStatus → ℕ → Option HoldRow → Db → Db × Bool
resolve_found status id none db = (db, false)
resolve_found status id (some h) db =
    if is_held h.status
    then (record db { hold = update db.hold id (some (record h { status = status })) }, true)
    else (db, false)

-- `settleCasperGuardHold`.
unfoldable pub settle_hold : ℕ → Db → Db × Bool
unfolding resolve_found
settle_hold id db = resolve_found settled_hold id (db.hold id) db

-- `releaseCasperGuardHold`.
unfoldable pub release_hold : ℕ → Db → Db × Bool
unfolding resolve_found
release_hold id db = resolve_found released id (db.hold id) db

-- `listCasperGuardDecisionsForRevoke`: the agent's decisions that are not yet signed, and those that
-- are signed or further along.
unfoldable pub is_owned : ℕ → ℕ → Decision → Bool
is_owned agent org d = d.agent_id =? agent && d.org_id =? org

unfoldable pub list_with : Db → (Decision → Bool) → List ℕ → List ℕ
list_with db p [] = []
list_with db p (id ∷ ids) = elim (db.decision id) [
  | none ↦ list_with db p ids
  | some d ↦ if p d then id ∷ list_with db p ids else list_with db p ids
]

abbrev pub committed_statuses : List DecisionStatus
committed_statuses = signed ∷ broadcasting ∷ expiry_check ∷ settled ∷ []

unfoldable pub list_reserved_for_revoke : Db → ℕ → ℕ → List ℕ
unfolding list_with is_owned
list_reserved_for_revoke db agent org =
    list_with db (λ d. is_owned agent org d && status_beq d.status reserved) db.ids

pub list_committed_for_revoke : Db → ℕ → ℕ → List ℕ
unfolding list_with is_owned
list_committed_for_revoke db agent org =
    list_with db (λ d. is_owned agent org d && includes committed_statuses d.status) db.ids

-- `isAgentSuspended`.
unfoldable pub is_agent_suspended : Db → ℕ → ℕ → Bool
is_agent_suspended db agent org = db.agent_suspended agent org
