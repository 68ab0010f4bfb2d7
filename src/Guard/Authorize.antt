-- ===== src/Guard/Authorize.antt =====
-- casper-guard/policy.ts, `authorizeCasperGuardIntent` and the failures that give a hold back.
-- Every await lets other requests run: `others` is what they do to the world at that point. The
-- signer is a parameter, and `signatures` records the decisions it was called for. A fingerprint
-- is a number that a parameter computes. Errors of the connections are not modelled.
pub mod Ends
pub mod Aborts
pub mod Revocation
pub mod Undone
pub mod Signing
pub mod Replay
use casper_agops_server.Prelude.{
  ℕ, String, Bool, true, false, not, ◌&&◌, ◌||◌, Option, none, some, List, [], ◌∷◌, ◌=?◌, ◌==◌, ◌≡◌,
  includes, string_eq, nat_eq, update, is_some, if◌then◌else◌,
}
use casper_agops_server.Guard.Intent.{
  Intent, pays, trades, deploys, transfers, kind, network, resource_id, amount, asset_kind,
  asset_kind_beq, asset_ref, intent_primary_asset, intent_beq, kind_beq, network_beq,
  raw_requirement_hash_from_intent,
}
use casper_agops_server.Guard.Evaluate.{
  GuardPolicy, Quoter, Verdict, permit, refuse, quoter_failed, evaluate_policy, DenyReason,
  spend_cap_exceeded, insufficient_float, velocity_exceeded, org_suspended, agent_suspended,
  idempotency_in_progress, idempotency_conflict,
}
use casper_agops_server.Guard.Store.{
  DecisionStatus, reserved, settled, denied, failed_terminal, expired, held, allows, denies,
  is_allow, Decision, HoldRow, Db, Written, rows, throws, unique_violation, check_violation,
  Signature, status_beq, status_eq, insert_decision, create_decision_and_hold,
  read_decision_by_idempotency, mark_decision_signed, mark_decision_terminal, release_hold,
  list_reserved_for_revoke, list_committed_for_revoke, is_agent_suspended,
}
use casper_agops_server.Ledger.Hot as HotKeys
use casper_agops_server.Ledger.Hot.{Hot, ReserveParams, PolicyReserve, reserve_hold_within_policy}

pub record World : Type 0 where
  pub db : Db
  pub hot : ℕ → Hot
  pub deny_all : ℕ → Bool
  pub locks : ℕ → ℕ → Option (ℕ × ℕ)
  pub signatures : List ℕ

pub record Params : Type 0 where
  pub decision_id : ℕ
  pub hold_id : ℕ
  pub idempotency_key : ℕ
  pub org_id : ℕ
  pub agent_id : ℕ
  pub intent : Intent
  pub policy : GuardPolicy
  pub now : ℕ

pub data Result : Type 0 where
  allowed :
      (decision_id hold_id signed_header_hash : ℕ) (headers tx_hash deploy_hash : Option ℕ) → Result
  refused : (decision_id : ℕ) → DenyReason → Result
  threw : Result

-- Where other requests may run.
pub data Stage : Type 0 where
  lock_taken evaluated hold_reserved row_inserted org_checked agent_checked signer_done : Stage

pub record Env : Type 0 where
  pub quoter : Quoter
  pub sign : ℕ → Intent → ℕ → Option Signature
  pub signer_kind : ℕ
  pub fingerprint : ℕ → Intent → String → ℕ
  pub others : Stage → World → World

abbrev pub fingerprint_of : Env → Params → ℕ
fingerprint_of env p = env.fingerprint p.agent_id p.intent p.policy.policy_ref

-- `idempotencyReplayMatches`. The columns of a row come from its intent.
pub idempotency_replay_matches : Decision → Params → Bool
idempotency_replay_matches d p =
    d.agent_id =? p.agent_id
    && kind_beq (kind d.intent) (kind p.intent)
    && network_beq (network d.intent) (network p.intent)
    && resource_id d.intent == resource_id p.intent
    && amount d.intent =? amount p.intent
    && asset_kind_beq (asset_kind (intent_primary_asset d.intent))
        (asset_kind (intent_primary_asset p.intent))
    && asset_ref (intent_primary_asset d.intent) == asset_ref (intent_primary_asset p.intent)
    && d.policy_ref == p.policy.policy_ref
    && intent_beq d.intent p.intent

pub stored_result : Decision → Option ℕ → Option HoldRow → Result
stored_result d (some hash) (some h) =
    allowed d.decision_id h.hold_id hash none d.tx_hash d.deploy_hash
stored_result d _ _ = refused d.decision_id idempotency_in_progress

pub deny_reason : Option DenyReason → DenyReason
deny_reason none = idempotency_in_progress
deny_reason (some r) = r

pub authorize_result_from_existing : Db → Decision → Params → Result
unfolding idempotency_replay_matches stored_result deny_reason
authorize_result_from_existing db d p =
    if not (idempotency_replay_matches d p)
    then refused p.decision_id idempotency_conflict
    else if not (is_allow d.outcome)
    then refused d.decision_id (deny_reason d.reason_code)
    else stored_result d d.signed_header_hash (db.hold d.decision_id)

-- `SET key … NX` and the delete of an own lock; a lock that times out goes by `others`.
unfoldable pub set_lock : Params → Option (ℕ × ℕ) → World → World
set_lock p lock w = record w {
  locks = λ o k. if o =? p.org_id && k =? p.idempotency_key then lock else w.locks o k;
}

unfoldable pub release_idempotency_lock : Params → World → World
unfolding set_lock
release_idempotency_lock p w = elim (w.locks p.org_id p.idempotency_key) [
  | none ↦ w
  | some lock ↦ if lock.0 =? p.decision_id then set_lock p none w else w
]

abbrev pub base_row : Params → Decision
base_row p = record {
  decision_id = p.decision_id;
  idempotency_key = p.idempotency_key;
  org_id = p.org_id;
  agent_id = p.agent_id;
  intent = p.intent;
  status = reserved;
  outcome = allows;
  reason_code = none;
  policy_ref = p.policy.policy_ref;
  signer_kind = none;
  raw_requirement_hash = raw_requirement_hash_from_intent p.intent;
  signed_header_hash = none;
  signed_header_value = none;
  tx_hash = none;
  deploy_hash = none;
}

abbrev pub denial_row : Params → DenyReason → Decision
denial_row p r = record (base_row p) { status = denied; outcome = denies; reason_code = some r }

abbrev pub reserved_row : Env → Params → Decision
reserved_row env p = record (base_row p) { signer_kind = some env.signer_kind }

abbrev pub hold_row : Params → HoldRow
hold_row p = record {
  hold_id = p.hold_id;
  org_id = p.org_id;
  agent_id = p.agent_id;
  amount = amount p.intent;
  status = held;
}

-- `persistDeny`, and the answer of the call.
pub persist_deny : Params → DenyReason → World → World × Result
persist_deny p r w =
    let (db, written) = insert_decision (denial_row p r) w.db in
    elim written [
      | rows b ↦ (record w { db = db }, refused p.decision_id r)
      | throws unique_violation ↦ (w, refused p.decision_id r)
      | throws e ↦ (w, threw)
    ]

abbrev pub release_hot : ℕ → ℕ → World → World
release_hot agent id w = record w {
  hot = update w.hot agent (HotKeys.release_hold id (w.hot agent)).0;
}

-- `failReservedDecision`; `false` is a throw.
pub fail_reserved_decision : ℕ → ℕ → World → World × Bool
fail_reserved_decision agent id w =
    let (db, written) = mark_decision_terminal id failed_terminal w.db in
    elim written [
      | rows true ↦ (release_hot agent id (record w { db = (release_hold id db).0 }), true)
      | rows false ↦ (w, true)
      | throws e ↦ (w, false)
    ]

-- The `catch` around the signing.
pub fail_and_throw : Params → World → World × Result
unfolding fail_reserved_decision
fail_and_throw p w = ((fail_reserved_decision p.agent_id p.decision_id w).0, threw)

pub fail_and_refuse : Params → DenyReason → World → World × Result
unfolding fail_reserved_decision fail_and_throw
fail_and_refuse p r w =
    let (w', completed) = fail_reserved_decision p.agent_id p.decision_id w in
    if completed then (w', refused p.decision_id r) else fail_and_throw p w'

-- The answer of a call that signed.
abbrev pub signed_answer : Params → Signature → Result
signed_answer p s = allowed p.decision_id p.hold_id s.header_hash s.headers s.tx_hash s.deploy_hash

unfoldable pub mark_signed : Params → Signature → World → World × Result
unfolding fail_and_throw
mark_signed p s w =
    let (db, written) = mark_decision_signed p.decision_id s w.db in
    elim written [
      | rows true ↦ (record w { db = db }, signed_answer p s)
      | rows false ↦ fail_and_throw p w
      | throws e ↦ fail_and_throw p w
    ]

unfoldable pub call_signer : Env → Params → World → World × Result
unfolding fail_and_throw mark_signed
call_signer env p w =
    let w' = env.others signer_done (record w { signatures = p.decision_id ∷ w.signatures }) in
    elim (env.sign p.decision_id p.intent p.agent_id) [
      | none ↦ fail_and_throw p w'
      | some s ↦ mark_signed p s w'
    ]

unfoldable pub check_agent : Env → Params → World → World × Result
unfolding fail_and_refuse call_signer
check_agent env p w =
    if is_agent_suspended w.db p.agent_id p.org_id
    then fail_and_refuse p agent_suspended w
    else call_signer env p (env.others agent_checked w)

unfoldable pub check_org : Env → Params → World → World × Result
unfolding fail_and_refuse check_agent
check_org env p w =
    if w.deny_all p.org_id
    then fail_and_refuse p org_suspended w
    else check_agent env p (env.others org_checked w)

-- After a unique violation the caller answers from the row that won.
pub replay_or_throw : Params → World → World × Result
unfolding authorize_result_from_existing
replay_or_throw p w = elim (read_decision_by_idempotency w.db p.org_id p.idempotency_key) [
  | none ↦ (w, threw)
  | some d ↦ (w, authorize_result_from_existing w.db d p)
]

unfoldable pub persist_hold : Env → Params → World → World × Result
unfolding check_org replay_or_throw
persist_hold env p w =
    let (db, written) = create_decision_and_hold (reserved_row env p) (hold_row p) w.db in
    elim written [
      | rows b ↦ check_org env p (env.others row_inserted (record w { db = db }))
      | throws unique_violation ↦ replay_or_throw p (release_hot p.agent_id p.decision_id w)
      | throws e ↦ (release_hot p.agent_id p.decision_id w, threw)
    ]

-- Payments and swaps move the agent's own float.
abbrev pub enforces_solvency : Intent → Bool
enforces_solvency (pays i) = true
enforces_solvency (trades i) = true
enforces_solvency (deploys i) = false
enforces_solvency (transfers i) = false

abbrev pub reserve_params : Params → ReserveParams
reserve_params p = record {
  payment_id = p.decision_id;
  amount = amount p.intent;
  enforcement_ts = p.now;
  spend_cap = p.policy.spend_cap;
  velocity_limit_per_hour = p.policy.velocity_limit_per_hour;
  enforce_solvency = enforces_solvency p.intent;
}

unfoldable pub reserve : Env → Params → World → World × Result
unfolding persist_deny persist_hold
reserve env p w =
    let (h, answer) = reserve_hold_within_policy (reserve_params p) (w.hot p.agent_id) in
    let w' = record w { hot = update w.hot p.agent_id h } in
    elim answer [
      | PolicyReserve.reserved ↦ persist_hold env p (env.others hold_reserved w')
      | PolicyReserve.duplicate ↦ (w', refused p.decision_id idempotency_in_progress)
      | PolicyReserve.cap_exceeded ↦ persist_deny p spend_cap_exceeded w'
      | PolicyReserve.velocity_exceeded ↦ persist_deny p velocity_exceeded w'
      | PolicyReserve.insufficient_float ↦ persist_deny p insufficient_float w'
    ]

unfoldable pub decide : Env → Params → World → World × Result
unfolding persist_deny reserve
decide env p w = elim (evaluate_policy (w.deny_all p.org_id) env.quoter p.policy p.intent) [
  | permit ↦ reserve env p (env.others evaluated w)
  | refuse r ↦ persist_deny p r w
  | quoter_failed ↦ (w, threw)
]

unfoldable pub authorize_locked : Env → Params → World → World × Result
unfolding authorize_result_from_existing decide
authorize_locked env p w = elim (read_decision_by_idempotency w.db p.org_id p.idempotency_key) [
  | none ↦ decide env p w
  | some d ↦ (w, authorize_result_from_existing w.db d p)
]

-- Another request holds the lock, under its own fingerprint.
pub answer_locked : Env → Params → ℕ × ℕ → World → Result
unfolding authorize_result_from_existing
answer_locked env p lock w = elim (read_decision_by_idempotency w.db p.org_id p.idempotency_key) [
  | none ↦
      if lock.1 =? fingerprint_of env p
      then refused p.decision_id idempotency_in_progress
      else refused p.decision_id idempotency_conflict
  | some d ↦ authorize_result_from_existing w.db d p
]

unfoldable pub authorize_intent : Env → Params → World → World × Result
unfolding authorize_locked answer_locked release_idempotency_lock
authorize_intent env p w = elim (w.locks p.org_id p.idempotency_key) [
  | some lock ↦ (w, answer_locked env p lock w)
  | none ↦
      let taken = set_lock p (some (p.decision_id, fingerprint_of env p)) w in
      let (w', result) = authorize_locked env p (env.others lock_taken taken) in
      (release_idempotency_lock p w', result)
]

-- `resolveCasperGuardTerminalFailure`; the answer is `none` for a throw, else `released`.
unfoldable pub resolve_terminal : ℕ → ℕ → World → World × Option Bool
resolve_terminal agent id w =
    let (db, from_db) = release_hold id w.db in
    (
      release_hot agent id (record w { db = db }),
      some ((HotKeys.release_hold id (w.hot agent)).1 || from_db),
    )

unfoldable pub resolve_terminal_failure : ℕ → ℕ → DecisionStatus → World → World × Option Bool
unfolding resolve_terminal
resolve_terminal_failure agent id status w = elim (w.db.decision id) [
  | none ↦ (w, some false)
  | some d ↦
      if includes (denied ∷ settled ∷ []) d.status
      then (w, some false)
      else if includes (failed_terminal ∷ expired ∷ []) d.status
      then resolve_terminal agent id w
      else let (db, written) = mark_decision_terminal id status w.db in
        elim written [
          | rows true ↦ resolve_terminal agent id (record w { db = db })
          | rows false ↦ (w, some false)
          | throws e ↦ (w, none)
        ]
]

-- `revokeAgentInFlight`: the loop stops at the first throw.
pub fail_all : ℕ → List ℕ → World → World × Bool
unfolding fail_reserved_decision
fail_all agent [] w = (w, true)
fail_all agent (id ∷ ids) w =
    let (w', completed) = fail_reserved_decision agent id w in
    let rest = fail_all agent ids w' in if completed then rest else (w', false)

pub revoke_agent_in_flight : ℕ → ℕ → World → World × Option (List ℕ × List ℕ)
unfolding fail_all
revoke_agent_in_flight agent org w =
    let aborted = list_reserved_for_revoke w.db agent org in
    let committed = list_committed_for_revoke w.db agent org in
    let (w', completed) = fail_all agent aborted w in
    (w', if completed then some (aborted, committed) else none)
