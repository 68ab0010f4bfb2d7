-- ===== src/Guard/Reconcile.antt =====
-- casper-guard/reconcile-worker.ts with the anchors of casper-guard/store.ts. The settlement
-- reader, the anchorer and the decision hash are parameters; a `none` of theirs is a throw. A row of
-- the anchors is found by its decision and hash, which are unique; times are milliseconds.
pub mod Anchors
pub mod Outcomes
pub mod Consistency
pub mod Ambiguity
pub mod Settled
use casper_agops_server.Prelude.{
  ℕ, zero, suc, ◌+◌, Bool, true, false, not, ◌&&◌, ◌||◌, Option, none, some, List, [], ◌∷◌, ltb,
  ◌=?◌, includes, nat_eq, update, is_some, if◌then◌else◌,
}
use casper_agops_server.Guard.Store.{
  DecisionStatus, expiry_check, settled, denied, failed_terminal, expired, is_allow, Decision, Db,
  Written, rows, throws, status_eq, mark_decision_expiry_check, mark_decision_settled, settle_hold,
}
use casper_agops_server.Guard.Authorize.{World, resolve_terminal_failure}
use casper_agops_server.Ledger.Hot as HotKeys
use casper_agops_server.Ledger.Hot.{Hot}

pub data ReadStatus : Type 0 where
  read_settled : (tx_hash deploy_hash : Option ℕ) → ReadStatus
  read_pending read_ambiguous read_failed read_expired : ReadStatus

pub data AnchorState : Type 0 where
  submitted confirmed failed : AnchorState

pub record Anchor : Type 0 where
  pub anchor_id : ℕ
  pub state : AnchorState
  pub tx_hash : Option ℕ
  pub anchored_at : ℕ

pub data AnchorStatus : Type 0 where
  anchored already_anchored submit_in_flight not_configured anchor_failed : AnchorStatus
  skipped_not_settled : AnchorStatus

pub record ReconcileState : Type 0 where
  pub world : World
  pub anchors : ℕ → ℕ → Option Anchor
  pub attempts : ℕ → List ℕ

pub record ReconcileDeps : Type 0 where
  pub read : Decision → Option ReadStatus
  pub anchorer : Option (ℕ → ℕ → Option ℕ)
  pub decision_hash : Decision → ℕ
  pub new_anchor_id : ℕ
  pub stale_submitted_ms : ℕ
  pub now : ℕ

pub data Reconciled : Type 0 where
  reconciled : (status : DecisionStatus) → (is_settled : Bool) → AnchorStatus → Reconciled
  reconcile_threw : Reconciled

abbrev pub is_confirmed : Option Anchor → Bool
is_confirmed none = false
is_confirmed (some a) = elim a.state [ submitted ↦ false | confirmed ↦ true | failed ↦ false ]

abbrev pub set_anchor : ℕ → ℕ → Anchor → (ℕ → ℕ → Option Anchor) → ℕ → ℕ → Option Anchor
set_anchor id hash a m i h = if i =? id && h =? hash then some a else m i h

-- Whether the conflicting row may be taken over: it failed, or its submission is stale.
pub may_reclaim : ℕ → ℕ → Anchor → Bool
may_reclaim now stale a = elim a.state [
  | submitted ↦ ltb (a.anchored_at + stale) now
  | confirmed ↦ false
  | failed ↦ true
]

pub claim_row : ℕ → ℕ → ℕ → Option Anchor → Option Anchor
unfolding may_reclaim
claim_row new_id now stale none =
    some (record { anchor_id = new_id; state = submitted; tx_hash = none; anchored_at = now })
claim_row new_id now stale (some a) =
    if may_reclaim now stale a
    then some
        (record { anchor_id = a.anchor_id; state = submitted; tx_hash = none; anchored_at = now })
    else none

-- `claimCasperGuardAuditAnchor`: the id of the claimed row, if the caller won it.
pub claim_anchor : ℕ → ℕ → ℕ → ℕ → ℕ → (ℕ → ℕ → Option Anchor) → (ℕ → ℕ → Option Anchor) × Option ℕ
unfolding claim_row
claim_anchor new_id now stale id hash m = elim (claim_row new_id now stale (m id hash)) [
  | none ↦ (m, none)
  | some a ↦ (set_anchor id hash a m, some a.anchor_id)
]

-- `UPDATE … WHERE anchor_id = $1 AND status = 'submitted'`.
pub finish_row : ℕ → (Anchor → Anchor) → Option Anchor → Option Anchor
finish_row anchor_id change none = none
finish_row anchor_id change (some a) = elim a.state [
  | submitted ↦ if a.anchor_id =? anchor_id then some (change a) else none
  | confirmed ↦ none
  | failed ↦ none
]

pub finish_anchor :
    ℕ → (Anchor → Anchor) → ℕ → ℕ → (ℕ → ℕ → Option Anchor) → (ℕ → ℕ → Option Anchor) × Bool
unfolding finish_row
finish_anchor anchor_id change id hash m = elim (finish_row anchor_id change (m id hash)) [
  | none ↦ (m, false)
  | some a ↦ (set_anchor id hash a m, true)
]

pub confirm_anchor : ℕ → ℕ → ℕ → ℕ → ℕ → (ℕ → ℕ → Option Anchor) → (ℕ → ℕ → Option Anchor) × Bool
unfolding finish_anchor
confirm_anchor anchor_id tx now =
    finish_anchor anchor_id
      (λ a. record a { state = confirmed; tx_hash = some tx; anchored_at = now })

pub fail_anchor : ℕ → ℕ → ℕ → ℕ → (ℕ → ℕ → Option Anchor) → (ℕ → ℕ → Option Anchor) × Bool
unfolding finish_anchor
fail_anchor anchor_id now =
    finish_anchor anchor_id (λ a. record a { state = failed; anchored_at = now })

-- The claim is won: the anchorer submits, and the row is confirmed or failed.
pub submit_anchor :
    ReconcileDeps → (ℕ → ℕ → Option ℕ) → ℕ → ℕ → ℕ → ReconcileState → ReconcileState × AnchorStatus
unfolding confirm_anchor fail_anchor
submit_anchor deps anchor anchor_id id hash s = elim (anchor id hash) [
  | none ↦
      (record s { anchors = (fail_anchor anchor_id deps.now id hash s.anchors).0 }, anchor_failed)
  | some tx ↦
      let (anchors, written) = confirm_anchor anchor_id tx deps.now id hash s.anchors in
      (record s { anchors = anchors }, if written then anchored else anchor_failed)
]

pub ensure_audit_anchor : ReconcileDeps → Decision → ReconcileState → ReconcileState × AnchorStatus
unfolding submit_anchor claim_anchor
ensure_audit_anchor deps d s =
    let hash = deps.decision_hash d in
    if is_confirmed (s.anchors d.decision_id hash)
    then (s, already_anchored)
    else elim deps.anchorer [
      | none ↦ (s, not_configured)
      | some anchor ↦
          let (anchors, claimed) =
            claim_anchor deps.new_anchor_id deps.now deps.stale_submitted_ms d.decision_id hash
              s.anchors in
          elim claimed [
            | none ↦ (s, submit_in_flight)
            | some anchor_id ↦
                submit_anchor deps anchor anchor_id d.decision_id hash
                  (record s { anchors = anchors })
          ]
    ]

-- Both halves of the settlement of a hold, in the hot keys and in the tables.
pub repair_settled_hold_cleanup : Decision → World → World × Bool
repair_settled_hold_cleanup d w =
    let (h, redis_settled) = HotKeys.settle_hold d.decision_id (w.hot d.agent_id) in
    let (db, hold_settled) = settle_hold d.decision_id w.db in
    (record w { db = db; hot = update w.hot d.agent_id h }, redis_settled || hold_settled)

pub finish_settled : ReconcileDeps → Decision → Bool → ReconcileState → ReconcileState × Reconciled
unfolding ensure_audit_anchor
finish_settled deps d was_settled s =
    let (s', status) = ensure_audit_anchor deps d s in (s', reconciled settled was_settled status)

pub repair_and_finish : ReconcileDeps → Decision → ReconcileState → ReconcileState × Reconciled
unfolding repair_settled_hold_cleanup finish_settled
repair_and_finish deps d s =
    let (w, was_settled) = repair_settled_hold_cleanup d s.world in
    finish_settled deps d was_settled (record s { world = w })

pub result_from_current_decision : ReconcileDeps → ℕ → ReconcileState → ReconcileState × Reconciled
unfolding repair_and_finish
result_from_current_decision deps id s = elim (s.world.db.decision id) [
  | none ↦ (s, reconcile_threw)
  | some d ↦
      if includes (settled ∷ []) d.status
      then repair_and_finish deps d s
      else (s, reconciled d.status false skipped_not_settled)
]

-- `settleSignedDecision`, and what the `settled` case answers.
pub settle_read :
    ReconcileDeps → Decision → Option ℕ → Option ℕ → ReconcileState → ReconcileState × Reconciled
unfolding repair_settled_hold_cleanup finish_settled result_from_current_decision
settle_read deps d tx deploy s =
    let (db, written) = mark_decision_settled d.decision_id tx deploy s.world.db in
    elim written [
      | rows true ↦
          let (w, x) = repair_settled_hold_cleanup d (record s.world { db = db }) in
          elim (w.db.decision d.decision_id) [
            | none ↦ (record s { world = w }, reconcile_threw)
            | some refreshed ↦ finish_settled deps refreshed true (record s { world = w })
          ]
      | rows false ↦ elim (s.world.db.decision d.decision_id) [
        | none ↦ (s, reconcile_threw)
        | some refreshed ↦
            if includes (settled ∷ []) refreshed.status
            then finish_settled deps refreshed false s
            else result_from_current_decision deps d.decision_id s
      ]
      | throws e ↦ (s, reconcile_threw)
    ]

-- A terminal read: `resolveCasperGuardTerminalFailure`, then the row as it is.
pub terminal_read :
    ReconcileDeps → Decision → DecisionStatus → ReconcileState → ReconcileState × Reconciled
unfolding result_from_current_decision
terminal_read deps d status s =
    let (w, answer) = resolve_terminal_failure d.agent_id d.decision_id status s.world in
    elim answer [
      | none ↦ (record s { world = w }, reconcile_threw)
      | some b ↦ result_from_current_decision deps d.decision_id (record s { world = w })
    ]

pub unsettled_read : ReconcileDeps → Decision → ReconcileState → ReconcileState × Reconciled
unfolding result_from_current_decision
unsettled_read deps d s =
    let (db, written) = mark_decision_expiry_check d.decision_id s.world.db in
    elim written [
      | rows b ↦
          result_from_current_decision deps d.decision_id
            (record s { world = record s.world { db = db } })
      | throws e ↦ (s, reconcile_threw)
    ]

-- `Math.max(0, …) + 1`.
pub max_attempt : List ℕ → ℕ
max_attempt [] = 0
max_attempt (n ∷ ns) = let rest = max_attempt ns in if ltb rest n then n else rest

-- `appendCasperGuardReconciliationAttempt`: the numbers of a decision's attempts are unique.
pub insert_attempt : ℕ → List ℕ → Option (List ℕ)
insert_attempt number taken = if includes taken number then none else some (number ∷ taken)

-- The loop of `appendReconciliationAttempt` with its retries left: after a unique violation the
-- number is computed again. `none` is the conflict that it throws at the end.
pub append_with_retries : ℕ → ℕ → List ℕ → Option (List ℕ)
unfolding insert_attempt max_attempt
append_with_retries zero number taken = none
append_with_retries (suc retries) number taken =
    let rest = append_with_retries retries (suc (max_attempt taken)) taken in
    elim (insert_attempt number taken) [ none ↦ rest | some taken' ↦ some taken' ]

pub append_attempt : Decision → ReconcileState → Option ReconcileState
unfolding append_with_retries max_attempt
append_attempt d s =
    let taken = s.attempts d.decision_id in
    elim (append_with_retries 5 (suc (max_attempt taken)) taken) [
      | none ↦ none
      | some taken' ↦ some (record s { attempts = update s.attempts d.decision_id taken' })
    ]

pub act_on : ReconcileDeps → Decision → ReadStatus → ReconcileState → ReconcileState × Reconciled
unfolding settle_read terminal_read unsettled_read
act_on deps d (read_settled tx deploy) s = settle_read deps d tx deploy s
act_on deps d read_pending s = unsettled_read deps d s
act_on deps d read_ambiguous s = unsettled_read deps d s
act_on deps d read_failed s = terminal_read deps d failed_terminal s
act_on deps d read_expired s = terminal_read deps d expired s

pub reconcile_open : ReconcileDeps → Decision → ReconcileState → ReconcileState × Reconciled
unfolding act_on append_attempt
reconcile_open deps d s =
    if not (is_allow d.outcome) || not (is_some d.signed_header_hash)
    then (s, reconcile_threw)
    else elim (deps.read d) [
      | none ↦ (s, reconcile_threw)
      | some observed ↦ elim (append_attempt d s) [
        | none ↦ (s, reconcile_threw)
        | some s' ↦ act_on deps d observed s'
      ]
    ]

pub reconcile_found : ReconcileDeps → ℕ → Decision → ReconcileState → ReconcileState × Reconciled
unfolding repair_and_finish reconcile_open
reconcile_found deps agent d s =
    if not (d.agent_id =? agent)
    then (s, reconcile_threw)
    else if includes (settled ∷ []) d.status
    then repair_and_finish deps d s
    else if includes (expired ∷ failed_terminal ∷ denied ∷ []) d.status
    then (s, reconciled d.status false skipped_not_settled)
    else reconcile_open deps d s

-- `reconcileCasperGuardDecision`.
pub reconcile_decision : ReconcileDeps → ℕ → ℕ → ReconcileState → ReconcileState × Reconciled
unfolding reconcile_found
reconcile_decision deps id agent s = elim (s.world.db.decision id) [
  | none ↦ (s, reconcile_threw)
  | some d ↦ reconcile_found deps agent d s
]
