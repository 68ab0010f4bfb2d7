-- ===== src/Guard/Reconcile/Settled.antt =====
-- A reconciliation whose read is settled settles the decision and both halves of its hold.
use casper_agops_server.Prelude.{
  ℕ, suc, ◌≤◌, Bool, true, false, ◌&&◌, Option, some, List, [], ◌∷◌, ◌≡◌, refl, ap, inl, inr, arith,
  ◌=?◌, nat_eq, includes, update, is_some, Bool-cases, =?_refl,
}
use casper_agops_server.Guard.Store.{
  signed, broadcasting, expiry_check, settled, Decision, HoldRow, held, settled_hold, Db, rows,
  row_check, status_eq, mark_decision_settled, update_decision, settle_hold, resolve_found,
  is_allow, coalesce,
}
use casper_agops_server.Guard.Authorize.{World}
use casper_agops_server.Guard.Authorize.Ends.{accepted}
use casper_agops_server.Ledger.Hot as HotKeys
use casper_agops_server.Guard.Reconcile.{
  reconcile_threw, read_settled, ReconcileState, ReconcileDeps, Reconciled, reconciled, settle_read,
  repair_settled_hold_cleanup, finish_settled, max_attempt, insert_attempt, append_with_retries,
  append_attempt, act_on, reconcile_open, reconcile_found, reconcile_decision,
}
use casper_agops_server.Guard.Reconcile.Outcomes.{settle_moved}

max_attempt-le : (n : ℕ) (ns : List ℕ) → includes ns n ≡ true → n ≤ max_attempt ns
unfolding max_attempt
max_attempt-le n [] m = absurd (cc)
max_attempt-le n (x ∷ ns) m = elim (Bool-cases (x =? n)) [
  | inl same ↦ ground (arith, same)
  | inr other ↦ ground (arith, other, m, max_attempt-le n ns (ground (arith, other, m)))
]

-- The next number is free, so the first insert succeeds.
next_free : (ns : List ℕ) → includes ns (suc (max_attempt ns)) ≡ false
next_free ns = elim (Bool-cases (includes ns (suc (max_attempt ns)))) [
  | inl taken ↦ absurd (omega (arith, max_attempt-le (suc (max_attempt ns)) ns taken))
  | inr free ↦ free
]

appended : Decision → ReconcileState → ReconcileState
appended d s = record s {
  attempts =
      update s.attempts d.decision_id
        (suc (max_attempt (s.attempts d.decision_id)) ∷ s.attempts d.decision_id);
}

appends : (d : Decision) (s : ReconcileState) → append_attempt d s ≡ some (appended d s)
unfolding append_attempt append_with_retries insert_attempt appended
appends d s = ground (arith, next_free (s.attempts d.decision_id))

abbrev pub settled_row : Option ℕ → Option ℕ → Decision → Decision
settled_row tx deploy d = record d {
  status = settled;
  tx_hash = coalesce tx d.tx_hash;
  deploy_hash = coalesce deploy d.deploy_hash;
}

-- `status: 'SETTLED', settled: true`.
abbrev pub answers_settled : Reconciled → Bool
answers_settled (reconciled status done _) = done && includes (settled ∷ []) status
answers_settled reconcile_threw = false

-- A signed decision with a held hold.
pub record IsSigned (db : Db) (d : Decision) (h : HoldRow) : Type 0 where
  pub found : db.decision d.decision_id ≡ some d
  pub hold_found : db.hold d.decision_id ≡ some h
  pub status : includes (signed ∷ broadcasting ∷ expiry_check ∷ []) d.status ≡ true
  pub outcome : is_allow d.outcome ≡ true
  pub is_open : h.status ≡ held
  pub checked : row_check d ≡ true

module _ (d : Decision) (h : HoldRow) (tx deploy : Option ℕ) where
  has_header : (db : Db) → IsSigned db d h → is_some d.signed_header_hash ≡ true
  unfolding row_check
  has_header db r = ground (arith, r.checked, r.status, r.outcome)

  settled_row-checked : (db : Db) → IsSigned db d h → row_check (settled_row tx deploy d) ≡ true
  unfolding row_check
  settled_row-checked db r = ground (arith, r.checked, r.status, r.outcome, has_header db r)

  settled-accepted :
      (db : Db)
      → IsSigned db d h
      → mark_decision_settled d.decision_id tx deploy db ≡ (
        record db { decision = update db.decision d.decision_id (some (settled_row tx deploy d)) },
        rows true,
      )
  unfolding mark_decision_settled update_decision
  settled-accepted db r =
      accepted _ _ d.decision_id db d
        (ground (arith, r.status, r.outcome, has_header db r, r.hold_found, r.is_open))
        (settled_row-checked db r) (db.decision d.decision_id) r.found

  -- What a settled read leaves in the world.
  settled_world :
      (w : World)
      → IsSigned w.db d h
      → let w' =
          (repair_settled_hold_cleanup d
            (record w { db = (mark_decision_settled d.decision_id tx deploy w.db).0 })).0 in
        (w'.db.decision d.decision_id ≡ some (settled_row tx deploy d))
        × (w'.db.hold d.decision_id ≡ some (record h { status = settled_hold }))
        × (w'.hot d.agent_id ≡ (HotKeys.settle_hold d.decision_id (w.hot d.agent_id)).0)
  unfolding repair_settled_hold_cleanup settle_hold resolve_found
  settled_world w r = rw (settled-accepted w.db r) (
    ground (arith, r.hold_found, r.is_open, =?_refl d.decision_id),
    ground (arith, r.hold_found, r.is_open, =?_refl d.decision_id),
    ground (arith, r.hold_found, r.is_open, =?_refl d.agent_id),
  )

  settle_read-answer :
      (deps : ReconcileDeps) (s : ReconcileState)
      → IsSigned s.world.db d h
      → answers_settled (settle_read deps d tx deploy s).1 ≡ true
  unfolding settle_read finish_settled
  settle_read-answer deps s r =
      ground (arith, settled-accepted s.world.db r, (settled_world s.world r).0)

  appended-IsSigned :
      (s : ReconcileState) → IsSigned s.world.db d h → IsSigned (appended d s).world.db d h
  unfolding appended
  appended-IsSigned s r = r

  appended-world : (s : ReconcileState) → (appended d s).world ≡ s.world
  unfolding appended
  appended-world s = refl

  reaches :
      (deps : ReconcileDeps) (s : ReconcileState)
      → IsSigned s.world.db d h
      → deps.read d ≡ some (read_settled tx deploy)
      → reconcile_decision deps d.decision_id d.agent_id s
        ≡ settle_read deps d tx deploy (appended d s)
  unfolding reconcile_decision reconcile_found reconcile_open act_on
  reaches deps s r e = ground (
    arith,
    r.found,
    r.status,
    r.outcome,
    has_header s.world.db r,
    e,
    appends d s,
    =?_refl d.agent_id,
  )

  settled_after :
      (deps : ReconcileDeps) (s : ReconcileState)
      → IsSigned s.world.db d h
      → (settle_read deps d tx deploy s).0.world
        ≡ (repair_settled_hold_cleanup d (record s.world {
          db = (mark_decision_settled d.decision_id tx deploy s.world.db).0;
        })).0
  settled_after deps s r =
      settle_moved deps d tx deploy s (ap (λ x. x.1) (settled-accepted s.world.db r))

-- When the settlement reader says that a signed decision with a held hold is settled, the
-- reconciliation succeeds: it answers SETTLED, the row is settled with the transaction that was read,
-- its hold is settled in the table, and the agent's hot keys settle the payment.
pub reconcile_decision-settles :
    (deps : ReconcileDeps) (s : ReconcileState) (d : Decision) (h : HoldRow) (tx deploy : Option ℕ)
    → IsSigned s.world.db d h
    → deps.read d ≡ some (read_settled tx deploy)
    → let (s', answer) = reconcile_decision deps d.decision_id d.agent_id s in
      (answers_settled answer ≡ true)
      × (s'.world.db.decision d.decision_id ≡ some (settled_row tx deploy d))
      × (s'.world.db.hold d.decision_id ≡ some (record h { status = settled_hold }))
      × (s'.world.hot d.agent_id ≡ (HotKeys.settle_hold d.decision_id (s.world.hot d.agent_id)).0)
unfolding appended
reconcile_decision-settles deps s d h tx deploy r e =
    let next = appended d s in
    let r' = appended-IsSigned d h tx deploy s r in
    let (row, held_row, hot) = settled_world d h tx deploy next.world r' in
    rw (reaches d h tx deploy deps s r e) (
      settle_read-answer d h tx deploy deps next r',
      rw (settled_after d h tx deploy deps next r') row,
      rw (settled_after d h tx deploy deps next r') held_row,
      rw (settled_after d h tx deploy deps next r') hot,
    )
