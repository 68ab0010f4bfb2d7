-- ===== src/Guard/Reconcile/Outcomes.antt =====
-- What a reconciliation does to the tables and to the hold.
use casper_agops_server.Prelude.{
  ℕ, Bool, true, false, Option, some, [], ◌∷◌, ◌≡◌, ◌⊎◌, refl, sym, ap, ◌∙◌, inl, inr, arith,
  nat_eq, includes, Bool-cases, Option-cases, =?_refl,
}
use mathlib.Core.Path.{subst}
use casper_agops_server.Guard.Store.{
  DbError, DecisionStatus, settled, Decision, Db, Written, rows, throws, status_eq,
  mark_decision_settled, settle_hold, update_decision, update_found,
}
use casper_agops_server.Guard.Store.Rows.{IsConsistent}
use casper_agops_server.Guard.Store.Writes.{
  settle_hold-IsConsistent, mark_decision_settled-IsConsistent,
}
use casper_agops_server.Guard.Authorize.{World}
use casper_agops_server.Guard.Reconcile.{
  ReconcileState, ReconcileDeps, submit_anchor, ensure_audit_anchor, repair_settled_hold_cleanup,
  finish_settled, repair_and_finish, result_from_current_decision, settle_read, append_attempt,
}

-- Anchoring does not touch the decisions or the holds.
ensure_audit_anchor-world :
    (deps : ReconcileDeps) (d : Decision) (s : ReconcileState)
    → (ensure_audit_anchor deps d s).0.world ≡ s.world
unfolding ensure_audit_anchor submit_anchor
ensure_audit_anchor-world deps d s = ground arith

pub finish_settled-world :
    (deps : ReconcileDeps) (d : Decision) (b : Bool) (s : ReconcileState)
    → (finish_settled deps d b s).0.world ≡ s.world
unfolding finish_settled
finish_settled-world deps d b s = ensure_audit_anchor-world deps d s

-- An attempt that was appended changes nothing but the attempts.
pub append_attempt-world :
    (d : Decision) (s s' : ReconcileState) → append_attempt d s ≡ some s' → s'.world ≡ s.world
unfolding append_attempt
append_attempt-world d s s' e = ground (arith, e)

pub own_id :
    (db : Db) (id : ℕ) (d : Decision)
    → IsConsistent db
    → db.decision id ≡ some d
    → d.decision_id ≡ id
own_id db id d c e = ground (arith, c.rows_ok id)

pub settled_status : (s : DecisionStatus) → includes (settled ∷ []) s ≡ true → s ≡ settled
settled_status s e = ground arith

pub repair_and_finish-IsConsistent :
    (deps : ReconcileDeps) (d : Decision) (s : ReconcileState)
    → IsConsistent s.world.db
    → (x : Decision) → s.world.db.decision d.decision_id ≡ some x
    → x.status ≡ settled
    → IsConsistent (repair_and_finish deps d s).0.world.db
unfolding repair_and_finish repair_settled_hold_cleanup
repair_and_finish-IsConsistent deps d s c x e is_settled =
    subst (λ w. IsConsistent w.db)
      (sym (
        finish_settled-world deps d (repair_settled_hold_cleanup d s.world).1
          (record s { world = (repair_settled_hold_cleanup d s.world).0 })))
      (settle_hold-IsConsistent d.decision_id s.world.db c x e is_settled)

pub repair_db :
    (d : Decision) (w : World)
    → (repair_settled_hold_cleanup d w).0.db ≡ (settle_hold d.decision_id w.db).0
unfolding repair_settled_hold_cleanup
repair_db d w = refl

-- The answer from the row as it is repairs a settled row and leaves every other.
pub current_cases :
    (deps : ReconcileDeps) (id : ℕ) (s : ReconcileState)
    → ((result_from_current_decision deps id s).0 ≡ s)
      ⊎ ((x : Decision) × (s.world.db.decision id ≡ some x)
          × (x.status ≡ settled)
          × (result_from_current_decision deps id s ≡ repair_and_finish deps x s))
unfolding result_from_current_decision
current_cases deps id s = elim (Option-cases (s.world.db.decision id)) [
  | inl missing ↦ inl (ground (arith, missing))
  | inr (x, e) ↦ elim (Bool-cases (includes (settled ∷ []) x.status)) [
    | inl is_settled ↦ inr (x, e, settled_status x.status is_settled, ground (arith, e, is_settled))
    | inr other ↦ inl (ground (arith, e, other))
  ]
]

pub current-IsConsistent :
    (deps : ReconcileDeps) (id : ℕ) (s : ReconcileState)
    → IsConsistent s.world.db
    → IsConsistent (result_from_current_decision deps id s).0.world.db
current-IsConsistent deps id s c = elim (current_cases deps id s) [
  | inl same ↦ rw same c
  | inr (x, e, is_settled, out) ↦ rw out (
      repair_and_finish-IsConsistent deps x s c x
        (ap s.world.db.decision (own_id s.world.db id x c e) ∙ e) is_settled)
]

-- A write that answers `true` has left the changed row.
pub written_row :
    (guard : Decision → Bool) (change : Decision → Decision) (id : ℕ) (db : Db)
    → (update_decision guard change id db).1 ≡ rows true
    → (x : Decision) × (db.decision id ≡ some x)
      × ((update_decision guard change id db).0.decision id ≡ some (change x))
unfolding update_decision update_found
written_row guard change id db e = elim (Option-cases (db.decision id)) [
  | inl missing ↦ absurd (ground (arith, missing, e))
  | inr (x, f) ↦ (x, f, ground (arith, e, f, =?_refl id))
]

module _ (deps : ReconcileDeps) (d : Decision) (tx deploy : Option ℕ) (s : ReconcileState) where
  abbrev marked : World
  marked = record s.world { db = (mark_decision_settled d.decision_id tx deploy s.world.db).0 }

  pub settle_moved :
      (mark_decision_settled d.decision_id tx deploy s.world.db).1 ≡ rows true
      → (settle_read deps d tx deploy s).0.world ≡ (repair_settled_hold_cleanup d marked).0
  unfolding settle_read
  settle_moved e =
      elim (Option-cases ((repair_settled_hold_cleanup d marked).0.db.decision d.decision_id)) [
        | inl missing ↦ ground (arith, e, missing)
        | inr (x, f) ↦ ground (
          arith,
          e,
          f,
          finish_settled-world deps x true
              (record s { world = (repair_settled_hold_cleanup d marked).0 }),
        )
      ]

  settle_lost :
      (mark_decision_settled d.decision_id tx deploy s.world.db).1 ≡ rows false
      → ((settle_read deps d tx deploy s).0.world ≡ s.world)
        ⊎ (settle_read deps d tx deploy s ≡ result_from_current_decision deps d.decision_id s)
  unfolding settle_read
  settle_lost e = elim (Option-cases (s.world.db.decision d.decision_id)) [
    | inl missing ↦ inl (ground (arith, e, missing))
    | inr (x, f) ↦ elim (Bool-cases (includes (settled ∷ []) x.status)) [
      | inl is_settled ↦ inl (ground (arith, e, f, is_settled, finish_settled-world deps x false s))
      | inr other ↦ inr (ground (arith, e, f, other))
    ]
  ]

  settle_threw :
      (x : DbError)
      → (mark_decision_settled d.decision_id tx deploy s.world.db).1 ≡ throws x
      → (settle_read deps d tx deploy s).0 ≡ s
  unfolding settle_read
  settle_threw x e = ground (arith, e)

  pub marked_row :
      (mark_decision_settled d.decision_id tx deploy s.world.db).1 ≡ rows true
      → (x : Decision) × (marked.db.decision d.decision_id ≡ some x) × (x.status ≡ settled)
  unfolding mark_decision_settled
  marked_row e = let (x, f, g) = written_row _ _ d.decision_id s.world.db e in (_, g, refl)

  pub settle_read-IsConsistent :
      IsConsistent s.world.db → IsConsistent (settle_read deps d tx deploy s).0.world.db
  settle_read-IsConsistent c = go (mark_decision_settled d.decision_id tx deploy s.world.db).1 refl
    where
      go :
          (x : Written)
          → (mark_decision_settled d.decision_id tx deploy s.world.db).1 ≡ x
          → IsConsistent (settle_read deps d tx deploy s).0.world.db
      go (rows true) e =
          let (x, f, is_settled) = marked_row e in
          subst (λ w. IsConsistent w.db) (sym (settle_moved e))
            (subst IsConsistent (sym (repair_db d marked)) (
              settle_hold-IsConsistent d.decision_id marked.db
                (mark_decision_settled-IsConsistent d.decision_id s.world.db c tx deploy) x f
                is_settled))
      go (rows false) e = elim (settle_lost e) [
        | inl same ↦ subst (λ w. IsConsistent w.db) (sym same) c
        | inr current ↦ rw current (current-IsConsistent deps d.decision_id s c)
      ]
      go (throws x) e = rw (settle_threw x e) c
