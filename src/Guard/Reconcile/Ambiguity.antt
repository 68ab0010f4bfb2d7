-- ===== src/Guard/Reconcile/Ambiguity.antt =====
-- A reconciliation that learns nothing certain leaves the hold alone.
use casper_agops_server.Prelude.{
  Option-cases, inl, inr, ℕ, Bool, false, Option, none, some, [], ◌∷◌, ◌≡◌, ◌≢◌, refl, arith,
  nat_eq, includes,
}
use casper_agops_server.Guard.Store.{
  settled, Decision, Db, status_eq, mark_decision_expiry_check, update_decision, update_found,
}
use casper_agops_server.Guard.Reconcile.Outcomes.{append_attempt-world}
use casper_agops_server.Guard.Reconcile.{
  ReadStatus, read_pending, read_ambiguous, ReconcileState, ReconcileDeps, unsettled_read,
  append_attempt, act_on, reconcile_open, result_from_current_decision, reconcile_found,
  reconcile_decision,
}

abbrev is_settled_row : Option Decision → Bool
is_settled_row none = false
is_settled_row (some d) = includes (settled ∷ []) d.status

-- The hot keys and the hold rows are the same.
abbrev pub KeepsHolds : ReconcileState → ReconcileState → Type 0
KeepsHolds s s' = (s'.world.hot ≡ s.world.hot) × (s'.world.db.hold ≡ s.world.db.hold)

-- The read threw, or is pending or ambiguous.
pub data IsUncertain : Option ReadStatus → Type 0 where
  throws_read : IsUncertain none
  pending_read : IsUncertain (some read_pending)
  ambiguous_read : IsUncertain (some read_ambiguous)

current-KeepsHolds :
    (deps : ReconcileDeps) (id : ℕ) (s : ReconcileState)
    → is_settled_row (s.world.db.decision id) ≡ false
    → (result_from_current_decision deps id s).0 ≡ s
unfolding result_from_current_decision
current-KeepsHolds deps id s live = ground (arith, live)

expiry_check-row :
    (id : ℕ) (db : Db)
    → is_settled_row (db.decision id) ≡ false
    → ((mark_decision_expiry_check id db).0.hold ≡ db.hold)
      × (is_settled_row ((mark_decision_expiry_check id db).0.decision id) ≡ false)
unfolding mark_decision_expiry_check update_decision update_found
expiry_check-row id db live = (ground arith, ground (arith, live))

unsettled_read-KeepsHolds :
    (deps : ReconcileDeps) (d : Decision) (s : ReconcileState)
    → is_settled_row (s.world.db.decision d.decision_id) ≡ false
    → KeepsHolds s (unsettled_read deps d s).0
unfolding unsettled_read
unsettled_read-KeepsHolds deps d s live =
    let (hold, row) = expiry_check-row d.decision_id s.world.db live in
    let s' = record s {
      world = record s.world { db = (mark_decision_expiry_check d.decision_id s.world.db).0 };
    } in
    ground (arith, current-KeepsHolds deps d.decision_id s' row, hold)

acts :
    (deps : ReconcileDeps) (d : Decision) (s : ReconcileState) (r : ReadStatus)
    → IsUncertain (some r)
    → is_settled_row (s.world.db.decision d.decision_id) ≡ false
    → KeepsHolds s (act_on deps d r s).0
unfolding act_on
acts deps d s r pending_read live = unsettled_read-KeepsHolds deps d s live
acts deps d s r ambiguous_read live = unsettled_read-KeepsHolds deps d s live

open-KeepsHolds :
    (deps : ReconcileDeps) (d : Decision) (s : ReconcileState)
    → is_settled_row (s.world.db.decision d.decision_id) ≡ false
    → (o : Option ReadStatus) → deps.read d ≡ o
    → IsUncertain o
    → KeepsHolds s (reconcile_open deps d s).0
unfolding reconcile_open
open-KeepsHolds deps d s live none e u = ground (arith, e)
open-KeepsHolds deps d s live (some r) e u = elim (Option-cases (append_attempt d s)) [
  | inl conflict ↦ ground (arith, e, conflict)
  | inr (s', appended) ↦ ground (
    arith,
    e,
    appended,
    append_attempt-world d s s' appended,
    acts deps d s' r u (rw (append_attempt-world d s s' appended) live),
  )
]

unsettled_row : (d : Decision) → d.status ≢ settled → is_settled_row (some d) ≡ false
unsettled_row d n = ground (arith, n)

-- While the settlement reader throws or answers pending or ambiguous, a reconciliation of a decision
-- that is not settled leaves every hold, in the hot keys and in the table, as it is.
pub uncertain-KeepsHolds :
    (deps : ReconcileDeps) (id agent : ℕ) (s : ReconcileState) (d : Decision)
    → s.world.db.decision id ≡ some d
    → d.decision_id ≡ id
    → d.status ≢ settled
    → IsUncertain (deps.read d)
    → KeepsHolds s (reconcile_decision deps id agent s).0
unfolding reconcile_decision reconcile_found
uncertain-KeepsHolds deps id agent s d e own live u = ground (
  arith,
  e,
  unsettled_row d live,
  open-KeepsHolds deps d s (ground (arith, e, own, unsettled_row d live)) (deps.read d) refl u,
)
