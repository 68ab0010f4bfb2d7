-- ===== src/Guard/Reconcile/Consistency.antt =====
-- A reconciliation keeps the decision and hold tables consistent, whatever it reads.
use casper_agops_server.Prelude.{
  ℕ, true, false, not, ◌||◌, some, [], ◌∷◌, ◌≡◌, ◌⊎◌, refl, sym, ap, ◌∙◌, inl, inr, arith, ◌=?◌,
  nat_eq, includes, is_some, Bool-cases, Option-cases,
}
use mathlib.Core.Path.{subst}
use casper_agops_server.Guard.Store.{
  DecisionStatus, settled, denied, failed_terminal, expired, Decision, Written, rows, throws,
  status_eq, mark_decision_expiry_check, mark_decision_terminal, is_allow,
}
use casper_agops_server.Guard.Store.Rows.{IsConsistent}
use casper_agops_server.Guard.Store.Writes.{
  release_hold-IsConsistent, mark_decision_expiry_check-IsConsistent,
  mark_decision_terminal-IsConsistent,
}
use casper_agops_server.Guard.Authorize.{World, resolve_terminal_failure, resolve_terminal}
use casper_agops_server.Guard.Reconcile.{
  ReadStatus, read_settled, read_pending, read_ambiguous, read_failed, read_expired, ReconcileState,
  ReconcileDeps, terminal_read, unsettled_read, append_attempt, act_on, reconcile_open,
  reconcile_found, reconcile_decision,
}
use casper_agops_server.Guard.Reconcile.Outcomes.{
  written_row, append_attempt-world, current-IsConsistent, repair_and_finish-IsConsistent, own_id,
  settled_status, settle_read-IsConsistent,
}

module _ (agent id : ℕ) (status : DecisionStatus)
    (terminal : includes (failed_terminal ∷ expired ∷ []) status ≡ true) where
  moved_row :
      (w : World)
      → (mark_decision_terminal id status w.db).1 ≡ rows true
      → (x : Decision) × ((mark_decision_terminal id status w.db).0.decision id ≡ some x)
        × (x.status ≡ status)
  unfolding mark_decision_terminal
  moved_row w e = let (x, f, g) = written_row _ _ id w.db e in (_, g, refl)

  -- A failure is resolved by nothing, by the release of a hold whose decision has failed already, or
  -- by the decision's move and then the release.
  resolve_cases :
      (w : World)
      → ((resolve_terminal_failure agent id status w).0 ≡ w)
        ⊎ ((v : World) × (x : Decision) × ((v.db ≡ w.db)
              ⊎ (v.db ≡ (mark_decision_terminal id status w.db).0))
            × (v.db.decision id ≡ some x)
            × (includes (failed_terminal ∷ expired ∷ []) x.status ≡ true)
            × ((resolve_terminal_failure agent id status w).0 ≡ (resolve_terminal agent id v).0))
  unfolding resolve_terminal_failure
  resolve_cases w = elim (Option-cases (w.db.decision id)) [
    | inl missing ↦ inl (ground (arith, missing))
    | inr (d, e) ↦ elim (Bool-cases (includes (denied ∷ settled ∷ []) d.status)) [
      | inl over ↦ inl (ground (arith, e, over))
      | inr live ↦ elim (Bool-cases (includes (failed_terminal ∷ expired ∷ []) d.status)) [
        | inl done ↦ inr (w, d, inl refl, e, done, ground (arith, e, live, done))
        | inr moving ↦ go d e live moving (mark_decision_terminal id status w.db).1 refl
      ]
    ]
  ]
    where
      go :
          (d : Decision)
          → w.db.decision id ≡ some d
          → includes (denied ∷ settled ∷ []) d.status ≡ false
          → includes (failed_terminal ∷ expired ∷ []) d.status ≡ false
          → (o : Written) → (mark_decision_terminal id status w.db).1 ≡ o
          → ((resolve_terminal_failure agent id status w).0 ≡ w)
            ⊎ ((v : World) × (x : Decision) × ((v.db ≡ w.db)
                  ⊎ (v.db ≡ (mark_decision_terminal id status w.db).0))
                × (v.db.decision id ≡ some x)
                × (includes (failed_terminal ∷ expired ∷ []) x.status ≡ true)
                × ((resolve_terminal_failure agent id status w).0
                    ≡ (resolve_terminal agent id v).0))
      go d e live moving (rows true) f =
          let (x, found, same) = moved_row w f in
          inr (
            record w { db = (mark_decision_terminal id status w.db).0 },
            x,
            inr refl,
            found,
            rw same terminal,
            ground (arith, e, live, moving, f),
          )
      go d e live moving (rows false) f = inl (ground (arith, e, live, moving, f))
      go d e live moving (throws x) f = inl (ground (arith, e, live, moving, f))

  pub resolve_terminal_failure-IsConsistent :
      (w : World)
      → IsConsistent w.db
      → IsConsistent (resolve_terminal_failure agent id status w).0.db
  unfolding resolve_terminal
  resolve_terminal_failure-IsConsistent w c = elim (resolve_cases w) [
    | inl same ↦ rw same c
    | inr (v, x, origin, found, done, out) ↦
        subst (λ u. IsConsistent u.db) (sym out)
          (release_hold-IsConsistent id v.db
            (elim origin [
              | inl same ↦ rw same c
              | inr moved ↦ rw moved (mark_decision_terminal-IsConsistent id w.db c status terminal)
            ])
            x found done)
  ]

terminal_read-IsConsistent :
    (deps : ReconcileDeps) (d : Decision) (status : DecisionStatus) (s : ReconcileState)
    → includes (failed_terminal ∷ expired ∷ []) status ≡ true
    → IsConsistent s.world.db
    → IsConsistent (terminal_read deps d status s).0.world.db
unfolding terminal_read
terminal_read-IsConsistent deps d status s t c =
    let after = resolve_terminal_failure-IsConsistent d.agent_id d.decision_id status t s.world c in
    elim (Option-cases (resolve_terminal_failure d.agent_id d.decision_id status s.world).1) [
      | inl threw ↦ rw (terminal_read, threw) after
      | inr (b, e) ↦ rw (terminal_read, e) (current-IsConsistent deps d.decision_id _ after)
    ]

unsettled_read-IsConsistent :
    (deps : ReconcileDeps) (d : Decision) (s : ReconcileState)
    → IsConsistent s.world.db
    → IsConsistent (unsettled_read deps d s).0.world.db
unfolding unsettled_read
unsettled_read-IsConsistent deps d s c =
    go (mark_decision_expiry_check d.decision_id s.world.db).1 refl
  where
    go :
        (o : Written)
        → (mark_decision_expiry_check d.decision_id s.world.db).1 ≡ o
        → IsConsistent (unsettled_read deps d s).0.world.db
    go (rows b) e =
        rw (unsettled_read, e)
          (current-IsConsistent deps d.decision_id _
            (mark_decision_expiry_check-IsConsistent d.decision_id s.world.db c))
    go (throws x) e = rw (unsettled_read, e) c

act_on-IsConsistent :
    (deps : ReconcileDeps) (d : Decision) (r : ReadStatus) (s : ReconcileState)
    → IsConsistent s.world.db
    → IsConsistent (act_on deps d r s).0.world.db
unfolding act_on
act_on-IsConsistent deps d (read_settled tx deploy) s c =
    settle_read-IsConsistent deps d tx deploy s c
act_on-IsConsistent deps d read_pending s c = unsettled_read-IsConsistent deps d s c
act_on-IsConsistent deps d read_ambiguous s c = unsettled_read-IsConsistent deps d s c
act_on-IsConsistent deps d read_failed s c =
    terminal_read-IsConsistent deps d failed_terminal s refl c
act_on-IsConsistent deps d read_expired s c = terminal_read-IsConsistent deps d expired s refl c

reconcile_open-IsConsistent :
    (deps : ReconcileDeps) (d : Decision) (s : ReconcileState)
    → IsConsistent s.world.db
    → IsConsistent (reconcile_open deps d s).0.world.db
unfolding reconcile_open
reconcile_open-IsConsistent deps d s c =
    elim (Bool-cases (not (is_allow d.outcome) || not (is_some d.signed_header_hash))) [
      | inl refuses ↦ rw (reconcile_open, refuses) c
      | inr goes_on ↦ elim (Option-cases (deps.read d)) [
        | inl threw ↦ rw (reconcile_open, goes_on, threw) c
        | inr (r, e) ↦ elim (Option-cases (append_attempt d s)) [
          | inl conflict ↦ rw (reconcile_open, goes_on, e, conflict) c
          | inr (s', appended) ↦
              rw (reconcile_open, goes_on, e, appended)
                (act_on-IsConsistent deps d r s'
                  (subst (λ w. IsConsistent w.db) (sym (append_attempt-world d s s' appended)) c))
        ]
      ]
    ]

-- A reconciliation keeps the tables consistent, whatever it reads and however it ends: a hold is
-- settled only with a settled decision and released only with a failed or expired one.
pub reconcile_decision-IsConsistent :
    (deps : ReconcileDeps) (id agent : ℕ) (s : ReconcileState)
    → IsConsistent s.world.db
    → IsConsistent (reconcile_decision deps id agent s).0.world.db
unfolding reconcile_decision reconcile_found
reconcile_decision-IsConsistent deps id agent s c = elim (Option-cases (s.world.db.decision id)) [
  | inl missing ↦ rw (reconcile_decision, missing) c
  | inr (d, e) ↦ elim (Bool-cases (d.agent_id =? agent)) [
    | inr stranger ↦ rw (reconcile_decision, e, reconcile_found, stranger) c
    | inl own ↦ elim (Bool-cases (includes (settled ∷ []) d.status)) [
      | inl done ↦
          rw (reconcile_decision, e, reconcile_found, own, done)
            (repair_and_finish-IsConsistent deps d s c d
              (ap s.world.db.decision (own_id s.world.db id d c e) ∙ e)
              (settled_status d.status done))
      | inr live ↦ elim (Bool-cases (includes (expired ∷ failed_terminal ∷ denied ∷ []) d.status)) [
        | inl over ↦ rw (reconcile_decision, e, reconcile_found, own, live, over) c
        | inr going ↦
            rw (reconcile_decision, e, reconcile_found, own, live, going)
              (reconcile_open-IsConsistent deps d s c)
      ]
    ]
  ]
]
