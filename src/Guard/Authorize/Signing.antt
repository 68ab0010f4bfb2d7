-- ===== src/Guard/Authorize/Signing.antt =====
-- When `authorizeCasperGuardIntent` calls the signer, whatever other requests do in between.
use casper_agops_server.Prelude.{
  ℕ, Bool, true, false, some, ◌≡◌, ◌≢◌, ◌⊎◌, refl, inl, inr, arith, includes, nat_eq, update,
}
use casper_agops_server.Guard.Intent.{kind, evm_transfer}
use casper_agops_server.Guard.Evaluate.{
  Verdict, permit, refuse, quoter_failed, evaluate_policy, DenyReason,
}
use casper_agops_server.Guard.Evaluate.Laws.{IsPermitted, evaluate_policy_iff}
use casper_agops_server.Guard.Store.{
  Written, rows, throws, row_check, insert_decision, create_decision_and_hold,
  mark_decision_terminal, failed_terminal,
}
use casper_agops_server.Ledger.Hot.{reserve_hold_within_policy}
use casper_agops_server.Guard.Authorize.{
  World, Params, Env, Stage, row_inserted, hold_reserved, evaluated, lock_taken, release_hot, threw,
  fail_reserved_decision, fail_and_throw, fail_and_refuse, check_org, replay_or_throw, persist_hold,
  persist_deny, reserve, reserve_params, reserved_row, hold_row, decide, authorize_locked,
  authorize_intent, release_idempotency_lock, set_lock, fingerprint_of,
}

-- The signer was called for the request's decision.
abbrev pub is_signed : Params → World → Bool
is_signed p w = includes w.signatures p.decision_id

-- Other requests do not sign for this decision.
abbrev pub IsQuiet : Env → Params → Type 0
IsQuiet env p = (s : Stage) (w : World) → is_signed p (env.others s w) ≡ is_signed p w

fail_reserved-signatures :
    (agent id : ℕ) (w : World) → (fail_reserved_decision agent id w).0.signatures ≡ w.signatures
unfolding fail_reserved_decision
fail_reserved-signatures agent id w = go (mark_decision_terminal id failed_terminal w.db).1 refl
  where
    go :
        (x : Written)
        → (mark_decision_terminal id failed_terminal w.db).1 ≡ x
        → (fail_reserved_decision agent id w).0.signatures ≡ w.signatures
    go (rows true) e = ground (arith, e)
    go (rows false) e = ground (arith, e)
    go (throws x) e = ground (arith, e)

module _ (p : Params) (w : World) where
  fail_and_throw-signatures : (fail_and_throw p w).0.signatures ≡ w.signatures
  unfolding fail_and_throw
  fail_and_throw-signatures = fail_reserved-signatures p.agent_id p.decision_id w

  persist_deny-signatures : (r : DenyReason) → (persist_deny p r w).0.signatures ≡ w.signatures
  unfolding persist_deny
  persist_deny-signatures r = ground arith

  replay_or_throw-signatures : (replay_or_throw p w).0.signatures ≡ w.signatures
  unfolding replay_or_throw
  replay_or_throw-signatures = ground arith

  lock-signatures : (release_idempotency_lock p w).signatures ≡ w.signatures
  unfolding release_idempotency_lock set_lock
  lock-signatures = ground arith

fail_and_refuse-signatures :
    (p : Params) (r : DenyReason) (w : World) → (fail_and_refuse p r w).0.signatures ≡ w.signatures
unfolding fail_and_refuse
fail_and_refuse-signatures p r w = ground (
  arith,
  fail_reserved-signatures p.agent_id p.decision_id w,
  fail_and_throw-signatures p (fail_reserved_decision p.agent_id p.decision_id w).0,
)

module _ (env : Env) (p : Params) (quiet : IsQuiet env p) where
  -- The request does not reach the signer after the insert of its row.
  abbrev pub IsBlocked : Type 0
  IsBlocked =
      (row_check (reserved_row env p) ≡ false)
      ⊎ ((w : World) → (env.others row_inserted w).deny_all p.org_id ≡ true)

  check_org-blocked :
      (w : World) → w.deny_all p.org_id ≡ true → is_signed p (check_org env p w).0 ≡ is_signed p w
  unfolding check_org
  check_org-blocked w d = ground (arith, d, fail_and_refuse-signatures p DenyReason.org_suspended w)

  -- A row that fails the CHECKs is not written.
  persist_hold-unchecked :
      (w : World)
      → row_check (reserved_row env p) ≡ false
      → persist_hold env p w ≡ (release_hot p.agent_id p.decision_id w, threw)
  unfolding persist_hold create_decision_and_hold insert_decision
  persist_hold-unchecked w unchecked = ground (arith, unchecked)

  persist_hold-stopped :
      (w : World)
      → ((v : World) → (env.others row_inserted v).deny_all p.org_id ≡ true)
      → is_signed p (persist_hold env p w).0 ≡ is_signed p w
  unfolding persist_hold
  persist_hold-stopped w stopped =
      let made = record w {
        db = (create_decision_and_hold (reserved_row env p) (hold_row p) w.db).0;
      } in
      ground (
        arith,
        replay_or_throw-signatures p (release_hot p.agent_id p.decision_id w),
        check_org-blocked (env.others row_inserted made) (stopped made),
        quiet row_inserted made,
      )

  persist_hold-blocked :
      (w : World) → IsBlocked → is_signed p (persist_hold env p w).0 ≡ is_signed p w
  persist_hold-blocked w (inl unchecked) = rw (persist_hold-unchecked w unchecked) refl
  persist_hold-blocked w (inr stopped) = persist_hold-stopped w stopped

  reserve-blocked : (w : World) → IsBlocked → is_signed p (reserve env p w).0 ≡ is_signed p w
  unfolding reserve
  reserve-blocked w b =
      let held = record w {
        hot =
            update w.hot p.agent_id
              (reserve_hold_within_policy (reserve_params p) (w.hot p.agent_id)).0;
      } in
      ground (
        arith,
        persist_hold-blocked (env.others hold_reserved held) b,
        quiet hold_reserved held,
        persist_deny-signatures p held DenyReason.spend_cap_exceeded,
        persist_deny-signatures p held DenyReason.velocity_exceeded,
        persist_deny-signatures p held DenyReason.insufficient_float,
      )

  decide-blocked :
      (w : World)
      → IsBlocked ⊎ (evaluate_policy (w.deny_all p.org_id) env.quoter p.policy p.intent ≢ permit)
      → is_signed p (decide env p w).0 ≡ is_signed p w
  unfolding decide
  decide-blocked w b =
      go (evaluate_policy (w.deny_all p.org_id) env.quoter p.policy p.intent) refl b
    where
      go :
          (v : Verdict)
          → evaluate_policy (w.deny_all p.org_id) env.quoter p.policy p.intent ≡ v
          → IsBlocked
            ⊎ (evaluate_policy (w.deny_all p.org_id) env.quoter p.policy p.intent ≢ permit)
          → is_signed p (decide env p w).0 ≡ is_signed p w
      go permit e (inl b) =
          ground (arith, e, reserve-blocked (env.others evaluated w) b, quiet evaluated w)
      go permit e (inr n) = absurd (n e)
      go (refuse r) e _ = ground (arith, e, persist_deny-signatures p w r)
      go quoter_failed e _ = ground (arith, e)

  authorize_locked-blocked :
      (w : World)
      → IsBlocked ⊎ (evaluate_policy (w.deny_all p.org_id) env.quoter p.policy p.intent ≢ permit)
      → is_signed p (authorize_locked env p w).0 ≡ is_signed p w
  unfolding authorize_locked
  authorize_locked-blocked w b = ground (arith, decide-blocked w b)

permit-cases : (v : Verdict) → (v ≡ permit) ⊎ (v ≢ permit)
permit-cases permit = inl refl
permit-cases quoter_failed = inr (λ e. cc)
permit-cases (refuse r) = inr (λ e. cc)

transfer_unchecked :
    (env : Env) (p : Params) → kind p.intent ≡ evm_transfer → row_check (reserved_row env p) ≡ false
unfolding row_check
transfer_unchecked env p e = ground (arith, e)

-- The world in which the request evaluates its policy: its lock is taken, and others have run.
abbrev pub locked : Env → Params → World → World
locked env p w = env.others lock_taken (set_lock p (some (p.decision_id, fingerprint_of env p)) w)

authorize_intent-blocked :
    (env : Env) (p : Params) (w : World)
    → (quiet : IsQuiet env p)
    → IsBlocked env p quiet
      ⊎ (evaluate_policy ((locked env p w).deny_all p.org_id) env.quoter p.policy p.intent ≢ permit)
    → is_signed p (authorize_intent env p w).0 ≡ is_signed p w
unfolding authorize_intent set_lock
authorize_intent-blocked env p w quiet b =
    let taken = set_lock p (some (p.decision_id, fingerprint_of env p)) w in
    ground (
      arith,
      authorize_locked-blocked env p quiet (locked env p w) b,
      quiet lock_taken taken,
      lock-signatures p (authorize_locked env p (locked env p w)).0,
    )

-- The signer is called only for an intent that the policy permits in an org that is not suspended,
-- and never for an EVM transfer, whatever other requests do at the awaits: if they do not sign for
-- the same decision, and it was not signed before the call and is after it, then the intent has
-- every permission that the policy evaluation asks for.
pub signature-IsPermitted :
    (env : Env) (p : Params) (w : World)
    → IsQuiet env p
    → is_signed p w ≡ false
    → is_signed p (authorize_intent env p w).0 ≡ true
    → IsPermitted ((locked env p w).deny_all p.org_id) env.quoter p.policy p.intent
      × (kind p.intent ≢ evm_transfer)
signature-IsPermitted env p w quiet before signed_after = (
  elim (permit-cases
      (evaluate_policy ((locked env p w).deny_all p.org_id) env.quoter p.policy p.intent)) [
        | inl e ↦
            (evaluate_policy_iff ((locked env p w).deny_all p.org_id) env.quoter p.policy
                p.intent).0
              e
        | inr n ↦ absurd (cc (authorize_intent-blocked env p w quiet (inr n), before, signed_after))
      ],
  λ is_transfer. absurd (
      cc (
        authorize_intent-blocked env p w quiet (inl (inl (transfer_unchecked env p is_transfer))),
        before,
        signed_after,
      )),
)

-- If the org's kill switch is on once the request has inserted its row, the signer is not called,
-- whatever state the request started from.
pub deny_all-blocks_signer :
    (env : Env) (p : Params) (w : World)
    → IsQuiet env p
    → ((v : World) → (env.others row_inserted v).deny_all p.org_id ≡ true)
    → is_signed p (authorize_intent env p w).0 ≡ is_signed p w
deny_all-blocks_signer env p w quiet stopped =
    authorize_intent-blocked env p w quiet (inl (inr stopped))
