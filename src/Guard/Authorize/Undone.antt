-- ===== src/Guard/Authorize/Undone.antt =====
-- What `authorizeCasperGuardIntent` leaves when no other request runs in between: a hold and a
-- signature, or nothing in the agent's hot keys.
use casper_agops_server.Prelude.{
  ℕ, true, Option, none, some, ◌≡◌, ◌≢◌, refl, inl, inr, arith, nat_eq, update, Option-cases, ◌∷◌,
}
use casper_agops_server.Guard.Intent.{amount}
use casper_agops_server.Guard.Evaluate.{
  Verdict, permit, refuse, quoter_failed, evaluate_policy, DenyReason,
}
use casper_agops_server.Guard.Store.{
  Db, status_eq, rows, create_decision_and_hold, Signature, mark_decision_signed,
  read_decision_by_idempotency,
}
use casper_agops_server.Guard.Authorize.Ends.{
  IsAlone, IsReserved, Persisted, refuses, signed_row, persist_hold-Persisted,
}
use casper_agops_server.Ledger.Hot.{PolicyReserve, write_hold, reserve_hold_within_policy}
use casper_agops_server.Ledger.Hot.Invariant.{IsValid}
use casper_agops_server.Ledger.Hot.Reserve.{
  IsAdmissible, is_reserved, reserve-writes, reserve-refuses, reserved→IsAdmissible,
}
use casper_agops_server.Ledger.Hot.Resolve.{release-write_hold}
use casper_agops_server.Guard.Authorize.{
  signed_answer, World, Params, Result, Env, hold_reserved, evaluated, lock_taken, persist_hold,
  persist_deny, reserve, reserve_params, reserved_row, hold_row, decide, authorize_locked,
  authorize_intent, release_idempotency_lock, set_lock, fingerprint_of,
}

module _ (env : Env) (p : Params) (alone : IsAlone env) where
  -- What a whole call leaves in the agent's hot keys and in the tables.
  pub data Left (w : World) (out : World × Result) : Type 0 where
    nothing : out.0.hot p.agent_id ≡ w.hot p.agent_id → Left w out
    signature :
        (s : Signature) (db : Db)
        → IsAdmissible (reserve_params p) (w.hot p.agent_id)
        → create_decision_and_hold (reserved_row env p) (hold_row p) w.db ≡ (db, rows true)
        → IsReserved p db
        → out.0.hot p.agent_id ≡ write_hold p.decision_id (amount p.intent) p.now (w.hot p.agent_id)
        → out.0.db ≡ (mark_decision_signed p.decision_id s db).0
        → out.0.signatures ≡ p.decision_id ∷ w.signatures
        → out.1 ≡ signed_answer p s
        → Left w out

  persist_deny-hot : (r : DenyReason) (w : World) → (persist_deny p r w).0.hot ≡ w.hot
  unfolding persist_deny
  persist_deny-hot r w = ground arith

  reserve-refused :
      (w : World)
      → (reserve_hold_within_policy (reserve_params p) (w.hot p.agent_id)).1
        ≢ PolicyReserve.reserved
      → (reserve env p w).0.hot p.agent_id ≡ w.hot p.agent_id
  unfolding reserve
  reserve-refused w n =
      let same = reserve-refuses (reserve_params p) (w.hot p.agent_id) n in
      let h = record w {
        hot =
            update w.hot p.agent_id
              (reserve_hold_within_policy (reserve_params p) (w.hot p.agent_id)).0;
      } in
      ground (
        arith,
        n,
        same,
        persist_deny-hot DenyReason.spend_cap_exceeded h,
        persist_deny-hot DenyReason.velocity_exceeded h,
        persist_deny-hot DenyReason.insufficient_float h,
      )

  reserve-reserved :
      (w : World)
      → (reserve_hold_within_policy (reserve_params p) (w.hot p.agent_id)).1
        ≡ PolicyReserve.reserved
      → reserve env p w
        ≡ persist_hold env p (record w {
          hot =
              update w.hot p.agent_id
                (write_hold p.decision_id (amount p.intent) p.now (w.hot p.agent_id));
        })
  unfolding reserve
  reserve-reserved w e =
      let h = record w {
        hot =
            update w.hot p.agent_id
              (write_hold p.decision_id (amount p.intent) p.now (w.hot p.agent_id));
      } in
      ground
        (arith, e, alone hold_reserved h, reserve-writes (reserve_params p) (w.hot p.agent_id) e)

  left :
      (w : World)
      → IsValid (w.hot p.agent_id)
      → IsAdmissible (reserve_params p) (w.hot p.agent_id)
      → (out : World × Result)
      → Persisted env p alone
          (record w {
            hot =
                update w.hot p.agent_id
                  (write_hold p.decision_id (amount p.intent) p.now (w.hot p.agent_id));
          })
          out
      → Left w out
  left w v a out (refuses e) = nothing (
      ground (
        arith,
        e,
        release-write_hold p.decision_id (amount p.intent) p.now (w.hot p.agent_id) v a.fresh,
      ))
  left w v a out (signed_row s db made r e) =
      signature s db a made r (ground (arith, e)) (ground (arith, e)) (ground (arith, e))
        (ground (arith, e))

  reserve-Left : (w : World) → IsValid (w.hot p.agent_id) → Left w (reserve env p w)
  reserve-Left w v = elim (is_reserved (reserve_params p) (w.hot p.agent_id)) [
    | inr n ↦ nothing (reserve-refused w n)
    | inl e ↦ rw (reserve-reserved w e) (
        left w v (reserved→IsAdmissible (reserve_params p) (w.hot p.agent_id) e) _ (
          persist_hold-Persisted env p alone (record w {
            hot =
                update w.hot p.agent_id
                  (write_hold p.decision_id (amount p.intent) p.now (w.hot p.agent_id));
          })))
  ]

  decide-permits :
      (w : World)
      → evaluate_policy (w.deny_all p.org_id) env.quoter p.policy p.intent ≡ permit
      → decide env p w ≡ reserve env p w
  unfolding decide
  decide-permits w e = ground (arith, e, alone evaluated w)

  pub authorize_locked-fresh :
      (w : World)
      → read_decision_by_idempotency w.db p.org_id p.idempotency_key ≡ none
      → authorize_locked env p w ≡ decide env p w
  unfolding authorize_locked
  authorize_locked-fresh w e = ground (arith, e)

  pub authorize_intent-free :
      (w : World)
      → w.locks p.org_id p.idempotency_key ≡ none
      → let taken = set_lock p (some (p.decision_id, fingerprint_of env p)) w in
        authorize_intent env p w ≡ (
          release_idempotency_lock p (authorize_locked env p taken).0,
          (authorize_locked env p taken).1,
        )
  unfolding authorize_intent
  authorize_intent-free w e =
      ground
        (arith, e, alone lock_taken (set_lock p (some (p.decision_id, fingerprint_of env p)) w))

  decide-Left : (w : World) → IsValid (w.hot p.agent_id) → Left w (decide env p w)
  unfolding decide
  decide-Left w v = go (evaluate_policy (w.deny_all p.org_id) env.quoter p.policy p.intent) refl
    where
      go :
          (x : Verdict)
          → evaluate_policy (w.deny_all p.org_id) env.quoter p.policy p.intent ≡ x
          → Left w (decide env p w)
      go permit e = rw (decide-permits w e) (reserve-Left w v)
      go quoter_failed e = nothing (ground (arith, e))
      go (refuse r) e = nothing (ground (arith, e, persist_deny-hot r w))

  authorize_locked-Left :
      (w : World) → IsValid (w.hot p.agent_id) → Left w (authorize_locked env p w)
  unfolding authorize_locked
  authorize_locked-Left w v =
      elim (Option-cases (read_decision_by_idempotency w.db p.org_id p.idempotency_key)) [
        | inl fresh ↦ rw (authorize_locked-fresh w fresh) (decide-Left w v)
        | inr (d, e) ↦ nothing (ground (arith, e))
      ]

  -- Taking and releasing the lock changes nothing else.
  unlocked :
      (w : World) (lock : Option (ℕ × ℕ)) (out : World × Result)
      → Left (set_lock p lock w) out
      → Left w (release_idempotency_lock p out.0, out.1)
  unfolding set_lock release_idempotency_lock
  unlocked w lock out (nothing e) = nothing (ground (arith, e))
  unlocked w lock out (signature s db a made r e f g k) =
      signature s db a made r (ground (arith, e)) (ground (arith, f)) (ground (arith, g)) k

set_lock-hot : (p : Params) (lock : Option (ℕ × ℕ)) (w : World) → (set_lock p lock w).hot ≡ w.hot
unfolding set_lock
set_lock-hot p lock w = refl

-- A call that runs alone, on valid hot keys, leaves one of two things. Either the agent's windows,
-- counters and holds are exactly what they were, also after a signer that throws; or the reserve was
-- admissible, the decision and its hold were inserted and then marked as signed, the hot keys have
-- that one more hold, and the answer is an ALLOW of this decision.
pub authorize_intent-Left :
    (env : Env) (p : Params) (alone : IsAlone env) (w : World)
    → IsValid (w.hot p.agent_id)
    → Left env p alone w (authorize_intent env p w)
unfolding authorize_intent
authorize_intent-Left env p alone w v = elim (Option-cases (w.locks p.org_id p.idempotency_key)) [
  | inr (lock, e) ↦ nothing (ground (arith, e))
  | inl free ↦
      let taken = set_lock p (some (p.decision_id, fingerprint_of env p)) w in
      rw (authorize_intent-free env p alone w free) (
        unlocked env p alone w (some (p.decision_id, fingerprint_of env p))
          (authorize_locked env p taken)
          (authorize_locked-Left env p alone taken
            (rw (set_lock-hot p (some (p.decision_id, fingerprint_of env p)) w) v)))
]
