-- ===== src/Guard/Authorize/Replay.antt =====
-- Repeated calls of `authorizeCasperGuardIntent` with one idempotency key.
use mathlib.Core.Path.{fun_ext}
use casper_agops_server.Prelude.{
  ℕ, none, some, ◌≡◌, inl, inr, arith, nat_eq, string_eq, update, ◌∙◌, ap, Option-cases, =?_refl,
}
use casper_agops_server.Guard.Store.{
  Db, Decision, Signature, sign_row, read_decision_by_idempotency,
}
use casper_agops_server.Guard.Store.Rows.{with_decision}
use casper_agops_server.Guard.Authorize.Ends.{IsAlone}
use casper_agops_server.Guard.Authorize.Undone.{authorize_intent-free}
use casper_agops_server.Guard.Authorize.{
  World, Params, Env, authorize_result_from_existing, answer_locked, reserved_row, hold_row,
  authorize_locked, authorize_intent, release_idempotency_lock, set_lock, fingerprint_of,
}

relocked :
    (p : Params) (lock : ℕ × ℕ) (w : World)
    → w.locks p.org_id p.idempotency_key ≡ none
    → set_lock p none (set_lock p (some lock) w) ≡ w
unfolding set_lock
relocked p lock w free =
    ap (λ l. record w { locks = l }) (fun_ext (λ o. fun_ext (λ k. ground (arith, free))))

held_by_us :
    (p : Params) (fingerprint : ℕ) (w : World)
    → release_idempotency_lock p (set_lock p (some (p.decision_id, fingerprint)) w)
      ≡ set_lock p none (set_lock p (some (p.decision_id, fingerprint)) w)
unfolding release_idempotency_lock set_lock
held_by_us p fingerprint w =
    ground (arith, =?_refl p.org_id, =?_refl p.idempotency_key, =?_refl p.decision_id)

-- Taking a free lock and releasing it gives back the world.
relock :
    (p : Params) (fingerprint : ℕ) (w : World)
    → w.locks p.org_id p.idempotency_key ≡ none
    → release_idempotency_lock p (set_lock p (some (p.decision_id, fingerprint)) w) ≡ w
unfolding release_idempotency_lock set_lock
relock p fingerprint w free =
    held_by_us p fingerprint w ∙ relocked p (p.decision_id, fingerprint) w free

authorize_locked-stored :
    (env : Env) (p : Params) (w : World) (d : Decision)
    → read_decision_by_idempotency w.db p.org_id p.idempotency_key ≡ some d
    → authorize_locked env p w ≡ (w, authorize_result_from_existing w.db d p)
unfolding authorize_locked
authorize_locked-stored env p w d found = ground (arith, found)

-- While a row with the key is stored, a call that runs alone answers from that row and changes
-- nothing: no hold, no row, no signature; also when another request holds the lock.
pub authorize_intent-replays :
    (env : Env) (p : Params) (w : World) (d : Decision)
    → IsAlone env
    → read_decision_by_idempotency w.db p.org_id p.idempotency_key ≡ some d
    → authorize_intent env p w ≡ (w, authorize_result_from_existing w.db d p)
unfolding authorize_intent answer_locked set_lock
authorize_intent-replays env p w d alone found =
    elim (Option-cases (w.locks p.org_id p.idempotency_key)) [
      | inr (lock, e) ↦ ground (arith, e, found)
      | inl free ↦
          let taken = set_lock p (some (p.decision_id, fingerprint_of env p)) w in
          authorize_intent-free env p alone w free
          ∙ rw (authorize_locked-stored env p taken d found) (
              ap (λ v. (v, authorize_result_from_existing w.db d p))
                (relock p (fingerprint_of env p) w free))
    ]

-- The tables after the insert of the request's row, and after its signing.
abbrev with_hold : Env → Params → Db → Db
with_hold env p db = record (with_decision (reserved_row env p) db) {
  hold = update db.hold p.decision_id (some (hold_row p));
}

abbrev with_signature : Env → Params → Signature → Db → Db
with_signature env p s db = record (with_hold env p db) {
  decision =
      update (with_hold env p db).decision p.decision_id (some (sign_row s (reserved_row env p)));
}
