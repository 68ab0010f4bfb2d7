-- ===== src/Guard/Authorize/Ends.antt =====
-- How `authorizeCasperGuardIntent` ends after its reserve, when no other request runs in between.
use casper_agops_server.Prelude.{
  ℕ, Bool, true, false, Option, some, ◌≡◌, refl, inl, inr, arith, nat_eq, update, Bool-cases,
  Option-cases, ◌∷◌,
}
use casper_agops_server.Guard.Evaluate.{DenyReason}
use casper_agops_server.Guard.Store.{
  Db, reserved, held, allows, HoldRow, Decision, status_eq, rows, throws, unique_violation,
  check_violation, foreign_key_violation, row_check, create_decision_and_hold, Signature, sign_row,
  mark_decision_terminal, mark_decision_signed, failed_terminal, is_agent_suspended,
  update_decision, update_found,
}
use casper_agops_server.Guard.Store.Rows.{with_decision}
use casper_agops_server.Guard.Store.Writes.{create_decision_and_hold_cases}
use casper_agops_server.Guard.Store.{DbError}
use casper_agops_server.Ledger.Hot as HotKeys
use casper_agops_server.Ledger.Hot.{Hot, PolicyReserve, write_hold, reserve_hold_within_policy}
use casper_agops_server.Guard.Authorize.{
  World, Params, Result, signed_answer, allowed, refused, threw, Env, Stage, row_inserted,
  org_checked, agent_checked, signer_done, release_hot, fail_reserved_decision, fail_and_throw,
  fail_and_refuse, mark_signed, call_signer, check_agent, check_org, replay_or_throw, persist_hold,
  reserved_row, hold_row,
}

abbrev pub is_allowed : Result → Bool
is_allowed (allowed id hold hash headers tx deploy) = true
is_allowed (refused id r) = false
is_allowed threw = false

-- No other request runs at an await.
abbrev pub IsAlone : Env → Type 0
IsAlone env = (s : Stage) (w : World) → env.others s w ≡ w

-- The request's row is reserved, with a held hold.
pub record IsReserved (p : Params) (db : Db) : Type 0 where
  pub d : Decision
  pub h : HoldRow
  pub found : db.decision p.decision_id ≡ some d
  pub hold_found : db.hold p.decision_id ≡ some h
  pub status : d.status ≡ reserved
  pub outcome : d.outcome ≡ allows
  pub is_open : h.status ≡ held
  pub checked : row_check d ≡ true

module _ (d : Decision) (checked : row_check d ≡ true) (is_reserved : d.status ≡ reserved)
    (allow : d.outcome ≡ allows) where
  terminal-checked : row_check (record d { status = failed_terminal }) ≡ true
  unfolding row_check
  terminal-checked = ground (arith, checked, is_reserved, allow)

  sign_row-checked : (s : Signature) → row_check (sign_row s d) ≡ true
  unfolding row_check
  sign_row-checked s = ground (arith, checked, is_reserved, allow)

pub accepted :
    (guard : Decision → Bool) (change : Decision → Decision) (id : ℕ) (db : Db) (d : Decision)
    → guard d ≡ true
    → row_check (change d) ≡ true
    → (x : Option Decision) → x ≡ some d
    → update_found guard change id x db
      ≡ (record db { decision = update db.decision id (some (change d)) }, rows true)
unfolding update_found
accepted guard change id db d g c x e = rw (e, g, c) refl

module _ (p : Params) (w : World) (r : IsReserved p w.db) where
  terminal-accepted : mark_decision_terminal p.decision_id failed_terminal w.db ≡ (
    record w.db {
      decision =
          update w.db.decision p.decision_id (some (record r.d { status = failed_terminal }));
    },
    rows true,
  )
  unfolding mark_decision_terminal update_decision
  terminal-accepted =
      accepted _ _ p.decision_id w.db r.d (ground (arith, r.status))
        (terminal-checked r.d r.checked r.status r.outcome) (w.db.decision p.decision_id) r.found

  pub signed-accepted :
      (s : Signature)
      → mark_decision_signed p.decision_id s w.db ≡ (
        record w.db { decision = update w.db.decision p.decision_id (some (sign_row s r.d)) },
        rows true,
      )
  unfolding mark_decision_signed update_decision
  signed-accepted s =
      accepted _ _ p.decision_id w.db r.d
        (ground (arith, r.status, r.outcome, r.hold_found, r.is_open))
        (sign_row-checked r.d r.checked r.status r.outcome s) (w.db.decision p.decision_id) r.found

  fail_reserved-undone :
      ((fail_reserved_decision p.agent_id p.decision_id w).0.hot p.agent_id
        ≡ (HotKeys.release_hold p.decision_id (w.hot p.agent_id)).0)
      × ((fail_reserved_decision p.agent_id p.decision_id w).1 ≡ true)
  unfolding fail_reserved_decision
  fail_reserved-undone = ground (arith, terminal-accepted)

-- How the part of the call after a reserve ends: the agent's hold is taken back, or the row is
-- signed.
pub data End (p : Params) (w : World) (out : World × Result) : Type 0 where
  gives_back :
      is_allowed out.1 ≡ false
      → out.0.hot p.agent_id ≡ (HotKeys.release_hold p.decision_id (w.hot p.agent_id)).0
      → End p w out
  signs :
      (s : Signature)
      → out ≡ (
        record w {
          db = (mark_decision_signed p.decision_id s w.db).0;
          signatures = p.decision_id ∷ w.signatures;
        },
        signed_answer p s,
      )
      → (mark_decision_signed p.decision_id s w.db).1 ≡ rows true
      → End p w out

module _ (env : Env) (p : Params) (alone : IsAlone env) where
  call_signer-End : (w : World) → IsReserved p w.db → End p w (call_signer env p w)
  unfolding call_signer mark_signed fail_and_throw
  call_signer-End w r =
      let called = record w { signatures = p.decision_id ∷ w.signatures } in
      elim (Option-cases (env.sign p.decision_id p.intent p.agent_id)) [
        | inl failed ↦
            gives_back (ground (arith, failed)) (
              ground (arith, failed, alone signer_done called, (fail_reserved-undone p called r).0))
        | inr (s, e) ↦
            signs s (ground (arith, e, alone signer_done called, signed-accepted p called r s))
              (ground (arith, signed-accepted p w r s))
      ]

  fail_and_refuse-End :
      (w : World) (x : DenyReason) → IsReserved p w.db → End p w (fail_and_refuse p x w)
  unfolding fail_and_refuse
  fail_and_refuse-End w x r =
      gives_back (ground (arith, fail_reserved-undone p w r))
        (ground (arith, fail_reserved-undone p w r))

  check_org-End : (w : World) → IsReserved p w.db → End p w (check_org env p w)
  unfolding check_org check_agent
  check_org-End w r = elim (Bool-cases (w.deny_all p.org_id)) [
    | inl stopped ↦ rw stopped (fail_and_refuse-End w DenyReason.org_suspended r)
    | inr runs ↦
        rw (runs, alone org_checked w)
          (elim (Bool-cases (is_agent_suspended w.db p.agent_id p.org_id)) [
            | inl suspended ↦ rw suspended (fail_and_refuse-End w DenyReason.agent_suspended r)
            | inr active ↦ rw (active, alone agent_checked w) (call_signer-End w r)
          ])
  ]

  unfoldable pub inserted :
      (db : Db)
      → row_check (reserved_row env p) ≡ true
      → IsReserved p (record (with_decision (reserved_row env p) db) {
        hold = update db.hold p.decision_id (some (hold_row p));
      })
  inserted db c = record {
    d = reserved_row env p;
    h = hold_row p;
    found = ground arith;
    hold_found = ground arith;
    status = refl;
    outcome = refl;
    is_open = refl;
    checked = c;
  }

  -- How the part of the call from the insert of the row ends.
  pub data Persisted (w : World) (out : World × Result) : Type 0 where
    refuses :
        out.0.hot p.agent_id ≡ (HotKeys.release_hold p.decision_id (w.hot p.agent_id)).0
        → Persisted w out
    signed_row :
        (s : Signature) (db : Db)
        → create_decision_and_hold (reserved_row env p) (hold_row p) w.db ≡ (db, rows true)
        → IsReserved p db
        → out ≡ (
          record w {
            db = (mark_decision_signed p.decision_id s db).0;
            signatures = p.decision_id ∷ w.signatures;
          },
          signed_answer p s,
        )
        → Persisted w out

  replay_or_throw-hot : (w : World) → (replay_or_throw p w).0 ≡ w
  unfolding replay_or_throw
  replay_or_throw-hot w = ground arith

  persist_hold-thrown :
      (w : World) (e : DbError)
      → create_decision_and_hold (reserved_row env p) (hold_row p) w.db ≡ (w.db, throws e)
      → (persist_hold env p w).0 ≡ release_hot p.agent_id p.decision_id w
  unfolding persist_hold
  persist_hold-thrown w unique_violation e =
      ground (arith, e, replay_or_throw-hot (release_hot p.agent_id p.decision_id w))
  persist_hold-thrown w check_violation e = ground (arith, e)
  persist_hold-thrown w foreign_key_violation e = ground (arith, e)

  persist_hold-inserted :
      (w : World) (db : Db)
      → create_decision_and_hold (reserved_row env p) (hold_row p) w.db ≡ (db, rows true)
      → persist_hold env p w ≡ check_org env p (record w { db = db })
  unfolding persist_hold
  persist_hold-inserted w db e = ground (arith, e, alone row_inserted (record w { db = db }))

  persisted :
      (w : World) (db : Db)
      → create_decision_and_hold (reserved_row env p) (hold_row p) w.db ≡ (db, rows true)
      → IsReserved p db
      → End p (record w { db = db }) (check_org env p (record w { db = db }))
      → Persisted w (check_org env p (record w { db = db }))
  persisted w db e r (gives_back a b) = refuses b
  persisted w db e r (signs s f g) = signed_row s db e r f

  pub persist_hold-Persisted : (w : World) → Persisted w (persist_hold env p w)
  persist_hold-Persisted w =
      elim (create_decision_and_hold_cases (reserved_row env p) (hold_row p) w.db) [
        | inl (e, failed) ↦ refuses (ground (arith, persist_hold-thrown w e failed))
        | inr (checked, fresh, new, done) ↦
            let db = (create_decision_and_hold (reserved_row env p) (hold_row p) w.db).0 in
            let r : IsReserved p db = rw done (inserted w.db checked) in
            rw (persist_hold-inserted w db (rw done refl))
              (persisted w db (rw done refl) r (check_org-End (record w { db = db }) r))
      ]
