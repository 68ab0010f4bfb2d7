-- ===== src/Guard/Store/Writes.antt =====
-- Each write of casper-guard/store.ts keeps the tables consistent.
use casper_agops_server.Prelude.{
  ℕ, true, Option, none, some, [], ◌∷◌, ◌≡◌, ◌⊎◌, refl, inl, inr, arith, nat_eq, includes, update,
  Bool-cases, ltb, is_some, ◌||◌, ◌&&◌,
}
use casper_agops_server.Guard.Store.{
  DbError, unique_violation, check_violation, foreign_key_violation, has_hold, DecisionStatus,
  settled, denied, failed_terminal, expired, read_decision_by_idempotency, HoldStatus, held,
  settled_hold, released, Decision, HoldRow, Db, rows, throws, row_check, is_held, status_eq,
  insert_decision, insert_hold, create_decision_and_hold, resolve_found, settle_hold, release_hold,
  Signature, mark_decision_signed, mark_decision_terminal, mark_decision_expiry_check,
  mark_decision_settled, mark_decision_settled_by_user,
}
use casper_agops_server.Guard.Store.Rows.{
  agrees, IsConsistent, update_decision-IsConsistent, with_decision, insert_decision_cases,
  inserted_unique, with_decision-rows_ok, with_decision-listed,
}

-- `persistDeny` inserts a denial, which has no hold.
pub insert_decision-IsConsistent :
    (d : Decision) (db : Db)
    → d.status ≡ denied
    → IsConsistent db
    → IsConsistent (insert_decision d db).0
insert_decision-IsConsistent d db is_denied c = elim (insert_decision_cases d db) [
  | inl (e, same) ↦ rw same c
  | inr (checked, fresh, new, done) ↦ rw done (record {
    rows_ok = with_decision-rows_ok d db c checked fresh new;
    agree = λ j. ground (arith, c.agree j, c.agree d.decision_id);
    listed = with_decision-listed d db c checked fresh new;
    unique = inserted_unique d db c checked fresh new;
  })
]

-- The insert of a hold writes its row, or throws and writes nothing.
insert_hold_cases :
    (id : ℕ) (h : HoldRow) (db : Db)
    → ((e : DbError) × (insert_hold id h db ≡ (db, throws e)))
      ⊎ (insert_hold id h db ≡ (record db { hold = update db.hold id (some h) }, rows true))
unfolding insert_hold
insert_hold_cases id h db = elim (Bool-cases (ltb 0 h.amount)) [
  | inr none_left ↦ inl (check_violation, ground arith)
  | inl positive ↦ elim (Bool-cases (has_hold db.hold h.hold_id db.ids || is_some (db.hold id))) [
    | inl taken ↦ inl (unique_violation, ground arith)
    | inr free ↦ elim (Bool-cases (db.orgs h.org_id && db.agents h.agent_id)) [
      | inr unknown ↦ inl (foreign_key_violation, ground arith)
      | inl known ↦ inr (ground arith)
    ]
  ]
]

-- A reservation inserts a decision and its hold, or nothing.
pub create_decision_and_hold_cases :
    (d : Decision) (h : HoldRow) (db : Db)
    → ((e : DbError) × (create_decision_and_hold d h db ≡ (db, throws e)))
      ⊎ (row_check d ≡ true)
        × (db.decision d.decision_id ≡ none)
        × (read_decision_by_idempotency db d.org_id d.idempotency_key ≡ none)
        × (create_decision_and_hold d h db ≡ (
          record (with_decision d db) { hold = update db.hold d.decision_id (some h) },
          rows true,
        ))
unfolding create_decision_and_hold
create_decision_and_hold_cases d h db = elim (insert_decision_cases d db) [
  | inl (e, same) ↦ inl (e, ground arith)
  | inr (checked, fresh, new, done) ↦
      elim (insert_hold_cases d.decision_id h (with_decision d db)) [
        | inl (e, failed) ↦ inl (e, ground (arith, done, failed))
        | inr inserted ↦ inr (checked, fresh, new, ground (arith, done, inserted))
      ]
]

pub create_decision_and_hold-IsConsistent :
    (d : Decision) (h : HoldRow) (db : Db)
    → h.status ≡ held
    → IsConsistent db
    → IsConsistent (create_decision_and_hold d h db).0
create_decision_and_hold-IsConsistent d h db is_new c =
    elim (create_decision_and_hold_cases d h db) [
      | inl (e, same) ↦ rw same c
      | inr (checked, fresh, new, done) ↦ rw done (record {
        rows_ok = with_decision-rows_ok d db c checked fresh new;
        agree = λ j. ground (arith, c.agree j);
        listed = with_decision-listed d db c checked fresh new;
        unique = inserted_unique d db c checked fresh new;
      })
    ]

module _ (id : ℕ) (db : Db) (c : IsConsistent db) where
  pub mark_decision_signed-IsConsistent :
      (s : Signature) → IsConsistent (mark_decision_signed id s db).0
  unfolding mark_decision_signed
  mark_decision_signed-IsConsistent s =
      update_decision-IsConsistent _ _ id db
        (record {
          same_id = λ d. refl;
          same_org = λ d. refl;
          same_idempotency = λ d. refl;
          agrees_after = λ d e g. ground (arith, c.agree id);
        })
        c

  pub mark_decision_expiry_check-IsConsistent : IsConsistent (mark_decision_expiry_check id db).0
  unfolding mark_decision_expiry_check
  mark_decision_expiry_check-IsConsistent =
      update_decision-IsConsistent _ _ id db
        (record {
          same_id = λ d. refl;
          same_org = λ d. refl;
          same_idempotency = λ d. refl;
          agrees_after = λ d e g. ground (arith, c.agree id);
        })
        c

  pub mark_decision_settled-IsConsistent :
      (tx deploy : Option ℕ) → IsConsistent (mark_decision_settled id tx deploy db).0
  unfolding mark_decision_settled
  mark_decision_settled-IsConsistent tx deploy =
      update_decision-IsConsistent _ _ id db
        (record {
          same_id = λ d. refl;
          same_org = λ d. refl;
          same_idempotency = λ d. refl;
          agrees_after = λ d e g. ground (arith, c.agree id);
        })
        c

  pub mark_decision_settled_by_user-IsConsistent :
      (tx : ℕ) → IsConsistent (mark_decision_settled_by_user id tx db).0
  unfolding mark_decision_settled_by_user
  mark_decision_settled_by_user-IsConsistent tx =
      update_decision-IsConsistent _ _ id db
        (record {
          same_id = λ d. refl;
          same_org = λ d. refl;
          same_idempotency = λ d. refl;
          agrees_after = λ d e g. ground (arith, c.agree id);
        })
        c

  pub mark_decision_terminal-IsConsistent :
      (status : DecisionStatus)
      → includes (failed_terminal ∷ expired ∷ []) status ≡ true
      → IsConsistent (mark_decision_terminal id status db).0
  unfolding mark_decision_terminal
  mark_decision_terminal-IsConsistent status terminal =
      update_decision-IsConsistent _ _ id db
        (record {
          same_id = λ d. refl;
          same_org = λ d. refl;
          same_idempotency = λ d. refl;
          agrees_after = λ d e g. ground (arith, c.agree id);
        })
        c

  -- A held hold may take a status that agrees with its decision's.
  resolve_found-IsConsistent :
      (status : HoldStatus) (o : Option HoldRow)
      → db.hold id ≡ o
      → ((h : HoldRow) → agrees (db.decision id) (some (record h { status = status })) ≡ true)
      → IsConsistent (resolve_found status id o db).0
  unfolding resolve_found
  resolve_found-IsConsistent status none e ok = c
  resolve_found-IsConsistent status (some h) e ok = elim (Bool-cases (is_held h.status)) [
    | inr done ↦ rw done c
    | inl is_open ↦ rw is_open (record {
      rows_ok = c.rows_ok;
      agree = λ j. ground (arith, c.agree j, ok h);
      listed = c.listed;
      unique = c.unique;
    })
  ]

  pub settle_hold-IsConsistent :
      (d : Decision)
      → db.decision id ≡ some d
      → d.status ≡ settled
      → IsConsistent (settle_hold id db).0
  unfolding settle_hold
  settle_hold-IsConsistent d e s =
      resolve_found-IsConsistent settled_hold (db.hold id) refl (λ h. ground arith)

  pub release_hold-IsConsistent :
      (d : Decision)
      → db.decision id ≡ some d
      → includes (failed_terminal ∷ expired ∷ []) d.status ≡ true
      → IsConsistent (release_hold id db).0
  unfolding release_hold
  release_hold-IsConsistent d e s =
      resolve_found-IsConsistent released (db.hold id) refl (λ h. ground arith)
