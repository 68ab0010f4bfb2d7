-- ===== src/Guard/Store/Rows.antt =====
-- The consistency of the decision and hold tables, and that each write keeps it.
use casper_agops_server.Prelude.{
  ℕ, Bool, true, false, ◌&&◌, ◌||◌, Option, none, some, List, [], ◌∷◌, ◌++◌, ◌≡◌, ◌⊎◌, inl, inr,
  arith, ◌=?◌, nat_eq, includes, update, is_some, Bool-cases, Option-cases,
}
use casper_agops_server.Guard.Store.{
  DbError, unique_violation, check_violation, foreign_key_violation, settled, denied,
  failed_terminal, expired, held, settled_hold, released, Decision, HoldRow, Db, rows, throws,
  row_check, matches_key, find_by_key, status_beq, read_decision_by_idempotency, insert_decision,
  update_decision,
}

-- A hold that is settled belongs to a settled decision, a released one to a failed or expired one;
-- a decision with no hold is a denial.
abbrev pub agrees : Option Decision → Option HoldRow → Bool
agrees none none = true
agrees none (some h) = false
agrees (some d) none = status_beq d.status denied
agrees (some d) (some h) = elim h.status [
  | held ↦ true
  | settled_hold ↦ status_beq d.status settled
  | released ↦ status_beq d.status failed_terminal || status_beq d.status expired
]

abbrev pub row_ok : ℕ → Option Decision → Bool
row_ok id none = true
row_ok id (some d) = row_check d && d.decision_id =? id

abbrev pub same_key : Option Decision → Option Decision → Bool
same_key (some a) (some b) = a.org_id =? b.org_id && a.idempotency_key =? b.idempotency_key
same_key _ _ = false

-- Every row passes the table's CHECKs under its own key, holds agree with their decisions, every
-- decision is listed, and no two decisions of an org share an idempotency key.
pub record IsConsistent (db : Db) : Type 0 where
  pub rows_ok : (id : ℕ) → row_ok id (db.decision id) ≡ true
  pub agree : (id : ℕ) → agrees (db.decision id) (db.hold id) ≡ true
  pub listed : (id : ℕ) → is_some (db.decision id) ≡ true → includes db.ids id ≡ true
  pub unique : (i j : ℕ) → same_key (db.decision i) (db.decision j) ≡ true → i ≡ j

-- What an update may change: not the key, the org and the idempotency key, and not so that the hold
-- stops agreeing.
pub record IsSafeChange (guard : Decision → Bool) (change : Decision → Decision) (id : ℕ) (db : Db)
    : Type 0 where
  pub same_id : (d : Decision) → (change d).decision_id ≡ d.decision_id
  pub same_org : (d : Decision) → (change d).org_id ≡ d.org_id
  pub same_idempotency : (d : Decision) → (change d).idempotency_key ≡ d.idempotency_key
  pub agrees_after :
      (d : Decision)
      → db.decision id ≡ some d
      → guard d ≡ true
      → agrees (some (change d)) (db.hold id) ≡ true

module _ (guard : Decision → Bool) (change : Decision → Decision) (id : ℕ) (db : Db) where
  -- An update writes one changed row, or nothing.
  pub update_decision_cases :
      ((update_decision guard change id db).0 ≡ db)
      ⊎ ((d : Decision) × (db.decision id ≡ some d)
          × (guard d ≡ true)
          × (row_check (change d) ≡ true)
          × ((update_decision guard change id db).0
              ≡ record db { decision = update db.decision id (some (change d)) }))
  unfolding update_decision
  update_decision_cases = elim (Option-cases (db.decision id)) [
    | inl missing ↦ inl (ground arith)
    | inr (d, e) ↦ elim (Bool-cases (guard d)) [
      | inr refused ↦ inl (ground arith)
      | inl passes ↦ elim (Bool-cases (row_check (change d))) [
        | inr unchecked ↦ inl (ground arith)
        | inl checked ↦ inr (d, e, passes, checked, ground arith)
      ]
    ]
  ]

  changed-IsConsistent :
      (d : Decision)
      → db.decision id ≡ some d
      → guard d ≡ true
      → row_check (change d) ≡ true
      → IsSafeChange guard change id db
      → IsConsistent db
      → IsConsistent (record db { decision = update db.decision id (some (change d)) })
  changed-IsConsistent d e g checked s c = record {
    rows_ok = λ j. ground (arith, c.rows_ok j, s.same_id d);
    agree = λ j. ground (arith, c.agree j, s.agrees_after d e g);
    listed = λ j m. ground (arith, c.listed j);
    unique = λ i j m. ground (arith, c.unique i j, s.same_org d, s.same_idempotency d);
  }

  pub update_decision-IsConsistent :
      IsSafeChange guard change id db
      → IsConsistent db
      → IsConsistent (update_decision guard change id db).0
  update_decision-IsConsistent s c = elim update_decision_cases [
    | inl same ↦ rw same c
    | inr (d, e, g, checked, changed) ↦ rw changed (changed-IsConsistent d e g checked s c)
  ]

pub includes-append :
    (xs : List ℕ) (a b : ℕ) → includes (xs ++ a ∷ []) b ≡ (includes xs b || a =? b)
includes-append [] a b = ground arith
includes-append (x ∷ xs) a b = ground (arith, includes-append xs a b)

find_by_key-none :
    (db : Db) (org key id : ℕ) (ids : List ℕ)
    → find_by_key db org key ids ≡ none
    → includes ids id ≡ true
    → matches_key db org key id ≡ false
unfolding find_by_key matches_key
find_by_key-none db org key id [] e m = absurd (cc)
find_by_key-none db org key id (x ∷ ids) e m = ground (arith, find_by_key-none db org key id ids)

abbrev pub with_decision : Decision → Db → Db
with_decision d db = record db {
  ids = db.ids ++ d.decision_id ∷ [];
  decision = update db.decision d.decision_id (some d);
}

-- An insert writes nothing and throws, or writes a row that passes the CHECKs under a new id and a
-- new key.
pub insert_decision_cases :
    (d : Decision) (db : Db)
    → ((e : DbError) × (insert_decision d db ≡ (db, throws e)))
      ⊎ (row_check d ≡ true)
        × (db.decision d.decision_id ≡ none)
        × (read_decision_by_idempotency db d.org_id d.idempotency_key ≡ none)
        × (insert_decision d db ≡ (with_decision d db, rows true))
unfolding insert_decision
insert_decision_cases d db = elim (Bool-cases (row_check d)) [
  | inr unchecked ↦ inl (check_violation, ground arith)
  | inl checked ↦ elim (Option-cases (db.decision d.decision_id)) [
    | inr (o, taken) ↦ inl (unique_violation, ground arith)
    | inl fresh ↦ elim (Option-cases (read_decision_by_idempotency db d.org_id d.idempotency_key)) [
      | inr (o, taken) ↦ inl (unique_violation, ground arith)
      | inl new ↦ elim (Bool-cases (db.orgs d.org_id && db.agents d.agent_id)) [
        | inr unknown ↦ inl (foreign_key_violation, ground arith)
        | inl known ↦ inr (checked, fresh, new, ground arith)
      ]
    ]
  ]
]

same_key-sym : (a b : Option Decision) → same_key a b ≡ same_key b a
same_key-sym a b = ground arith

-- What an insert leaves: rows that pass the CHECKs, listed, with one key each.
module _ (d : Decision) (db : Db) (c : IsConsistent db) (checked : row_check d ≡ true)
    (fresh : db.decision d.decision_id ≡ none)
    (new : read_decision_by_idempotency db d.org_id d.idempotency_key ≡ none) where
  no_key : (j : ℕ) → same_key (db.decision j) (some d) ≡ true → ⊥
  unfolding read_decision_by_idempotency matches_key
  no_key j same = elim (Option-cases (db.decision j)) [
    | inl missing ↦ absurd (ground (arith, same, missing))
    | inr (o, e) ↦ absurd (
        ground (
          arith,
          same,
          e,
          find_by_key-none db d.org_id d.idempotency_key j db.ids new (c.listed j (ground arith)),
        ))
  ]

  pub inserted_unique :
      (i j : ℕ)
      → same_key ((with_decision d db).decision i) ((with_decision d db).decision j) ≡ true
      → i ≡ j
  inserted_unique i j same = elim (Bool-cases (i =? d.decision_id)) [
    | inl i_new ↦ elim (Bool-cases (j =? d.decision_id)) [
      | inl j_new ↦ ground arith
      | inr j_old ↦ absurd (no_key j (ground (arith, same_key-sym (some d) (db.decision j))))
    ]
    | inr i_old ↦ elim (Bool-cases (j =? d.decision_id)) [
      | inl j_new ↦ absurd (no_key i (ground arith))
      | inr j_old ↦ c.unique i j (ground arith)
    ]
  ]

  pub with_decision-rows_ok : (j : ℕ) → row_ok j ((with_decision d db).decision j) ≡ true
  with_decision-rows_ok j = ground (arith, c.rows_ok j)

  pub with_decision-listed :
      (j : ℕ)
      → is_some ((with_decision d db).decision j) ≡ true
      → includes (with_decision d db).ids j ≡ true
  with_decision-listed j m = ground (arith, c.listed j, includes-append db.ids d.decision_id j)
