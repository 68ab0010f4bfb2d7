-- ===== src/Guard/Authorize/Aborts.antt =====
-- What `failReservedDecision` leaves of a list of decisions.
use mathlib.Core.Path.{subst}
use casper_agops_server.Prelude.{
  ℕ, Bool, true, false, ◌&&◌, ◌||◌, not, Option, none, some, List, [], ◌∷◌, ◌≡◌, refl, inl, inr,
  arith, ◌=?◌, nat_eq, update, includes, Bool-cases, Option-cases,
}
use casper_agops_server.Guard.Store.{
  Db, Decision, reserved, failed_terminal, status_beq, status_eq, rows, row_check, holds_reserved,
  mark_decision_terminal, update_decision, update_found, release_hold, resolve_found,
}
use casper_agops_server.Guard.Store.Rows.{IsConsistent}
use casper_agops_server.Guard.Store.Writes.{
  mark_decision_terminal-IsConsistent, release_hold-IsConsistent,
}
use casper_agops_server.Ledger.Hot.Closed.{is_closed, release_hold-is_closed}
use casper_agops_server.Guard.Authorize.{World, release_hot, fail_reserved_decision, fail_all}
use casper_agops_server.Guard.Authorize.Ends.{accepted}

abbrev pub is_reserved : Option Decision → Bool
is_reserved none = false
is_reserved (some d) = status_beq d.status reserved

abbrev pub is_failed : Option Decision → Bool
is_failed none = false
is_failed (some d) = status_beq d.status failed_terminal

abbrev fail_row : Decision → Decision
fail_row d = record d { status = failed_terminal }

reserved-checked :
    (d : Decision)
    → row_check d ≡ true
    → status_beq d.status reserved ≡ true
    → row_check (fail_row d) ≡ true
unfolding row_check
reserved-checked d checked r = ground arith

-- What a pass over `ids` leaves: every row of `ids` is failed, none has a hold left that it had open
-- as a reserved row, and a row that is reserved was so before.
pub record Aborts (agent : ℕ) (ids : List ℕ) (w w' : World) : Type 0 where
  pub consistent : IsConsistent w'.db
  pub same_ids : w'.db.ids ≡ w.db.ids
  pub aborted : (j : ℕ) → includes ids j ≡ true → is_failed (w'.db.decision j) ≡ true
  pub kept : (j : ℕ) → is_reserved (w'.db.decision j) ≡ true → w'.db.decision j ≡ w.db.decision j
  pub others : (j : ℕ) → includes ids j ≡ false → w'.db.decision j ≡ w.db.decision j
  pub closed :
      (j : ℕ) → holds_reserved (w.db.hold j) ≡ false → holds_reserved (w'.db.hold j) ≡ false
  pub released :
      (j : ℕ)
      → includes ids j ≡ true
      → is_reserved (w.db.decision j) ≡ true
      → holds_reserved (w'.db.hold j) ≡ false
  pub hot_closed : (j : ℕ) → is_closed (w.hot agent) j ≡ true → is_closed (w'.hot agent) j ≡ true
  pub hot_released :
      (j : ℕ)
      → includes ids j ≡ true
      → is_reserved (w.db.decision j) ≡ true
      → is_closed (w'.hot agent) j ≡ true

release_hold-decision :
    (id : ℕ) (db : Db) (j : ℕ) → (release_hold id db).0.decision j ≡ db.decision j
unfolding release_hold resolve_found
release_hold-decision id db j = ground arith

release_hold-ids : (id : ℕ) (db : Db) → (release_hold id db).0.ids ≡ db.ids
unfolding release_hold resolve_found
release_hold-ids id db = ground arith

release_hold-hold :
    (id : ℕ) (db : Db) (j : ℕ)
    → holds_reserved ((release_hold id db).0.hold j) ≡ (not (id =? j) && holds_reserved (db.hold j))
unfolding release_hold resolve_found
release_hold-hold id db j = ground arith

module _ (agent id : ℕ) (w : World) (c : IsConsistent w.db) where
  abbrev failed : Decision → Db
  failed d = record w.db { decision = update w.db.decision id (some (fail_row d)) }

  terminal-failed :
      (d : Decision)
      → w.db.decision id ≡ some d
      → status_beq d.status reserved ≡ true
      → mark_decision_terminal id failed_terminal w.db ≡ (failed d, rows true)
  unfolding mark_decision_terminal update_decision
  terminal-failed d e r =
      accepted _ _ id w.db d (ground arith) (reserved-checked d (ground (arith, c.rows_ok id)) r)
        (w.db.decision id) e

  fails :
      (d : Decision)
      → w.db.decision id ≡ some d
      → status_beq d.status reserved ≡ true
      → fail_reserved_decision agent id w
        ≡ (release_hot agent id (record w { db = (release_hold id (failed d)).0 }), true)
  unfolding fail_reserved_decision
  fails d e r = ground (arith, terminal-failed d e r)

  failed-IsConsistent :
      (d : Decision)
      → w.db.decision id ≡ some d
      → status_beq d.status reserved ≡ true
      → IsConsistent (release_hold id (failed d)).0
  failed-IsConsistent d e r =
      let marked : IsConsistent (mark_decision_terminal id failed_terminal w.db).0 =
        mark_decision_terminal-IsConsistent id w.db c failed_terminal refl in
      release_hold-IsConsistent id (failed d)
        (subst (λ x. IsConsistent x.0) (terminal-failed d e r) marked) (fail_row d) (ground arith)
        refl

  -- A row that is reserved is failed, and its hold released.
  fails-Aborts :
      (d : Decision)
      → w.db.decision id ≡ some d
      → status_beq d.status reserved ≡ true
      → Aborts agent (id ∷ []) w (fail_reserved_decision agent id w).0
  fails-Aborts d e r =
      let db = (release_hold id (failed d)).0 in
      let same = release_hold-decision id (failed d) in
      let holds = release_hold-hold id (failed d) in
      let hot = release_hold-is_closed id (w.hot agent) in
      rw (fails d e r) (record {
        consistent = failed-IsConsistent d e r;
        same_ids = release_hold-ids id (failed d);
        aborted = λ j m. ground (arith, same j);
        kept = λ j m. ground (arith, same j);
        others = λ j m. ground (arith, same j);
        closed = λ j m. ground (arith, holds j);
        released = λ j m b. ground (arith, holds j);
        hot_closed = λ j m. ground (arith, hot j);
        hot_released = λ j m b. ground (arith, hot j);
      })

  -- A row that is failed stays as it is.
  skips : is_failed (w.db.decision id) ≡ true → fail_reserved_decision agent id w ≡ (w, true)
  unfolding fail_reserved_decision mark_decision_terminal update_decision update_found
  skips f = ground (arith, Option-cases (w.db.decision id))

  skips-Aborts :
      is_reserved (w.db.decision id) ≡ false
      → is_failed (w.db.decision id) ≡ true
      → Aborts agent (id ∷ []) w (fail_reserved_decision agent id w).0
  skips-Aborts r f = rw (skips f) (record {
    consistent = c;
    same_ids = refl;
    aborted = λ j m. ground (arith);
    kept = λ j m. refl;
    others = λ j m. refl;
    closed = λ j m. m;
    released = λ j m b. absurd (ground (arith));
    hot_closed = λ j m. m;
    hot_released = λ j m b. absurd (ground (arith));
  })

  fail_reserved-Aborts :
      (is_reserved (w.db.decision id) || is_failed (w.db.decision id)) ≡ true
      → ((fail_reserved_decision agent id w).1 ≡ true)
        × Aborts agent (id ∷ []) w (fail_reserved_decision agent id w).0
  fail_reserved-Aborts o = elim (Option-cases (w.db.decision id)) [
    | inl missing ↦ absurd (ground (arith))
    | inr (d, e) ↦ elim (Bool-cases (status_beq d.status reserved)) [
      | inl r ↦ (rw (fails d e r) refl, fails-Aborts d e r)
      | inr n ↦
          let f : is_failed (w.db.decision id) ≡ true = ground (arith, e, n, o) in
          (rw (skips f) refl, skips-Aborts (ground (arith, e, n)) f)
    ]
  ]

Aborts-trans :
    (agent id : ℕ) (ids : List ℕ) (w w' w'' : World)
    → Aborts agent (id ∷ []) w w'
    → Aborts agent ids w' w''
    → Aborts agent (id ∷ ids) w w''
Aborts-trans agent id ids w w' w'' a b = record {
  consistent = b.consistent;
  same_ids = ground (arith, a.same_ids, b.same_ids);
  aborted = λ j m. elim (Bool-cases (includes ids j)) [
    | inl later ↦ b.aborted j later
    | inr first ↦ ground (arith, a.aborted j, b.others j)
  ];
  kept = λ j m. ground (arith, a.kept j, b.kept j);
  others = λ j m. ground (arith, a.others j, b.others j);
  closed = λ j m. b.closed j (a.closed j m);
  released = λ j m r. elim (Bool-cases (id =? j)) [
    | inl now ↦ b.closed j (a.released j (ground arith) r)
    | inr later ↦ b.released j (ground (arith)) (ground (arith, a.others j))
  ];
  hot_closed = λ j m. b.hot_closed j (a.hot_closed j m);
  hot_released = λ j m r. elim (Bool-cases (id =? j)) [
    | inl now ↦ b.hot_closed j (a.hot_released j (ground arith) r)
    | inr later ↦ b.hot_released j (ground (arith)) (ground (arith, a.others j))
  ];
}

pub fail_all-Aborts :
    (agent : ℕ) (ids : List ℕ) (w : World)
    → IsConsistent w.db
    → ((j : ℕ)
        → includes ids j ≡ true
        → (is_reserved (w.db.decision j) || is_failed (w.db.decision j)) ≡ true)
    → ((fail_all agent ids w).1 ≡ true) × Aborts agent ids w (fail_all agent ids w).0
unfolding fail_all
fail_all-Aborts agent [] w c o = (
  refl,
  record {
    consistent = c;
    same_ids = refl;
    aborted = λ j m. absurd (cc);
    kept = λ j m. refl;
    others = λ j m. refl;
    closed = λ j m. m;
    released = λ j m r. absurd (cc);
    hot_closed = λ j m. m;
    hot_released = λ j m r. absurd (cc);
  },
)
fail_all-Aborts agent (id ∷ ids) w c o =
    let (done, a) = fail_reserved-Aborts agent id w c (o id (ground arith)) in
    let w' = (fail_reserved_decision agent id w).0 in
    let rest =
      fail_all-Aborts agent ids w' a.consistent
        (λ j m. ground (arith, o j, a.aborted j, a.others j)) in
    (rw done rest.0, rw done (Aborts-trans agent id ids w w' (fail_all agent ids w').0 a rest.1))
