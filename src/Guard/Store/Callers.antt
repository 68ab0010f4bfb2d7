-- ===== src/Guard/Store/Callers.antt =====
-- The order in which the callers of casper-guard/store.ts use it: a hold is settled or released for an
-- id only after a write of the same caller changed the row to a final status, or a read found it there.
use casper_agops_server.Prelude.{
  ℕ, Bool, true, false, Option, none, some, List, [], ◌∷◌, ◌≡◌, refl, inl, inr, arith, nat_eq,
  includes, includes-All, All, All-map, Bool-cases, Option-cases, if◌then◌else◌,
}
use casper_agops_server.Guard.Store.{
  Db, Decision, HoldRow, DecisionStatus, denied, held, settled, failed_terminal, expired, status_eq,
  terminal_statuses, Written, rows, throws, Signature, create_decision_and_hold, insert_decision,
  mark_decision_signed, mark_decision_terminal, mark_decision_expiry_check, mark_decision_settled,
  mark_decision_settled_by_user, settle_hold, release_hold, update_decision, update_found,
}
use casper_agops_server.Guard.Store.Rows.{IsConsistent}
use casper_agops_server.Guard.Store.Transitions.{
  Step, creates, records_denial, signs, terminates, checks_expiry, settles, settles_by_user,
  settles_hold, releases_hold, here, after, Step-IsConsistent, Reach-terminal,
}

-- A write with what its caller passes: a hold is held when it is inserted, a denial is denied, and a
-- decision that ends is failed or expired.
pub data Write : Type 0 where
  create : Decision → HoldRow → Write
  deny : Decision → Write
  sign : ℕ → Signature → Write
  expire fail check_expiry : ℕ → Write
  settle : ℕ → Option ℕ → Option ℕ → Write
  settle_by_user : ℕ → ℕ → Write

pub perform : Write → Db → Db × Written
perform (create d h) db = create_decision_and_hold d (record h { status = held }) db
perform (deny d) db = insert_decision (record d { status = denied }) db
perform (sign id s) db = mark_decision_signed id s db
perform (expire id) db = mark_decision_terminal id expired db
perform (fail id) db = mark_decision_terminal id failed_terminal db
perform (check_expiry id) db = mark_decision_expiry_check id db
perform (settle id tx deploy) db = mark_decision_settled id tx deploy db
perform (settle_by_user id tx) db = mark_decision_settled_by_user id tx db

-- The tables, and the holds that the callers have been told to settle and to release.
pub record Session : Type 0 where
  pub db : Db
  pub may_settle : List ℕ
  pub may_release : List ℕ

pub data Call : Type 0 where
  writes : Write → Call
  reads closes_settled closes_released : ℕ → Call

abbrev is_done : Written → Bool
is_done (rows b) = b
is_done (throws e) = false

-- What the answer of a write tells its caller.
abbrev told : Write → Bool → Session → Session
told (settle id tx deploy) true s = record s { may_settle = id ∷ s.may_settle }
told (settle_by_user id tx) true s = record s { may_settle = id ∷ s.may_settle }
told (expire id) true s = record s { may_release = id ∷ s.may_release }
told (fail id) true s = record s { may_release = id ∷ s.may_release }
told _ _ s = s

abbrev read_row : ℕ → Option Decision → Session → Session
read_row id none s = s
read_row id (some d) s =
    if includes (settled ∷ []) d.status
    then record s { may_settle = id ∷ s.may_settle }
    else if includes (failed_terminal ∷ expired ∷ []) d.status
    then record s { may_release = id ∷ s.may_release }
    else s

pub call : Session → Call → Session
unfolding perform
call s (writes w) = told w (is_done (perform w s.db).1) (record s { db = (perform w s.db).0 })
call s (reads id) = read_row id (s.db.decision id) s
call s (closes_settled id) =
    if includes s.may_settle id then record s { db = (settle_hold id s.db).0 } else s
call s (closes_released id) =
    if includes s.may_release id then record s { db = (release_hold id s.db).0 } else s

pub calls : Session → List Call → Session
calls s [] = s
calls s (c ∷ cs) = calls (call s c) cs

perform-Step : (w : Write) (db : Db) → Step db (perform w db).0
unfolding perform
perform-Step (create d h) db = creates d (record h { status = held }) refl refl
perform-Step (deny d) db = records_denial (record d { status = denied }) refl refl
perform-Step (sign id s) db = signs id s refl
perform-Step (expire id) db = terminates id expired refl refl
perform-Step (fail id) db = terminates id failed_terminal refl refl
perform-Step (check_expiry id) db = checks_expiry id refl
perform-Step (settle id tx deploy) db = settles id tx deploy refl
perform-Step (settle_by_user id tx) db = settles_by_user id tx refl

-- A row with one of the statuses.
IsAt : List DecisionStatus → Db → ℕ → Type 0
IsAt ss db id = (d : Decision) × (db.decision id ≡ some d) × (includes ss d.status ≡ true)

updated :
    (guard : Decision → Bool) (change : Decision → Decision) (id : ℕ) (db : Db)
    → is_done (update_decision guard change id db).1 ≡ true
    → (d : Decision) × ((update_decision guard change id db).0.decision id ≡ some (change d))
unfolding update_decision update_found
updated guard change id db e = elim (Option-cases (db.decision id)) [
  | inl missing ↦ absurd (ground (arith, missing, e))
  | inr (d, found) ↦ (d, ground (arith, found, e))
]

-- The tables are consistent, and whoever was told to close a hold still has the row that says so.
record IsSound (s : Session) : Type 0 where
  consistent : IsConsistent s.db
  settled_rows : All (IsAt (settled ∷ []) s.db) s.may_settle
  ended_rows : All (IsAt (failed_terminal ∷ expired ∷ []) s.db) s.may_release

Step-IsAt :
    (ss : List DecisionStatus) (db db' : Db)
    → ((x : DecisionStatus) → includes ss x ≡ true → includes terminal_statuses x ≡ true)
    → Step db db'
    → (id : ℕ) → IsAt ss db id
    → IsAt ss db' id
unfolding IsAt
Step-IsAt ss db db' final step id (d, e, at) =
    (d, Reach-terminal db db' id d (after here step) e (final d.status at), at)

Step-IsSound :
    (s : Session) (db' : Db) → Step s.db db' → IsSound s → IsSound (record s { db = db' })
Step-IsSound s db' step k = record {
  consistent = Step-IsConsistent s.db db' step k.consistent;
  settled_rows =
      All-map (Step-IsAt (settled ∷ []) s.db db' (λ x m. ground arith) step) s.may_settle
        k.settled_rows;
  ended_rows =
      All-map (Step-IsAt (failed_terminal ∷ expired ∷ []) s.db db' (λ x m. ground arith) step)
        s.may_release k.ended_rows;
}

more_settled :
    (s : Session) (id : ℕ)
    → IsAt (settled ∷ []) s.db id
    → IsSound s
    → IsSound (record s { may_settle = id ∷ s.may_settle })
more_settled s id at k = record {
  consistent = k.consistent;
  settled_rows = (at, k.settled_rows);
  ended_rows = k.ended_rows;
}

more_ended :
    (s : Session) (id : ℕ)
    → IsAt (failed_terminal ∷ expired ∷ []) s.db id
    → IsSound s
    → IsSound (record s { may_release = id ∷ s.may_release })
more_ended s id at k = record {
  consistent = k.consistent;
  settled_rows = k.settled_rows;
  ended_rows = (at, k.ended_rows);
}

-- What a write tells is so in the tables that it leaves.
told-IsSound :
    (w : Write) (s : Session) (b : Bool)
    → is_done (perform w s.db).1 ≡ b
    → IsSound (record s { db = (perform w s.db).0 })
    → IsSound (told w b (record s { db = (perform w s.db).0 }))
unfolding perform mark_decision_terminal mark_decision_settled mark_decision_settled_by_user IsAt
told-IsSound (create d h) s b e k = k
told-IsSound (deny d) s b e k = k
told-IsSound (sign id x) s b e k = k
told-IsSound (check_expiry id) s b e k = k
told-IsSound (expire id) s false e k = k
told-IsSound (fail id) s false e k = k
told-IsSound (settle id tx deploy) s false e k = k
told-IsSound (settle_by_user id tx) s false e k = k
told-IsSound (expire id) s true e k =
    let (d, found) = updated _ _ id s.db e in more_ended _ id (_, found, refl) k
told-IsSound (fail id) s true e k =
    let (d, found) = updated _ _ id s.db e in more_ended _ id (_, found, refl) k
told-IsSound (settle id tx deploy) s true e k =
    let (d, found) = updated _ _ id s.db e in more_settled _ id (_, found, refl) k
told-IsSound (settle_by_user id tx) s true e k =
    let (d, found) = updated _ _ id s.db e in more_settled _ id (_, found, refl) k

read_row-IsSound :
    (s : Session) (id : ℕ) (o : Option Decision)
    → s.db.decision id ≡ o
    → IsSound s
    → IsSound (read_row id o s)
unfolding IsAt
read_row-IsSound s id none e k = k
read_row-IsSound s id (some d) e k = elim (Bool-cases (includes (settled ∷ []) d.status)) [
  | inl at ↦ rw at (more_settled s id (d, e, at) k)
  | inr other ↦ elim (Bool-cases (includes (failed_terminal ∷ expired ∷ []) d.status)) [
    | inl at ↦ rw (other, at) (more_ended s id (d, e, at) k)
    | inr live ↦ rw (other, live) k
  ]
]

is_settled : (d : Decision) → includes (settled ∷ []) d.status ≡ true → d.status ≡ settled
is_settled d at = ground (arith, at)

call-IsSound : (s : Session) (c : Call) → IsSound s → IsSound (call s c)
unfolding call IsAt
call-IsSound s (writes w) k =
    told-IsSound w s (is_done (perform w s.db).1) refl
      (Step-IsSound s (perform w s.db).0 (perform-Step w s.db) k)
call-IsSound s (reads id) k = read_row-IsSound s id (s.db.decision id) refl k
call-IsSound s (closes_settled id) k = elim (Bool-cases (includes s.may_settle id)) [
  | inr untold ↦ rw untold k
  | inl was_told ↦
      let (d, e, at) =
        includes-All (IsAt (settled ∷ []) s.db) s.may_settle id k.settled_rows was_told in
      rw was_told
        (Step-IsSound s (settle_hold id s.db).0 (settles_hold id d e (is_settled d at) refl) k)
]
call-IsSound s (closes_released id) k = elim (Bool-cases (includes s.may_release id)) [
  | inr untold ↦ rw untold k
  | inl was_told ↦
      let (d, e, at) =
        includes-All (IsAt (failed_terminal ∷ expired ∷ []) s.db) s.may_release id k.ended_rows
          was_told in
      rw was_told (Step-IsSound s (release_hold id s.db).0 (releases_hold id d e at refl) k)
]

calls-IsSound : (s : Session) (cs : List Call) → IsSound s → IsSound (calls s cs)
unfolding calls
calls-IsSound s [] k = k
calls-IsSound s (c ∷ cs) k = calls-IsSound (call s c) cs (call-IsSound s c k)

abbrev pub new_session : Db → Session
new_session db = record { db = db; may_settle = []; may_release = [] }

-- Any sequence of the table writes keeps the tables consistent, however the callers interleave: each
-- closes a hold only after one of its writes changed the decision to SETTLED, FAILED_TERMINAL or
-- EXPIRED, or one of its reads found it there, and by then other writes may have run.
pub calls-IsConsistent :
    (db : Db) (cs : List Call) → IsConsistent db → IsConsistent (calls (new_session db) cs).db
calls-IsConsistent db cs c =
    (calls-IsSound (new_session db) cs
      (record { consistent = c; settled_rows = tt; ended_rows = tt })).consistent
