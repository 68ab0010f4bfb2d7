-- ===== src/Guard/Store/Transitions.antt =====
-- The writes of casper-guard/store.ts as steps between states of the tables, and what every
-- sequence of them keeps. A hold is settled or released only after its decision's status allows it,
-- which is the order of the callers.
use casper_agops_server.Prelude.{
  ℕ, Bool, true, false, Option, none, some, [], ◌∷◌, ◌≡◌, ◌≢◌, ◌⊎◌, refl, inl, inr, arith, ◌=?◌,
  nat_eq, includes, is_some, Bool-cases, ap, ◌∙◌,
}
use casper_agops_server.Guard.Store.{
  DecisionStatus, quoted, reserved, signed, broadcasting, expiry_check, settled, denied,
  failed_terminal, expired, HoldStatus, held, settled_hold, released, Decision, HoldRow, Db, rows,
  row_check, status_eq, insert_decision, create_decision_and_hold, resolve_found, settle_hold,
  release_hold, Signature, mark_decision_signed, mark_decision_terminal, terminal_statuses,
  mark_decision_expiry_check, mark_decision_settled, mark_decision_settled_by_user, update_decision,
  update_found,
}
use casper_agops_server.Guard.Store.Rows.{
  IsConsistent, update_decision_cases, insert_decision_cases,
}
use casper_agops_server.Guard.Store.Writes.{
  insert_decision-IsConsistent, create_decision_and_hold_cases,
  create_decision_and_hold-IsConsistent, mark_decision_signed-IsConsistent,
  mark_decision_expiry_check-IsConsistent, mark_decision_settled-IsConsistent,
  mark_decision_settled_by_user-IsConsistent, mark_decision_terminal-IsConsistent,
  settle_hold-IsConsistent, release_hold-IsConsistent,
}

pub data Step (db db' : Db) : Type 0 where
  creates :
      (d : Decision) (h : HoldRow)
      → h.status ≡ held
      → db' ≡ (create_decision_and_hold d h db).0
      → Step db db'
  records_denial : (d : Decision) → d.status ≡ denied → db' ≡ (insert_decision d db).0 → Step db db'
  signs : (id : ℕ) (s : Signature) → db' ≡ (mark_decision_signed id s db).0 → Step db db'
  terminates :
      (id : ℕ) (status : DecisionStatus)
      → includes (failed_terminal ∷ expired ∷ []) status ≡ true
      → db' ≡ (mark_decision_terminal id status db).0
      → Step db db'
  checks_expiry : (id : ℕ) → db' ≡ (mark_decision_expiry_check id db).0 → Step db db'
  settles :
      (id : ℕ) (tx deploy : Option ℕ)
      → db' ≡ (mark_decision_settled id tx deploy db).0
      → Step db db'
  settles_by_user : (id tx : ℕ) → db' ≡ (mark_decision_settled_by_user id tx db).0 → Step db db'
  settles_hold :
      (id : ℕ) (d : Decision)
      → db.decision id ≡ some d
      → d.status ≡ settled
      → db' ≡ (settle_hold id db).0
      → Step db db'
  releases_hold :
      (id : ℕ) (d : Decision)
      → db.decision id ≡ some d
      → includes (failed_terminal ∷ expired ∷ []) d.status ≡ true
      → db' ≡ (release_hold id db).0
      → Step db db'

pub data Reach (db : Db) : Db → Type 0 where
  here : Reach db db
  after : {middle db' : Db} → Reach db middle → Step middle db' → Reach db db'

pub Step-IsConsistent : (db db' : Db) → Step db db' → IsConsistent db → IsConsistent db'
Step-IsConsistent db db' (creates d h new e) c =
    rw e (create_decision_and_hold-IsConsistent d h db new c)
Step-IsConsistent db db' (records_denial d s e) c = rw e (insert_decision-IsConsistent d db s c)
Step-IsConsistent db db' (signs id s e) c = rw e (mark_decision_signed-IsConsistent id db c s)
Step-IsConsistent db db' (terminates id status t e) c =
    rw e (mark_decision_terminal-IsConsistent id db c status t)
Step-IsConsistent db db' (checks_expiry id e) c =
    rw e (mark_decision_expiry_check-IsConsistent id db c)
Step-IsConsistent db db' (settles id tx deploy e) c =
    rw e (mark_decision_settled-IsConsistent id db c tx deploy)
Step-IsConsistent db db' (settles_by_user id tx e) c =
    rw e (mark_decision_settled_by_user-IsConsistent id db c tx)
Step-IsConsistent db db' (settles_hold id d f s e) c = rw e (settle_hold-IsConsistent id db c d f s)
Step-IsConsistent db db' (releases_hold id d f s e) c =
    rw e (release_hold-IsConsistent id db c d f s)

-- Every sequence of steps keeps the tables consistent: of writes, where a hold is closed at a time when
-- its decision's status allows it.
pub Reach-IsConsistent : (db db' : Db) → Reach db db' → IsConsistent db → IsConsistent db'
Reach-IsConsistent db db' here c = c
Reach-IsConsistent db db' (after {middle} r s) c =
    Step-IsConsistent middle db' s (Reach-IsConsistent db middle r c)

-- The moves between statuses that the writes can make.
abbrev pub may_move : DecisionStatus → DecisionStatus → Bool
may_move quoted b = includes (failed_terminal ∷ expired ∷ []) b
may_move reserved b = includes (signed ∷ settled ∷ failed_terminal ∷ expired ∷ []) b
may_move signed b = includes (expiry_check ∷ settled ∷ failed_terminal ∷ expired ∷ []) b
may_move broadcasting b = includes (expiry_check ∷ settled ∷ failed_terminal ∷ expired ∷ []) b
may_move expiry_check b = includes (settled ∷ failed_terminal ∷ expired ∷ []) b
may_move settled b = false
may_move denied b = false
may_move failed_terminal b = false
may_move expired b = false

-- A decision with the key, the owner and the intent of another, and its status or a later one.
pub record IsLater (d d' : Decision) : Type 0 where
  pub same_id : d'.decision_id ≡ d.decision_id
  pub same_owner : d'.agent_id ≡ d.agent_id
  pub same_intent : d'.intent ≡ d.intent
  pub same_outcome : d'.outcome ≡ d.outcome
  pub moves : (d' ≡ d) ⊎ (may_move d.status d'.status ≡ true)

IsLater-refl : (d : Decision) → IsLater d d
IsLater-refl d = record {
  same_id = refl;
  same_owner = refl;
  same_intent = refl;
  same_outcome = refl;
  moves = inl refl;
}

-- The state of the row `id` after a write to another or the same row.
update_decision-IsLater :
    (guard : Decision → Bool) (change : Decision → Decision) (written id : ℕ) (db : Db)
    (d : Decision)
    → (guard d ≡ true → IsLater d (change d))
    → db.decision id ≡ some d
    → (d' : Decision) × ((update_decision guard change written db).0.decision id ≡ some d')
      × IsLater d d'
update_decision-IsLater guard change written id db d later e =
    elim (update_decision_cases guard change written db) [
      | inl same ↦ (d, ground arith, IsLater-refl d)
      | inr (o, f, g, checked, changed) ↦ elim (Bool-cases (id =? written)) [
        | inl this ↦ (change d, ground arith, later (ground arith))
        | inr other ↦ (d, ground arith, IsLater-refl d)
      ]
    ]

later :
    (d d' : Decision)
    → d'.decision_id ≡ d.decision_id
    → d'.agent_id ≡ d.agent_id
    → d'.intent ≡ d.intent
    → d'.outcome ≡ d.outcome
    → may_move d.status d'.status ≡ true
    → IsLater d d'
later d d' a b c e m = record {
  same_id = a;
  same_owner = b;
  same_intent = c;
  same_outcome = e;
  moves = inr m;
}

kept :
    (db db' : Db) (id : ℕ) (d : Decision)
    → db.decision id ≡ some d
    → db'.decision id ≡ db.decision id
    → (d' : Decision) × (db'.decision id ≡ some d') × IsLater d d'
kept db db' id d e same = (d, same ∙ e, IsLater-refl d)

resolve_found-decision :
    (i : ℕ) (db : Db) (status : HoldStatus) (o : Option HoldRow) (id : ℕ)
    → (resolve_found status i o db).0.decision id ≡ db.decision id
unfolding resolve_found
resolve_found-decision i db status none id = refl
resolve_found-decision i db status (some h) id = ground arith

-- One write leaves every decision as it is, or moves its status forward.
pub Step-IsLater :
    (db db' : Db) (id : ℕ) (d : Decision)
    → Step db db'
    → db.decision id ≡ some d
    → (d' : Decision) × (db'.decision id ≡ some d') × IsLater d d'
unfolding mark_decision_signed mark_decision_terminal mark_decision_expiry_check
    mark_decision_settled mark_decision_settled_by_user settle_hold release_hold
Step-IsLater db db' id d (creates o h new e) f = elim (create_decision_and_hold_cases o h db) [
  | inl (x, same) ↦ kept db db' id d f (ground arith)
  | inr (checked, fresh, key, done) ↦ kept db db' id d f (ground arith)
]
Step-IsLater db db' id d (records_denial o s e) f = elim (insert_decision_cases o db) [
  | inl (x, same) ↦ kept db db' id d f (ground arith)
  | inr (checked, fresh, key, done) ↦ kept db db' id d f (ground arith)
]
Step-IsLater db db' id d (signs i s e) f =
    rw e
      (update_decision-IsLater _ _ i id db d (λ g. later d _ refl refl refl refl (ground arith)) f)
Step-IsLater db db' id d (terminates i status t e) f =
    rw e
      (update_decision-IsLater _ _ i id db d (λ g. later d _ refl refl refl refl (ground arith)) f)
Step-IsLater db db' id d (checks_expiry i e) f =
    rw e
      (update_decision-IsLater _ _ i id db d (λ g. later d _ refl refl refl refl (ground arith)) f)
Step-IsLater db db' id d (settles i tx deploy e) f =
    rw e
      (update_decision-IsLater _ _ i id db d (λ g. later d _ refl refl refl refl (ground arith)) f)
Step-IsLater db db' id d (settles_by_user i tx e) f =
    rw e
      (update_decision-IsLater _ _ i id db d (λ g. later d _ refl refl refl refl (ground arith)) f)
Step-IsLater db db' id d (settles_hold i o g s e) f =
    kept db db' id d f
      (ap (λ x. x.decision id) e ∙ resolve_found-decision i db settled_hold (db.hold i) id)
Step-IsLater db db' id d (releases_hold i o g s e) f =
    kept db db' id d f
      (ap (λ x. x.decision id) e ∙ resolve_found-decision i db released (db.hold i) id)

-- A decision that is settled, denied, failed or expired never changes again.
pub Reach-terminal :
    (db db' : Db) (id : ℕ) (d : Decision)
    → Reach db db'
    → db.decision id ≡ some d
    → includes terminal_statuses d.status ≡ true
    → db'.decision id ≡ some d
Reach-terminal db db' id d here e t = e
Reach-terminal db db' id d (after {middle} r s) e t =
    let (d', f, l) = Step-IsLater middle db' id d s (Reach-terminal db middle id d r e t) in
    elim l.moves [ inl same ↦ f ∙ ap some same | inr moved ↦ absurd (ground (arith, t, moved)) ]

unsigned :
    (d : Decision) → row_check d ≡ true → d.status ≡ reserved → is_some d.signed_header_hash ≡ false
unfolding row_check
unsigned d c r = ground (arith, c, r)

unchecked :
    (d : Decision) (tx deploy : Option ℕ)
    → is_some d.signed_header_hash ≡ false
    → row_check (record d { status = settled; tx_hash = tx; deploy_hash = deploy }) ≡ false
unfolding row_check
unchecked d tx deploy u = ground (arith, u)

refused :
    (guard : Decision → Bool) (change : Decision → Decision) (id : ℕ) (db : Db) (d : Decision)
    → row_check (change d) ≡ false
    → (x : Option Decision) → x ≡ some d
    → ((update_found guard change id x db).0 ≡ db)
      × ((update_found guard change id x db).1 ≢ rows true)
unfolding update_found
refused guard change id db d u x e = rw e (elim (Bool-cases (guard d)) [
  | inl passes ↦ (ground arith, ground arith)
  | inr stops ↦ (ground arith, ground arith)
])

-- On consistent tables a decision that is only reserved is never settled by the user's report of a
-- transaction: its row has no signed header, which the CHECKs demand of a settled one.
pub settled_by_user-reserved :
    (id tx : ℕ) (db : Db) (d : Decision)
    → IsConsistent db
    → db.decision id ≡ some d
    → d.status ≡ reserved
    → ((mark_decision_settled_by_user id tx db).0 ≡ db)
      × ((mark_decision_settled_by_user id tx db).1 ≢ rows true)
unfolding mark_decision_settled_by_user update_decision
settled_by_user-reserved id tx db d c e r =
    refused _ _ id db d
      (unchecked d (some tx) (some tx) (unsigned d (ground (arith, c.rows_ok id)) r))
      (db.decision id) e
