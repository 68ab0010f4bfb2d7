-- ===== src/Guard/Store/Listing.antt =====
-- The lists of `listCasperGuardDecisionsForRevoke`.
use casper_agops_server.Prelude.{
  ℕ, Bool, false, ◌&&◌, Option, none, some, List, [], ◌∷◌, ◌≡◌, refl, inl, inr, arith, nat_eq,
  includes, Bool-cases, Option-cases,
}
use casper_agops_server.Guard.Store.{
  Db, Decision, reserved, status_beq, status_eq, is_owned, list_with, committed_statuses,
  list_reserved_for_revoke, list_committed_for_revoke,
}

abbrev pub passes : (Decision → Bool) → Option Decision → Bool
passes p none = false
passes p (some d) = p d

includes-list_with :
    (db : Db) (p : Decision → Bool) (ids : List ℕ) (j : ℕ)
    → includes (list_with db p ids) j ≡ (includes ids j && passes p (db.decision j))
unfolding list_with
includes-list_with db p [] j = refl
includes-list_with db p (id ∷ ids) j = elim (Option-cases (db.decision id)) [
  | inl missing ↦ ground (arith, includes-list_with db p ids j)
  | inr (d, e) ↦ elim (Bool-cases (p d)) [
    | inl ok ↦ ground (arith, includes-list_with db p ids j)
    | inr bad ↦ ground (arith, includes-list_with db p ids j)
  ]
]

list_with-ext :
    (db db' : Db) (p : Decision → Bool) (ids : List ℕ)
    → ((j : ℕ) → passes p (db.decision j) ≡ passes p (db'.decision j))
    → list_with db p ids ≡ list_with db' p ids
unfolding list_with
list_with-ext db db' p [] same = refl
list_with-ext db db' p (id ∷ ids) same = ground (arith, same id, list_with-ext db db' p ids same)

list_with-nil :
    (db : Db) (p : Decision → Bool) (ids : List ℕ)
    → ((j : ℕ) → passes p (db.decision j) ≡ false)
    → list_with db p ids ≡ []
unfolding list_with
list_with-nil db p [] empty = refl
list_with-nil db p (id ∷ ids) empty = ground (arith, empty id, list_with-nil db p ids empty)

abbrev pub is_open : ℕ → ℕ → Decision → Bool
is_open agent org d = is_owned agent org d && status_beq d.status reserved

abbrev pub is_committed : ℕ → ℕ → Decision → Bool
is_committed agent org d = is_owned agent org d && includes committed_statuses d.status

module _ (agent org : ℕ) where
  pub includes-list_reserved :
      (db : Db) (j : ℕ)
      → includes (list_reserved_for_revoke db agent org) j
        ≡ (includes db.ids j && passes (is_open agent org) (db.decision j))
  unfolding list_reserved_for_revoke
  includes-list_reserved db j = includes-list_with db (is_open agent org) db.ids j

  pub list_reserved-nil :
      (db : Db)
      → ((j : ℕ) → passes (is_open agent org) (db.decision j) ≡ false)
      → list_reserved_for_revoke db agent org ≡ []
  unfolding list_reserved_for_revoke
  list_reserved-nil db empty = list_with-nil db (is_open agent org) db.ids empty

  pub list_committed-same :
      (db db' : Db)
      → db'.ids ≡ db.ids
      → ((j : ℕ)
          → passes (is_committed agent org) (db'.decision j)
            ≡ passes (is_committed agent org) (db.decision j))
      → list_committed_for_revoke db' agent org ≡ list_committed_for_revoke db agent org
  unfolding list_committed_for_revoke
  list_committed-same db db' ids same =
      rw ids (list_with-ext db' db (is_committed agent org) db.ids same)
