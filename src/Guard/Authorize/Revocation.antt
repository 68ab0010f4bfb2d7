-- ===== src/Guard/Authorize/Revocation.antt =====
-- `revokeAgentInFlight`: what is left of an agent's open reservations.
use casper_agops_server.Prelude.{
  ℕ, true, false, some, List, [], ◌∷◌, ◌≡◌, refl, inl, inr, arith, nat_eq, includes, All,
  Bool-cases,
}
use casper_agops_server.Guard.Store.{
  status_eq, holds_reserved, list_reserved_for_revoke, list_committed_for_revoke,
}
use casper_agops_server.Guard.Store.Rows.{IsConsistent}
use casper_agops_server.Guard.Store.Listing.{
  passes, is_open, is_committed, includes-list_reserved, list_reserved-nil, list_committed-same,
}
use casper_agops_server.Ledger.Hot.Closed.{is_closed}
use casper_agops_server.Guard.Authorize.{World, fail_all, revoke_agent_in_flight}
use casper_agops_server.Guard.Authorize.Aborts.{is_reserved, is_failed, Aborts, fail_all-Aborts}

-- The decision is failed, its hold is not open, and the agent's hot keys do not count it.
abbrev pub IsAborted : ℕ → World → ℕ → Type 0
IsAborted agent w j =
    (is_failed (w.db.decision j) ≡ true)
    × (holds_reserved (w.db.hold j) ≡ false)
    × (is_closed (w.hot agent) j ≡ true)

All-intro {κ} :
    (P : ℕ → Type κ) (ids : List ℕ) → ((j : ℕ) → includes ids j ≡ true → P j) → All P ids
All-intro P [] h = tt
All-intro P (id ∷ ids) h = (h id (ground arith), All-intro P ids (λ j m. h j (ground arith)))

abbrev mine : ℕ → ℕ → World → List ℕ
mine agent org w = list_reserved_for_revoke w.db agent org

module _ (agent org : ℕ) (w : World) (c : IsConsistent w.db) where
  listed-reserved :
      (j : ℕ)
      → includes (mine agent org w) j ≡ true
      → passes (is_open agent org) (w.db.decision j) ≡ true
  listed-reserved j m = ground (arith, includes-list_reserved agent org w.db j)

  open-listed :
      (j : ℕ)
      → passes (is_open agent org) (w.db.decision j) ≡ true
      → includes (mine agent org w) j ≡ true
  open-listed j m = ground (arith, includes-list_reserved agent org w.db j, c.listed j)

  mine-Aborts :
      ((fail_all agent (mine agent org w) w).1 ≡ true)
      × Aborts agent (mine agent org w) w (fail_all agent (mine agent org w) w).0
  mine-Aborts =
      fail_all-Aborts agent (mine agent org w) w c (λ j m. ground (arith, listed-reserved j m))

  is_aborted :
      (w' : World)
      → Aborts agent (mine agent org w) w w'
      → (j : ℕ) → includes (mine agent org w) j ≡ true
      → IsAborted agent w' j
  is_aborted w' a j m =
      let r : is_reserved (w.db.decision j) ≡ true = ground (arith, listed-reserved j m) in
      (a.aborted j m, a.released j m r, a.hot_released j m r)

  none_open :
      (w' : World)
      → Aborts agent (mine agent org w) w w'
      → (j : ℕ) → passes (is_open agent org) (w'.db.decision j) ≡ false
  none_open w' a j = elim (Bool-cases (includes (mine agent org w) j)) [
    | inl now ↦ ground (arith, a.aborted j now)
    | inr other ↦ ground (arith, a.others j other, open-listed j)
  ]

  same_committed :
      (w' : World)
      → Aborts agent (mine agent org w) w w'
      → (j : ℕ)
      → passes (is_committed agent org) (w'.db.decision j)
        ≡ passes (is_committed agent org) (w.db.decision j)
  same_committed w' a j = elim (Bool-cases (includes (mine agent org w) j)) [
    | inl now ↦ ground (arith, a.aborted j now, listed-reserved j now)
    | inr other ↦ ground (arith, a.others j other)
  ]

  -- On consistent tables, `revokeAgentInFlight` throws nothing and answers the agent's RESERVED
  -- decisions of the org as aborted and its signed ones as committed. It leaves the tables
  -- consistent, every aborted decision failed with no hold open in the table or pending in the
  -- agent's hot keys, no RESERVED decision of the agent in the org, and the committed ones as they
  -- were listed.
  pub revoke_agent_in_flight-IsAborted :
      let out = revoke_agent_in_flight agent org w in
      (out.1
        ≡ some (list_reserved_for_revoke w.db agent org, list_committed_for_revoke w.db agent org))
      × IsConsistent out.0.db
      × All (IsAborted agent out.0) (list_reserved_for_revoke w.db agent org)
      × (list_reserved_for_revoke out.0.db agent org ≡ [])
      × (list_committed_for_revoke out.0.db agent org ≡ list_committed_for_revoke w.db agent org)
  unfolding revoke_agent_in_flight
  revoke_agent_in_flight-IsAborted =
      let (done, a) = mine-Aborts in
      let w' = (fail_all agent (mine agent org w) w).0 in
      (
        rw done refl,
        a.consistent,
        All-intro (IsAborted agent w') (mine agent org w) (λ j m. is_aborted w' a j m),
        list_reserved-nil agent org w'.db (none_open w' a),
        list_committed-same agent org w.db w'.db a.same_ids (same_committed w' a),
      )
