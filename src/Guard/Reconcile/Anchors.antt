-- ===== src/Guard/Reconcile/Anchors.antt =====
-- The anchors under any interleaving of workers: claims, confirmations and failures.
use casper_agops_server.Prelude.{
  ℕ, ◌+◌, true, false, Option, none, some, List, [], ◌∷◌, ◌≡◌, refl, inl, inr, arith, ltb, is_some,
  Option-cases, ◌∙◌, =?_refl,
}
use casper_agops_server.Guard.Reconcile.{
  Anchor, submitted, is_confirmed, set_anchor, may_reclaim, claim_row, claim_anchor, finish_row,
  finish_anchor, confirm_anchor, fail_anchor,
}

abbrev Table : Type 0
Table = ℕ → ℕ → Option Anchor

-- The writes of the workers, in the order in which the database runs them.
pub data AnchorStep : Type 0 where
  claims : (new_id now stale id hash : ℕ) → AnchorStep
  confirms : (anchor_id tx now id hash : ℕ) → AnchorStep
  fails : (anchor_id now id hash : ℕ) → AnchorStep

pub anchor_step : Table → AnchorStep → Table
anchor_step m (claims new_id now stale id hash) = (claim_anchor new_id now stale id hash m).0
anchor_step m (confirms anchor_id tx now id hash) = (confirm_anchor anchor_id tx now id hash m).0
anchor_step m (fails anchor_id now id hash) = (fail_anchor anchor_id now id hash m).0

pub run_anchors : Table → List AnchorStep → Table
unfolding anchor_step
run_anchors m [] = m
run_anchors m (x ∷ xs) = run_anchors (anchor_step m x) xs

anchor_step-confirmed :
    (m : Table) (x : AnchorStep) (id hash : ℕ)
    → is_confirmed (m id hash) ≡ true
    → anchor_step m x id hash ≡ m id hash
unfolding anchor_step claim_anchor claim_row may_reclaim confirm_anchor fail_anchor finish_anchor
    finish_row
anchor_step-confirmed m (claims new_id now stale i h) id hash c = ground (arith, c)
anchor_step-confirmed m (confirms anchor_id tx now i h) id hash c = ground (arith, c)
anchor_step-confirmed m (fails anchor_id now i h) id hash c = ground (arith, c)

-- Once an anchor is confirmed, no claim, confirmation or failure of any worker changes its row, so
-- its proof and its transaction stay.
pub run_anchors-confirmed :
    (m : Table) (xs : List AnchorStep) (id hash : ℕ)
    → is_confirmed (m id hash) ≡ true
    → run_anchors m xs id hash ≡ m id hash
unfolding run_anchors
run_anchors-confirmed m [] id hash c = refl
run_anchors-confirmed m (x ∷ xs) id hash c =
    let same = anchor_step-confirmed m x id hash c in
    run_anchors-confirmed (anchor_step m x) xs id hash (rw same c) ∙ same

fresh_row :
    (new_id now stale : ℕ) (o : Option Anchor) (a : Anchor)
    → claim_row new_id now stale o ≡ some a
    → (a.state ≡ submitted) × (a.anchored_at ≡ now)
unfolding claim_row
fresh_row new_id now stale none a e = (ground (arith, e), ground (arith, e))
fresh_row new_id now stale (some x) a e = (ground (arith, e), ground (arith, e))

unconfirmed :
    (new_id now stale id hash : ℕ) (m : Table)
    → is_some (claim_anchor new_id now stale id hash m).1 ≡ true
    → is_confirmed (m id hash) ≡ false
unfolding claim_anchor claim_row may_reclaim
unconfirmed new_id now stale id hash m won = ground (arith, won)

submitted_refuses :
    (new_id now stale id hash : ℕ) (m : Table) (a : Anchor)
    → m id hash ≡ some a
    → a.state ≡ submitted
    → ltb (a.anchored_at + stale) now ≡ false
    → claim_anchor new_id now stale id hash m ≡ (m, none)
unfolding claim_anchor claim_row may_reclaim
submitted_refuses new_id now stale id hash m a e s t = ground (arith, e, s, t)

claimed :
    (new_id now stale id hash : ℕ) (m : Table)
    → is_some (claim_anchor new_id now stale id hash m).1 ≡ true
    → (a : Anchor) × (a.state ≡ submitted)
      × (a.anchored_at ≡ now)
      × ((claim_anchor new_id now stale id hash m).0 ≡ set_anchor id hash a m)
unfolding claim_anchor claim_row
claimed new_id now stale id hash m won =
    elim (Option-cases (claim_row new_id now stale (m id hash))) [
      | inl lost ↦ absurd (ground (arith, lost, won))
      | inr (a, e) ↦ (
        a,
        (fresh_row new_id now stale (m id hash) a e).0,
        (fresh_row new_id now stale (m id hash) a e).1,
        ground (arith, e),
      )
    ]

-- A claim is won only over no anchor, a failed one or one that was submitted too long ago, never over
-- a confirmed one; and until the limit after it is over, every other claim loses and changes nothing.
pub claim_anchor-wins :
    (new_id now stale id hash other later : ℕ) (m : Table)
    → is_some (claim_anchor new_id now stale id hash m).1 ≡ true
    → ltb (now + stale) later ≡ false
    → let m' = (claim_anchor new_id now stale id hash m).0 in
      (is_confirmed (m id hash) ≡ false) × (claim_anchor other later stale id hash m' ≡ (m', none))
claim_anchor-wins new_id now stale id hash other later m won early =
    let (a, is_submitted, at, wrote) = claimed new_id now stale id hash m won in
    (
      unconfirmed new_id now stale id hash m won,
      rw wrote (
          submitted_refuses other later stale id hash (set_anchor id hash a m) a
            (ground (arith, =?_refl id, =?_refl hash)) is_submitted (rw at early)),
    )
