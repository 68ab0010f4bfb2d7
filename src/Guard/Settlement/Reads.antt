-- ===== src/Guard/Settlement/Reads.antt =====
-- What the readers make of a node that does not answer, and of a trade.
use casper_agops_server.Prelude.{
  ℕ, String, Bool, true, false, Option, none, some, [], ◌∷◌, ◌≡◌, ◌≢◌, refl, ap, ◌∙◌, ◌⊎◌, inl, inr,
  arith,
}
use mathlib.Core.Path.{subst, sym}
use casper_agops_server.Guard.Intent.{CsprTrade, trades, kind}
use casper_agops_server.Guard.Store.{Decision, settled}
use casper_agops_server.Guard.Reconcile.{
  ReadStatus, read_pending, ReconcileState, ReconcileDeps, reconcile_decision,
}
use casper_agops_server.Guard.Reconcile.Ambiguity.{
  KeepsHolds, IsUncertain, throws_read, uncertain-KeepsHolds,
}
use casper_agops_server.Guard.Stored.{
  stored_fields, pair_of, asset_pair, route_pair, text_at, asset_at, digits_at, field_at,
}
use casper_agops_server.Guard.Settlement.{
  NodeReply, fetch_throws, http_error, body_throws, executions, get_deploy, read_finality,
  chased_hash, rpc_read, Facilitator, facilitator_read, TradeClient, cspr_trade_read, route_read,
  compose_read, submit_trade,
}

-- The node has executed the deploy.
abbrev pub is_executed : NodeReply → Bool
is_executed (executions (x ∷ xs)) = true
is_executed _ = false

-- Once there is a hash, every reader asks the node.
route_read-submitted :
    (c : TradeClient) (f : Facilitator) (strip : ℕ → ℕ) (node : ℕ → NodeReply) (d : Decision)
    (hash : ℕ)
    → chased_hash d ≡ some hash
    → route_read c f (get_deploy strip node) d ≡ rpc_read (get_deploy strip node) d
unfolding route_read cspr_trade_read facilitator_read
route_read-submitted c f strip node d hash e = ground (arith, e)

rpc_read-unexecuted :
    (strip : ℕ → ℕ) (node : ℕ → NodeReply) (d : Decision) (hash : ℕ) (reply : NodeReply)
    → chased_hash d ≡ some hash
    → node (strip hash) ≡ reply
    → is_executed reply ≡ false
    → (rpc_read (get_deploy strip node) d ≡ none)
      ⊎ (rpc_read (get_deploy strip node) d ≡ some read_pending)
unfolding rpc_read get_deploy read_finality
rpc_read-unexecuted strip node d hash fetch_throws e r n = inr (ground (arith, e, r))
rpc_read-unexecuted strip node d hash http_error e r n = inr (ground (arith, e, r))
rpc_read-unexecuted strip node d hash body_throws e r n = inl (ground (arith, e, r))
rpc_read-unexecuted strip node d hash (executions []) e r n = inr (ground (arith, e, r))
rpc_read-unexecuted strip node d hash (executions (x ∷ xs)) e r n = absurd (cc)

-- What the reader that the routes compose makes of a submitted decision that the node has not
-- executed: a throw, or what the request's body says.
composed-unexecuted :
    (c : TradeClient) (f : Facilitator) (strip : ℕ → ℕ) (node : ℕ → NodeReply) (body : ReadStatus)
    (d : Decision) (hash : ℕ)
    → chased_hash d ≡ some hash
    → is_executed (node (strip hash)) ≡ false
    → (compose_read (route_read c f (get_deploy strip node)) body d ≡ none)
      ⊎ (compose_read (route_read c f (get_deploy strip node)) body d ≡ some body)
unfolding compose_read
composed-unexecuted c f strip node body d hash e n =
    let asks = route_read-submitted c f strip node d hash e in
    elim (rpc_read-unexecuted strip node d hash (node (strip hash)) e refl n) [
      | inl throws ↦ inl (ground (arith, asks, throws))
      | inr pending ↦ inr (ground (arith, asks, pending))
    ]

-- As long as the node has not executed what a decision submitted, or cannot be asked, and the fallback
-- of the composed reader is pending or ambiguous, a reconciliation of the decision leaves every hold as
-- it is, whatever the facilitator and the trade client would answer.
pub unexecuted-KeepsHolds :
    (c : TradeClient) (f : Facilitator) (strip : ℕ → ℕ) (node : ℕ → NodeReply) (body : ReadStatus)
    (deps : ReconcileDeps) (id agent hash : ℕ) (s : ReconcileState) (d : Decision)
    → deps.read d ≡ compose_read (route_read c f (get_deploy strip node)) body d
    → IsUncertain (some body)
    → s.world.db.decision id ≡ some d
    → d.decision_id ≡ id
    → d.status ≢ settled
    → chased_hash d ≡ some hash
    → is_executed (node (strip hash)) ≡ false
    → KeepsHolds s (reconcile_decision deps id agent s).0
unexecuted-KeepsHolds c f strip node body deps id agent hash s d reads unsure found own live e n =
    uncertain-KeepsHolds deps id agent s d found own live
      (elim (composed-unexecuted c f strip node body d hash e n) [
        | inl throws ↦ subst IsUncertain (sym (reads ∙ throws)) throws_read
        | inr falls_back ↦ subst IsUncertain (sym (reads ∙ falls_back)) unsure
      ])

trade_fields :
    (dash_to_slash : String → String) (t : CsprTrade) (route risk : Option String)
    → t.route_id ≡ route
    → t.risk_label ≡ risk
    → (pair_of dash_to_slash (stored_fields (trades t)) ≡ "CSPR/sCSPR")
      × (digits_at "amount" (stored_fields (trades t)) ≡ some t.amount)
unfolding pair_of asset_pair route_pair text_at asset_at digits_at field_at stored_fields
trade_fields dash_to_slash t none none e f = rw (e, f) (refl, refl)
trade_fields dash_to_slash t none (some risk) e f = rw (e, f) (refl, refl)
trade_fields dash_to_slash t (some route) none e f = rw (e, f) (refl, refl)
trade_fields dash_to_slash t (some route) (some risk) e f = rw (e, f) (refl, refl)

-- A trade that has no hash yet is quoted and submitted as a swap of its amount of CSPR for sCSPR: the
-- assets it was authorised for, their direction and its route are under other keys of the stored
-- intent than those that the reader looks up.
pub cspr_trade_read-amount :
    (c : TradeClient) (strip : ℕ → ℕ) (node : ℕ → NodeReply) (d : Decision) (t : CsprTrade)
    → d.intent ≡ trades t
    → chased_hash d ≡ none
    → cspr_trade_read c (get_deploy strip node) d ≡ some (submit_trade c "CSPR/sCSPR" t.amount)
unfolding cspr_trade_read
cspr_trade_read-amount c strip node d t i e =
    let (pair, n) = trade_fields c.dash_to_slash t t.route_id t.risk_label refl refl in
    ground (arith, e, ap stored_fields i, ap kind i, pair, n)
