-- ===== src/Control/Epoch/Freshness.antt =====
-- The mirrored epoch is a high-water mark, and no stale policy is served.
use casper_agops_server.Prelude.{
  ℕ, ◌≤◌, Bool, true, false, Option, none, some, List, [], ◌∷◌, ◌≡◌, ◌⊎◌, inl, inr, arith, leb,
  ◌=?◌, nat_eq, includes, Bool-cases, Option-cases, =?_refl,
}
use casper_agops_server.Control.Policy.{EffectivePolicy, CompileInput, compile_effective_policy}
use casper_agops_server.Control.Epoch.{
  Cache, bump, bump_org_epoch, is_cache_fresh, recompile_agent_policy, serve,
  resolve_effective_policy, bump_all,
}

-- The counter is at least the epoch.
abbrev pub reaches : Option ℕ → ℕ → Bool
reaches none epoch = false
reaches (some current) epoch = leb epoch current

bump-reaches : (counter : Option ℕ) (epoch : ℕ) → reaches (bump counter epoch).0 epoch ≡ true
unfolding bump
bump-reaches none epoch = ground arith
bump-reaches (some current) epoch = ground arith

bump-keeps :
    (counter : Option ℕ) (epoch old : ℕ)
    → reaches counter old ≡ true
    → reaches (bump counter epoch).0 old ≡ true
unfolding bump
bump-keeps none epoch old r = ground (arith, r)
bump-keeps (some current) epoch old r = ground (arith, r)

bump_all-keeps :
    (counter : Option ℕ) (epochs : List ℕ) (old : ℕ)
    → reaches counter old ≡ true
    → reaches (bump_all counter epochs) old ≡ true
unfolding bump_all
bump_all-keeps counter [] old r = r
bump_all-keeps counter (epoch ∷ epochs) old r =
    bump_all-keeps (bump counter epoch).0 epochs old (bump-keeps counter epoch old r)

-- In whatever order the mirror writes of an org arrive, the counter ends at least as high as each of
-- them.
pub bump_all-reaches :
    (counter : Option ℕ) (epochs : List ℕ) (epoch : ℕ)
    → includes epochs epoch ≡ true
    → reaches (bump_all counter epochs) epoch ≡ true
unfolding bump_all
bump_all-reaches counter [] epoch m = absurd (cc)
bump_all-reaches counter (x ∷ epochs) epoch m = elim (Bool-cases (x =? epoch)) [
  | inl same ↦
      bump_all-keeps (bump counter x).0 epochs epoch (ground (arith, same, bump-reaches counter x))
  | inr other ↦ bump_all-reaches (bump counter x).0 epochs epoch (ground (arith, other, m))
]

compiled-epoch :
    (input : CompileInput) (p : EffectivePolicy)
    → compile_effective_policy input ≡ some p
    → p.policy_epoch ≡ input.policy_epoch
unfolding compile_effective_policy
compiled-epoch input p e = ground (arith, e)

-- The branch that compiles anew.
abbrev compile_and_bump : ℕ → ℕ → Cache → Cache × Option (EffectivePolicy × Bool)
compile_and_bump agent org s =
    let (s', fresh) = recompile_agent_policy agent s in
    elim fresh [
      | none ↦ (s', none)
      | some p ↦ ((bump_org_epoch org p.policy_epoch s').0, some (p, true))
    ]

recompiled_policy :
    (agent org : ℕ) (s : Cache) (p : EffectivePolicy) (recompiled : Bool)
    → (compile_and_bump agent org s).1 ≡ some (p, recompiled)
    → compile_effective_policy (s.layers agent) ≡ some p
unfolding recompile_agent_policy
recompiled_policy agent org s p recompiled e =
    elim (Option-cases (compile_effective_policy (s.layers agent))) [
      | inl throws ↦ absurd (ground (arith, throws, e))
      | inr (q, f) ↦ ground (arith, f, e)
    ]

anew :
    (agent org current : ℕ) (s : Cache) (p : EffectivePolicy) (recompiled : Bool)
    → current ≤ (s.layers agent).policy_epoch
    → (compile_and_bump agent org s).1 ≡ some (p, recompiled)
    → (current ≤ p.policy_epoch)
      × ((recompiled ≡ false) ⊎ (compile_effective_policy (s.layers agent) ≡ some p))
anew agent org current s p recompiled m e =
    let f = recompiled_policy agent org s p recompiled e in
    (omega (arith, m, compiled-epoch (s.layers agent) p f), inr f)

serve-IsFresh :
    (agent org current : ℕ) (s : Cache) (blob : Option EffectivePolicy) (p : EffectivePolicy)
    (recompiled : Bool)
    → current ≤ (s.layers agent).policy_epoch
    → s.epochs org ≡ some current
    → (serve agent org blob s).1 ≡ some (p, recompiled)
    → (current ≤ p.policy_epoch)
      × ((recompiled ≡ false) ⊎ (compile_effective_policy (s.layers agent) ≡ some p))
unfolding serve is_cache_fresh
serve-IsFresh agent org current s none p recompiled m c e =
    anew agent org current s p recompiled m (ground (arith, e))
serve-IsFresh agent org current s (some blob) p recompiled m c e =
    elim (Bool-cases (leb current blob.policy_epoch)) [
      | inl fresh ↦ (ground (arith, c, fresh, e), inl (ground (arith, c, fresh, e)))
      | inr stale ↦ anew agent org current s p recompiled m (ground (arith, c, stale, e))
    ]

-- While the mirror of an org's epoch is not ahead of the one that Postgres gives for the agent, the
-- policy that is served is never older than the mirrored epoch, and a policy that was compiled anew
-- is the compilation of the layers as they are.
pub resolve-IsFresh :
    (agent org current : ℕ) (s : Cache) (p : EffectivePolicy) (recompiled : Bool)
    → current ≤ (s.layers agent).policy_epoch
    → s.epochs org ≡ some current
    → (resolve_effective_policy agent org s).1 ≡ some (p, recompiled)
    → (current ≤ p.policy_epoch)
      × ((recompiled ≡ false) ⊎ (compile_effective_policy (s.layers agent) ≡ some p))
unfolding resolve_effective_policy
resolve-IsFresh agent org current s p recompiled m c e =
    serve-IsFresh agent org current s (s.blobs agent) p recompiled m c e

-- A second resolution after one that compiled anew finds the blob fresh and serves it.
again :
    (agent org current : ℕ) (s : Cache) (p : EffectivePolicy) (recompiled : Bool)
    → current ≤ (s.layers agent).policy_epoch
    → s.epochs org ≡ some current
    → (compile_and_bump agent org s).1 ≡ some (p, recompiled)
    → (resolve_effective_policy agent org (compile_and_bump agent org s).0).1 ≡ some (p, false)
unfolding resolve_effective_policy serve is_cache_fresh recompile_agent_policy bump_org_epoch bump
again agent org current s p recompiled m c e =
    let f = recompiled_policy agent org s p recompiled e in
    ground (arith, f, m, c, compiled-epoch (s.layers agent) p f, =?_refl agent, =?_refl org)

stale_compiles :
    (agent org : ℕ) (s : Cache)
    → is_cache_fresh (s.blobs agent) (s.epochs org) ≡ false
    → resolve_effective_policy agent org s ≡ compile_and_bump agent org s
unfolding resolve_effective_policy serve
stale_compiles agent org s stale = ground (arith, stale)

fresh_serves :
    (agent org : ℕ) (s : Cache) (p : EffectivePolicy) (recompiled : Bool)
    → is_cache_fresh (s.blobs agent) (s.epochs org) ≡ true
    → (resolve_effective_policy agent org s).1 ≡ some (p, recompiled)
    → ((resolve_effective_policy agent org s).0 ≡ s)
      × ((resolve_effective_policy agent org s).1 ≡ some (p, false))
unfolding resolve_effective_policy serve
fresh_serves agent org s p recompiled fresh e = (ground (arith, fresh, e), ground (arith, fresh, e))

-- A resolution heals the cache: with the mirror not ahead of Postgres, the next resolution serves the
-- same policy from the cache.
pub resolve_again :
    (agent org current : ℕ) (s : Cache) (p : EffectivePolicy) (recompiled : Bool)
    → current ≤ (s.layers agent).policy_epoch
    → s.epochs org ≡ some current
    → (resolve_effective_policy agent org s).1 ≡ some (p, recompiled)
    → (resolve_effective_policy agent org (resolve_effective_policy agent org s).0).1
      ≡ some (p, false)
resolve_again agent org current s p recompiled m c e =
    elim (Bool-cases (is_cache_fresh (s.blobs agent) (s.epochs org))) [
      | inl fresh ↦
          let (same, served) = fresh_serves agent org s p recompiled fresh e in rw same served
      | inr stale ↦
          rw (stale_compiles agent org s stale)
            (again agent org current s p recompiled m c (rw (← stale_compiles agent org s stale) e))
    ]
