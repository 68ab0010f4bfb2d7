-- ===== src/Control/Epoch.antt =====
-- control/epoch.ts with epoch-bump.lua, control/publish.ts and enforcement/policy-epoch-guard.ts: the
-- mirror of each org's policy epoch, and the cache of effective policies that it guards. `layers` is
-- what `getEffectiveLayers` reads from Postgres for an agent, with its org's epoch. A blob is kept as
-- the policy that it encodes.
pub mod Freshness
mod Tests
use casper_agops_server.Prelude.{
  ℕ, Bool, true, false, Option, none, some, List, [], ◌∷◌, ltb, leb, update, if◌then◌else◌,
}
use casper_agops_server.Control.Policy.{EffectivePolicy, CompileInput, compile_effective_policy}

pub record Cache : Type 0 where
  pub layers : ℕ → CompileInput
  pub blobs : ℕ → Option EffectivePolicy
  pub epochs : ℕ → Option ℕ

-- epoch-bump.lua: the counter and whether it advanced.
pub bump : Option ℕ → ℕ → Option ℕ × Bool
bump none epoch = (some epoch, true)
bump (some current) epoch = if ltb current epoch then (some epoch, true) else (some current, false)

-- `bumpOrgEpoch`.
pub bump_org_epoch : ℕ → ℕ → Cache → Cache × Bool
unfolding bump
bump_org_epoch org epoch s =
    let (epoch', advanced) = bump (s.epochs org) epoch in
    (record s { epochs = update s.epochs org epoch' }, advanced)

-- `isCacheFresh`.
pub is_cache_fresh : Option EffectivePolicy → Option ℕ → Bool
is_cache_fresh none current = false
is_cache_fresh (some blob) none = false
is_cache_fresh (some blob) (some current) = leb current blob.policy_epoch

-- `recompileAgentPolicy`; `none` is the throw of the compilation.
pub recompile_agent_policy : ℕ → Cache → Cache × Option EffectivePolicy
recompile_agent_policy agent s = elim (compile_effective_policy (s.layers agent)) [
  | none ↦ (s, none)
  | some p ↦ (record s { blobs = update s.blobs agent (some p) }, some p)
]

pub serve : ℕ → ℕ → Option EffectivePolicy → Cache → Cache × Option (EffectivePolicy × Bool)
unfolding recompile_agent_policy bump_org_epoch is_cache_fresh
serve agent org blob s =
    if is_cache_fresh blob (s.epochs org)
    then elim blob [ none ↦ (s, none) | some p ↦ (s, some (p, false)) ]
    else let (s', fresh) = recompile_agent_policy agent s in
      elim fresh [
        | none ↦ (s', none)
        | some p ↦ ((bump_org_epoch org p.policy_epoch s').0, some (p, true))
      ]

-- `resolveEffectivePolicy`: the policy, and whether it was compiled anew.
pub resolve_effective_policy : ℕ → ℕ → Cache → Cache × Option (EffectivePolicy × Bool)
unfolding serve
resolve_effective_policy agent org s = serve agent org (s.blobs agent) s

-- Mirror writes of one org, in the order in which they arrive.
pub bump_all : Option ℕ → List ℕ → Option ℕ
unfolding bump
bump_all counter [] = counter
bump_all counter (epoch ∷ epochs) = bump_all (bump counter epoch).0 epochs
