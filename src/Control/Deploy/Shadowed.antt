-- ===== src/Control/Deploy/Shadowed.antt =====
-- Two agents of one role in a deployed fleet.
use casper_agops_server.Prelude.{
  ℕ, suc, ◌≤◌, ◌<◌, All-map, String, Bool, true, false, ◌&&◌, Option, none, some, map, ap, ◌∙◌,
  refl, sym, ◌⊎◌, List, [], ◌∷◌, select, All, ◌≡◌, ◌≢◌, inl, inr, arith, Bool-cases, Option-cases,
  ◌=?◌, ◌==◌, string_eq, is_some,
}
use casper_agops_server.Control.Store.{Store, Assignment, has_org, register_agent}
use casper_agops_server.Control.Graph.{
  CompiledGraphConfig, CompiledFlowRole, agents, compile_graph_to_config,
}
use casper_agops_server.Control.Canvas.{Graph, NodeId, Agent}
use casper_agops_server.Control.Graph.Validate.{GraphError, validate_graph}
use casper_agops_server.Control.Flow.{role_agent, attach_trading_flow}
use casper_agops_server.Control.Flow.Attached.{is_agent_scope}
use casper_agops_server.Control.Flow.Untouched.{attach-select}
use casper_agops_server.Control.Deploy.{
  Created, role_assignments, attach_created, to_compiled_trading_flow, DeployOutcome, deployed,
  deploy_failed, attach_throws, DeployedAgent, policy_of_role, pending_grants, create_agents,
  deploy_graph, node_of_role, DeployError, created_more, public_key, role_node_missing,
  register_throws,
}

abbrev pub is_for : ℕ → Assignment → Bool
is_for agent a = is_agent_scope a.scope && a.scope_id =? agent

other_agent :
    (agent : ℕ) (role : String) (b : ℕ) (cs : List Created)
    → All (λ (c : Created). c.agent_id ≢ agent) cs
    → role_agent role (role_assignments cs) ≡ some b
    → b ≢ agent
unfolding role_agent
other_agent agent role b [] all e = absurd (cc)
other_agent agent role b (c ∷ cs) all e =
    elim (Option-cases (role_agent role (role_assignments cs))) [
      | inr (d, found) ↦ other_agent agent role b cs all.1 (ground (arith, found, e))
      | inl missing ↦ ground (arith, missing, e, all.0)
    ]

shadowed_agent :
    (c : Created) (role : String) (b : ℕ) (cs : List Created)
    → All (λ (d : Created). d.agent_id ≢ c.agent_id) cs
    → is_some (role_agent c.role (role_assignments cs)) ≡ true
    → role_agent role (role_assignments (c ∷ cs)) ≡ some b
    → b ≢ c.agent_id
unfolding role_agent
shadowed_agent c role b cs all later e =
    elim (Option-cases (role_agent role (role_assignments cs))) [
      | inr (d, found) ↦ other_agent c.agent_id role b cs all (ground (arith, found, e))
      | inl missing ↦ elim (Bool-cases (c.role == role)) [
        | inl same ↦
            absurd (ground (arith, missing, later, (string_eq.is_equal_iff c.role role).0 same))
        | inr other ↦ absurd (ground (arith, missing, other, e))
      ]
    ]

attach_created-shadowed :
    (org : ℕ) (g : Graph) (config : CompiledGraphConfig) (c : Created) (cs : List Created)
    (s : Store)
    → All (λ (d : Created). d.agent_id ≢ c.agent_id) cs
    → is_some (role_agent c.role (role_assignments cs)) ≡ true
    → select (is_for c.agent_id) (attach_created org g config (s, inr (c ∷ cs))).0.assignments
      ≡ select (is_for c.agent_id) s.assignments
unfolding attach_created
attach_created-shadowed org g config c cs s all later =
    attach-select (is_for c.agent_id) org (role_assignments (c ∷ cs))
      (λ role agent policy e. ground (arith, shadowed_agent c role agent cs all later e))
      (to_compiled_trading_flow config).roles s

abbrev created_of : DeployOutcome → List Created
created_of (deployed xs grants) = map (λ (x : DeployedAgent). x.created) xs
created_of (deploy_failed e) = []

abbrev is_deployed : DeployOutcome → Bool
is_deployed (deployed xs grants) = true
is_deployed (deploy_failed e) = false

map-created :
    (policy : Created → Option ℕ) (cs : List Created)
    → map
        (λ (x : DeployedAgent). x.created)
        (map (λ (c : Created). record { created = c; policy_id = policy c }) cs)
      ≡ cs
map-created policy [] = refl
map-created policy (c ∷ cs) = ap (λ l. c ∷ l) (map-created policy cs)

-- A deployment that succeeds answers with the agents that it was given.
attach_created-created :
    (org : ℕ) (g : Graph) (config : CompiledGraphConfig) (s : Store) (cs : List Created)
    (o : Option (List (String × (ℕ × ℕ))))
    → (attach_trading_flow org (to_compiled_trading_flow config).roles (role_assignments cs) s).1
      ≡ o
    → is_deployed (attach_created org g config (s, inr cs)).1 ≡ true
    → created_of (attach_created org g config (s, inr cs)).1 ≡ cs
unfolding attach_created
attach_created-created org g config s cs none e d = absurd (ground (arith, e, d))
attach_created-created org g config s cs (some l) e d =
    ap
      (λ o. created_of (elim o [
        | none ↦ deploy_failed attach_throws
        | some k ↦
            deployed
              (map (λ (x : Created). record { created = x; policy_id = policy_of_role x.role k })
                cs)
              (pending_grants cs g.nodes)
      ]))
      e
    ∙ map-created (λ x. policy_of_role x.role l) cs

registered :
    (org : ℕ) (name : String) (hash : ℕ) (s : Store) (x : Store × ℕ)
    → register_agent org none name hash s ≡ some x
    → (x.1 ≡ s.next_id) × (x.0.next_id ≡ suc s.next_id) × (x.0.assignments ≡ s.assignments)
unfolding register_agent
registered org name hash s x e = elim (Bool-cases (has_org org s.orgs)) [
  | inr unknown ↦ absurd (ground (arith, unknown, e))
  | inl known ↦ (ground (arith, known, e), ground (arith, known, e), ground (arith, known, e))
]

more-created :
    (c : Created) (out : Store × (DeployError ⊎ List Created)) (d : Created) (cs : List Created)
    → (created_more c out).1 ≡ inr (d ∷ cs)
    → (out.1 ≡ inr cs) × (d ≡ c)
more-created c (s, inl x) d cs e = absurd (cc)
more-created c (s, inr ds) d cs e = (ground arith, ground arith)

more-assignments :
    (c : Created) (out : Store × (DeployError ⊎ List Created)) → (created_more c out).0 ≡ out.0
more-assignments c (s, inl x) = refl
more-assignments c (s, inr ds) = refl

module _ (provision : Option (ℕ → Option ℕ)) (mint : ℕ → ℕ) where
  create_agents-step :
      (org : ℕ) (nodes : List (NodeId × Agent)) (r : CompiledFlowRole) (rs : List CompiledFlowRole)
      (s : Store)
      → ((e : DeployError) × (create_agents provision mint org nodes (r ∷ rs) s ≡ (s, inl e)))
        ⊎ ((c : Created) × (x : Store × ℕ) × (c.agent_id ≡ s.next_id)
            × (x.0.next_id ≡ suc s.next_id)
            × (x.0.assignments ≡ s.assignments)
            × (create_agents provision mint org nodes (r ∷ rs) s
                ≡ created_more c (create_agents provision mint org nodes rs x.0)))
  unfolding create_agents
  create_agents-step org nodes r rs s = elim (Option-cases (node_of_role r.role nodes)) [
    | inl missing ↦ inl (role_node_missing r.role, ground (arith, missing))
    | inr (node, named) ↦
        elim (Option-cases (register_agent org none r.agent_name (mint s.next_id) s)) [
          | inl throws ↦ inl (register_throws, ground (arith, named, throws))
          | inr (x, e) ↦
              let (id, next, same) = registered org r.agent_name (mint s.next_id) s x e in
              inr (
                record {
                  node_id = node;
                  role = r.role;
                  agent_id = x.1;
                  name = r.agent_name;
                  delegated_public_key = public_key provision x.1;
                },
                x,
                id,
                next,
                same,
                ground (arith, named, e),
              )
        ]
  ]

  create_agents-assignments :
      (org : ℕ) (nodes : List (NodeId × Agent)) (rs : List CompiledFlowRole) (s : Store)
      → (create_agents provision mint org nodes rs s).0.assignments ≡ s.assignments
  unfolding create_agents
  create_agents-assignments org nodes [] s = refl
  create_agents-assignments org nodes (r ∷ rs) s = elim (create_agents-step org nodes r rs s) [
    | inl (e, fails) ↦ ap (λ o. o.0.assignments) fails
    | inr (c, x, id, next, same, more) ↦
        ap (λ o. o.0.assignments) more
        ∙ ap (λ t. t.assignments)
            (more-assignments c (create_agents provision mint org nodes rs x.0))
        ∙ create_agents-assignments org nodes rs x.0
        ∙ same
  ]

  -- The agents get new numbers, each a larger one than the agents before it.
  create_agents-later :
      (org n : ℕ) (nodes : List (NodeId × Agent)) (rs : List CompiledFlowRole) (s : Store)
      (cs : List Created)
      → n ≤ s.next_id
      → (create_agents provision mint org nodes rs s).1 ≡ inr cs
      → All (λ (c : Created). n ≤ c.agent_id) cs
  unfolding create_agents
  create_agents-later org n nodes rs s [] le e = tt
  create_agents-later org n nodes [] s (c ∷ cs) le e = absurd (cc)
  create_agents-later org n nodes (r ∷ rs) s (c ∷ cs) le e =
      elim (create_agents-step org nodes r rs s) [
        | inl (x, fails) ↦ absurd (cc (e, ap (λ o. o.1) fails))
        | inr (d, x, id, next, same, more) ↦
            let (rest, head) =
              more-created d (create_agents provision mint org nodes rs x.0) c cs
                (sym (ap (λ o. o.1) more) ∙ e) in
            (
              ground (arith, head, id, le),
              create_agents-later org n nodes rs x.0 cs (omega (arith, next, le)) rest,
            )
      ]

  create_agents-first :
      (org : ℕ) (nodes : List (NodeId × Agent)) (rs : List CompiledFlowRole) (s : Store)
      (c : Created) (cs : List Created)
      → (create_agents provision mint org nodes rs s).1 ≡ inr (c ∷ cs)
      → (c.agent_id ≡ s.next_id) × All (λ (d : Created). suc s.next_id ≤ d.agent_id) cs
  unfolding create_agents
  create_agents-first org nodes [] s c cs e = absurd (cc)
  create_agents-first org nodes (r ∷ rs) s c cs e = elim (create_agents-step org nodes r rs s) [
    | inl (x, fails) ↦ absurd (cc (e, ap (λ o. o.1) fails))
    | inr (d, x, id, next, same, more) ↦
        let (rest, head) =
          more-created d (create_agents provision mint org nodes rs x.0) c cs
            (sym (ap (λ o. o.1) more) ∙ e) in
        (
          ground (arith, head, id),
          create_agents-later org (suc s.next_id) nodes rs x.0 cs (omega (arith, next)) rest,
        )
  ]

  -- What a deployment that succeeds has done.
  deploy_graph-created :
      (org : ℕ) (g : Graph) (s : Store) (es : List GraphError) (o : Option CompiledGraphConfig)
      → validate_graph g ≡ es
      → compile_graph_to_config g ≡ o
      → is_deployed (deploy_graph provision mint org g s).1 ≡ true
      → (c : CompiledGraphConfig) × (deploy_graph provision mint org g s
          ≡ attach_created org g c
              (create_agents provision mint org (agents g.nodes) c.flow.roles s))
  unfolding deploy_graph
  deploy_graph-created org g s (x ∷ es) o v k d = absurd (ground (arith, v, d))
  deploy_graph-created org g s [] none v k d = absurd (ground (arith, v, k, d))
  deploy_graph-created org g s [] (some c) v k d = (c, ground (arith, v, k))

  nothing_for :
      (agent n : ℕ) (as' : List Assignment)
      → n ≤ agent
      → All (λ (a : Assignment). a.scope_id < n) as'
      → select (is_for agent) as' ≡ []
  nothing_for agent n [] le below = refl
  nothing_for agent n (a ∷ as') le below =
      ground (arith, below.0, nothing_for agent n as' le below.1)

  attached-shadowed :
      (org : ℕ) (g : Graph) (config : CompiledGraphConfig) (s : Store) (x : Created)
      (xs : List Created) (out : Store × (DeployError ⊎ List Created))
      → create_agents provision mint org (agents g.nodes) config.flow.roles s ≡ out
      → All (λ (a : Assignment). a.scope_id < s.next_id) s.assignments
      → is_deployed (attach_created org g config out).1 ≡ true
      → created_of (attach_created org g config out).1 ≡ x ∷ xs
      → is_some (role_agent x.role (role_assignments xs)) ≡ true
      → select (is_for x.agent_id) (attach_created org g config out).0.assignments ≡ []
  unfolding attach_created
  attached-shadowed org g config s x xs (s', inl e) made below d fleet later = absurd (cc)
  attached-shadowed org g config s x xs (s', inr cs) made below d fleet later =
      let same : cs ≡ x ∷ xs = sym (attach_created-created org g config s' cs _ refl d) ∙ fleet in
      let (first, rest) =
        create_agents-first org (agents g.nodes) config.flow.roles s x xs
          (ap (λ o. o.1) made ∙ ap inr same) in
      let kept : s'.assignments ≡ s.assignments =
        ap (λ o. o.0.assignments) (sym made)
        ∙ create_agents-assignments org (agents g.nodes) config.flow.roles s in
      ap (λ l. select (is_for x.agent_id) (attach_created org g config (s', inr l)).0.assignments)
        same
      ∙ attach_created-shadowed org g config x xs s'
          (All-map (λ c le. ground (arith, le, first)) xs rest) later
      ∙ ap (select (is_for x.agent_id)) kept
      ∙ nothing_for x.agent_id s.next_id s.assignments (omega (arith, first)) below

  -- When a deployment succeeds and a later agent of the fleet has the role of its first agent, the
  -- first agent is left without any policy of its own, in a store whose assignments are to numbers
  -- that were given out.
  pub deploy_graph-shadowed :
      (org : ℕ) (g : Graph) (s : Store) (x : DeployedAgent) (xs : List DeployedAgent)
      (grants : List (NodeId × ℕ))
      → All (λ (a : Assignment). a.scope_id < s.next_id) s.assignments
      → (deploy_graph provision mint org g s).1 ≡ deployed (x ∷ xs) grants
      → is_some
          (role_agent x.created.role (role_assignments (map (λ (y : DeployedAgent). y.created) xs)))
        ≡ true
      → select (is_for x.created.agent_id) (deploy_graph provision mint org g s).0.assignments ≡ []
  deploy_graph-shadowed org g s x xs grants below done later =
      let d : is_deployed (deploy_graph provision mint org g s).1 ≡ true = ap is_deployed done in
      let (c, made) = deploy_graph-created org g s _ _ refl refl d in
      ap (λ o. select (is_for x.created.agent_id) o.0.assignments) made
      ∙ attached-shadowed org g c s x.created (map (λ (y : DeployedAgent). y.created) xs) _ refl
          below (ap (λ o. is_deployed o.1) (sym made) ∙ d)
          (ap (λ o. created_of o.1) (sym made) ∙ ap created_of done) later
