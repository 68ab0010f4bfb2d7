-- ===== src/Control/Policy/Meet.antt =====
-- A compiled policy is the greatest lower bound of its layers: it narrows each of them, and every
-- policy that narrows each of them narrows it.
use casper_agops_server.Prelude.{
  ℕ, ◌≤◌, String, Bool, true, Option, none, some, ◌⊎◌, ◌≢◌, List, [], ◌∷◌, map, ◌≡◌, refl, ap, ◌↔◌,
  inl, inr, arith, HasEquality, includes, select, All, All-map, string_eq, Bool-cases, ◌==◌,
}
use casper_agops_server.Control.Policy.{
  SpendPolicy, AllocationPolicy, EffectivePolicy, CompileInput, Rail, rail_eq, smaller, larger,
  reduce, in_every, intersect_all, compile_spend, compile_allocation, meet_spend, meet_allocation,
  compile_effective_policy,
}

reduce-smaller-le : (a : ℕ) (bs : List ℕ) → reduce smaller a bs ≤ a
unfolding reduce smaller
reduce-smaller-le a [] = omega arith
reduce-smaller-le a (b ∷ bs) = ground (arith, reduce-smaller-le (smaller a b) bs)

reduce-larger-ge : (a : ℕ) (bs : List ℕ) → a ≤ reduce larger a bs
unfolding reduce larger
reduce-larger-ge a [] = omega arith
reduce-larger-ge a (b ∷ bs) = ground (arith, reduce-larger-ge (larger a b) bs)

module _ {A : Type 0} (f : A → ℕ) where
  reduce-smaller-lower : (a : ℕ) (ls : List A) → All (λ l. reduce smaller a (map f ls) ≤ f l) ls
  unfolding reduce smaller
  reduce-smaller-lower a [] = tt
  reduce-smaller-lower a (l ∷ ls) = (
    ground (arith, reduce-smaller-le (smaller a (f l)) (map f ls)),
    reduce-smaller-lower (smaller a (f l)) ls,
  )

  reduce-larger-upper : (a : ℕ) (ls : List A) → All (λ l. f l ≤ reduce larger a (map f ls)) ls
  unfolding reduce larger
  reduce-larger-upper a [] = tt
  reduce-larger-upper a (l ∷ ls) = (
    ground (arith, reduce-larger-ge (larger a (f l)) (map f ls)),
    reduce-larger-upper (larger a (f l)) ls,
  )

  reduce-smaller-greatest :
      (n a : ℕ) (ls : List A) → n ≤ a → All (λ l. n ≤ f l) ls → n ≤ reduce smaller a (map f ls)
  unfolding reduce smaller
  reduce-smaller-greatest n a [] h hs = h
  reduce-smaller-greatest n a (l ∷ ls) h hs =
      reduce-smaller-greatest n (smaller a (f l)) ls (ground arith) hs.1

  reduce-larger-least :
      (n a : ℕ) (ls : List A) → a ≤ n → All (λ l. f l ≤ n) ls → reduce larger a (map f ls) ≤ n
  unfolding reduce larger
  reduce-larger-least n a [] h hs = h
  reduce-larger-least n a (l ∷ ls) h hs =
      reduce-larger-least n (larger a (f l)) ls (ground arith) hs.1

module _ {A : Type 0} ⦃e : HasEquality A⦄ where
  includes-select :
      (p : A → Bool) (xs : List A) (a : A)
      → (includes (select p xs) a ≡ true) ↔ ((includes xs a ≡ true) × (p a ≡ true))
  includes-select p [] a = ground arith
  includes-select p (x ∷ xs) a = elim (Bool-cases (x == a)) [
    | inl same ↦
        let e' = (e.is_equal_iff x a).0 same in
        ground (arith, includes-select p xs a, same, ap p e')
    | inr other ↦ ground (arith, includes-select p xs a, other)
  ]

  in_every_iff :
      (layers : List (List A)) (a : A)
      → (in_every layers a ≡ true) ↔ All (λ l. includes l a ≡ true) layers
  unfolding in_every
  in_every_iff [] a = ground arith
  in_every_iff (l ∷ ls) a = ground (arith, in_every_iff ls a)

  -- An element is in the intersection exactly when it is in every layer.
  intersect_all_iff :
      (layer : List A) (layers : List (List A)) (a : A)
      → (includes (intersect_all (layer ∷ layers)) a ≡ true)
        ↔ All (λ l. includes l a ≡ true) (layer ∷ layers)
  unfolding intersect_all
  intersect_all_iff layer layers a =
      ground (
        arith,
        includes-select (in_every (layer ∷ layers)) layer a,
        in_every_iff (layer ∷ layers) a,
      )

-- `ls` and `map f ls` under a predicate.
All-of-map {ℓ κ} :
    {A : Type 0} {B : Type ℓ} (f : A → B) (P : B → Type κ) (ls : List A)
    → All P (map f ls)
    → All (λ l. P (f l)) ls
All-of-map f P [] h = tt
All-of-map f P (l ∷ ls) h = (h.0, All-of-map f P ls h.1)

All-to-map {ℓ κ} :
    {A : Type 0} {B : Type ℓ} (f : A → B) (P : B → Type κ) (ls : List A)
    → All (λ l. P (f l)) ls
    → All P (map f ls)
All-to-map f P [] h = tt
All-to-map f P (l ∷ ls) h = (h.0, All-to-map f P ls h.1)

-- The first policy allows nothing that the second forbids.
pub record NarrowsSpend (p q : SpendPolicy) : Type 0 where
  pub cap : p.spend_cap ≤ q.spend_cap
  pub per_transaction : p.per_transaction_max ≤ q.per_transaction_max
  pub velocity : p.velocity_limit_per_hour ≤ q.velocity_limit_per_hour
  pub scope : (x : String) → includes p.service_scope x ≡ true → includes q.service_scope x ≡ true
  pub rails : (x : Rail) → includes p.rail_permission x ≡ true → includes q.rail_permission x ≡ true

pub record NarrowsAllocation (p q : AllocationPolicy) : Type 0 where
  pub budget : p.total_budget ≤ q.total_budget
  pub per_agent : p.per_agent_max ≤ q.per_agent_max
  pub cooldown : q.cooldown_seconds ≤ p.cooldown_seconds
  pub destinations :
      (x : String)
      → includes p.allowed_destinations x ≡ true
      → includes q.allowed_destinations x ≡ true

-- `p` narrows every layer, and whatever narrows every layer narrows `p`.
abbrev pub IsMeet {ℓ} : {A : Type ℓ} → (A → A → Type 0) → List A → A → Type ℓ
IsMeet {A} Narrows layers p =
    All (Narrows p) layers × ((q : A) → All (Narrows q) layers → Narrows q p)

All-swap {ℓ κ} :
    {A : Type 0} {B : Type 0} (Q : B → Type κ) (P : B → A → Type ℓ) (ls : List A)
    → ((x : B) → Q x → All (P x) ls)
    → All (λ l. (x : B) → Q x → P x l) ls
All-swap Q P [] h = tt
All-swap Q P (l ∷ ls) h = (λ x q. (h x q).0, All-swap Q P ls (λ x q. (h x q).1))

-- `f` of a layer list with a head, meeting at `p`.
module _ {L A : Type 0} ⦃e : HasEquality A⦄ (f : L → List A) (l : L) (ls : List L) where
  meet_lower :
      All
        (λ k.
          (x : A) → includes (intersect_all (map f (l ∷ ls))) x ≡ true → includes (f k) x ≡ true)
        (l ∷ ls)
  meet_lower = All-swap _ _ (l ∷ ls) (λ x h.
      All-of-map f (λ k. includes k x ≡ true) (l ∷ ls) ((intersect_all_iff (f l) (map f ls) x).0 h))

  meet_greatest :
      (q : List A)
      → All (λ k. (x : A) → includes q x ≡ true → includes (f k) x ≡ true) (l ∷ ls)
      → (x : A) → includes q x ≡ true
      → includes (intersect_all (map f (l ∷ ls))) x ≡ true
  meet_greatest q h x m =
      (intersect_all_iff (f l) (map f ls) x).1
        (All-to-map f (λ k. includes k x ≡ true) (l ∷ ls) (All-map (λ k g. g x m) (l ∷ ls) h))

All-NarrowsSpend :
    (p : SpendPolicy) (ls : List SpendPolicy)
    → All (λ l. p.spend_cap ≤ l.spend_cap) ls
    → All (λ l. p.per_transaction_max ≤ l.per_transaction_max) ls
    → All (λ l. p.velocity_limit_per_hour ≤ l.velocity_limit_per_hour) ls
    → All
        (λ l. (x : String) → includes p.service_scope x ≡ true → includes l.service_scope x ≡ true)
        ls
    → All
        (λ l.
          (x : Rail) → includes p.rail_permission x ≡ true → includes l.rail_permission x ≡ true)
        ls
    → All (NarrowsSpend p) ls
All-NarrowsSpend p [] a b c d f = tt
All-NarrowsSpend p (l ∷ ls) a b c d f = (
  record { cap = a.0; per_transaction = b.0; velocity = c.0; scope = d.0; rails = f.0 },
  All-NarrowsSpend p ls a.1 b.1 c.1 d.1 f.1,
)

All-NarrowsAllocation :
    (p : AllocationPolicy) (ls : List AllocationPolicy)
    → All (λ l. p.total_budget ≤ l.total_budget) ls
    → All (λ l. p.per_agent_max ≤ l.per_agent_max) ls
    → All (λ l. l.cooldown_seconds ≤ p.cooldown_seconds) ls
    → All
        (λ l.
          (x : String)
          → includes p.allowed_destinations x ≡ true
          → includes l.allowed_destinations x ≡ true)
        ls
    → All (NarrowsAllocation p) ls
All-NarrowsAllocation p [] a b c d = tt
All-NarrowsAllocation p (l ∷ ls) a b c d = (
  record { budget = a.0; per_agent = b.0; cooldown = c.0; destinations = d.0 },
  All-NarrowsAllocation p ls a.1 b.1 c.1 d.1,
)

meet_spend-IsMeet :
    (l : SpendPolicy) (ls : List SpendPolicy) → IsMeet NarrowsSpend (l ∷ ls) (meet_spend l ls)
unfolding meet_spend
meet_spend-IsMeet l ls = (
  All-NarrowsSpend (meet_spend l ls) (l ∷ ls)
      (
        reduce-smaller-le l.spend_cap (map (λ p. p.spend_cap) ls),
        reduce-smaller-lower (λ p. p.spend_cap) l.spend_cap ls,
      )
      (
        reduce-smaller-le l.per_transaction_max (map (λ p. p.per_transaction_max) ls),
        reduce-smaller-lower (λ p. p.per_transaction_max) l.per_transaction_max ls,
      )
      (
        reduce-smaller-le l.velocity_limit_per_hour (map (λ p. p.velocity_limit_per_hour) ls),
        reduce-smaller-lower (λ p. p.velocity_limit_per_hour) l.velocity_limit_per_hour ls,
      )
      (meet_lower (λ p. p.service_scope) l ls) (meet_lower (λ p. p.rail_permission) l ls),
  λ q h. record {
    cap =
        reduce-smaller-greatest _ q.spend_cap l.spend_cap ls h.0.cap
          (All-map (λ k n. n.cap) ls h.1);
    per_transaction =
        reduce-smaller-greatest _ q.per_transaction_max l.per_transaction_max ls h.0.per_transaction
          (All-map (λ k n. n.per_transaction) ls h.1);
    velocity =
        reduce-smaller-greatest _ q.velocity_limit_per_hour l.velocity_limit_per_hour ls
          h.0.velocity (All-map (λ k n. n.velocity) ls h.1);
    scope = meet_greatest _ l ls q.service_scope (All-map (λ k n. n.scope) (l ∷ ls) h);
    rails = meet_greatest _ l ls q.rail_permission (All-map (λ k n. n.rails) (l ∷ ls) h);
  },
)

meet_allocation-IsMeet :
    (l : AllocationPolicy) (ls : List AllocationPolicy)
    → IsMeet NarrowsAllocation (l ∷ ls) (meet_allocation l ls)
unfolding meet_allocation
meet_allocation-IsMeet l ls = (
  All-NarrowsAllocation (meet_allocation l ls) (l ∷ ls)
      (
        reduce-smaller-le l.total_budget (map (λ p. p.total_budget) ls),
        reduce-smaller-lower (λ p. p.total_budget) l.total_budget ls,
      )
      (
        reduce-smaller-le l.per_agent_max (map (λ p. p.per_agent_max) ls),
        reduce-smaller-lower (λ p. p.per_agent_max) l.per_agent_max ls,
      )
      (
        reduce-larger-ge l.cooldown_seconds (map (λ p. p.cooldown_seconds) ls),
        reduce-larger-upper (λ p. p.cooldown_seconds) l.cooldown_seconds ls,
      )
      (meet_lower (λ p. p.allowed_destinations) l ls),
  λ q h. record {
    budget =
        reduce-smaller-greatest _ q.total_budget l.total_budget ls h.0.budget
          (All-map (λ k n. n.budget) ls h.1);
    per_agent =
        reduce-smaller-greatest _ q.per_agent_max l.per_agent_max ls h.0.per_agent
          (All-map (λ k n. n.per_agent) ls h.1);
    cooldown =
        reduce-larger-least _ q.cooldown_seconds l.cooldown_seconds ls h.0.cooldown
          (All-map (λ k n. n.cooldown) ls h.1);
    destinations =
        meet_greatest _ l ls q.allowed_destinations (All-map (λ k n. n.destinations) (l ∷ ls) h);
  },
)

-- What a compilation answers: nothing if a class has no layer, and else a policy with the identifiers
-- and the epoch of the input, whose two parts are the meets of the layers.
pub data Compiled (input : CompileInput) : Option EffectivePolicy → Type 0 where
  layerless : (input.spend_layers ≡ []) ⊎ (input.allocation_layers ≡ []) → Compiled input none
  compiled :
      (p : EffectivePolicy)
      → input.spend_layers ≢ []
      → input.allocation_layers ≢ []
      → IsMeet NarrowsSpend input.spend_layers p.spend
      → IsMeet NarrowsAllocation input.allocation_layers p.allocation
      → (p.policy_epoch ≡ input.policy_epoch)
        × (p.policy_id ≡ input.policy_id)
        × (p.org_id ≡ input.org_id)
        × (p.agent_id ≡ input.agent_id)
      → Compiled input (some p)

layers-Compiled :
    (input : CompileInput) (ss : List SpendPolicy) (as' : List AllocationPolicy)
    → input.spend_layers ≡ ss
    → input.allocation_layers ≡ as'
    → Compiled input (compile_effective_policy input)
unfolding compile_effective_policy compile_spend compile_allocation
layers-Compiled input [] as' es ea = rw es (layerless (inl refl))
layers-Compiled input (s ∷ ss) [] es ea = rw (es, ea) (layerless (inr refl))
layers-Compiled input (s ∷ ss) (a ∷ as') es ea =
    rw (es, ea)
      (compiled
        (record {
          agent_id = input.agent_id;
          org_id = input.org_id;
          policy_id = input.policy_id;
          policy_epoch = input.policy_epoch;
          spend = meet_spend s ss;
          allocation = meet_allocation a as';
        })
        (λ e. absurd (cc)) (λ e. absurd (cc)) (meet_spend-IsMeet s ss)
        (meet_allocation-IsMeet a as') (refl, refl, refl, refl))

-- An effective policy is compiled exactly when there is a layer of each class, and its two parts
-- are the meets of the layers: no layer is widened, and what all layers allow stays allowed. The
-- identifiers and the epoch are those of the input.
pub compile_effective_policy-IsMeet :
    (input : CompileInput) → Compiled input (compile_effective_policy input)
compile_effective_policy-IsMeet input =
    layers-Compiled input input.spend_layers input.allocation_layers refl refl
