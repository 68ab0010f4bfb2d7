-- ===== src/Identity/Principal/Fence.antt =====
-- Whom the guard of a route lets in.
use text.Mathlib.Text.{starts_with}
use casper_agops_server.Prelude.{
  ℕ, String, true, false, Option, none, some, List, [], ◌∷◌, find, ◌≡◌, ◌≢◌, refl, ◌⊎◌, inl, inr,
  arith, Bool-cases, Option-cases, ◌=?◌,
}
use casper_agops_server.Identity.Roles.{Role, key_role, satisfies_role}
use casper_agops_server.Identity.Tables.{
  Directory, Membership, ApiKey, Org, find_live_key, knows_key, find_legacy_org, resolve_session,
  role_in_org, list_memberships_for_user,
}
use casper_agops_server.Identity.Principal.{
  user, key, Principal, PrincipalOutcome, resolved, refused, Credentials, bearer_token,
  authenticate_key, choose_org, authenticate_session, authenticate_with, authenticate_principal,
  fence, require_role,
}

-- What a principal stands on: a live key, a key that only the legacy column knows, or a live session
-- of a member.
pub data IsAuthentic (hash : String → ℕ) (c : Credentials) (now : ℕ) (d : Directory) (p : Principal)
    : Type 0 where
  by_key :
      (token : String) (k : ApiKey)
      → bearer_token c.authorization ≡ some token
      → starts_with token "sk_" ≡ true
      → find_live_key (hash token) d.api_keys ≡ some k
      → p ≡ record { org_id = k.org_id; role = key_role; actor = key }
      → IsAuthentic hash c now d p
  by_legacy_key :
      (token : String) (o : Org)
      → bearer_token c.authorization ≡ some token
      → starts_with token "sk_" ≡ true
      → knows_key (hash token) d.api_keys ≡ false
      → find_legacy_org (hash token) d.orgs ≡ some o
      → p ≡ record { org_id = o.org_id; role = key_role; actor = key }
      → IsAuthentic hash c now d p
  by_session :
      (token : String) (uid : ℕ)
      → bearer_token c.authorization ≡ none
      → c.cookie ≡ some token
      → resolve_session (hash token) now d.sessions ≡ some uid
      → p.actor ≡ user uid
      → role_in_org uid p.org_id d.memberships ≡ some p.role
      → IsAuthentic hash c now d p

first_membership :
    (uid : ℕ) (ms : List Membership) (m : Membership) (rest : List Membership)
    → list_memberships_for_user uid ms ≡ m ∷ rest
    → role_in_org uid m.org_id ms ≡ some m.role
unfolding role_in_org list_memberships_for_user
first_membership uid [] m rest e = absurd (cc)
first_membership uid (x ∷ ms) m rest e = elim (Bool-cases (x.user_id =? uid)) [
  | inl same ↦ ground (arith, same, e)
  | inr other ↦ ground (arith, other, e, first_membership uid ms m rest)
]

found_membership :
    (uid requested : ℕ) (ms : List Membership) (m : Membership)
    → find (λ x. x.org_id =? requested) (list_memberships_for_user uid ms) ≡ some m
    → (m.org_id ≡ requested) × (role_in_org uid m.org_id ms ≡ some m.role)
unfolding role_in_org list_memberships_for_user
found_membership uid requested [] m e = absurd (cc)
found_membership uid requested (x ∷ ms) m e = elim (Bool-cases (x.user_id =? uid)) [
  | inl same ↦ elim (Bool-cases (x.org_id =? requested)) [
    | inl here ↦ ground (arith, same, here, e)
    | inr there ↦ ground (arith, same, there, e, found_membership uid requested ms m)
  ]
  | inr other ↦ ground (arith, other, e, found_membership uid requested ms m)
]

chosen-member :
    (uid requested : ℕ) (ms l : List Membership) (p : Principal)
    → list_memberships_for_user uid ms ≡ l
    → choose_org uid requested l ≡ resolved p
    → (p.actor ≡ user uid) × (role_in_org uid p.org_id ms ≡ some p.role)
unfolding choose_org
chosen-member uid requested ms [] p e out = absurd (cc)
chosen-member uid requested ms (m ∷ rest) p e out = elim (Bool-cases (requested =? 0)) [
  | inl any ↦ ground (arith, any, out, first_membership uid ms m rest e)
  | inr one ↦ elim (Option-cases (find (λ x. x.org_id =? requested) (m ∷ rest))) [
    | inl missing ↦ absurd (ground (arith, one, missing, out))
    | inr (x, found) ↦
        ground (arith, one, found, out, found_membership uid requested ms x (rw e found))
  ]
]

module _ (hash : String → ℕ) (c : Credentials) (now : ℕ) (d : Directory) (p : Principal) where
  key-IsAuthentic :
      (token : String)
      → bearer_token c.authorization ≡ some token
      → starts_with token "sk_" ≡ true
      → (authenticate_key (hash token) now d).1 ≡ resolved p
      → IsAuthentic hash c now d p
  unfolding authenticate_key
  key-IsAuthentic token e sk out = elim (Option-cases (find_live_key (hash token) d.api_keys)) [
    | inr (k, live) ↦ by_key token k e sk live (ground (arith, live, out))
    | inl dead ↦ elim (Bool-cases (knows_key (hash token) d.api_keys)) [
      | inl known ↦ absurd (ground (arith, dead, known, out))
      | inr unknown ↦ elim (Option-cases (find_legacy_org (hash token) d.orgs)) [
        | inl missing ↦ absurd (ground (arith, dead, unknown, missing, out))
        | inr (o, legacy) ↦
            by_legacy_key token o e sk unknown legacy (ground (arith, dead, unknown, legacy, out))
      ]
    ]
  ]

  session-IsAuthentic :
      (cookie : Option String) (requested : ℕ)
      → bearer_token c.authorization ≡ none
      → c.cookie ≡ cookie
      → authenticate_session hash cookie requested now d ≡ resolved p
      → IsAuthentic hash c now d p
  unfolding authenticate_session
  session-IsAuthentic none requested e same out = absurd (cc)
  session-IsAuthentic (some String.[]) requested e same out = absurd (cc)
  session-IsAuthentic (some (String.◌∷◌ a t)) requested e same out =
      elim (Option-cases (resolve_session (hash (String.◌∷◌ a t)) now d.sessions)) [
        | inl dead ↦ absurd (ground (arith, dead, out))
        | inr (uid, live) ↦
            let member_row =
              chosen-member uid requested d.memberships _ p refl (ground (arith, live, out)) in
            by_session (String.◌∷◌ a t) uid e same live member_row.0 member_row.1
      ]

  with-IsAuthentic :
      (o : Option String) (requested : ℕ)
      → bearer_token c.authorization ≡ o
      → (authenticate_with hash o c requested now d).1 ≡ resolved p
      → IsAuthentic hash c now d p
  unfolding authenticate_with
  with-IsAuthentic none requested e out = session-IsAuthentic c.cookie requested e refl out
  with-IsAuthentic (some token) requested e out = elim (Bool-cases (starts_with token "ag_")) [
    | inl agent ↦ absurd (ground (arith, agent, out))
    | inr other ↦ elim (Bool-cases (starts_with token "sk_")) [
      | inl sk ↦ key-IsAuthentic token e sk (ground (arith, other, sk, out))
      | inr neither ↦ absurd (ground (arith, other, neither, out))
    ]
  ]

fence_cases :
    (min : Role) (org : ℕ) (out : PrincipalOutcome) (p : Principal)
    → fence min org out ≡ resolved p
    → (out ≡ resolved p) × (satisfies_role p.role min ≡ true) × ((org ≡ 0) ⊎ (p.org_id ≡ org))
unfolding fence
fence_cases min org (refused n r) p e = absurd (cc)
fence_cases min org (resolved q) p e = ground (arith, e)

-- A route that names an org lets in only a principal of that org with the role or a higher one, and
-- only one that stands on a live key, on a key of the legacy column that has no row, or on a live
-- session of a member of the org with that role.
pub require_role-IsAuthentic :
    (hash : String → ℕ) (c : Credentials) (min : Role) (org now : ℕ) (d : Directory) (p : Principal)
    → org ≢ 0
    → (require_role hash c min org now d).1 ≡ resolved p
    → (p.org_id ≡ org) × (satisfies_role p.role min ≡ true) × IsAuthentic hash c now d p
unfolding require_role authenticate_principal
require_role-IsAuthentic hash c min org now d p named e = (
  ground (arith, named, passed),
  ground (arith, passed),
  with-IsAuthentic hash c now d p (bearer_token c.authorization) org refl (ground (arith, passed)),
)
  where
    passed :
        ((authenticate_with hash (bearer_token c.authorization) c org now d).1 ≡ resolved p)
        × (satisfies_role p.role min ≡ true)
        × ((org ≡ 0) ⊎ (p.org_id ≡ org))
    passed = fence_cases min org _ p e
