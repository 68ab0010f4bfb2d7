-- ===== src/Identity/Principal.antt =====
-- identity/access/principal.ts and route-guard.ts. `hash` is `hashApiKey`. The session's cookie is
-- what `parseCookies` finds under the cookie's name. The write of `last_used_at`, which the code does
-- not wait for, is done at once.
pub mod Fence
use text.Mathlib.Text.{starts_with}
use casper_agops_server.Prelude.{
  ℕ, zero, suc, String, Bool, true, false, not, ◌&&◌, ◌||◌, Option, none, some, List, [], ◌∷◌, find,
  trim, skip, ◌=?◌, if◌then◌else◌,
}
use casper_agops_server.Identity.Roles.{Role, key_role, satisfies_role}
use casper_agops_server.Identity.Tables.{
  Directory, Membership, ApiKey, find_live_key, knows_key, find_legacy_org, touch_key,
  resolve_session, list_memberships_for_user,
}

pub data Actor : Type 0 where
  user : (user_id : ℕ) → Actor
  key : Actor

pub record Principal : Type 0 where
  pub org_id : ℕ
  pub role : Role
  pub actor : Actor

pub data Reason : Type 0 where
  agent_key_not_permitted invalid_token invalid_admin_key unauthenticated : Reason
  invalid_session no_org_membership not_a_member_of_org org_not_found : Reason
  insufficient_role : Reason

pub data PrincipalOutcome : Type 0 where
  resolved : Principal → PrincipalOutcome
  refused : (code : ℕ) → Reason → PrincipalOutcome

-- The headers of a request that the guards read; `selected_org` is 0 when the header is missing.
pub record Credentials : Type 0 where
  pub cookie : Option String
  pub authorization : Option String
  pub selected_org : ℕ

-- The token of a Bearer header.
unfoldable pub bearer_token : Option String → Option String
bearer_token none = none
bearer_token (some h) = if starts_with h "Bearer " then some (trim (skip 7 h)) else none

-- An `sk_` key: the active row, else the legacy column for a key that has no row.
unfoldable pub authenticate_key : ℕ → ℕ → Directory → Directory × PrincipalOutcome
unfolding find_live_key knows_key find_legacy_org touch_key
authenticate_key hash now d = elim (find_live_key hash d.api_keys) [
  | some k ↦ (
    record d { api_keys = touch_key k.key_id now d.api_keys },
    resolved (record { org_id = k.org_id; role = key_role; actor = key }),
  )
  | none ↦
      if knows_key hash d.api_keys
      then (d, refused 401 invalid_admin_key)
      else elim (find_legacy_org hash d.orgs) [
        | some o ↦ (d, resolved (record { org_id = o.org_id; role = key_role; actor = key }))
        | none ↦ (d, refused 401 invalid_admin_key)
      ]
]

abbrev as_member : ℕ → Membership → PrincipalOutcome
as_member uid m = resolved (record { org_id = m.org_id; role = m.role; actor = user uid })

-- The org that is asked for if the user is a member of it, else the first membership.
unfoldable pub choose_org : ℕ → ℕ → List Membership → PrincipalOutcome
choose_org uid requested [] = refused 403 no_org_membership
choose_org uid requested (m ∷ ms) =
    if requested =? 0 then as_member uid m else elim (find (λ x. x.org_id =? requested) (m ∷ ms)) [
      | none ↦ refused 403 not_a_member_of_org
      | some x ↦ as_member uid x
    ]

-- The role floor, and before it the fence of a route that names an org.
unfoldable pub fence : Role → ℕ → PrincipalOutcome → PrincipalOutcome
fence min org (refused n r) = refused n r
fence min org (resolved p) =
    if not (org =? 0) && not (p.org_id =? org)
    then refused 404 org_not_found
    else if not (satisfies_role p.role min)
    then refused 403 insufficient_role
    else resolved p

module _ (hash : String → ℕ) where
  unfoldable pub authenticate_session : Option String → ℕ → ℕ → Directory → PrincipalOutcome
  unfolding resolve_session list_memberships_for_user choose_org
  authenticate_session none requested now d = refused 401 unauthenticated
  authenticate_session (some String.[]) requested now d = refused 401 unauthenticated
  authenticate_session (some (String.◌∷◌ c t)) requested now d =
      elim (resolve_session (hash (String.◌∷◌ c t)) now d.sessions) [
        | none ↦ refused 401 invalid_session
        | some uid ↦ choose_org uid requested (list_memberships_for_user uid d.memberships)
      ]

  unfoldable pub authenticate_with :
      Option String → Credentials → ℕ → ℕ → Directory → Directory × PrincipalOutcome
  unfolding authenticate_key authenticate_session
  authenticate_with (some token) c requested now d =
      if starts_with token "ag_"
      then (d, refused 401 agent_key_not_permitted)
      else if not (starts_with token "sk_")
      then (d, refused 401 invalid_token)
      else authenticate_key (hash token) now d
  authenticate_with none c requested now d = (d, authenticate_session c.cookie requested now d)

  -- `authenticatePrincipal`.
  unfoldable pub authenticate_principal :
      Credentials → ℕ → ℕ → Directory → Directory × PrincipalOutcome
  unfolding bearer_token authenticate_with
  authenticate_principal c requested now d =
      authenticate_with (bearer_token c.authorization) c requested now d

  -- `requireRole`.
  unfoldable pub require_role :
      Credentials → Role → ℕ → ℕ → Directory → Directory × PrincipalOutcome
  unfolding authenticate_principal fence
  require_role c min org now d =
      let (d', out) = authenticate_principal c org now d in (d', fence min org out)

  -- `selectAndAuthorize`.
  pub select_and_authorize : Credentials → Role → ℕ → Directory → Directory × PrincipalOutcome
  unfolding authenticate_principal fence
  select_and_authorize c min now d =
      let (d', out) = authenticate_principal c c.selected_org now d in (d', fence min 0 out)

  -- `authForRoute`; the org is that of the route's path.
  unfoldable pub auth_for_route :
      Credentials → Role → Option ℕ → ℕ → Directory → Directory × PrincipalOutcome
  unfolding require_role select_and_authorize
  auth_for_route c min (some org) now d = require_role c min org now d
  auth_for_route c min none now d = select_and_authorize c min now d
