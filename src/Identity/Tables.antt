-- ===== src/Identity/Tables.antt =====
-- identity/access/api-key-store.ts, membership-store.ts, members-store.ts and
-- identity/account/session-store.ts, over the tables of src/db/migrations. A function is one statement.
-- Identifiers are numbers, and 0 stands for the empty string, which the code takes for a missing one;
-- a digest is the number that `hashApiKey` makes of a token. Times are the milliseconds of the
-- database's clock. Rows stand in the order of their creation. Where a UNIQUE key leaves at most one
-- row to a statement it takes the first that matches; an insert against a UNIQUE key is `none`, the
-- throw.
use casper_agops_server.Prelude.{
  ℕ, suc, ◌+◌, String, Bool, true, false, not, ◌&&◌, Option, none, some, List, [], ◌∷◌, ◌++◌,
  length, select, find, ltb, ◌=?◌, if◌then◌else◌, is_some,
}
use casper_agops_server.Identity.Roles.{Role, owner, role_beq}

pub record User : Type 0 where
  pub user_id : ℕ
  pub email : String

pub record Session : Type 0 where
  pub user_id : ℕ
  pub token_hash : ℕ
  pub expires_at : ℕ
  pub revoked_at : Option ℕ

pub record Membership : Type 0 where
  pub user_id : ℕ
  pub org_id : ℕ
  pub role : Role

pub record ApiKey : Type 0 where
  pub key_id : ℕ
  pub org_id : ℕ
  pub key_hash : ℕ
  pub created_by : Option ℕ
  pub last_used_at : Option ℕ
  pub revoked_at : Option ℕ

pub record Org : Type 0 where
  pub org_id : ℕ
  pub admin_key_hash : ℕ

pub record Invitation : Type 0 where
  pub org_id : ℕ
  pub email : String
  pub role : Role
  pub token_hash : ℕ
  pub expires_at : ℕ
  pub accepted_at : Option ℕ

pub record Directory : Type 0 where
  pub users : List User
  pub sessions : List Session
  pub memberships : List Membership
  pub api_keys : List ApiKey
  pub orgs : List Org
  pub invitations : List Invitation

-- api-key-store.ts and the reads of principal.ts.
unfoldable pub find_live_key : ℕ → List ApiKey → Option ApiKey
find_live_key hash [] = none
find_live_key hash (k ∷ ks) =
    if k.key_hash =? hash && not (is_some k.revoked_at) then some k else find_live_key hash ks

unfoldable pub knows_key : ℕ → List ApiKey → Bool
knows_key hash [] = false
knows_key hash (k ∷ ks) = if k.key_hash =? hash then true else knows_key hash ks

unfoldable pub find_legacy_org : ℕ → List Org → Option Org
find_legacy_org hash [] = none
find_legacy_org hash (o ∷ os) = if o.admin_key_hash =? hash then some o else find_legacy_org hash os

unfoldable pub touch_key : ℕ → ℕ → List ApiKey → List ApiKey
touch_key id now [] = []
touch_key id now (k ∷ ks) =
    if k.key_id =? id
    then record k { last_used_at = some now } ∷ touch_key id now ks
    else k ∷ touch_key id now ks

-- `insertApiKeyRow`.
unfoldable pub insert_api_key_row : ApiKey → Directory → Option Directory
unfolding knows_key
insert_api_key_row k d =
    if knows_key k.key_hash d.api_keys then none else some (record d { api_keys = k ∷ d.api_keys })

-- `issueApiKey`, with the id and the digest of the token that it mints.
unfoldable pub issue_api_key : ℕ → ℕ → ℕ → Option ℕ → Directory → Option Directory
unfolding insert_api_key_row
issue_api_key id hash org created_by d =
    insert_api_key_row
      (record {
        key_id = id;
        org_id = org;
        key_hash = hash;
        created_by = created_by;
        last_used_at = none;
        revoked_at = none;
      })
      d

-- `listApiKeys`.
pub list_api_keys : ℕ → Directory → List ApiKey
list_api_keys org d = select (λ k. k.org_id =? org) d.api_keys

abbrev pub is_revocable : ℕ → ℕ → ApiKey → Bool
is_revocable org id k = k.key_id =? id && k.org_id =? org && not (is_some k.revoked_at)

unfoldable pub revoke_rows : ℕ → ℕ → ℕ → List ApiKey → List ApiKey
revoke_rows org id now [] = []
revoke_rows org id now (k ∷ ks) =
    if is_revocable org id k
    then record k { revoked_at = some now } ∷ revoke_rows org id now ks
    else k ∷ revoke_rows org id now ks

-- `revokeApiKey`: whether a live key was revoked.
unfoldable pub revoke_api_key : ℕ → ℕ → ℕ → Directory → Directory × Bool
unfolding revoke_rows
revoke_api_key org id now d = (
  record d { api_keys = revoke_rows org id now d.api_keys },
  is_some (find (is_revocable org id) d.api_keys),
)

-- session-store.ts; the lifetime is `SESSION_TTL_MS`.
abbrev pub session_ttl_ms : ℕ
session_ttl_ms = 2_592_000_000

abbrev pub new_session : ℕ → ℕ → ℕ → Session
new_session user hash now = record {
  user_id = user;
  token_hash = hash;
  expires_at = now + session_ttl_ms;
  revoked_at = none;
}

-- `createSession`.
unfoldable pub create_session : ℕ → ℕ → ℕ → Directory → Option Directory
create_session user hash now d =
    if is_some (find (λ s. s.token_hash =? hash) d.sessions)
    then none
    else some (record d { sessions = new_session user hash now ∷ d.sessions })

abbrev pub is_live : ℕ → ℕ → Session → Bool
is_live hash now s = s.token_hash =? hash && not (is_some s.revoked_at) && ltb now s.expires_at

-- `resolveSession`.
unfoldable pub resolve_session : ℕ → ℕ → List Session → Option ℕ
resolve_session hash now [] = none
resolve_session hash now (s ∷ ss) =
    if is_live hash now s then some s.user_id else resolve_session hash now ss

pub revoke_sessions : (Session → Bool) → ℕ → List Session → List Session
revoke_sessions p now [] = []
revoke_sessions p now (s ∷ ss) =
    if p s && not (is_some s.revoked_at)
    then record s { revoked_at = some now } ∷ revoke_sessions p now ss
    else s ∷ revoke_sessions p now ss

-- `revokeSession`.
unfoldable pub revoke_session : ℕ → ℕ → Directory → Directory
unfolding revoke_sessions
revoke_session hash now d = record d {
  sessions = revoke_sessions (λ s. s.token_hash =? hash) now d.sessions;
}

-- `revokeAllUserSessions`.
unfoldable pub revoke_all_user_sessions : ℕ → ℕ → Directory → Directory × ℕ
unfolding revoke_sessions
revoke_all_user_sessions user now d = (
  record d { sessions = revoke_sessions (λ s. s.user_id =? user) now d.sessions },
  length (select (λ s. s.user_id =? user && not (is_some s.revoked_at)) d.sessions),
)

-- membership-store.ts and members-store.ts.
abbrev pub is_of : ℕ → ℕ → Membership → Bool
is_of user org m = m.user_id =? user && m.org_id =? org

-- `roleInOrg`.
unfoldable pub role_in_org : ℕ → ℕ → List Membership → Option Role
role_in_org user org [] = none
role_in_org user org (m ∷ ms) = if is_of user org m then some m.role else role_in_org user org ms

-- `listMembershipsForUser`.
unfoldable pub list_memberships_for_user : ℕ → List Membership → List Membership
list_memberships_for_user user ms = select (λ m. m.user_id =? user) ms

abbrev pub new_membership : ℕ → ℕ → Role → Directory → Directory
new_membership user org r d = record d {
  memberships = d.memberships ++ (record { user_id = user; org_id = org; role = r } ∷ []);
}

-- `addMembership`.
unfoldable pub add_membership : ℕ → ℕ → Role → Directory → Option Directory
unfolding role_in_org
add_membership user org r d =
    if is_some (role_in_org user org d.memberships)
    then none
    else some (new_membership user org r d)

-- `ensureMembership`.
unfoldable pub ensure_membership : ℕ → ℕ → Role → Directory → Directory × Bool
unfolding role_in_org
ensure_membership user org r d =
    if is_some (role_in_org user org d.memberships)
    then (d, false)
    else (new_membership user org r d, true)

-- `listMembersWithUsers`, less the users' names.
pub list_members_with_users : ℕ → Directory → List Membership
list_members_with_users org d = select (λ m. m.org_id =? org) d.memberships

-- `countOwners`.
unfoldable pub count_owners : ℕ → List Membership → ℕ
count_owners org [] = 0
count_owners org (m ∷ ms) =
    let rest = count_owners org ms in
    if m.org_id =? org && role_beq m.role owner then suc rest else rest

unfoldable pub set_role : ℕ → ℕ → Role → List Membership → List Membership
set_role user org r [] = []
set_role user org r (m ∷ ms) =
    if is_of user org m then record m { role = r } ∷ ms else m ∷ set_role user org r ms

-- `updateMemberRole`.
unfoldable pub update_member_role : ℕ → ℕ → Role → Directory → Directory × Bool
unfolding set_role role_in_org
update_member_role org user r d = (
  record d { memberships = set_role user org r d.memberships },
  is_some (role_in_org user org d.memberships),
)

unfoldable pub delete_member : ℕ → ℕ → List Membership → List Membership
delete_member user org [] = []
delete_member user org (m ∷ ms) = if is_of user org m then ms else m ∷ delete_member user org ms

-- `removeMember`.
unfoldable pub remove_member : ℕ → ℕ → Directory → Directory × Bool
unfolding delete_member role_in_org
remove_member org user d = (
  record d { memberships = delete_member user org d.memberships },
  is_some (role_in_org user org d.memberships),
)
