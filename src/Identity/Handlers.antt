-- ===== src/Identity/Handlers.antt =====
-- The handlers of identity/org/members-routes.ts, identity/access/api-key-routes.ts and of the creation
-- of an org in identity/org/org-routes.ts, after their guards. A body is what its schema makes of it,
-- `none` when it is refused. The ids and digests that a call mints are arguments; the error of a table
-- that has one of them is not modelled. The mail that carries an invitation, and the policies that a
-- new org is seeded with once it is committed, are left out.
use casper_agops_server.Prelude.{
  ℕ, String, Bool, true, false, not, ◌&&◌, Option, none, some, List, [], ◌∷◌, leb, ◌=?◌, is_some,
  same_lower, if◌then◌else◌,
}
use casper_agops_server.Identity.Roles.{Role, owner, role_beq}
use casper_agops_server.Identity.Tables.{
  User, Membership, ApiKey, Invitation, Directory, role_in_org, ensure_membership, count_owners,
  update_member_role, remove_member, issue_api_key, revoke_api_key, create_session, add_membership,
}
use casper_agops_server.Identity.Invitations.{InvitableRole, create_invitation}
use casper_agops_server.Identity.Principal.{
  Actor, user, key, Principal, Reason, unauthenticated, PrincipalOutcome, resolved, refused,
}

pub data Reply : Type 0 where
  listed : List Membership → List Invitation → Reply
  invited removed invalid_body already_member invalid_or_expired_invitation : Reply
  invitation_email_mismatch member_not_found last_owner throws done : Reply
  accepted : (org_id : ℕ) → Role → Reply
  role_changed : (user_id : ℕ) → Role → Reply
  unauthorised : (code : ℕ) → Reason → Reply
  keys_listed : List ApiKey → Reply
  key_issued key_revoked api_key_not_found : Reply
  org_created : (org_id : ℕ) → Reply

-- A handler after its guard.
unfoldable pub guarded :
    (Principal → Directory → Directory × Reply) → Directory × PrincipalOutcome → Directory × Reply
guarded handler (d, refused n r) = (d, unauthorised n r)
guarded handler (d, resolved p) = handler p d

-- `findUserById`, and `findUserByEmail` on a column that ignores case.
unfoldable pub find_user : ℕ → List User → Option User
find_user id [] = none
find_user id (u ∷ us) = if u.user_id =? id then some u else find_user id us

pub find_user_by_email : String → List User → Option User
find_user_by_email email [] = none
find_user_by_email email (u ∷ us) =
    if same_lower u.email email then some u else find_user_by_email email us

pub is_member : Option User → ℕ → List Membership → Bool
is_member none org ms = false
is_member (some u) org ms = is_some (role_in_org u.user_id org ms)

unfoldable pub send_invitation :
    Option (String × InvitableRole) → ℕ → ℕ → ℕ → Directory → Directory × Reply
unfolding find_user_by_email is_member
send_invitation none token_hash org now d = (d, invalid_body)
send_invitation (some (email, r)) token_hash org now d =
    if is_member (find_user_by_email email d.users) org d.memberships
    then (d, already_member)
    else elim (create_invitation token_hash org email r now d) [
      | none ↦ (d, throws)
      | some d' ↦ (d', invited)
    ]

-- After the invite is spent: the fence on the email, and the membership.
unfoldable pub join : User → Directory × Option Invitation → Directory × Reply
join u (d, none) = (d, invalid_or_expired_invitation)
join u (d, some i) =
    if not (same_lower u.email i.email)
    then (d, invitation_email_mismatch)
    else ((ensure_membership u.user_id i.org_id i.role d).0, accepted i.org_id i.role)

-- The tests of the two routes that could take an org's last owner away.
unfoldable pub keeps_an_owner : Role → Role → ℕ → Bool
keeps_an_owner current new owners =
    not (role_beq current owner && not (role_beq new owner) && leb owners 1)

unfoldable pub may_remove : Role → ℕ → Bool
may_remove current owners = not (role_beq current owner && leb owners 1)

unfoldable pub change_role : Option Role → ℕ → ℕ → Directory → Directory × Reply
unfolding keeps_an_owner
change_role none org uid d = (d, invalid_body)
change_role (some r) org uid d = elim (role_in_org uid org d.memberships) [
  | none ↦ (d, member_not_found)
  | some current ↦
      if keeps_an_owner current r (count_owners org d.memberships)
      then ((update_member_role org uid r d).0, role_changed uid r)
      else (d, last_owner)
]

unfoldable pub remove : ℕ → ℕ → Directory → Directory × Reply
unfolding may_remove
remove org uid d = elim (role_in_org uid org d.memberships) [
  | none ↦ (d, member_not_found)
  | some current ↦
      if may_remove current (count_owners org d.memberships)
      then ((remove_member org uid d).0, removed)
      else (d, last_owner)
]

abbrev pub created_by : Actor → Option ℕ
created_by (user uid) = some uid
created_by key = none

unfoldable pub issue_key : Bool → ℕ → ℕ → ℕ → Principal → Directory → Directory × Reply
issue_key false id key_hash org p d = (d, invalid_body)
issue_key true id key_hash org p d = elim (issue_api_key id key_hash org (created_by p.actor) d) [
  | none ↦ (d, throws)
  | some d' ↦ (d', key_issued)
]

unfoldable pub revoke_key : ℕ → ℕ → ℕ → Directory → Directory × Reply
revoke_key org id now d =
    let (d', revoked) = revoke_api_key org id now d in
    (d', if revoked then key_revoked else api_key_not_found)

abbrev pub with_org : ℕ → ℕ → Directory → Directory
with_org org key_hash d = record d {
  orgs = record { org_id = org; admin_key_hash = key_hash } ∷ d.orgs;
}

-- The transaction that creates an org: a throw rolls it back.
unfoldable pub create_org : ℕ → ℕ → ℕ → ℕ → Directory → Directory × Reply
create_org uid org id key_hash d = elim (add_membership uid org owner (with_org org key_hash d)) [
  | none ↦ (d, throws)
  | some d' ↦ elim (issue_api_key id key_hash org (some uid) d') [
    | none ↦ (d, throws)
    | some d'' ↦ (d'', org_created org)
  ]
]

-- `POST /v1/orgs`.
unfoldable pub post_org : Option ℕ → Bool → ℕ → ℕ → ℕ → Directory → Directory × Reply
unfolding create_org
post_org none valid org id key_hash d = (d, unauthorised 401 unauthenticated)
post_org (some uid) false org id key_hash d = (d, invalid_body)
post_org (some uid) true org id key_hash d = create_org uid org id key_hash d

-- The end of a log-in: the session that it opens.
unfoldable pub log_in : ℕ → ℕ → ℕ → Directory → Directory × Reply
log_in uid token_hash now d = elim (create_session uid token_hash now d) [
  | none ↦ (d, throws)
  | some d' ↦ (d', done)
]
