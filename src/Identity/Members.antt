-- ===== src/Identity/Members.antt =====
-- The routes of identity/org/members-routes.ts, identity/access/api-key-routes.ts and the creation of
-- an org in identity/org/org-routes.ts, with sessions opened and revoked in between: a `Request` is a
-- call of a route, and `serve` is what it reaches, guard and handler.
pub mod Steps
pub mod Owners
pub mod Revocation
use casper_agops_server.Identity.Handlers.{
  Reply, guarded, find_user, find_user_by_email, is_member, send_invitation, join, keeps_an_owner,
  may_remove, change_role, remove, created_by, issue_key, revoke_key, with_org, create_org,
  post_org, log_in, listed, invited, removed, invalid_body, already_member,
  invalid_or_expired_invitation, invitation_email_mismatch, member_not_found, last_owner, throws,
  done, accepted, role_changed, unauthorised, keys_listed, key_issued, key_revoked,
  api_key_not_found, org_created,
}
use casper_agops_server.Prelude.{
  ℕ, String, Bool, true, false, not, ◌&&◌, Option, none, some, List, [], ◌∷◌, leb, ◌=?◌, is_some,
  same_lower, if◌then◌else◌,
}
use casper_agops_server.Identity.Roles.{Role, owner, admin, member, role_beq}
use casper_agops_server.Identity.Tables.{
  User, Membership, ApiKey, Org, Invitation, Directory, resolve_session, role_in_org,
  list_members_with_users, ensure_membership, count_owners, update_member_role, remove_member,
  issue_api_key, list_api_keys, revoke_api_key, insert_api_key_row, create_session, revoke_session,
  revoke_all_user_sessions, add_membership,
}
use casper_agops_server.Identity.Invitations.{
  InvitableRole, create_invitation, consume_invitation, list_pending_invitations,
}
use casper_agops_server.Identity.Principal.{
  Actor, user, key, Principal, Reason, unauthenticated, invalid_session, PrincipalOutcome, resolved,
  refused, Credentials, auth_for_route,
}

pub data Request : Type 0 where
  gets_members : Credentials → (org : ℕ) → Request
  invites : Credentials → (org : ℕ) → Option (String × InvitableRole) → (token_hash : ℕ) → Request
  accepts : Credentials → (token : Option String) → Request
  changes_role : Credentials → (org user_id : ℕ) → Option Role → Request
  removes : Credentials → (org user_id : ℕ) → Request
  issues_key : Credentials → (org : ℕ) → (valid : Bool) → (id key_hash : ℕ) → Request
  lists_keys : Credentials → (org : ℕ) → Request
  revokes_key : Credentials → (org id : ℕ) → Request
  creates_org : Credentials → (valid : Bool) → (org id key_hash : ℕ) → Request
  logs_in : (user_id token_hash : ℕ) → Request
  logs_out : (token : String) → Request
  resets_password : (user_id : ℕ) → Request

module _ (hash : String → ℕ) where
  -- `resolveSessionUserId`.
  pub resolve_session_user_id : Option String → ℕ → Directory → Option ℕ
  resolve_session_user_id none now d = none
  resolve_session_user_id (some String.[]) now d = none
  resolve_session_user_id (some (String.◌∷◌ c t)) now d =
      resolve_session (hash (String.◌∷◌ c t)) now d.sessions

  unfoldable pub accept_body : Option String → ℕ → ℕ → Directory → Directory × Reply
  unfolding find_user join
  accept_body none uid now d = (d, invalid_body)
  accept_body (some token) uid now d = elim (find_user uid d.users) [
    | none ↦ (d, unauthorised 401 invalid_session)
    | some u ↦ join u (consume_invitation (hash token) now d)
  ]

  -- `POST /v1/invitations/accept`.
  unfoldable pub accept : Option String → Option String → ℕ → Directory → Directory × Reply
  unfolding accept_body
  accept none token now d = (d, unauthorised 401 unauthenticated)
  accept (some String.[]) token now d = (d, unauthorised 401 unauthenticated)
  accept (some (String.◌∷◌ c t)) token now d =
      elim (resolve_session (hash (String.◌∷◌ c t)) now d.sessions) [
        | none ↦ (d, unauthorised 401 invalid_session)
        | some uid ↦ accept_body token uid now d
      ]

  -- The handler that a request reaches, at a time.
  unfoldable pub serve : ℕ → Request → Directory → Directory × Reply
  serve now (gets_members c org) d =
      guarded
        (λ p s. (s, listed (list_members_with_users org s) (list_pending_invitations org now s)))
        (auth_for_route hash c admin (some org) now d)
  serve now (invites c org body token_hash) d =
      guarded (λ p s. send_invitation body token_hash org now s)
        (auth_for_route hash c owner (some org) now d)
  serve now (accepts c token) d = accept c.cookie token now d
  serve now (changes_role c org uid body) d =
      guarded (λ p s. change_role body org uid s) (auth_for_route hash c owner (some org) now d)
  serve now (removes c org uid) d =
      guarded (λ p s. remove org uid s) (auth_for_route hash c owner (some org) now d)
  serve now (issues_key c org valid id key_hash) d =
      guarded (issue_key valid id key_hash org) (auth_for_route hash c admin (some org) now d)
  serve now (lists_keys c org) d =
      guarded (λ p s. (s, keys_listed (list_api_keys org s)))
        (auth_for_route hash c admin (some org) now d)
  serve now (revokes_key c org id) d =
      guarded (λ p s. revoke_key org id now s) (auth_for_route hash c admin (some org) now d)
  serve now (creates_org c valid org id key_hash) d =
      post_org (resolve_session_user_id c.cookie now d) valid org id key_hash d
  serve now (logs_in uid token_hash) d = log_in uid token_hash now d
  serve now (logs_out token) d = (revoke_session (hash token) now d, done)
  serve now (resets_password uid) d = ((revoke_all_user_sessions uid now d).0, done)

  unfoldable pub run : List (ℕ × Request) → Directory → Directory
  unfolding serve
  run [] d = d
  run ((now, r) ∷ rs) d = run rs (serve now r d).0
