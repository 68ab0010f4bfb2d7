-- ===== src/Identity/Members/Steps.antt =====
-- What each statement keeps, every request keeps, and every sequence of requests.
use casper_agops_server.Prelude.{
  ℕ, String, Bool, true, false, Option, none, some, List, [], ◌∷◌, ◌≡◌, inl, inr, arith, ◌=?◌,
  is_some, find, Bool-cases, Option-cases,
}
use casper_agops_server.Identity.Roles.{Role, owner}
use casper_agops_server.Identity.Tables.{
  User, Session, Org, Invitation, Directory, resolve_session, role_in_org, ensure_membership,
  count_owners, update_member_role, remove_member, issue_api_key, revoke_api_key, add_membership,
  touch_key, find_live_key, create_session, new_session, revoke_session, revoke_all_user_sessions,
}
use casper_agops_server.Identity.Invitations.{InvitableRole, create_invitation, consume_invitation}
use casper_agops_server.Identity.Principal.{
  Principal, PrincipalOutcome, resolved, refused, Credentials, auth_for_route, require_role,
  authenticate_principal, authenticate_with, authenticate_key, bearer_token,
}
use casper_agops_server.Identity.Members.{
  Request, gets_members, invites, accepts, changes_role, removes, issues_key, lists_keys,
  revokes_key, creates_org, logs_in, logs_out, resets_password, accept_body, accept, serve, run,
  resolve_session_user_id,
}
use casper_agops_server.Identity.Handlers.{
  Reply, guarded, find_user, is_member, find_user_by_email, send_invitation, join, keeps_an_owner,
  created_by, with_org, log_in, may_remove, change_role, remove, issue_key, revoke_key, create_org,
  post_org,
}

-- A predicate that each statement keeps, in the state in which the handlers make it.
pub record IsKept {ℓ} (P : Directory → Type ℓ) : Type ℓ where
  pub on_touch :
      (id now : ℕ) (d : Directory) → P d → P (record d { api_keys = touch_key id now d.api_keys })
  pub on_sessions : (ss : List Session) (d : Directory) → P d → P (record d { sessions = ss })
  pub on_orgs : (os : List Org) (d : Directory) → P d → P (record d { orgs = os })
  pub on_invite :
      (token_hash org : ℕ) (email : String) (r : InvitableRole) (now : ℕ) (d d' : Directory)
      → create_invitation token_hash org email r now d ≡ some d'
      → P d
      → P d'
  pub on_consume :
      (token_hash now : ℕ) (d : Directory) → P d → P (consume_invitation token_hash now d).0
  pub on_ensure :
      (uid org : ℕ) (r : Role) (d : Directory) → P d → P (ensure_membership uid org r d).0
  pub on_add :
      (uid org : ℕ) (d d' : Directory) → add_membership uid org owner d ≡ some d' → P d → P d'
  pub on_change :
      (uid org : ℕ) (current r : Role) (d : Directory)
      → role_in_org uid org d.memberships ≡ some current
      → keeps_an_owner current r (count_owners org d.memberships) ≡ true
      → P d
      → P (update_member_role org uid r d).0
  pub on_remove :
      (uid org : ℕ) (current : Role) (d : Directory)
      → role_in_org uid org d.memberships ≡ some current
      → may_remove current (count_owners org d.memberships) ≡ true
      → P d
      → P (remove_member org uid d).0
  pub on_issue :
      (id key_hash org : ℕ) (by : Option ℕ) (d d' : Directory)
      → issue_api_key id key_hash org by d ≡ some d'
      → P d
      → P d'
  pub on_revoke : (org id now : ℕ) (d : Directory) → P d → P (revoke_api_key org id now d).0

module _ {ℓ} (P : Directory → Type ℓ) (kept : IsKept P) where
  authenticate_key-kept :
      (key_hash now : ℕ) (d : Directory) → P d → P (authenticate_key key_hash now d).0
  unfolding authenticate_key
  authenticate_key-kept key_hash now d h = elim (Option-cases (find_live_key key_hash d.api_keys)) [
    | inl missing ↦ ground (arith, missing, h)
    | inr (k, e) ↦ ground (arith, e, kept.on_touch k.key_id now d h)
  ]

  -- A handler is run only after its guard, on the state that the guard has left.
  guarded-kept :
      (handler : Principal → Directory → Directory × Reply) (x : Directory × PrincipalOutcome)
      → ((p : Principal) (d : Directory) → P d → P (handler p d).0)
      → P x.0
      → P (guarded handler x).0
  unfolding guarded
  guarded-kept handler (d, refused n r) each h = h
  guarded-kept handler (d, resolved p) each h = each p d h

  send_invitation-kept :
      (body : Option (String × InvitableRole)) (token_hash org now : ℕ) (d : Directory)
      → P d
      → P (send_invitation body token_hash org now d).0
  unfolding send_invitation
  send_invitation-kept none token_hash org now d h = h
  send_invitation-kept (some (email, r)) token_hash org now d h =
      elim (Bool-cases (is_member (find_user_by_email email d.users) org d.memberships)) [
        | inl e ↦ ground (arith, e, h)
        | inr e ↦ elim (Option-cases (create_invitation token_hash org email r now d)) [
          | inl e' ↦ ground (arith, e, e', h)
          | inr (d', e') ↦
              ground (arith, e, e', kept.on_invite token_hash org email r now d d' e' h)
        ]
      ]

  join-kept : (u : User) (x : Directory × Option Invitation) → P x.0 → P (join u x).0
  unfolding join
  join-kept u (d, none) h = h
  join-kept u (d, some i) h = ground (arith, h, kept.on_ensure u.user_id i.org_id i.role d h)

  change_role-kept :
      (body : Option Role) (org uid : ℕ) (d : Directory) → P d → P (change_role body org uid d).0
  unfolding change_role
  change_role-kept none org uid d h = h
  change_role-kept (some r) org uid d h = elim (Option-cases (role_in_org uid org d.memberships)) [
    | inl missing ↦ ground (arith, missing, h)
    | inr (current, e) ↦
        elim (Bool-cases (keeps_an_owner current r (count_owners org d.memberships))) [
          | inl passes ↦ ground (arith, e, passes, kept.on_change uid org current r d e passes h)
          | inr fails ↦ ground (arith, e, fails, h)
        ]
  ]

  remove-kept : (org uid : ℕ) (d : Directory) → P d → P (remove org uid d).0
  unfolding remove
  remove-kept org uid d h = elim (Option-cases (role_in_org uid org d.memberships)) [
    | inl missing ↦ ground (arith, missing, h)
    | inr (current, e) ↦ elim (Bool-cases (may_remove current (count_owners org d.memberships))) [
      | inl passes ↦ ground (arith, e, passes, kept.on_remove uid org current d e passes h)
      | inr fails ↦ ground (arith, e, fails, h)
    ]
  ]

  issue_key-kept :
      (valid : Bool) (id key_hash org : ℕ) (p : Principal) (d : Directory)
      → P d
      → P (issue_key valid id key_hash org p d).0
  unfolding issue_key
  issue_key-kept false id key_hash org p d h = h
  issue_key-kept true id key_hash org p d h =
      elim (Option-cases (issue_api_key id key_hash org (created_by p.actor) d)) [
        | inl e ↦ ground (arith, e, h)
        | inr (d', e) ↦
            ground (arith, e, kept.on_issue id key_hash org (created_by p.actor) d d' e h)
      ]

  create_org-kept :
      (uid org id key_hash : ℕ) (d : Directory) → P d → P (create_org uid org id key_hash d).0
  unfolding create_org
  create_org-kept uid org id key_hash d h =
      elim (Option-cases (add_membership uid org owner (with_org org key_hash d))) [
        | inl e ↦ ground (arith, e, h)
        | inr (d', e) ↦ elim (Option-cases (issue_api_key id key_hash org (some uid) d')) [
          | inl e' ↦ ground (arith, e, e', h)
          | inr (d'', e') ↦ ground (
            arith,
            e,
            e',
            kept.on_issue id key_hash org (some uid) d' d'' e' (
                kept.on_add uid org (with_org org key_hash d) d' e
                  (kept.on_orgs (with_org org key_hash d).orgs d h)),
          )
        ]
      ]

  log_in-kept : (uid token_hash now : ℕ) (d : Directory) → P d → P (log_in uid token_hash now d).0
  unfolding log_in create_session
  log_in-kept uid token_hash now d h =
      elim (Bool-cases (is_some (find (λ s. s.token_hash =? token_hash) d.sessions))) [
        | inl e ↦ ground (arith, e, h)
        | inr e ↦
            ground (arith, e, kept.on_sessions (new_session uid token_hash now ∷ d.sessions) d h)
      ]

  post_org-kept :
      (uid : Option ℕ) (valid : Bool) (org id key_hash : ℕ) (d : Directory)
      → P d
      → P (post_org uid valid org id key_hash d).0
  unfolding post_org
  post_org-kept none valid org id key_hash d h = h
  post_org-kept (some uid) false org id key_hash d h = h
  post_org-kept (some uid) true org id key_hash d h = create_org-kept uid org id key_hash d h

  module _ (hash : String → ℕ) where
    authenticate_with-kept :
        (token : Option String) (c : Credentials) (org now : ℕ) (d : Directory)
        → P d
        → P (authenticate_with hash token c org now d).0
    unfolding authenticate_with
    authenticate_with-kept none c org now d h = h
    authenticate_with-kept (some token) c org now d h =
        ground (arith, h, authenticate_key-kept (hash token) now d h)

    -- The guard of a route changes at most the time of a key's last use.
    pub auth_for_route-kept :
        (c : Credentials) (min : Role) (org now : ℕ) (d : Directory)
        → P d
        → P (auth_for_route hash c min (some org) now d).0
    unfolding auth_for_route require_role authenticate_principal
    auth_for_route-kept c min org now d h =
        authenticate_with-kept (bearer_token c.authorization) c org now d h

    accept_body-kept :
        (token : Option String) (uid now : ℕ) (d : Directory)
        → P d
        → P (accept_body hash token uid now d).0
    unfolding accept_body
    accept_body-kept none uid now d h = h
    accept_body-kept (some token) uid now d h = elim (Option-cases (find_user uid d.users)) [
      | inl e ↦ ground (arith, e, h)
      | inr (u, e) ↦ ground (
        arith,
        e,
        join-kept u (consume_invitation (hash token) now d) (kept.on_consume (hash token) now d h),
      )
    ]

    accept-kept :
        (cookie token : Option String) (now : ℕ) (d : Directory)
        → P d
        → P (accept hash cookie token now d).0
    unfolding accept
    accept-kept none token now d h = h
    accept-kept (some String.[]) token now d h = h
    accept-kept (some (String.◌∷◌ a t)) token now d h =
        elim (Option-cases (resolve_session (hash (String.◌∷◌ a t)) now d.sessions)) [
          | inl e ↦ ground (arith, e, h)
          | inr (uid, e) ↦ ground (arith, e, accept_body-kept token uid now d h)
        ]

    pub serve-kept : (now : ℕ) (r : Request) (d : Directory) → P d → P (serve hash now r d).0
    unfolding serve revoke_session revoke_all_user_sessions revoke_key
    serve-kept now (gets_members c org) d h =
        guarded-kept _ _ (λ p s k. k) (auth_for_route-kept c _ org now d h)
    serve-kept now (invites c org body token_hash) d h =
        guarded-kept _ _ (λ p s. send_invitation-kept body token_hash org now s)
          (auth_for_route-kept c _ org now d h)
    serve-kept now (accepts c token) d h = accept-kept c.cookie token now d h
    serve-kept now (changes_role c org uid body) d h =
        guarded-kept _ _ (λ p s. change_role-kept body org uid s)
          (auth_for_route-kept c _ org now d h)
    serve-kept now (removes c org uid) d h =
        guarded-kept _ _ (λ p s. remove-kept org uid s) (auth_for_route-kept c _ org now d h)
    serve-kept now (issues_key c org valid id key_hash) d h =
        guarded-kept _ _ (issue_key-kept valid id key_hash org)
          (auth_for_route-kept c _ org now d h)
    serve-kept now (lists_keys c org) d h =
        guarded-kept _ _ (λ p s k. k) (auth_for_route-kept c _ org now d h)
    serve-kept now (revokes_key c org id) d h =
        guarded-kept _ _ (λ p s. kept.on_revoke org id now s) (auth_for_route-kept c _ org now d h)
    serve-kept now (creates_org c valid org id key_hash) d h =
        post_org-kept (resolve_session_user_id hash c.cookie now d) valid org id key_hash d h
    serve-kept now (logs_in uid token_hash) d h = log_in-kept uid token_hash now d h
    serve-kept now (logs_out token) d h = kept.on_sessions _ d h
    serve-kept now (resets_password uid) d h = kept.on_sessions _ d h

    pub run-kept : (rs : List (ℕ × Request)) (d : Directory) → P d → P (run hash rs d)
    unfolding run
    run-kept [] d h = h
    run-kept ((now, r) ∷ rs) d h = run-kept rs _ (serve-kept now r d h)
