-- ===== src/Identity/Tests.antt =====
-- An org with two owners, a member, a live key and an open invitation.
use casper_agops_server.Prelude.{
  ℕ, ◌≤◌, String, true, none, some, List, [], ◌∷◌, ◌≡◌, refl, arith, ◌==◌, string_eq, if◌then◌else◌,
}
use casper_agops_server.Identity.Roles.{owner, admin, member, satisfies_role}
use casper_agops_server.Identity.Tables.{
  Directory, Invitation, count_owners, role_in_org, remove_member, revoke_api_key, knows_key,
  find_live_key, resolve_session, list_memberships_for_user, delete_member,
}
use casper_agops_server.Identity.Invitations.{consume_invitation, rows_with, find_open}
use casper_agops_server.Identity.Principal.{
  key, Principal, Reason, refused, Credentials, bearer_token, authenticate_principal,
  authenticate_with, authenticate_key, authenticate_session, choose_org, fence, require_role,
  auth_for_route,
}
use casper_agops_server.Identity.Principal.Fence.{IsAuthentic, require_role-IsAuthentic}
use casper_agops_server.Identity.Members.{
  Request, accepts, changes_role, removes, serve, run, accept, accept_body,
}
use casper_agops_server.Identity.Handlers.{
  last_owner, accepted, guarded, find_user, join, change_role, keeps_an_owner, may_remove,
}
use casper_agops_server.Identity.Members.Owners.{run-HasOwner, removals-orphan}
use casper_agops_server.Identity.Members.Revocation.{revoke-refused, consume-consume_invitation}

abbrev digest : String → ℕ
digest s =
    if s == "sk_live_5"
    then 55
    else if s == "session1"
    then 11
    else if s == "session2"
    then 12
    else if s == "invite"
    then 77
    else 0

abbrev invitation : Invitation
invitation = record {
  org_id = 5;
  email = "C@x";
  role = admin;
  token_hash = 77;
  expires_at = 500;
  accepted_at = none;
}

abbrev directory : Directory
directory = record {
  users =
      record { user_id = 1; email = "a@x" }
      ∷ record { user_id = 2; email = "b@x" }
      ∷ record { user_id = 3; email = "c@x" }
      ∷ [];
  sessions =
      record { user_id = 1; token_hash = 11; expires_at = 900; revoked_at = none }
      ∷ record { user_id = 3; token_hash = 12; expires_at = 900; revoked_at = none }
      ∷ [];
  memberships =
      record { user_id = 1; org_id = 5; role = owner }
      ∷ record { user_id = 2; org_id = 5; role = owner }
      ∷ [];
  api_keys =
      record {
        key_id = 8;
        org_id = 5;
        key_hash = 55;
        created_by = some 1;
        last_used_at = none;
        revoked_at = none;
      }
      ∷ [];
  orgs = record { org_id = 5; admin_key_hash = 55 } ∷ [];
  invitations = invitation ∷ [];
}

abbrev by_cookie : String → Credentials
by_cookie t = record { cookie = some t; authorization = none; selected_org = 0 }

abbrev by_bearer : Credentials
by_bearer = record { cookie = none; authorization = some "Bearer  sk_live_5 "; selected_org = 0 }

abbrev key_holder : Principal
key_holder = record { org_id = 5; role = admin; actor = key }

abbrev requests : List (ℕ × Request)
requests =
    (100, removes (by_cookie "session1") 5 2)
    ∷ (110, changes_role (by_cookie "session1") 5 1 (some member))
    ∷ (120, accepts (by_cookie "session2") (some "invite"))
    ∷ []

-- The invited user joins with the role of the invitation; the email's case does not matter.
serve-accepts :
    (serve digest 120 (accepts (by_cookie "session2") (some "invite")) directory).1
    ≡ accepted 5 admin
unfolding serve accept accept_body find_user join resolve_session consume_invitation find_open
serve-accepts = refl

serve-last_owner :
    (serve digest 110
      (changes_role (by_cookie "session1") 5 1 (some member))
      (remove_member 5 2 directory).0).1
    ≡ last_owner
unfolding serve guarded auth_for_route require_role authenticate_principal bearer_token
    authenticate_with authenticate_session resolve_session choose_org fence change_role role_in_org
    keeps_an_owner count_owners remove_member delete_member list_memberships_for_user
serve-last_owner = refl

require_role-IsAuthentic_example :
    (key_holder.org_id ≡ 5)
    × (satisfies_role admin admin ≡ true)
    × IsAuthentic digest by_bearer 100 directory key_holder
unfolding require_role authenticate_principal bearer_token authenticate_with authenticate_key
    find_live_key fence
require_role-IsAuthentic_example =
    require_role-IsAuthentic digest by_bearer admin 5 100 directory key_holder (omega arith) refl

run-HasOwner_example : 1 ≤ count_owners 5 (run digest requests directory).memberships
unfolding count_owners
run-HasOwner_example = run-HasOwner digest requests 5 directory (omega arith)

removals-orphan_example :
    (may_remove owner (count_owners 5 directory.memberships) ≡ true)
    × (count_owners 5 (remove_member 5 2 (remove_member 5 1 directory).0).0.memberships ≡ 0)
unfolding count_owners role_in_org
removals-orphan_example = removals-orphan 1 2 5 directory (omega arith) refl refl refl

revoke-refused_example :
    (r : Reason) × ((authenticate_principal digest by_bearer 5 300
        (run digest requests (revoke_api_key 5 8 200 directory).0)).1
      ≡ refused 401 r)
unfolding bearer_token knows_key
revoke-refused_example =
    revoke-refused digest "sk_live_5" 5 8 200 directory requests by_bearer 5 300 refl (refl, tt)
      refl

consume-consume_invitation_example :
    (consume_invitation 77 130 (run digest requests (consume_invitation 77 120 directory).0)).1
    ≡ none
unfolding rows_with consume_invitation find_open
consume-consume_invitation_example =
    consume-consume_invitation digest 77 120 130 invitation directory requests (omega arith) refl
