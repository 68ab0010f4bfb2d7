-- ===== src/Identity/Invitations.antt =====
-- identity/access/invitation-store.ts: a function is one statement. The token of an invitation has a
-- UNIQUE digest; an insert against it is `none`, the throw. The lifetime is `INVITATION_TTL_MS`.
use casper_agops_server.Prelude.{
  ℕ, suc, ◌+◌, String, Bool, not, ◌&&◌, Option, none, some, List, [], ◌∷◌, select, ltb, ◌=?◌,
  if◌then◌else◌, is_some,
}
use casper_agops_server.Identity.Roles.{Role, admin, member}
use casper_agops_server.Identity.Tables.{Invitation, Directory}

abbrev pub invitation_ttl_ms : ℕ
invitation_ttl_ms = 259_200_000

-- `InvitableRole`.
pub data InvitableRole : Type 0 where
  invites_admin invites_member : InvitableRole

abbrev pub invited_role : InvitableRole → Role
invited_role invites_admin = admin
invited_role invites_member = member

abbrev new_invitation : ℕ → ℕ → String → InvitableRole → ℕ → Invitation
new_invitation hash org email r now = record {
  org_id = org;
  email = email;
  role = invited_role r;
  token_hash = hash;
  expires_at = now + invitation_ttl_ms;
  accepted_at = none;
}

-- The rows that a UNIQUE index on the digest keeps to one.
unfoldable pub rows_with : ℕ → List Invitation → ℕ
rows_with hash [] = 0
rows_with hash (i ∷ is') =
    let rest = rows_with hash is' in if i.token_hash =? hash then suc rest else rest

-- `createInvitation`, with the digest of the token that it mints.
unfoldable pub create_invitation : ℕ → ℕ → String → InvitableRole → ℕ → Directory → Option Directory
unfolding rows_with
create_invitation hash org email r now d =
    if rows_with hash d.invitations =? 0
    then some (record d { invitations = new_invitation hash org email r now ∷ d.invitations })
    else none

abbrev pub is_open : ℕ → Invitation → Bool
is_open now i = not (is_some i.accepted_at) && ltb now i.expires_at

unfoldable pub find_open : ℕ → ℕ → List Invitation → Option Invitation
find_open hash now [] = none
find_open hash now (i ∷ is') =
    if i.token_hash =? hash && is_open now i then some i else find_open hash now is'

unfoldable pub accept_rows : ℕ → ℕ → List Invitation → List Invitation
accept_rows hash now [] = []
accept_rows hash now (i ∷ is') =
    if i.token_hash =? hash && is_open now i
    then record i { accepted_at = some now } ∷ accept_rows hash now is'
    else i ∷ accept_rows hash now is'

-- `consumeInvitation`.
unfoldable pub consume_invitation : ℕ → ℕ → Directory → Directory × Option Invitation
unfolding find_open accept_rows
consume_invitation hash now d = (
  record d { invitations = accept_rows hash now d.invitations },
  find_open hash now d.invitations,
)

-- `listPendingInvitations`.
pub list_pending_invitations : ℕ → ℕ → Directory → List Invitation
list_pending_invitations org now d = select (λ i. i.org_id =? org && is_open now i) d.invitations
