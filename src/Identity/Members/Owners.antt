-- ===== src/Identity/Members/Owners.antt =====
-- The last owner of an org.
use casper_agops_server.Prelude.{
  ℕ, ◌+◌, ◌≤◌, String, true, some, List, [], ◌∷◌, ◌++◌, ◌≡◌, refl, ◌≢◌, inl, inr, arith, Bool-cases,
  ◌∙◌, ◌=?◌,
}
use casper_agops_server.Identity.Roles.{Role, owner}
use casper_agops_server.Identity.Tables.{
  Directory, Membership, role_in_org, ensure_membership, add_membership, new_membership,
  count_owners, set_role, delete_member, update_member_role, remove_member, issue_api_key,
  insert_api_key_row, revoke_api_key,
}
use casper_agops_server.Identity.Invitations.{create_invitation, consume_invitation}
use casper_agops_server.Identity.Members.{Request, run}
use casper_agops_server.Identity.Handlers.{keeps_an_owner, may_remove}
use casper_agops_server.Identity.Members.Steps.{IsKept, run-kept}

abbrev weight : Role → ℕ
weight owner = 1
weight _ = 0

count_owners-append :
    (org : ℕ) (ms ns : List Membership)
    → count_owners org (ms ++ ns) ≡ count_owners org ms + count_owners org ns
unfolding count_owners
count_owners-append org [] ns = omega arith
count_owners-append org (m ∷ ms) ns = ground (arith, count_owners-append org ms ns)

-- Deleting a row, and changing its role, in the org of the row and in the others.
count_owners-delete :
    (uid org : ℕ) (current : Role) (ms : List Membership)
    → role_in_org uid org ms ≡ some current
    → count_owners org ms ≡ weight current + count_owners org (delete_member uid org ms)
unfolding role_in_org count_owners delete_member
count_owners-delete uid org current [] e = absurd (cc)
count_owners-delete uid org current (m ∷ ms) e =
    ground (arith, e, count_owners-delete uid org current ms)

count_owners-delete_other :
    (uid org other : ℕ) (ms : List Membership)
    → other ≢ org
    → count_owners other (delete_member uid org ms) ≡ count_owners other ms
unfolding count_owners delete_member
count_owners-delete_other uid org other [] n = refl
count_owners-delete_other uid org other (m ∷ ms) n =
    ground (arith, n, count_owners-delete_other uid org other ms n)

count_owners-set_role :
    (uid org : ℕ) (current r : Role) (ms : List Membership)
    → role_in_org uid org ms ≡ some current
    → count_owners org (set_role uid org r ms) + weight current ≡ weight r + count_owners org ms
unfolding role_in_org count_owners set_role
count_owners-set_role uid org current r [] e = absurd (cc)
count_owners-set_role uid org current r (m ∷ ms) e =
    ground (arith, e, count_owners-set_role uid org current r ms)

count_owners-set_role_other :
    (uid org other : ℕ) (r : Role) (ms : List Membership)
    → other ≢ org
    → count_owners other (set_role uid org r ms) ≡ count_owners other ms
unfolding count_owners set_role
count_owners-set_role_other uid org other r [] n = refl
count_owners-set_role_other uid org other r (m ∷ ms) n =
    ground (arith, n, count_owners-set_role_other uid org other r ms n)

pub HasOwner : ℕ → Directory → Type 0
HasOwner org d = 1 ≤ count_owners org d.memberships

new_membership-HasOwner :
    (org uid o : ℕ) (r : Role) (d : Directory)
    → HasOwner org d
    → HasOwner org (new_membership uid o r d)
unfolding HasOwner
new_membership-HasOwner org uid o r d h = ground (
  arith,
  h,
  count_owners-append org d.memberships (record { user_id = uid; org_id = o; role = r } ∷ []),
)

change-HasOwner :
    (org uid o : ℕ) (current r : Role) (d : Directory)
    → role_in_org uid o d.memberships ≡ some current
    → keeps_an_owner current r (count_owners o d.memberships) ≡ true
    → HasOwner org d
    → HasOwner org (update_member_role o uid r d).0
unfolding HasOwner update_member_role keeps_an_owner
change-HasOwner org uid o current r d e passes h = elim (Bool-cases (org =? o)) [
  | inl same ↦
      ground (arith, same, e, passes, h, count_owners-set_role uid o current r d.memberships e)
  | inr other ↦
      ground (arith, h, count_owners-set_role_other uid o org r d.memberships (ground arith))
]

remove-HasOwner :
    (org uid o : ℕ) (current : Role) (d : Directory)
    → role_in_org uid o d.memberships ≡ some current
    → may_remove current (count_owners o d.memberships) ≡ true
    → HasOwner org d
    → HasOwner org (remove_member o uid d).0
unfolding HasOwner remove_member may_remove
remove-HasOwner org uid o current d e passes h = elim (Bool-cases (org =? o)) [
  | inl same ↦ ground (arith, same, e, passes, h, count_owners-delete uid o current d.memberships e)
  | inr other ↦ ground (arith, h, count_owners-delete_other uid o org d.memberships (ground arith))
]

pub HasOwner-IsKept : (org : ℕ) → IsKept (HasOwner org)
unfolding HasOwner consume_invitation create_invitation revoke_api_key ensure_membership
    add_membership issue_api_key insert_api_key_row
HasOwner-IsKept org = record {
  on_touch = λ id now d h. h;
  on_sessions = λ ss d h. h;
  on_orgs = λ os d h. h;
  on_invite = λ token_hash o email r now d d' e h. ground (arith, e, h);
  on_consume = λ token_hash now d h. h;
  on_ensure = λ uid o r d h. ground (arith, h, new_membership-HasOwner org uid o r d h);
  on_add = λ uid o d d' e h. ground (arith, e, h, new_membership-HasOwner org uid o owner d h);
  on_change = λ uid o current r d e passes h. change-HasOwner org uid o current r d e passes h;
  on_remove = λ uid o current d e passes h. remove-HasOwner org uid o current d e passes h;
  on_issue = λ id key_hash o by d d' e h. ground (arith, e, h);
  on_revoke = λ o id now d h. h;
}

-- An org that has an owner has one after any requests, whoever makes them: each is served before the
-- next begins.
pub run-HasOwner :
    (hash : String → ℕ) (rs : List (ℕ × Request)) (org : ℕ) (d : Directory)
    → 1 ≤ count_owners org d.memberships
    → 1 ≤ count_owners org (run hash rs d).memberships
unfolding HasOwner
run-HasOwner hash rs org d h = run-kept (HasOwner org) (HasOwner-IsKept org) hash rs d h

role_in_org-delete_other :
    (u v org : ℕ) (ms : List Membership)
    → u ≢ v
    → role_in_org v org (delete_member u org ms) ≡ role_in_org v org ms
unfolding role_in_org delete_member
role_in_org-delete_other u v org [] n = refl
role_in_org-delete_other u v org (m ∷ ms) n =
    ground (arith, n, role_in_org-delete_other u v org ms n)

-- Of an org with exactly two owners, the removal of each passes its test; once both are tested, the
-- two deletions leave the org without an owner.
pub removals-orphan :
    (u v org : ℕ) (d : Directory)
    → u ≢ v
    → role_in_org u org d.memberships ≡ some owner
    → role_in_org v org d.memberships ≡ some owner
    → count_owners org d.memberships ≡ 2
    → (may_remove owner (count_owners org d.memberships) ≡ true)
      × (count_owners org (remove_member org v (remove_member org u d).0).0.memberships ≡ 0)
unfolding may_remove remove_member
removals-orphan u v org d n own_u own_v two = (
  ground (arith, two),
  ground (
    arith,
    two,
    count_owners-delete u org owner d.memberships own_u,
    count_owners-delete v org owner (delete_member u org d.memberships)
        (role_in_org-delete_other u v org d.memberships n ∙ own_v),
  ),
)
