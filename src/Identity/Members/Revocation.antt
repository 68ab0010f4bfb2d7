-- ===== src/Identity/Members/Revocation.antt =====
-- Keys that are revoked, and invitations that are spent.
use text.Mathlib.Text.{starts_with}
use casper_agops_server.Prelude.{
  ℕ, ◌≤◌, String, Bool, true, ◌&&◌, Option, none, some, List, [], ◌∷◌, All, ◌≡◌, refl, inl, inr,
  arith, Bool-cases, ◌∙◌, ◌=?◌, is_some, if◌then◌else◌,
}
use casper_agops_server.Identity.Tables.{
  Directory, ApiKey, Invitation, find_live_key, knows_key, touch_key, revoke_rows, revoke_api_key,
  issue_api_key, insert_api_key_row, ensure_membership, add_membership, update_member_role,
  remove_member,
}
use casper_agops_server.Identity.Invitations.{
  find_open, rows_with, accept_rows, consume_invitation, create_invitation, InvitableRole,
}
use casper_agops_server.Identity.Principal.{
  Reason, invalid_admin_key, agent_key_not_permitted, invalid_token, refused, Credentials,
  bearer_token, authenticate_principal, authenticate_with, authenticate_key,
}
use casper_agops_server.Identity.Members.{Request, run}
use casper_agops_server.Identity.Members.Steps.{IsKept, run-kept}

-- The table has a row of the digest, and no live one.
pub IsRevoked : ℕ → Directory → Type 0
IsRevoked key_hash d =
    (knows_key key_hash d.api_keys ≡ true) × (find_live_key key_hash d.api_keys ≡ none)

touch-knows_key :
    (key_hash id now : ℕ) (ks : List ApiKey)
    → knows_key key_hash (touch_key id now ks) ≡ knows_key key_hash ks
unfolding knows_key touch_key
touch-knows_key key_hash id now [] = refl
touch-knows_key key_hash id now (k ∷ ks) = ground (arith, touch-knows_key key_hash id now ks)

touch-find_live_key :
    (key_hash id now : ℕ) (ks : List ApiKey)
    → find_live_key key_hash ks ≡ none
    → find_live_key key_hash (touch_key id now ks) ≡ none
unfolding find_live_key touch_key
touch-find_live_key key_hash id now [] e = refl
touch-find_live_key key_hash id now (k ∷ ks) e =
    ground (arith, e, touch-find_live_key key_hash id now ks)

revoke_rows-knows_key :
    (key_hash org id now : ℕ) (ks : List ApiKey)
    → knows_key key_hash (revoke_rows org id now ks) ≡ knows_key key_hash ks
unfolding knows_key revoke_rows
revoke_rows-knows_key key_hash org id now [] = refl
revoke_rows-knows_key key_hash org id now (k ∷ ks) =
    ground (arith, revoke_rows-knows_key key_hash org id now ks)

revoke_rows-stay_revoked :
    (key_hash org id now : ℕ) (ks : List ApiKey)
    → find_live_key key_hash ks ≡ none
    → find_live_key key_hash (revoke_rows org id now ks) ≡ none
unfolding find_live_key revoke_rows
revoke_rows-stay_revoked key_hash org id now [] e = refl
revoke_rows-stay_revoked key_hash org id now (k ∷ ks) e =
    ground (arith, e, revoke_rows-stay_revoked key_hash org id now ks)

-- A row with the digest is that of the org's key.
abbrev pub is_row_of : ℕ → ℕ → ℕ → ApiKey → Bool
is_row_of key_hash org id k =
    if k.key_hash =? key_hash then k.key_id =? id && k.org_id =? org else true

revoke_rows-find_live_key :
    (key_hash org id now : ℕ) (ks : List ApiKey)
    → All (λ k. is_row_of key_hash org id k ≡ true) ks
    → find_live_key key_hash (revoke_rows org id now ks) ≡ none
unfolding find_live_key revoke_rows
revoke_rows-find_live_key key_hash org id now [] a = refl
revoke_rows-find_live_key key_hash org id now (k ∷ ks) a =
    ground (arith, a.0, revoke_rows-find_live_key key_hash org id now ks a.1)

issue-IsRevoked :
    (key_hash id new_hash org : ℕ) (by : Option ℕ) (d d' : Directory)
    → issue_api_key id new_hash org by d ≡ some d'
    → IsRevoked key_hash d
    → IsRevoked key_hash d'
unfolding IsRevoked issue_api_key insert_api_key_row knows_key find_live_key
issue-IsRevoked key_hash id new_hash org by d d' e h =
    elim (Bool-cases (knows_key new_hash d.api_keys)) [
      | inl known ↦ absurd (ground (arith, known, e))
      | inr fresh ↦ (ground (arith, fresh, e, h.0, h.1), ground (arith, fresh, e, h.0, h.1))
    ]

IsRevoked-IsKept : (key_hash : ℕ) → IsKept (IsRevoked key_hash)
unfolding IsRevoked consume_invitation create_invitation revoke_api_key ensure_membership
    add_membership issue_api_key insert_api_key_row update_member_role remove_member
IsRevoked-IsKept key_hash = record {
  on_touch = λ id now d h. (
    touch-knows_key key_hash id now d.api_keys ∙ h.0,
    touch-find_live_key key_hash id now d.api_keys h.1,
  );
  on_sessions = λ ss d h. h;
  on_orgs = λ os d h. h;
  on_invite = λ token_hash o email r now d d' e h. ground (arith, e, h);
  on_consume = λ token_hash now d h. h;
  on_ensure = λ uid o r d h. ground (arith, h);
  on_add = λ uid o d d' e h. ground (arith, e, h);
  on_change = λ uid o current r d e passes h. h;
  on_remove = λ uid o current d e passes h. h;
  on_issue = λ id hash' o by d d' e h. issue-IsRevoked key_hash id hash' o by d d' e h;
  on_revoke = λ o id now d h. (
    revoke_rows-knows_key key_hash o id now d.api_keys ∙ h.0,
    revoke_rows-stay_revoked key_hash o id now d.api_keys h.1,
  );
}

revoked-refused :
    (hash : String → ℕ) (token : String) (c : Credentials) (requested now : ℕ) (d : Directory)
    → IsRevoked (hash token) d
    → (r : Reason) × ((authenticate_with hash (some token) c requested now d).1 ≡ refused 401 r)
unfolding IsRevoked authenticate_with authenticate_key
revoked-refused hash token c requested now d h = elim (Bool-cases (starts_with token "ag_")) [
  | inl e ↦ (agent_key_not_permitted, ground (arith, e))
  | inr e ↦ elim (Bool-cases (starts_with token "sk_")) [
    | inl e' ↦ (invalid_admin_key, ground (arith, e, e', h.0, h.1))
    | inr e' ↦ (invalid_token, ground (arith, e, e'))
  ]
]

revoke-IsRevoked :
    (key_hash org id now : ℕ) (d : Directory)
    → knows_key key_hash d.api_keys ≡ true
    → All (λ k. is_row_of key_hash org id k ≡ true) d.api_keys
    → IsRevoked key_hash (revoke_api_key org id now d).0
unfolding IsRevoked revoke_api_key
revoke-IsRevoked key_hash org id now d known unique = (
  revoke_rows-knows_key key_hash org id now d.api_keys ∙ known,
  revoke_rows-find_live_key key_hash org id now d.api_keys unique,
)

-- A key that its org revokes, when every row with its digest is that key, is answered with a 401 from
-- then on: after any requests, at any time, and whatever the legacy column holds.
pub revoke-refused :
    (hash : String → ℕ) (token : String) (org id revoked_at : ℕ) (d : Directory)
    (rs : List (ℕ × Request)) (c : Credentials) (requested now : ℕ)
    → knows_key (hash token) d.api_keys ≡ true
    → All (λ k. is_row_of (hash token) org id k ≡ true) d.api_keys
    → bearer_token c.authorization ≡ some token
    → (r : Reason) × ((authenticate_principal hash c requested now
          (run hash rs (revoke_api_key org id revoked_at d).0)).1
        ≡ refused 401 r)
unfolding authenticate_principal
revoke-refused hash token org id revoked_at d rs c requested now known unique e = rw e (
    revoked-refused hash token c requested now _ (
      run-kept (IsRevoked (hash token)) (IsRevoked-IsKept (hash token)) hash rs _
        (revoke-IsRevoked (hash token) org id revoked_at d known unique)))

-- Every row of the digest is accepted, and there is one.
abbrev is_spent : ℕ → List Invitation → Bool
is_spent token_hash [] = true
is_spent token_hash (i ∷ is') =
    (if i.token_hash =? token_hash then is_some i.accepted_at else true) && is_spent token_hash is'

pub IsSpent : ℕ → Directory → Type 0
IsSpent token_hash d =
    (1 ≤ rows_with token_hash d.invitations) × (is_spent token_hash d.invitations ≡ true)

accept_rows-rows_with :
    (token_hash other now : ℕ) (is' : List Invitation)
    → rows_with token_hash (accept_rows other now is') ≡ rows_with token_hash is'
unfolding rows_with accept_rows
accept_rows-rows_with token_hash other now [] = refl
accept_rows-rows_with token_hash other now (i ∷ is') =
    ground (arith, accept_rows-rows_with token_hash other now is')

accept_rows-stay_spent :
    (token_hash other now : ℕ) (is' : List Invitation)
    → is_spent token_hash is' ≡ true
    → is_spent token_hash (accept_rows other now is') ≡ true
unfolding accept_rows
accept_rows-stay_spent token_hash other now [] e = refl
accept_rows-stay_spent token_hash other now (i ∷ is') e =
    ground (arith, e, accept_rows-stay_spent token_hash other now is')

no_rows-spent :
    (token_hash : ℕ) (is' : List Invitation)
    → rows_with token_hash is' ≡ 0
    → is_spent token_hash is' ≡ true
unfolding rows_with
no_rows-spent token_hash [] e = refl
no_rows-spent token_hash (i ∷ is') e = ground (arith, e, no_rows-spent token_hash is')

spent-find_open :
    (token_hash now : ℕ) (is' : List Invitation)
    → is_spent token_hash is' ≡ true
    → find_open token_hash now is' ≡ none
unfolding find_open
spent-find_open token_hash now [] e = refl
spent-find_open token_hash now (i ∷ is') e = ground (arith, e, spent-find_open token_hash now is')

-- A row that was open is the only one of its digest, and is accepted then.
accept_rows-spends :
    (token_hash now : ℕ) (i : Invitation) (is' : List Invitation)
    → find_open token_hash now is' ≡ some i
    → rows_with token_hash is' ≤ 1
    → (1 ≤ rows_with token_hash is') × (is_spent token_hash (accept_rows token_hash now is') ≡ true)
unfolding find_open rows_with accept_rows
accept_rows-spends token_hash now i [] e one = absurd (cc)
accept_rows-spends token_hash now i (j ∷ is') e one =
    elim (Bool-cases (j.token_hash =? token_hash)) [
      | inr other ↦ ground (arith, e, one, other, accept_rows-spends token_hash now i is')
      | inl same ↦ only_row same (ground (arith, same, one))
    ]
  where
    only_row :
        (j.token_hash =? token_hash) ≡ true
        → rows_with token_hash is' ≡ 0
        → (1 ≤ rows_with token_hash (j ∷ is'))
          × (is_spent token_hash (accept_rows token_hash now (j ∷ is')) ≡ true)
    only_row same zero_rows = ground (
      arith,
      e,
      same,
      spent-find_open token_hash now is' (no_rows-spent token_hash is' zero_rows),
      accept_rows-stay_spent token_hash token_hash now is' (no_rows-spent token_hash is' zero_rows),
    )

invite-IsSpent :
    (token_hash new_hash org : ℕ) (email : String) (r : InvitableRole) (now : ℕ) (d d' : Directory)
    → create_invitation new_hash org email r now d ≡ some d'
    → IsSpent token_hash d
    → IsSpent token_hash d'
unfolding IsSpent create_invitation rows_with
invite-IsSpent token_hash new_hash org email r now d d' e h =
    elim (Bool-cases (rows_with new_hash d.invitations =? 0)) [
      | inl fresh ↦ (ground (arith, fresh, e, h.0, h.1), ground (arith, fresh, e, h.0, h.1))
      | inr known ↦ absurd (ground (arith, known, e))
    ]

IsSpent-IsKept : (token_hash : ℕ) → IsKept (IsSpent token_hash)
unfolding IsSpent consume_invitation create_invitation revoke_api_key ensure_membership
    add_membership issue_api_key insert_api_key_row update_member_role remove_member
IsSpent-IsKept token_hash = record {
  on_touch = λ id now d h. h;
  on_sessions = λ ss d h. h;
  on_orgs = λ os d h. h;
  on_invite =
      λ new_hash o email r now d d' e h. invite-IsSpent token_hash new_hash o email r now d d' e h;
  on_consume = λ other now d h. (
    ground (arith, h.0, accept_rows-rows_with token_hash other now d.invitations),
    accept_rows-stay_spent token_hash other now d.invitations h.1,
  );
  on_ensure = λ uid o r d h. ground (arith, h);
  on_add = λ uid o d d' e h. ground (arith, e, h);
  on_change = λ uid o current r d e passes h. h;
  on_remove = λ uid o current d e passes h. h;
  on_issue = λ id key_hash o by d d' e h. ground (arith, e, h);
  on_revoke = λ o id now d h. h;
}

-- An invitation that was consumed, when it is the only one of its digest, is not consumed again: not
-- after any requests, and at no time.
pub consume-consume_invitation :
    (hash : String → ℕ) (token_hash now later : ℕ) (i : Invitation) (d : Directory)
    (rs : List (ℕ × Request))
    → rows_with token_hash d.invitations ≤ 1
    → (consume_invitation token_hash now d).1 ≡ some i
    → (consume_invitation token_hash later (run hash rs (consume_invitation token_hash now d).0)).1
      ≡ none
unfolding consume_invitation IsSpent
consume-consume_invitation hash token_hash now later i d rs one e =
    spent-find_open token_hash later _
      (run-kept (IsSpent token_hash) (IsSpent-IsKept token_hash) hash rs _ (spends.0, spends.1)).1
  where
    spends :
        (1 ≤ rows_with token_hash (accept_rows token_hash now d.invitations))
        × (is_spent token_hash (accept_rows token_hash now d.invitations) ≡ true)
    spends = ground (
      arith,
      accept_rows-rows_with token_hash token_hash now d.invitations,
      accept_rows-spends token_hash now i d.invitations e one,
    )
