-- ===== src/Identity/Roles.antt =====
-- identity/access/roles.ts.
use casper_agops_server.Prelude.{ℕ, Bool, leb, ◌=?◌}

pub data Role : Type 0 where
  owner admin member : Role

-- `ROLE_RANK`.
abbrev pub role_rank : Role → ℕ
role_rank member = 0
role_rank admin = 1
role_rank owner = 2

abbrev pub key_role : Role
key_role = admin

abbrev pub satisfies_role : Role → Role → Bool
satisfies_role actual min = leb (role_rank min) (role_rank actual)

abbrev pub role_beq : Role → Role → Bool
role_beq a b = role_rank a =? role_rank b
