-- ===== src/Provisioning/Book/Sums.antt =====
-- The sums that an org's counters stand for, and what each write does to them.
use casper_agops_server.Prelude.{
  ℕ, ◌+◌, some, List, [], ◌∷◌, ◌≡◌, refl, inl, inr, arith, ◌=?◌, if◌then◌else◌, Bool-cases,
}
use casper_agops_server.Provisioning.Book.{
  Allocation, find_allocation, set_confirmed, delete_allocation, float_of, add_float, take_float,
}

-- What an allocation adds to the reserved budget.
abbrev pub weight : Allocation → ℕ
weight a = if a.is_pending then a.amount else 0

unfoldable pub pending_sum : List (ℕ × Allocation) → ℕ
pending_sum [] = 0
pending_sum ((k, a) ∷ l) = weight a + pending_sum l

unfoldable pub float_sum : List (ℕ × ℕ) → ℕ
float_sum [] = 0
float_sum ((k, f) ∷ l) = f + float_sum l

pub delete-pending_sum :
    (id : ℕ) (a : Allocation) (l : List (ℕ × Allocation))
    → find_allocation id l ≡ some a
    → pending_sum (delete_allocation id l) + weight a ≡ pending_sum l
unfolding find_allocation delete_allocation pending_sum
delete-pending_sum id a [] e = absurd (cc)
delete-pending_sum id a ((k, x) ∷ l) e = elim (Bool-cases (k =? id)) [
  | inl same ↦ ground (arith, same, e)
  | inr other ↦ ground (arith, other, delete-pending_sum id a l (ground (arith, other, e)))
]

pub delete-set_confirmed :
    (id : ℕ) (l : List (ℕ × Allocation))
    → delete_allocation id (set_confirmed id l) ≡ delete_allocation id l
unfolding set_confirmed delete_allocation
delete-set_confirmed id [] = refl
delete-set_confirmed id ((k, x) ∷ l) = ground (arith, delete-set_confirmed id l)

pub add_float-float_sum :
    (agent amount : ℕ) (l : List (ℕ × ℕ))
    → float_sum (add_float agent amount l) ≡ float_sum l + amount
unfolding add_float float_sum
add_float-float_sum agent amount [] = ground arith
add_float-float_sum agent amount ((k, f) ∷ l) = ground (arith, add_float-float_sum agent amount l)

pub take_float-float_sum :
    (agent : ℕ) (l : List (ℕ × ℕ))
    → float_sum (take_float agent (float_of agent l) l) + float_of agent l ≡ float_sum l
unfolding take_float float_of float_sum
take_float-float_sum agent [] = refl
take_float-float_sum agent ((k, f) ∷ l) = elim (Bool-cases (k =? agent)) [
  | inl same ↦ ground (arith, same)
  | inr other ↦ ground (arith, other, take_float-float_sum agent l)
]

pub float_of-take_float :
    (agent : ℕ) (l : List (ℕ × ℕ)) → float_of agent (take_float agent (float_of agent l) l) ≡ 0
unfolding take_float float_of
float_of-take_float agent [] = refl
float_of-take_float agent ((k, f) ∷ l) = elim (Bool-cases (k =? agent)) [
  | inl same ↦ ground (arith, same)
  | inr other ↦ ground (arith, other, float_of-take_float agent l)
]
