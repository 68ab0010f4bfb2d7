-- ===== src/Prelude/Lists.antt =====
-- Lists and maps over native numbers, under the library's names where it has them.
use Prim.Native.Nat.{ℕ, suc}
use mathlib.Core.Bool.{Bool, true, false}
use mathlib.Core.Option.{Option, none, some}
use mathlib.Core.List.{List, [], ◌∷◌}
use mathlib.Core.Path.{◌≡◌, fun_ext}
use native.Mathlib.Omega.{arith}
use casper_agops_server.Prelude.Tests.{if◌then◌else◌, ◌=?◌}

abbrev pub length {ℓ} : {A : Type ℓ} → List A → ℕ
length [] = 0
length (x ∷ xs) = suc (length xs)

-- `Array.filter`.
abbrev pub select {ℓ} : {A : Type ℓ} → (A → Bool) → List A → List A
select p [] = []
select p (x ∷ xs) = if p x then x ∷ select p xs else select p xs

-- `Array.find`.
abbrev pub find {ℓ} : {A : Type ℓ} → (A → Bool) → List A → Option A
find p [] = none
find p (x ∷ xs) = if p x then some x else find p xs

-- A map from identifiers with one entry written.
abbrev pub update {ℓ} : {A : Type ℓ} → (ℕ → A) → ℕ → A → ℕ → A
update m k v j = if j =? k then v else m j

abbrev pub is_some {ℓ} : {A : Type ℓ} → Option A → Bool
is_some none = false
is_some (some a) = true

-- Writing back what an entry was undoes a write.
pub update_undo {ℓ} :
    {A : Type ℓ} (m : ℕ → A) (k : ℕ) (v w : A) → m k ≡ w → update (update m k v) k w ≡ m
update_undo m k v w e = fun_ext (λ j. ground arith)
