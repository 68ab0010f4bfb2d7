-- ===== src/Ledger/Hot/Windows.antt =====
-- Sums, counts and membership of a spend window under `zadd` and `zrem`.
use casper_agops_server.Prelude.{
  ℕ, ◌+◌, Bool, true, false, Option, [], ◌∷◌, ◌≡◌, refl, ◌≢◌, arith, leb, ◌=?◌, if◌then◌else◌,
}
use casper_agops_server.Ledger.Hot.{Zset, zadd, zrem, zcount, zsum, or_zero}

abbrev pub has : ℕ → Zset → Bool
has m [] = false
has m ((k, s) ∷ z) = if k =? m then true else has m z

abbrev pub IsDistinct : Zset → Type 0
IsDistinct [] = Unit
IsDistinct ((k, s) ∷ z) = (has k z ≡ false) × IsDistinct z

abbrev pub score_of : ℕ → Zset → ℕ
score_of m [] = 0
score_of m ((k, s) ∷ z) = if k =? m then s else score_of m z

-- The sum of a weight over the members, of which the window's sum and count are cases.
abbrev pub sum_by : (ℕ → ℕ → ℕ) → Zset → ℕ
sum_by f [] = 0
sum_by f ((k, s) ∷ z) = f k s + sum_by f z

abbrev pub weight : (ℕ → Option ℕ) → ℕ → ℕ → ℕ → ℕ
weight amounts min k s = if leb min s then or_zero (amounts k) else 0

pub zsum-eq-sum_by :
    (amounts : ℕ → Option ℕ) (min : ℕ) (z : Zset)
    → zsum amounts min z ≡ sum_by (weight amounts min) z
unfolding zsum
zsum-eq-sum_by amounts min [] = refl
zsum-eq-sum_by amounts min ((k, s) ∷ z) = ground (arith, zsum-eq-sum_by amounts min z)

pub zcount-zadd :
    (min score m : ℕ) (z : Zset)
    → has m z ≡ false
    → zcount min (zadd score m z) ≡ zcount min z + (if leb min score then 1 else 0)
unfolding zcount zadd
zcount-zadd min score m [] h = ground arith
zcount-zadd min score m ((k, s) ∷ z) h = ground (arith, zcount-zadd min score m z)

pub sum_by-zadd :
    (f : ℕ → ℕ → ℕ) (score m : ℕ) (z : Zset)
    → has m z ≡ false
    → sum_by f (zadd score m z) ≡ sum_by f z + f m score
unfolding zadd
sum_by-zadd f score m [] h = ground arith
sum_by-zadd f score m ((k, s) ∷ z) h = ground (arith, sum_by-zadd f score m z)

pub sum_by-zrem :
    (f : ℕ → ℕ → ℕ) (m : ℕ) (z : Zset)
    → has m z ≡ true
    → sum_by f z ≡ sum_by f (zrem m z) + f m (score_of m z)
unfolding zrem
sum_by-zrem f m [] h = absurd (cc)
sum_by-zrem f m ((k, s) ∷ z) h = ground (arith, sum_by-zrem f m z)

-- The weight of a payment that is not in the window does not count.
pub sum_by-ext :
    (f g : ℕ → ℕ → ℕ) (m : ℕ) (z : Zset)
    → ((k s : ℕ) → k ≢ m → f k s ≡ g k s)
    → has m z ≡ false
    → sum_by f z ≡ sum_by g z
sum_by-ext f g m [] e h = refl
sum_by-ext f g m ((k, s) ∷ z) e h = ground (arith, sum_by-ext f g m z e, e k s)

pub zrem-zadd : (score m : ℕ) (z : Zset) → has m z ≡ false → zrem m (zadd score m z) ≡ z
unfolding zrem zadd
zrem-zadd score m [] h = ground arith
zrem-zadd score m ((k, s) ∷ z) h = ground (arith, zrem-zadd score m z)

pub has-zadd :
    (j score m : ℕ) (z : Zset) → has j (zadd score m z) ≡ (if j =? m then true else has j z)
unfolding zadd
has-zadd j score m [] = ground arith
has-zadd j score m ((k, s) ∷ z) = ground (arith, has-zadd j score m z)

pub has-zrem :
    (j m : ℕ) (z : Zset) → IsDistinct z → has j (zrem m z) ≡ (if j =? m then false else has j z)
unfolding zrem
has-zrem j m [] d = ground arith
has-zrem j m ((k, s) ∷ z) d = ground (arith, has-zrem j m z d.1)

pub zadd-IsDistinct :
    (score m : ℕ) (z : Zset) → has m z ≡ false → IsDistinct z → IsDistinct (zadd score m z)
unfolding zadd
zadd-IsDistinct score m [] h d = (refl, tt)
zadd-IsDistinct score m ((k, s) ∷ z) h d =
    ground (arith, zadd-IsDistinct score m z, has-zadd k score m z)

pub zrem-IsDistinct : (m : ℕ) (z : Zset) → IsDistinct z → IsDistinct (zrem m z)
unfolding zrem
zrem-IsDistinct m [] d = tt
zrem-IsDistinct m ((k, s) ∷ z) d = ground (arith, zrem-IsDistinct m z, has-zrem k m z d.1)
