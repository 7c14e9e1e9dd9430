-- ===== src/Net/Virtqueue/Traffic/Counts.antt =====
-- How often an index stands in a list.
use aether_webos.Prelude.{ℕ, ◌+◌, ◌≡◌, arith, List, [], ◌∷◌, ◌++◌, ◌==◌, if◌then◌else◌, inl, inr}
use aether_webos.Net.Virtqueue.FreeList.{Apart, Held, remove}

abbrev pub count : ℕ → List ℕ → ℕ
count i [] = 0
count i (x ∷ xs) = (if i == x then 1 else 0) + count i xs

pub Apart-count : (i : ℕ) (xs : List ℕ) → count i xs ≡ 0 → Apart i xs
Apart-count i [] h = tt
Apart-count i (x ∷ xs) h = (λ e. ground arith, Apart-count i xs (ground arith))

pub count-append :
    (i j : ℕ) (xs : List ℕ) → count i (xs ++ j ∷ []) ≡ count i xs + (if i == j then 1 else 0)
count-append i j [] = omega arith
count-append i j (x ∷ xs) = omega (arith, count-append i j xs)

pub count-remove :
    (i j : ℕ) (xs : List ℕ)
    → Held j xs
    → count i xs ≡ count i (remove j xs) + (if i == j then 1 else 0)
count-remove i j [] h = absurd h
count-remove i j (x ∷ xs) (inl e) = ground arith
count-remove i j (x ∷ xs) (inr h) = ground (arith, count-remove i j xs h)
