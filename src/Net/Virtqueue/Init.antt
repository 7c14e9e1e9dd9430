-- ===== src/Net/Virtqueue/Init.antt =====
-- `virtqueue_init` of AetherWebOS/src/drivers/virtio/virtio_ring.c: the chain of all descriptors, and
-- where the three areas lie.
use aether_webos.Prelude.{
  ℕ, zero, suc, ◌+◌, ◌-◌, ◌^◌, ◌≤◌, ◌<◌, ◌≡◌, refl, arith, ap, ◌∙◌, List, [], ◌∷◌, ◌==◌, length,
  All, Bool-cases, ==_iff, sym, inl, inr, u16,
}
use aether_webos.Net.Virtqueue.{Desc, Virtqueue, update, no_desc, link_loop, virtqueue_init}
use aether_webos.Net.Virtqueue.FreeList.{Chain, Apart, Distinct, Owns, update-same, update-ne}

-- `n` indices from `i` on.
abbrev pub from : ℕ → ℕ → List ℕ
from i zero = []
from i (suc n) = i ∷ from (i + 1) n

pub length-from : (i n : ℕ) → length (from i n) ≡ n
length-from i zero = refl
length-from i (suc n) = ap suc (length-from (i + 1) n)

from-range : (m i n : ℕ) → i + n ≤ m → All (λ (j : ℕ). j < m) (from i n)
from-range m i zero h = tt
from-range m i (suc n) h = (omega arith, from-range m (i + 1) n (omega arith))

Apart-from : (k i n : ℕ) → k < i → Apart k (from i n)
Apart-from k i zero h = tt
Apart-from k i (suc n) h = (omega arith, Apart-from k (i + 1) n (omega arith))

Distinct-from : (i n : ℕ) → Distinct (from i n)
Distinct-from i zero = tt
Distinct-from i (suc n) = (Apart-from i (i + 1) n (omega arith), Distinct-from (i + 1) n)

All-free : (xs : List ℕ) → All (λ (j : ℕ). Apart j []) xs
All-free [] = tt
All-free (x ∷ xs) = (tt, All-free xs)

-- Entries before `i` are not linked again.
link_loop-before :
    (n i j : ℕ) (desc : ℕ → Desc) → i + n < 2 ^ 16 → j < i → link_loop n i desc j ≡ desc j
unfolding link_loop
link_loop-before zero i j desc h lt = refl
link_loop-before (suc n) i j desc h lt =
    let e : u16 (i + 1) ≡ i + 1 = omega arith in
    rw (e, link_loop)
      (link_loop-before n (i + 1) j (update desc i (record (desc i) { next = i + 1 })) (omega arith)
          (omega arith)
        ∙ update-ne desc i j (record (desc i) { next = i + 1 }) (omega arith))

link_loop-next :
    (n i : ℕ) (desc : ℕ → Desc) → i + suc n < 2 ^ 16 → (link_loop (suc n) i desc i).next ≡ i + 1
unfolding link_loop
link_loop-next n i desc h =
    let e : u16 (i + 1) ≡ i + 1 = omega arith in
    rw (e, link_loop)
      (ap (λ (d : Desc). d.next)
        (link_loop-before n (i + 1) i (update desc i (record (desc i) { next = i + 1 }))
            (omega arith) (omega arith)
          ∙ update-same desc i (record (desc i) { next = i + 1 })))

link_loop-at :
    (n i j : ℕ) (desc : ℕ → Desc)
    → i + n < 2 ^ 16
    → i ≤ j
    → j < i + n
    → (link_loop n i desc j).next ≡ j + 1
unfolding link_loop
link_loop-at zero i j desc h le lt = absurd (omega arith)
link_loop-at (suc n) i j desc h le lt =
    let e : u16 (i + 1) ≡ i + 1 = omega arith in
    elim (Bool-cases (i == j)) [
      | inl same ↦ rw (sym ((==_iff i j).0 same)) (link_loop-next n i desc h)
      | inr other ↦
          rw (e, link_loop)
            (link_loop-at n (i + 1) j (update desc i (record (desc i) { next = i + 1 }))
              (omega arith) (ground arith) (omega arith))
    ]

from-Chain :
    (n i : ℕ) (desc : ℕ → Desc)
    → ((j : ℕ) → i ≤ j → j < i + n → (desc j).next ≡ j + 1)
    → Chain desc i (from i (suc n))
from-Chain zero i desc h = (refl, tt)
from-Chain (suc n) i desc h = (
  refl,
  rw (h i (omega arith) (omega arith))
      (from-Chain n (i + 1) desc (λ j le lt. h j (omega arith) (omega arith))),
)

-- Initialising a queue with a size of 1 to 65535 gives the driver all its descriptors, in order.
pub init-Owns :
    (size index p : ℕ) (vq : Virtqueue)
    → 0 < size
    → size < 2 ^ 16
    → Owns (virtqueue_init size index p vq) (from 0 size) []
unfolding virtqueue_init
init-Owns zero index p vq pos small = absurd (omega arith)
init-Owns (suc n) index p vq pos small = record {
  chain = from-Chain n 0 (virtqueue_init (suc n) index p vq).desc (λ j le lt.
      ap (λ (d : Desc). d.next)
        (update-ne (link_loop (suc n - 1) 0 vq.desc) (suc n - 1) j
          (record (link_loop (suc n - 1) 0 vq.desc (suc n - 1)) { next = no_desc }) (omega arith))
      ∙ link_loop-at (suc n - 1) 0 j vq.desc (omega arith) le (omega arith));
  counted = sym (length-from 0 (suc n));
  whole = omega (arith, length-from 0 (suc n));
  free_in_range = from-range (suc n) 0 (suc n) (omega arith);
  busy_in_range = tt;
  free_distinct = Distinct-from 0 (suc n);
  busy_distinct = tt;
  apart = All-free (from 0 (suc n));
  size_small = small;
}
