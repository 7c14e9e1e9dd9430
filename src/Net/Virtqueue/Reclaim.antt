-- ===== src/Net/Virtqueue/Reclaim.antt =====
-- `virtqueue_pop_used` of AetherWebOS/src/drivers/virtio/virtio_ring.c: a descriptor that the device
-- gives back is free again.
use aether_webos.Prelude.{
  ℕ, suc, ◌+◌, ◌%◌, ◌<◌, ◌≡◌, ◌≢◌, refl, arith, List, [], ◌∷◌, none, some, ◌==◌, length, All,
  Bool-cases, ==_iff, sym, inl, inr, u16,
}
use aether_webos.Net.Virtqueue.{Desc, Virtqueue, Stats, update, count_used, virtqueue_pop_used}
use aether_webos.Net.Virtqueue.FreeList.{
  Chain, Apart, Distinct, Held, remove, Owns, update-same, Chain-update,
}

pub length-remove : (i : ℕ) (xs : List ℕ) → Held i xs → length xs ≡ suc (length (remove i xs))
length-remove i [] held = absurd held
length-remove i (x ∷ xs) (inl e) = ground arith
length-remove i (x ∷ xs) (inr held) = ground (arith, length-remove i xs held)

All-remove : (P : ℕ → Type 0) (i : ℕ) (xs : List ℕ) → All P xs → All P (remove i xs)
All-remove P i [] h = tt
All-remove P i (x ∷ xs) h = elim (Bool-cases (i == x)) [
  | inl e ↦ rw e h.1
  | inr e ↦ rw e (h.0, All-remove P i xs h.1)
]

Distinct-remove : (i : ℕ) (xs : List ℕ) → Distinct xs → Distinct (remove i xs)
Distinct-remove i [] d = tt
Distinct-remove i (x ∷ xs) d = elim (Bool-cases (i == x)) [
  | inl e ↦ rw e d.1
  | inr e ↦ rw e (All-remove (λ j. x ≢ j) i xs d.0, Distinct-remove i xs d.1)
]

Apart-remove : (i : ℕ) (xs : List ℕ) → Distinct xs → Apart i (remove i xs)
Apart-remove i [] d = tt
Apart-remove i (x ∷ xs) d = elim (Bool-cases (i == x)) [
  | inl e ↦ rw e (rw ((==_iff i x).0 e) d.0)
  | inr e ↦ rw e ((λ same. absurd (ground arith)), Apart-remove i xs d.1)
]

Held-All : (P : ℕ → Type 0) (i : ℕ) (xs : List ℕ) → All P xs → Held i xs → P i
Held-All P i [] h held = absurd held
Held-All P i (x ∷ xs) h (inl e) = rw e h.0
Held-All P i (x ∷ xs) h (inr held) = Held-All P i xs h.1 held

Apart-free :
    (i : ℕ) (free busy : List ℕ) → All (λ (j : ℕ). Apart j busy) free → Held i busy → Apart i free
Apart-free i [] busy h held = tt
Apart-free i (j ∷ free) busy h held =
    (λ e. Held-All (λ k. j ≢ k) i busy h.0 held (sym e), Apart-free i free busy h.1 held)

All-Apart-remove :
    (i : ℕ) (free busy : List ℕ)
    → All (λ (j : ℕ). Apart j busy) free
    → All (λ (j : ℕ). Apart j (remove i busy)) free
All-Apart-remove i [] busy h = tt
All-Apart-remove i (j ∷ free) busy h =
    (All-remove (λ k. j ≢ k) i busy h.0, All-Apart-remove i free busy h.1)

-- The queue when descriptor `i` has come back.
abbrev pub returned : ℕ → Virtqueue → Virtqueue
returned i vq = record vq {
  last_used_idx = u16 (vq.last_used_idx + 1);
  desc = update vq.desc i (record (vq.desc i) { next = vq.free_head });
  free_head = i;
  num_free = u16 (vq.num_free + 1);
}

Chain-next :
    (desc : ℕ → Desc) (head i : ℕ) (free : List ℕ)
    → Apart i free
    → Chain desc head free
    → Chain (update desc i (record (desc i) { next = head })) i (i ∷ free)
Chain-next desc head i free a c = (
  refl,
  rw (update-same desc i (record (desc i) { next = head }))
      (Chain-update desc head i (record (desc i) { next = head }) free a c),
)

returned-Owns :
    (i : ℕ) (free busy : List ℕ) (vq : Virtqueue)
    → Owns vq free busy
    → Held i busy
    → Owns (returned i vq) (i ∷ free) (remove i busy)
returned-Owns i free busy vq o held = record {
  chain = Chain-next vq.desc vq.free_head i free (Apart-free i free busy o.apart held) o.chain;
  counted = omega (arith, length-remove i busy held);
  whole = omega (arith, length-remove i busy held);
  free_in_range = (Held-All (λ j. j < vq.size) i busy o.busy_in_range held, o.free_in_range);
  busy_in_range = All-remove (λ j. j < vq.size) i busy o.busy_in_range;
  free_distinct = (Apart-free i free busy o.apart held, o.free_distinct);
  busy_distinct = Distinct-remove i busy o.busy_distinct;
  apart = (Apart-remove i busy o.busy_distinct, All-Apart-remove i free busy o.apart);
  size_small = o.size_small;
}

-- The receipt that the device wrote next.
abbrev pub next_receipt : Virtqueue → ℕ
next_receipt vq = u16 (vq.used_ring (vq.last_used_idx % vq.size)).id

pub pop_used_some :
    (vq : Virtqueue) (stats : Stats)
    → vq.last_used_idx ≢ vq.used_idx
    → virtqueue_pop_used vq stats ≡ (
      returned (next_receipt vq) vq,
      count_used vq.queue_index stats,
      some (next_receipt vq, (vq.used_ring (vq.last_used_idx % vq.size)).len),
    )
unfolding virtqueue_pop_used
pop_used_some vq stats pending = ground arith

returned-addr : (vq : Virtqueue) (i j : ℕ) → ((returned i vq).desc j).addr ≡ (vq.desc j).addr
returned-addr vq i j = ground arith

-- If the device has written a receipt for a descriptor that it held, then `virtqueue_pop_used`
-- returns that descriptor, puts it in front of the free ones, and leaves every buffer's address.
pub pop_used-Owns :
    (i : ℕ) (free busy : List ℕ) (vq : Virtqueue) (stats : Stats)
    → Owns vq free busy
    → vq.last_used_idx ≢ vq.used_idx
    → i ≡ next_receipt vq
    → Held i busy
    → let (vq', stats', used) = virtqueue_pop_used vq stats in
      Owns vq' (i ∷ free) (remove i busy)
      × (used ≡ some (i, (vq.used_ring (vq.last_used_idx % vq.size)).len))
      × ((j : ℕ) → (vq'.desc j).addr ≡ (vq.desc j).addr)
pop_used-Owns i free busy vq stats o pending e held =
    rw (pop_used_some vq stats pending, ← e)
      (returned-Owns i free busy vq o held, refl, returned-addr vq i)

-- With no receipt pending the answer is -1, and nothing changes.
pub pop_used-none :
    (vq : Virtqueue) (stats : Stats)
    → vq.last_used_idx ≡ vq.used_idx
    → virtqueue_pop_used vq stats ≡ (vq, stats, none)
unfolding virtqueue_pop_used
pop_used-none vq stats e = ground arith
