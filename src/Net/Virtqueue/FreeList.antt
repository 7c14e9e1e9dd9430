-- ===== src/Net/Virtqueue/FreeList.antt =====
-- The free list of AetherWebOS/src/drivers/virtio/virtio_ring.c: which descriptors the driver may
-- hand out, and which the device holds.
use aether_webos.Prelude.{
  ℕ, ◌+◌, ◌-◌, ◌<◌, ◌≡◌, ◌≢◌, ◌⊎◌, refl, arith, List, [], ◌∷◌, ◌==◌, if◌then◌else◌, length, All,
  Bool-cases, ==_iff, sym, inl, inr, u16, u64, ◌^◌,
}
use aether_webos.Net.Virtqueue.{Desc, Virtqueue, Stats, update, no_desc, virtqueue_add_descriptor}

-- The indices that are met from `head` on along `next`.
abbrev pub Chain : (ℕ → Desc) → ℕ → List ℕ → Type 0
Chain desc head [] = Unit
Chain desc head (i ∷ is) = (head ≡ i) × Chain desc (desc i).next is

abbrev pub Apart : ℕ → List ℕ → Type 0
Apart i xs = All (λ j. i ≢ j) xs

abbrev pub Distinct : List ℕ → Type 0
Distinct [] = Unit
Distinct (x ∷ xs) = Apart x xs × Distinct xs

abbrev pub Held : ℕ → List ℕ → Type 0
Held i [] = ⊥
Held i (x ∷ xs) = (i ≡ x) ⊎ Held i xs

-- The list without the first entry `i`.
abbrev pub remove : ℕ → List ℕ → List ℕ
remove i [] = []
remove i (x ∷ xs) = if i == x then xs else x ∷ remove i xs

-- Each of the queue's descriptors is free, and then on the chain, or with the device.
pub record Owns (vq : Virtqueue) (free busy : List ℕ) : Type 0 where
  pub chain : Chain vq.desc vq.free_head free
  pub counted : vq.num_free ≡ length free
  pub whole : length free + length busy ≡ vq.size
  pub free_in_range : All (λ (i : ℕ). i < vq.size) free
  pub busy_in_range : All (λ (i : ℕ). i < vq.size) busy
  pub free_distinct : Distinct free
  pub busy_distinct : Distinct busy
  pub apart : All (λ (i : ℕ). Apart i busy) free
  pub size_small : vq.size < 2 ^ 16

pub update-same : {A : Type 0} (f : ℕ → A) (i : ℕ) (v : A) → update f i v i ≡ v
update-same f i v = rw ((==_iff i i).1 refl)

pub update-ne : {A : Type 0} (f : ℕ → A) (i j : ℕ) (v : A) → i ≢ j → update f i v j ≡ f j
update-ne f i j v ne = elim (Bool-cases (i == j)) [
  | inl e ↦ absurd (ne ((==_iff i j).0 e))
  | inr e ↦ rw e
]

pub Chain-update :
    (desc : ℕ → Desc) (head i : ℕ) (d : Desc) (is : List ℕ)
    → Apart i is
    → Chain desc head is
    → Chain (update desc i d) head is
Chain-update desc head i d [] a c = tt
Chain-update desc head i d (j ∷ is) a c =
    (c.0, rw (update-ne desc i j d a.0) (Chain-update desc (desc j).next i d is a.1 c.1))

-- Moving an index from the front of one list to the front of the other.
Apart-cons :
    (i : ℕ) (free busy : List ℕ)
    → Apart i free
    → All (λ (j : ℕ). Apart j busy) free
    → All (λ (j : ℕ). Apart j (i ∷ busy)) free
Apart-cons i [] busy a h = tt
Apart-cons i (j ∷ free) busy a h = ((λ e. a.0 (sym e), h.0), Apart-cons i free busy a.1 h.1)

-- The queue when descriptor `i` has been handed out.
abbrev pub taken : ℕ → ℕ → ℕ → ℕ → Virtqueue → Virtqueue
taken addr len flags i vq = record vq {
  desc = update vq.desc i (record { addr = addr; len = len; flags = flags; next = 0 });
  free_head = (vq.desc i).next;
  num_free = u16 (vq.num_free - 1);
}

pub add_descriptor_some :
    (addr len flags i : ℕ) (vq : Virtqueue) (stats : Stats)
    → vq.free_head ≡ i
    → vq.num_free ≢ 0
    → virtqueue_add_descriptor addr len flags vq stats
      ≡ (taken addr len flags i vq, record stats { buffer_usage = u64 (stats.buffer_usage + 1) }, i)
unfolding virtqueue_add_descriptor
add_descriptor_some addr len flags i vq stats e pos = ground arith

taken-Owns :
    (addr len flags i : ℕ) (free busy : List ℕ) (vq : Virtqueue)
    → Owns vq (i ∷ free) busy
    → Owns (taken addr len flags i vq) free (i ∷ busy)
taken-Owns addr len flags i free busy vq o = record {
  chain =
      Chain-update vq.desc (vq.desc i).next i
        (record { addr = addr; len = len; flags = flags; next = 0 }) free o.free_distinct.0
        o.chain.1;
  counted = omega arith;
  whole = omega arith;
  free_in_range = o.free_in_range.1;
  busy_in_range = (o.free_in_range.0, o.busy_in_range);
  free_distinct = o.free_distinct.1;
  busy_distinct = (o.apart.0, o.busy_distinct);
  apart = Apart-cons i free busy o.free_distinct.0 o.apart.1;
  size_small = o.size_small;
}

-- With a free descriptor at hand the first of the chain is taken: it gets the buffer and leaves
-- the chain, and no other descriptor changes.
pub add_descriptor-Owns :
    (addr len flags i : ℕ) (free busy : List ℕ) (vq : Virtqueue) (stats : Stats)
    → Owns vq (i ∷ free) busy
    → let (vq', stats', id) = virtqueue_add_descriptor addr len flags vq stats in
      Owns vq' free (i ∷ busy)
      × (id ≡ i)
      × (vq'.desc i ≡ record { addr = addr; len = len; flags = flags; next = 0 })
      × ((j : ℕ) → i ≢ j → vq'.desc j ≡ vq.desc j)
add_descriptor-Owns addr len flags i free busy vq stats o =
    rw (add_descriptor_some addr len flags i vq stats o.chain.0 (omega arith)) (
      taken-Owns addr len flags i free busy vq o,
      refl,
      update-same vq.desc i (record { addr = addr; len = len; flags = flags; next = 0 }),
      λ j ne. update-ne vq.desc i j (record { addr = addr; len = len; flags = flags; next = 0 }) ne,
    )

-- With none free the answer is 0xFFFF, which is the index of no descriptor of the queue, and
-- nothing changes.
pub add_descriptor_full :
    (addr len flags : ℕ) (busy : List ℕ) (vq : Virtqueue) (stats : Stats)
    → Owns vq [] busy
    → (virtqueue_add_descriptor addr len flags vq stats ≡ (vq, stats, no_desc))
unfolding virtqueue_add_descriptor
add_descriptor_full addr len flags busy vq stats o = ground arith
