-- ===== src/Net/Setup/Posted.antt =====
-- After the set-up in AetherWebOS/src/drivers/virtio/virtio_net.c the device holds every receive
-- descriptor.
use aether_webos.Prelude.{
  ℕ, zero, suc, ◌+◌, ◌*◌, ◌^◌, ◌<◌, ◌≡◌, ◌≢◌, refl, arith, ap, ◌∙◌, List, [], ◌∷◌, true, false, ltb,
  if◌then◌else◌, ◌==◌, Bool-cases, inl, inr,
}
use aether_webos.Net.Virtqueue.{
  Desc, Virtqueue, Stats, virtqueue_init, virtqueue_add_descriptor, publish,
}
use aether_webos.Net.Virtqueue.FreeList.{Owns, add_descriptor-Owns}
use aether_webos.Net.Virtqueue.Init.{from, init-Owns}
use aether_webos.Net.Setup.{prefill, setup_rx}

-- `n` indices from `i` on, put one by one in front of a list.
abbrev pub onto : ℕ → ℕ → List ℕ → List ℕ
onto zero i busy = busy
onto (suc n) i busy = onto n (i + 1) (i ∷ busy)

publish-Owns :
    (id : ℕ) (free busy : List ℕ) (vq : Virtqueue)
    → Owns vq free busy
    → Owns (publish id vq) free busy
unfolding publish
publish-Owns id free busy vq o = record {
  chain = o.chain;
  counted = o.counted;
  whole = o.whole;
  free_in_range = o.free_in_range;
  busy_in_range = o.busy_in_range;
  free_distinct = o.free_distinct;
  busy_distinct = o.busy_distinct;
  apart = o.apart;
  size_small = o.size_small;
}

prefill-Owns :
    (n i rx_buffers : ℕ) (busy : List ℕ) (vq : Virtqueue) (stats : Stats)
    → Owns vq (from i n) busy
    → Owns (prefill n i rx_buffers vq stats).0 [] (onto n i busy)
unfolding prefill
prefill-Owns zero i rx_buffers busy vq stats o = o
prefill-Owns (suc n) i rx_buffers busy vq stats o =
    let added = virtqueue_add_descriptor (rx_buffers + i * 2048) 2048 2 vq stats in
    prefill-Owns n (i + 1) rx_buffers (i ∷ busy) (publish added.2 added.0) added.1 (
      publish-Owns added.2 (from (i + 1) n) (i ∷ busy) added.0
        (add_descriptor-Owns (rx_buffers + i * 2048) 2048 2 i (from (i + 1) n) busy vq stats o).0)

-- For a size of 1 to 65535, `virtio_net_setup_queues` leaves no receive descriptor free: the device
-- holds each of them.
pub setup_rx-Owns :
    (rx_size rx_ring_mem rx_buffers : ℕ) (vq : Virtqueue) (stats : Stats)
    → 0 < rx_size
    → rx_size < 2 ^ 16
    → Owns (setup_rx rx_size rx_ring_mem rx_buffers vq stats).0 [] (onto rx_size 0 [])
unfolding setup_rx
setup_rx-Owns rx_size rx_ring_mem rx_buffers vq stats pos small =
    prefill-Owns rx_size 0 rx_buffers [] (virtqueue_init rx_size 0 rx_ring_mem vq) stats
      (init-Owns rx_size 0 rx_ring_mem vq pos small)

next :
    (i rx_buffers j : ℕ) (vq after : Virtqueue)
    → after.desc i ≡ record { addr = rx_buffers + i * 2048; len = 2048; flags = 2; next = 0 }
    → ((k : ℕ) → i ≢ k → after.desc k ≡ vq.desc k)
    → (if ltb j (i + 1) then (after.desc j).addr else rx_buffers + j * 2048)
      ≡ (if ltb j i then (vq.desc j).addr else rx_buffers + j * 2048)
next i rx_buffers j vq after filled kept = elim (Bool-cases (i == j)) [
  | inl e ↦
      let same : i ≡ j = ground (arith, e) in
      let now : ltb j (i + 1) ≡ true = ground (arith, same) in
      let late : ltb j i ≡ false = ground (arith, same) in
      rw (now, late, ← same) (ap (λ (d : Desc). d.addr) filled)
  | inr e ↦
      let ne : i ≢ j = λ same. ground (arith, same, e) in
      elim (Bool-cases (ltb j i)) [
        | inl before ↦
            let still : ltb j (i + 1) ≡ true = ground (arith, before) in
            rw (still, before) (ap (λ (d : Desc). d.addr) (kept j ne))
        | inr not_yet ↦
            let still : ltb j (i + 1) ≡ false = ground (arith, not_yet, ne) in
            rw (still, not_yet) refl
      ]
]

-- The loop fills the descriptors one after the other: from `i` on each has the buffer of its number,
-- and those before are as they were.
prefill-addr :
    (n i rx_buffers j : ℕ) (busy : List ℕ) (vq : Virtqueue) (stats : Stats)
    → Owns vq (from i n) busy
    → j < i + n
    → ((prefill n i rx_buffers vq stats).0.desc j).addr
      ≡ (if ltb j i then (vq.desc j).addr else rx_buffers + j * 2048)
unfolding prefill publish
prefill-addr zero i rx_buffers j busy vq stats o h =
    let before : ltb j i ≡ true = ground arith in rw before refl
prefill-addr (suc n) i rx_buffers j busy vq stats o h =
    let added = virtqueue_add_descriptor (rx_buffers + i * 2048) 2048 2 vq stats in
    let (owned, which, filled, kept) =
      add_descriptor-Owns (rx_buffers + i * 2048) 2048 2 i (from (i + 1) n) busy vq stats o in
    prefill-addr n (i + 1) rx_buffers j (i ∷ busy) (publish added.2 added.0) added.1
      (publish-Owns added.2 (from (i + 1) n) (i ∷ busy) added.0 owned) (omega arith)
    ∙ next i rx_buffers j vq added.0 filled kept

-- Each receive descriptor has the buffer of its number.
pub setup_rx-addr :
    (rx_size rx_ring_mem rx_buffers j : ℕ) (vq : Virtqueue) (stats : Stats)
    → rx_size < 2 ^ 16
    → j < rx_size
    → ((setup_rx rx_size rx_ring_mem rx_buffers vq stats).0.desc j).addr ≡ rx_buffers + j * 2048
unfolding setup_rx
setup_rx-addr rx_size rx_ring_mem rx_buffers j vq stats small below =
    prefill-addr rx_size 0 rx_buffers j [] (virtqueue_init rx_size 0 rx_ring_mem vq) stats
      (init-Owns rx_size 0 rx_ring_mem vq (omega arith) small) (omega arith)
    ∙ let first : ltb j 0 ≡ false = ground arith in rw first refl

post-areas :
    (addr : ℕ) (vq : Virtqueue) (stats : Stats)
    → let added = virtqueue_add_descriptor addr 2048 2 vq stats in
      let after = publish added.2 added.0 in
      (after.size ≡ vq.size)
      × (after.desc_at ≡ vq.desc_at)
      × (after.avail_at ≡ vq.avail_at)
      × (after.used_at ≡ vq.used_at)
unfolding virtqueue_add_descriptor publish
post-areas addr vq stats = elim (Bool-cases (vq.num_free == 0)) [
  | inl e ↦ rw (e) (refl, refl, refl, refl)
  | inr e ↦ rw (e) (refl, refl, refl, refl)
]

-- The loop leaves the size of the queue, and where its areas lie.
pub prefill-areas :
    (n i rx_buffers : ℕ) (vq : Virtqueue) (stats : Stats)
    → let after = (prefill n i rx_buffers vq stats).0 in
      (after.size ≡ vq.size)
      × (after.desc_at ≡ vq.desc_at)
      × (after.avail_at ≡ vq.avail_at)
      × (after.used_at ≡ vq.used_at)
unfolding prefill
prefill-areas zero i rx_buffers vq stats = (refl, refl, refl, refl)
prefill-areas (suc n) i rx_buffers vq stats =
    let added = virtqueue_add_descriptor (rx_buffers + i * 2048) 2048 2 vq stats in
    let (size, desc, avail, used) =
      prefill-areas n (i + 1) rx_buffers (publish added.2 added.0) added.1 in
    let (size', desc', avail', used') = post-areas (rx_buffers + i * 2048) vq stats in
    (size ∙ size', desc ∙ desc', avail ∙ avail', used ∙ used')
