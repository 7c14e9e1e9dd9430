-- ===== src/Net/Virtqueue/Layout.antt =====
-- Where `virtqueue_init` of AetherWebOS/src/drivers/virtio/virtio_ring.c puts the three areas.
use aether_webos.Prelude.{
  ℕ, ◌+◌, ◌-◌, ◌*◌, ◌/◌, ◌%◌, ◌^◌, ◌≤◌, ◌<◌, ◌≡◌, refl, arith, bit_and, bit_and_field, u64,
}
use aether_webos.Net.Virtqueue.{Virtqueue, align4, virtqueue_init}

pub align4_lem :
    (base : ℕ)
    → base + 3 < 2 ^ 64
    → (base ≤ align4 base) × (align4 base < base + 4) × (align4 base % 4 ≡ 0)
unfolding align4
align4_lem base small =
    let field : bit_and (u64 (base + 3)) (2 ^ 64 - 4) ≡ u64 (base + 3) / 4 % 2 ^ 62 * 4 =
      bit_and_field 2 62 (u64 (base + 3)) in
    (omega (arith, field), omega (arith, field), omega (arith, field))

-- In ring memory of four pages at a multiple of 16, a queue of up to 512 entries has its descriptor
-- table, its available ring and its used ring one behind the other, each as far as it reaches, all
-- three within the memory, at multiples of 16, of 2 and of 4.
pub virtqueue_init-layout :
    (size index p : ℕ) (vq : Virtqueue)
    → size ≤ 512
    → p % 16 ≡ 0
    → p < 2 ^ 63
    → let queue = virtqueue_init size index p vq in
      (queue.desc_at ≡ p)
      × (queue.desc_at + 16 * size ≤ queue.avail_at)
      × (queue.avail_at + 6 + 2 * size ≤ queue.used_at)
      × (queue.used_at + 6 + 8 * size ≤ p + 4 * 4096)
      × (queue.desc_at % 16 ≡ 0)
      × (queue.avail_at % 2 ≡ 0)
      × (queue.used_at % 4 ≡ 0)
unfolding virtqueue_init
virtqueue_init-layout size index p vq small aligned low =
    let used = align4_lem (p + 16 * size + (2 + 2 + 2 * size + 2)) (omega arith) in
    (
      refl,
      omega arith,
      omega (arith, used),
      omega (arith, used),
      aligned,
      omega arith,
      omega (arith, used),
    )
