-- ===== src/Bus/VirtioNet/Ready.antt =====
-- The wait for the reset ends, and the state of the queues after their set-up in
-- AetherWebOS/src/drivers/virtio/virtio_net.c.
use aether_webos.Prelude.{ℕ, zero, suc, ◌≡◌, ◌⊎◌}
use aether_webos.Net.Virtqueue.{QueueRegisters, Virtqueue}
use aether_webos.Bus.{Trace, Answers, mmio_read32}

-- The device answers 0 at `addr` within the next `n` reads and one more.
abbrev pub Settles : ℕ → Answers → ℕ → Trace → Type 0
Settles zero device addr t = (mmio_read32 device addr t).0 ≡ 0
Settles (suc n) device addr t =
    ((mmio_read32 device addr t).0 ≡ 0) ⊎ Settles n device addr (mmio_read32 device addr t).1

-- What a queue's registers tell the device.
abbrev pub Exposes : QueueRegisters → Virtqueue → Type 0
Exposes r vq =
    (r.queue_enable ≡ 1)
    × (r.queue_size ≡ vq.size)
    × (r.queue_desc ≡ vq.desc_at)
    × (r.queue_avail ≡ vq.avail_at)
    × (r.queue_used ≡ vq.used_at)
