-- ===== src/Net/Setup.antt =====
-- The receive queue's part of `virtio_net_setup_queues` in
-- AetherWebOS/src/drivers/virtio/virtio_net.c.
pub mod Posted
use aether_webos.Prelude.{ℕ, zero, suc, ◌+◌, ◌*◌, u16}
use aether_webos.Net.Virtqueue.{Virtqueue, Stats, virtqueue_init, virtqueue_add_descriptor, publish}

-- `rx_buffers` is an array of 256 buffers and the ring memory has four pages; the loop and
-- `virtqueue_init` run past them for a larger size of the device, where what they overwrite is not
-- described. The loop that hands the buffers from `i` on to the device, with the rounds left; nothing is
-- notified.
unfoldable pub prefill : ℕ → ℕ → ℕ → Virtqueue → Stats → Virtqueue × Stats
prefill zero i rx_buffers vq stats = (vq, stats)
prefill (suc n) i rx_buffers vq stats =
    let (vq', stats', id) = virtqueue_add_descriptor (rx_buffers + i * 2048) 2048 2 vq stats in
    prefill n (i + 1) rx_buffers (publish id vq') stats'

-- The receive queue after its set-up for a size of the device that is not 0.
unfoldable pub setup_rx : ℕ → ℕ → ℕ → Virtqueue → Stats → Virtqueue × Stats
setup_rx rx_size rx_ring_mem rx_buffers vq stats =
    prefill rx_size 0 rx_buffers (virtqueue_init rx_size 0 rx_ring_mem vq) stats
