-- ===== src/Net/Virtqueue/Traffic.antt =====
-- The driver of AetherWebOS/src/drivers/virtio/virtio_ring.c and a device at the two ends of a queue,
-- in any order. The device's part follows the VirtIO specification: it takes the heads from the
-- available ring in order, and gives each back once through the used ring, in any order.
pub mod Pipe
pub mod Window
pub mod Counts
pub mod Refines
pub mod Driver
pub mod Peer
pub mod Runs
pub mod Order
use aether_webos.Prelude.{ℕ, ◌+◌, ◌^◌, ◌%◌, ◌≡◌, ◌≢◌, List, [], ◌∷◌, some, u16}
use aether_webos.Net.Virtqueue.{
  UsedElem, Virtqueue, Stats, update, virtqueue_add_descriptor, publish, virtqueue_pop_used,
}
use aether_webos.Net.Virtqueue.FreeList.{Held, remove}

-- The queue, the device's position in the available ring, and the heads that it works on.
pub record System : Type 0 where
  pub vq : Virtqueue
  pub seen : ℕ
  pub working : List ℕ

-- What a step does with which descriptor.
pub data Event : Type 0 where
  post : ℕ → Event
  take : ℕ → Event
  complete : ℕ → Event
  reclaim : ℕ → Event

-- The device's write of a used entry.
abbrev pub give_back : ℕ → ℕ → Virtqueue → Virtqueue
give_back i len vq = record vq {
  used_ring = update vq.used_ring (vq.used_idx % vq.size) (record { id = i; len = len });
  used_idx = u16 (vq.used_idx + 1);
}

-- `post` is `virtqueue_add_descriptor` with a free descriptor and the publication of its result; the
-- publication of 0xFFFF, which the functions that send make when the queue is full, is no step.
-- `reclaim` is `virtqueue_pop_used` with a result.
pub data Step (s : System) (e : Event) (t : System) : Type 0 where
  posts :
      (addr len flags i : ℕ) (stats : Stats)
      → s.vq.num_free ≢ 0
      → (virtqueue_add_descriptor addr len flags s.vq stats).2 ≡ i
      → e ≡ Event.post i
      → t ≡ record s { vq = publish i (virtqueue_add_descriptor addr len flags s.vq stats).0 }
      → Step s e t
  takes :
      (i : ℕ)
      → s.seen ≢ s.vq.avail_idx
      → s.vq.avail_ring (s.seen % s.vq.size) ≡ i
      → e ≡ Event.take i
      → t ≡ record s { seen = u16 (s.seen + 1); working = i ∷ s.working }
      → Step s e t
  completes :
      (i len : ℕ)
      → Held i s.working
      → e ≡ Event.complete i
      → t ≡ record s { vq = give_back i len s.vq; working = remove i s.working }
      → Step s e t
  reclaims :
      (i len : ℕ) (stats : Stats)
      → (virtqueue_pop_used s.vq stats).2 ≡ some (i, len)
      → e ≡ Event.reclaim i
      → t ≡ record s { vq = (virtqueue_pop_used s.vq stats).0 }
      → Step s e t

-- Steps one after the other, with their events.
pub data Run : System → List Event → System → Type 0 where
  stop : {s t : System} → t ≡ s → Run s [] t
  go : {s t u : System} {e : Event} {es : List Event} → Step s e t → Run t es u → Run s (e ∷ es) u
