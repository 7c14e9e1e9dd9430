-- ===== src/Tests/Traffic.antt =====
-- The two sides of a virtqueue of AetherWebOS/src/drivers/virtio/virtio_ring.c on a queue of two.
use aether_webos.Prelude.{ℕ, ◌+◌, ◌≡◌, refl, arith, List, [], ◌∷◌, length, inl}
use aether_webos.Net.Virtqueue.{
  Virtqueue, Stats, publish, virtqueue_init, link_loop, align4, virtqueue_add_descriptor,
  virtqueue_pop_used,
}
use aether_webos.Net.Virtqueue.Traffic.{System, Event, Step, Run, give_back}
use aether_webos.Net.Virtqueue.Traffic.Pipe.{Pipe, Moves}
use aether_webos.Net.Virtqueue.Traffic.Refines.{Represents}
use aether_webos.Net.Virtqueue.Traffic.Runs.{Run-refines}
use aether_webos.Net.Virtqueue.Traffic.Order.{started, full, init-Represents, run-in_order}

abbrev pub stats : Stats
stats = record {
  rx_packets = 0;
  tx_packets = 0;
  dropped_packets = 0;
  buffer_usage = 0;
  tcp_active = 0;
  retransmissions = 0;
  checksum_errors = 0;
}

abbrev pub zeroed : Virtqueue
zeroed = record {
  size = 0;
  queue_index = 0;
  desc_at = 0;
  avail_at = 0;
  used_at = 0;
  desc = λ i. record { addr = 0; len = 0; flags = 0; next = 0 };
  avail_idx = 0;
  avail_ring = λ i. 0;
  used_idx = 0;
  used_ring = λ i. record { id = 0; len = 0 };
  free_head = 0;
  num_free = 0;
  last_used_idx = 0;
}

abbrev start : System
start = started 2 1 0x42000000 zeroed

abbrev after_post : System
after_post = record start { vq = publish 0 (virtqueue_add_descriptor 0x9000 60 0 start.vq stats).0 }

abbrev after_take : System
after_take = record after_post { seen = 1; working = 0 ∷ [] }

abbrev after_complete : System
after_complete = record after_take { vq = give_back 0 60 after_take.vq; working = [] }

abbrev after_reclaim : System
after_reclaim = record after_complete { vq = (virtqueue_pop_used after_complete.vq stats).0 }

there_and_back-Run :
    Run start (Event.post 0 ∷ Event.take 0 ∷ Event.complete 0 ∷ Event.reclaim 0 ∷ []) after_reclaim
unfolding virtqueue_init link_loop align4 virtqueue_add_descriptor publish virtqueue_pop_used
there_and_back-Run = Run.go (Step.posts 0x9000 60 0 0 stats (omega arith) refl refl refl) (
    Run.go (Step.takes 0 (omega arith) refl refl refl) (
      Run.go (Step.completes 0 60 (inl refl) refl refl)
        (Run.go (Step.reclaims 0 60 stats refl refl refl) (Run.stop refl))))

Run-refines_example :
    (b : Pipe) × Moves
      (full 2)
      (Event.post 0 ∷ Event.take 0 ∷ Event.complete 0 ∷ Event.reclaim 0 ∷ [])
      b
    × Represents after_reclaim b
Run-refines_example =
    Run-refines (full 2)
      (init-Represents 2 1 0x42000000 zeroed (omega arith) (omega arith) refl refl refl)
      there_and_back-Run

run-in_order_example :
    (waiting : List ℕ) × (unread : List ℕ) × (0 ∷ [] ≡ 0 ∷ waiting)
    × (0 ∷ [] ≡ 0 ∷ unread)
    × (length waiting + 0 + length unread + after_reclaim.vq.num_free ≡ 2)
run-in_order_example =
    run-in_order 2 1 0x42000000 zeroed after_reclaim
      (Event.post 0 ∷ Event.take 0 ∷ Event.complete 0 ∷ Event.reclaim 0 ∷ []) (omega arith)
      (omega arith) refl refl refl there_and_back-Run
