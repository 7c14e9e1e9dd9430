-- ===== src/Net/Virtqueue/Traffic/Refines.antt =====
-- Every run of the driver and the device is a run of the pipe.
use aether_webos.Prelude.{ℕ, ◌+◌, ◌^◌, ◌%◌, ◌<◌, ◌≡◌, length, u16, ltb, if◌then◌else◌}
use aether_webos.Net.Virtqueue.FreeList.{Chain}
use aether_webos.Net.Virtqueue.Traffic.{System}
use aether_webos.Net.Virtqueue.Traffic.Pipe.{Pipe}
use aether_webos.Net.Virtqueue.Traffic.Window.{Window}
use aether_webos.Net.Virtqueue.Traffic.Counts.{count}

-- The queue holds what the pipe says: each index below the size stands in one place, the free ones
-- on the chain, the posted and the finished ones in the rings. `sent` and `gone` count the heads
-- that the device has taken and the driver has taken back.
pub record Represents (s : System) (a : Pipe) : Type 0 where
  pub sent : ℕ
  pub gone : ℕ
  pub wraps : 2 ^ 16 % s.vq.size ≡ 0
  pub sized : s.vq.size < 2 ^ 16
  pub chain : Chain s.vq.desc s.vq.free_head a.free
  pub counted : s.vq.num_free ≡ length a.free
  pub whole : length a.free + length a.posted + length a.working + length a.done ≡ s.vq.size
  pub place :
      (i : ℕ)
      → count i a.free + count i a.posted + count i a.working + count i a.done
        ≡ (if ltb i s.vq.size then 1 else 0)
  pub worked : s.working ≡ a.working
  pub seen_pos : s.seen ≡ u16 sent
  pub avail_pos : s.vq.avail_idx ≡ u16 (sent + length a.posted)
  pub posted_window : Window s.vq.avail_ring s.vq.size sent a.posted
  pub last_pos : s.vq.last_used_idx ≡ u16 gone
  pub used_pos : s.vq.used_idx ≡ u16 (gone + length a.done)
  pub done_window : Window (λ k. (s.vq.used_ring k).id) s.vq.size gone a.done
