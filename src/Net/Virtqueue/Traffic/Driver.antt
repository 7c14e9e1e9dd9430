-- ===== src/Net/Virtqueue/Traffic/Driver.antt =====
-- The driver's two steps on the pipe: posting a descriptor, and taking one back.
use aether_webos.Prelude.{
  ℕ, ◌+◌, ◌%◌, ◌<◌, ◌≡◌, refl, arith, ap, ◌∙◌, List, [], ◌∷◌, ◌++◌, length, length-append, true,
  ==_iff, ◌==◌,
}
use aether_webos.Net.Virtqueue.{publish}
use aether_webos.Net.Virtqueue.FreeList.{Chain-update, taken, update-same}
use aether_webos.Net.Virtqueue.Reclaim.{next_receipt, returned}
use aether_webos.Net.Virtqueue.Traffic.{System}
use aether_webos.Net.Virtqueue.Traffic.Window.{u16_mod, Window-write}
use aether_webos.Net.Virtqueue.Traffic.Counts.{Apart-count, count-append}
use aether_webos.Net.Virtqueue.Traffic.Refines.{Represents}

pub posts-Represents :
    (s : System) (addr len flags i : ℕ) (free posted working done : List ℕ)
    → Represents s (record { free = i ∷ free; posted = posted; working = working; done = done })
    → Represents
        (record s { vq = publish i (taken addr len flags i s.vq) })
        (record { free = free; posted = posted ++ i ∷ []; working = working; done = done })
unfolding publish
posts-Represents s addr len flags i free posted working done r =
    let one : (i == i) ≡ true = (==_iff i i).1 refl in
    let longer = length-append {0} posted (i ∷ []) in
    let pos : s.vq.avail_idx % s.vq.size ≡ (r.sent + length posted) % s.vq.size =
      ap (λ (t : ℕ). t % s.vq.size) r.avail_pos
      ∙ u16_mod s.vq.size (r.sent + length posted) r.wraps in
    record {
      sent = r.sent;
      gone = r.gone;
      wraps = r.wraps;
      sized = r.sized;
      chain =
          Chain-update s.vq.desc (s.vq.desc i).next i
            (record { addr = addr; len = len; flags = flags; next = 0 }) free
            (Apart-count i free (ground (arith, r.place i, one))) r.chain.1;
      counted = omega (arith, r.counted, r.whole, r.sized);
      whole = omega (arith, longer, r.whole);
      place = λ j. omega (arith, count-append j i posted, r.place j);
      worked = r.worked;
      seen_pos = r.seen_pos;
      avail_pos = omega (arith, longer, r.avail_pos);
      posted_window = rw pos (
          Window-write s.vq.avail_ring s.vq.size r.sent i posted (omega (arith, r.whole))
            r.posted_window);
      last_pos = r.last_pos;
      used_pos = r.used_pos;
      done_window = r.done_window;
    }

-- The oldest finished descriptor is the one that the driver reads next.
pub next-Represents :
    (s : System) (i : ℕ) (free posted working done : List ℕ)
    → Represents s (record { free = free; posted = posted; working = working; done = i ∷ done })
    → next_receipt s.vq ≡ i
next-Represents s i free posted working done r =
    let one : (i == i) ≡ true = (==_iff i i).1 refl in
    let pos : s.vq.last_used_idx % s.vq.size ≡ r.gone % s.vq.size =
      ap (λ (t : ℕ). t % s.vq.size) r.last_pos ∙ u16_mod s.vq.size r.gone r.wraps in
    let id : (s.vq.used_ring (s.vq.last_used_idx % s.vq.size)).id ≡ i = rw pos r.done_window.0 in
    let small : i < s.vq.size = ground (arith, r.place i, one) in
    rw id (omega (arith, r.sized, small))

pub reclaims-Represents :
    (s : System) (i : ℕ) (free posted working done : List ℕ)
    → Represents s (record { free = free; posted = posted; working = working; done = i ∷ done })
    → Represents
        (record s { vq = returned i s.vq })
        (record { free = i ∷ free; posted = posted; working = working; done = done })
reclaims-Represents s i free posted working done r =
    let one : (i == i) ≡ true = (==_iff i i).1 refl in
    record {
      sent = r.sent;
      gone = r.gone + 1;
      wraps = r.wraps;
      sized = r.sized;
      chain = (
        refl,
        rw (update-same s.vq.desc i (record (s.vq.desc i) { next = s.vq.free_head })) (
            Chain-update s.vq.desc s.vq.free_head i (record (s.vq.desc i) { next = s.vq.free_head })
              free (Apart-count i free (ground (arith, r.place i, one))) r.chain),
      );
      counted = omega (arith, r.counted, r.whole, r.sized);
      whole = omega (arith, r.whole);
      place = λ j. omega (arith, r.place j);
      worked = r.worked;
      seen_pos = r.seen_pos;
      avail_pos = r.avail_pos;
      posted_window = r.posted_window;
      last_pos = omega (arith, r.last_pos);
      used_pos = omega (arith, r.used_pos);
      done_window = r.done_window.1;
    }
