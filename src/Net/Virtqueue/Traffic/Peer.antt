-- ===== src/Net/Virtqueue/Traffic/Peer.antt =====
-- The device's two steps on the pipe: taking a head, and giving one back.
use aether_webos.Prelude.{
  ℕ, ◌+◌, ◌%◌, ◌≡◌, arith, sym, ap, ◌∙◌, List, [], ◌∷◌, ◌++◌, length, length-append, u16,
}
use aether_webos.Net.Virtqueue.{UsedElem, update}
use aether_webos.Net.Virtqueue.FreeList.{Held, remove}
use aether_webos.Net.Virtqueue.Reclaim.{length-remove}
use aether_webos.Net.Virtqueue.Traffic.{System, give_back}
use aether_webos.Net.Virtqueue.Traffic.Window.{u16_mod, Window, Window-write}
use aether_webos.Net.Virtqueue.Traffic.Counts.{count-append, count-remove}
use aether_webos.Net.Virtqueue.Traffic.Refines.{Represents}

-- The oldest posted descriptor is the one that the device reads next.
pub first-Represents :
    (s : System) (i : ℕ) (free posted working done : List ℕ)
    → Represents s (record { free = free; posted = i ∷ posted; working = working; done = done })
    → s.vq.avail_ring (s.seen % s.vq.size) ≡ i
first-Represents s i free posted working done r =
    let pos : s.seen % s.vq.size ≡ r.sent % s.vq.size =
      ap (λ (t : ℕ). t % s.vq.size) r.seen_pos ∙ u16_mod s.vq.size r.sent r.wraps in
    rw pos r.posted_window.0

pub takes-Represents :
    (s : System) (i : ℕ) (free posted working done : List ℕ)
    → Represents s (record { free = free; posted = i ∷ posted; working = working; done = done })
    → Represents
        (record s { seen = u16 (s.seen + 1); working = i ∷ s.working })
        (record { free = free; posted = posted; working = i ∷ working; done = done })
takes-Represents s i free posted working done r = record {
  sent = r.sent + 1;
  gone = r.gone;
  wraps = r.wraps;
  sized = r.sized;
  chain = r.chain;
  counted = r.counted;
  whole = omega (arith, r.whole);
  place = λ j. omega (arith, r.place j);
  worked = ap (λ t. i ∷ t) r.worked;
  seen_pos = omega (arith, r.seen_pos);
  avail_pos = omega (arith, r.avail_pos);
  posted_window = r.posted_window.1;
  last_pos = r.last_pos;
  used_pos = r.used_pos;
  done_window = r.done_window;
}

Window-ids :
    (ring ring' : ℕ → ℕ) (size g : ℕ) (is : List ℕ)
    → ((k : ℕ) → ring k ≡ ring' k)
    → Window ring size g is
    → Window ring' size g is
Window-ids ring ring' size g [] e w = tt
Window-ids ring ring' size g (i ∷ is) e w =
    (sym (e (g % size)) ∙ w.0, Window-ids ring ring' size (g + 1) is e w.1)

update-ids :
    (ring : ℕ → UsedElem) (p i len k : ℕ)
    → update (λ j. (ring j).id) p i k ≡ (update ring p (record { id = i; len = len }) k).id
update-ids ring p i len k = ground arith

pub completes-Represents :
    (s : System) (i len : ℕ) (free posted working done : List ℕ)
    → Held i working
    → Represents s (record { free = free; posted = posted; working = working; done = done })
    → Represents
        (record s { vq = give_back i len s.vq; working = remove i s.working })
        (record { free = free; posted = posted; working = remove i working; done = done ++ i ∷ [] })
completes-Represents s i len free posted working done held r =
    let longer = length-append {0} done (i ∷ []) in
    let fewer = length-remove i working held in
    let pos : s.vq.used_idx % s.vq.size ≡ (r.gone + length done) % s.vq.size =
      ap (λ (t : ℕ). t % s.vq.size) r.used_pos ∙ u16_mod s.vq.size (r.gone + length done) r.wraps in
    record {
      sent = r.sent;
      gone = r.gone;
      wraps = r.wraps;
      sized = r.sized;
      chain = r.chain;
      counted = r.counted;
      whole = omega (arith, longer, fewer, r.whole);
      place = λ j. omega (arith, count-append j i done, count-remove j i working held, r.place j);
      worked = ap (remove i) r.worked;
      seen_pos = r.seen_pos;
      avail_pos = r.avail_pos;
      posted_window = r.posted_window;
      last_pos = r.last_pos;
      used_pos = omega (arith, longer, r.used_pos);
      done_window =
          Window-ids (update (λ j. (s.vq.used_ring j).id) (s.vq.used_idx % s.vq.size) i)
            (λ k.
              (update s.vq.used_ring (s.vq.used_idx % s.vq.size) (record { id = i; len = len })
                k).id)
            s.vq.size r.gone (done ++ i ∷ [])
            (update-ids s.vq.used_ring (s.vq.used_idx % s.vq.size) i len)
            (rw pos (
              Window-write (λ j. (s.vq.used_ring j).id) s.vq.size r.gone i done
                (omega (arith, fewer, r.whole)) r.done_window));
    }
