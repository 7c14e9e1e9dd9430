-- ===== src/Net/Virtqueue/Traffic/Order.antt =====
-- A queue of `virtqueue_init` between the driver and the device, from its first step on.
use aether_webos.Prelude.{
  ℕ, zero, suc, ◌+◌, ◌^◌, ◌%◌, ◌<◌, ◌≡◌, refl, arith, sym, ap, ◌∙◌, List, [], ◌∷◌, ◌++◌,
  append_assoc, append-nil, length, length-append, ltb, leb, if◌then◌else◌,
}
use aether_webos.Net.Virtqueue.{Virtqueue, virtqueue_init}
use aether_webos.Net.Virtqueue.Reclaim.{length-remove}
use aether_webos.Net.Virtqueue.Init.{from, length-from, init-Owns}
use aether_webos.Net.Virtqueue.Traffic.{System, Event, Run}
use aether_webos.Net.Virtqueue.Traffic.Pipe.{Pipe, Move, Moves}
use aether_webos.Net.Virtqueue.Traffic.Counts.{count}
use aether_webos.Net.Virtqueue.Traffic.Refines.{Represents}
use aether_webos.Net.Virtqueue.Traffic.Runs.{Run-refines}

count-from :
    (n i j : ℕ) → count j (from i n) ≡ (if leb i j then (if ltb j (i + n) then 1 else 0) else 0)
count-from zero i j = ground arith
count-from (suc n) i j = ground (arith, count-from n (i + 1) j)

-- The new queue, with a device that has read nothing.
abbrev pub started : ℕ → ℕ → ℕ → Virtqueue → System
started size index p vq = record { vq = virtqueue_init size index p vq; seen = 0; working = [] }

-- The pipe with every descriptor free.
abbrev pub full : ℕ → Pipe
full size = record { free = from 0 size; posted = []; working = []; done = [] }

pub init-Represents :
    (size index p : ℕ) (vq : Virtqueue)
    → 0 < size
    → size < 2 ^ 16
    → 2 ^ 16 % size ≡ 0
    → vq.avail_idx ≡ 0
    → vq.used_idx ≡ 0
    → Represents (started size index p vq) (full size)
unfolding virtqueue_init
init-Represents size index p vq pos small divides avail used =
    let o = init-Owns size index p vq pos small in
    record {
      sent = 0;
      gone = 0;
      wraps = divides;
      sized = small;
      chain = o.chain;
      counted = o.counted;
      whole = omega (arith, o.whole);
      place = λ i. ground (arith, count-from size 0 i);
      worked = refl;
      seen_pos = refl;
      avail_pos = avail;
      posted_window = tt;
      last_pos = refl;
      used_pos = used;
      done_window = tt;
    }

-- The indices of each kind of event, in order.
abbrev pub posts : List Event → List ℕ
posts [] = []
posts (Event.post i ∷ es) = i ∷ posts es
posts (Event.take i ∷ es) = posts es
posts (Event.complete i ∷ es) = posts es
posts (Event.reclaim i ∷ es) = posts es

abbrev pub takes : List Event → List ℕ
takes [] = []
takes (Event.post i ∷ es) = takes es
takes (Event.take i ∷ es) = i ∷ takes es
takes (Event.complete i ∷ es) = takes es
takes (Event.reclaim i ∷ es) = takes es

abbrev pub completes : List Event → List ℕ
completes [] = []
completes (Event.post i ∷ es) = completes es
completes (Event.take i ∷ es) = completes es
completes (Event.complete i ∷ es) = i ∷ completes es
completes (Event.reclaim i ∷ es) = completes es

abbrev pub reclaims : List Event → List ℕ
reclaims [] = []
reclaims (Event.post i ∷ es) = reclaims es
reclaims (Event.take i ∷ es) = reclaims es
reclaims (Event.complete i ∷ es) = reclaims es
reclaims (Event.reclaim i ∷ es) = i ∷ reclaims es

abbrev inside : Pipe → ℕ
inside a = length a.free + length a.posted + length a.working + length a.done

-- What has gone in has come out, or is still inside, in the same order.
InOrder : Pipe → List Event → Pipe → Type 0
InOrder a es b =
    (a.posted ++ posts es ≡ takes es ++ b.posted)
    × (a.done ++ completes es ≡ reclaims es ++ b.done)
    × (inside b ≡ inside a)

Moves-InOrder : {a b : Pipe} {es : List Event} → Moves a es b → InOrder a es b
unfolding InOrder
Moves-InOrder {a} (Moves.stop e) = rw e (append-nil a.posted, append-nil a.done, refl)
Moves-InOrder {a} (Moves.go {b = b} {c = c} {es = es} (Move.post i free here ev next) ms) =
    let h = rw next at (Moves-InOrder {a = b} {b = c} {es = es} ms) in
    rw (ev, here)
      (
        sym (append_assoc a.posted (i ∷ []) (posts es)) ∙ h.0,
        h.1,
        omega (arith, h.2, length-append {0} a.posted (i ∷ [])),
      )
Moves-InOrder {a} (Moves.go {b = b} {c = c} {es = es} (Move.take i posted here ev next) ms) =
    let h = rw next at (Moves-InOrder {a = b} {b = c} {es = es} ms) in
    rw (ev, here) (ap (λ is. i ∷ is) h.0, h.1, omega (arith, h.2))
Moves-InOrder {a} (Moves.go {b = b} {c = c} {es = es} (Move.complete i held ev next) ms) =
    let h = rw next at (Moves-InOrder {a = b} {b = c} {es = es} ms) in
    rw ev (
      h.0,
      sym (append_assoc a.done (i ∷ []) (completes es)) ∙ h.1,
      omega (arith, h.2, length-append {0} a.done (i ∷ []), length-remove i a.working held),
    )
Moves-InOrder {a} (Moves.go {b = b} {c = c} {es = es} (Move.reclaim i done here ev next) ms) =
    let h = rw next at (Moves-InOrder {a = b} {b = c} {es = es} ms) in
    rw (ev, here) (h.0, ap (λ is. i ∷ is) h.1, omega (arith, h.2))

-- From a new queue on, whose size is a power of two below 2^16, in any order of the steps of the driver
-- and of the device in which the driver posts only while a descriptor is free: the descriptors that the device has taken are the first of those that the
-- driver has posted, in the same order; the ones that the driver has got back are the first of
-- those that the device has given back; and no more than the queue's size are on their way.
pub run-in_order :
    (size index p : ℕ) (vq : Virtqueue) (t : System) (es : List Event)
    → 0 < size
    → size < 2 ^ 16
    → 2 ^ 16 % size ≡ 0
    → vq.avail_idx ≡ 0
    → vq.used_idx ≡ 0
    → Run (started size index p vq) es t
    → (waiting : List ℕ) × (unread : List ℕ) × (posts es ≡ takes es ++ waiting)
      × (completes es ≡ reclaims es ++ unread)
      × (length waiting + length t.working + length unread + t.vq.num_free ≡ size)
unfolding InOrder
run-in_order size index p vq t es pos small divides avail used run =
    let start = init-Represents size index p vq pos small divides avail used in
    let (b, moves, r) = Run-refines (full size) start run in
    let h = Moves-InOrder moves in
    (
      b.posted,
      b.done,
      h.0,
      h.1,
      omega (
        arith,
        h.2,
        r.whole,
        start.whole,
        r.counted,
        ap (λ (is : List ℕ). length is) r.worked,
        length-from 0 size,
      ),
    )
