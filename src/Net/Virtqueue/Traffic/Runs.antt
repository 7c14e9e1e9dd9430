-- ===== src/Net/Virtqueue/Traffic/Runs.antt =====
-- The steps of the driver and the device, in any order, are the moves of the pipe.
use aether_webos.Prelude.{
  ℕ, ◌+◌, ◌%◌, ◌≡◌, ◌≢◌, refl, arith, sym, ap, ◌∙◌, List, [], ◌∷◌, ◌++◌, u16, some, Bool-cases,
  ==_iff, inl, inr, ◌==◌,
}
use aether_webos.Net.Virtqueue.{
  Virtqueue, Stats, publish, virtqueue_add_descriptor, virtqueue_pop_used,
}
use aether_webos.Net.Virtqueue.FreeList.{Held, remove, add_descriptor_some}
use aether_webos.Net.Virtqueue.Reclaim.{pop_used_some, pop_used-none}
use aether_webos.Net.Virtqueue.Traffic.{System, Event, Step, Run}
use aether_webos.Net.Virtqueue.Traffic.Pipe.{Pipe, Move, Moves}
use aether_webos.Net.Virtqueue.Traffic.Refines.{Represents}
use aether_webos.Net.Virtqueue.Traffic.Driver.{
  posts-Represents, next-Represents, reclaims-Represents,
}
use aether_webos.Net.Virtqueue.Traffic.Peer.{
  first-Represents, takes-Represents, completes-Represents,
}

-- The pipe has a move with this event to a pipe that the new state represents.
abbrev Follows : Pipe → Event → System → Type 0
Follows a e t = (b : Pipe) × Move a e b × Represents t b

post-Follows :
    (s : System) (addr len flags i : ℕ) (stats : Stats) (free posted working done : List ℕ)
    → s.vq.num_free ≢ 0
    → (virtqueue_add_descriptor addr len flags s.vq stats).2 ≡ i
    → Represents s (record { free = free; posted = posted; working = working; done = done })
    → Follows
        (record { free = free; posted = posted; working = working; done = done })
        (Event.post i)
        (record s { vq = publish i (virtqueue_add_descriptor addr len flags s.vq stats).0 })
post-Follows s addr len flags i stats [] posted working done some_free head r =
    absurd (some_free r.counted)
post-Follows s addr len flags i stats (j ∷ free) posted working done some_free head r =
    let e = add_descriptor_some addr len flags j s.vq stats r.chain.0 some_free in
    let same : i ≡ j = sym head ∙ ap (λ (t : Virtqueue × Stats × ℕ). t.2) e in
    rw (e, same)
      (
        record { free = free; posted = posted ++ j ∷ []; working = working; done = done },
        Move.post j free refl refl refl,
        posts-Represents s addr len flags j free posted working done r,
      )

take-Follows :
    (s : System) (i : ℕ) (free posted working done : List ℕ)
    → s.seen ≢ s.vq.avail_idx
    → s.vq.avail_ring (s.seen % s.vq.size) ≡ i
    → Represents s (record { free = free; posted = posted; working = working; done = done })
    → Follows
        (record { free = free; posted = posted; working = working; done = done })
        (Event.take i)
        (record s { seen = u16 (s.seen + 1); working = i ∷ s.working })
take-Follows s i free [] working done pending head r =
    absurd (pending (omega (arith, r.seen_pos, r.avail_pos)))
take-Follows s i free (j ∷ posted) working done pending head r =
    let same : i ≡ j = sym head ∙ first-Represents s j free posted working done r in
    rw same (
      record { free = free; posted = posted; working = j ∷ working; done = done },
      Move.take j posted refl refl refl,
      takes-Represents s j free posted working done r,
    )

reclaim-Follows :
    (s : System) (i len : ℕ) (stats : Stats) (free posted working done : List ℕ)
    → s.vq.last_used_idx ≢ s.vq.used_idx
    → (virtqueue_pop_used s.vq stats).2 ≡ some (i, len)
    → Represents s (record { free = free; posted = posted; working = working; done = done })
    → Follows
        (record { free = free; posted = posted; working = working; done = done })
        (Event.reclaim i)
        (record s { vq = (virtqueue_pop_used s.vq stats).0 })
reclaim-Follows s i len stats free posted working [] pending got r =
    absurd (pending (omega (arith, r.last_pos, r.used_pos)))
reclaim-Follows s i len stats free posted working (j ∷ done) pending got r =
    let e = pop_used_some s.vq stats pending in
    let next = next-Represents s j free posted working done r in
    let same : i ≡ j = grind arith in
    rw (e, next, same)
      (
        record { free = j ∷ free; posted = posted; working = working; done = done },
        Move.reclaim j done refl refl refl,
        reclaims-Represents s j free posted working done r,
      )

Step-Follows : {s t : System} {e : Event} (a : Pipe) → Represents s a → Step s e t → Follows a e t
Step-Follows {s} a r (Step.posts addr len flags i stats some_free head ev next) =
    rw (ev, next)
      (post-Follows s addr len flags i stats a.free a.posted a.working a.done some_free head r)
Step-Follows {s} a r (Step.takes i pending head ev next) =
    rw (ev, next) (take-Follows s i a.free a.posted a.working a.done pending head r)
Step-Follows {s} a r (Step.completes i len held ev next) =
    let here : Held i a.working = rw r.worked at held in
    rw (ev, next)
      (
        record {
          free = a.free;
          posted = a.posted;
          working = remove i a.working;
          done = a.done ++ i ∷ [];
        },
        Move.complete i here refl refl,
        completes-Represents s i len a.free a.posted a.working a.done here r,
      )
Step-Follows {s} a r (Step.reclaims i len stats got ev next) =
    elim (Bool-cases (s.vq.last_used_idx == s.vq.used_idx)) [
      | inl idle ↦ absurd (
          ground
            (arith, pop_used-none s.vq stats ((==_iff s.vq.last_used_idx s.vq.used_idx).0 idle)))
      | inr pending ↦
          rw (ev, next)
            (reclaim-Follows s i len stats a.free a.posted a.working a.done (ground arith) got r)
    ]

-- Every run of the driver and the device in which the driver posts only while a descriptor is free,
-- from a queue that represents a pipe, is a run of the pipe with the same events, and the queue
-- represents the pipe that it ends in: descriptors reach the device in the order in which they were
-- posted, come back in the order in which the device gave them back, and none is ever lost or in two
-- places. The queue's size divides 2^16. A post with no descriptor free, which publishes 0xFFFF, is
-- no step of such a run.
pub Run-refines :
    {s t : System} {es : List Event} (a : Pipe)
    → Represents s a
    → Run s es t
    → (b : Pipe) × Moves a es b × Represents t b
Run-refines a r (Run.stop e) = (a, Moves.stop refl, rw e r)
Run-refines a r (Run.go step run) =
    let (b, move, next) = Step-Follows a r step in
    let (c, moves, last) = Run-refines b next run in (c, Moves.go move moves, last)
