-- ===== src/Memory/Heap/Live.antt =====
-- What a caller of AetherWebOS/src/kernel/memory.c owns: the data areas of the blocks in use.
use native.Mathlib.Nat.{le_refl}
use mathlib.Core.List.{Perm}
use mathlib.Core.List.Perm
use aether_webos.Prelude.{
  ℕ, ◌+◌, ◌-◌, ◌%◌, ◌^◌, ◌≤◌, ◌<◌, ◌≡◌, ◌⊎◌, arith, List, [], ◌∷◌, true, false, ◌&&◌, some, leb,
  if◌then◌else◌, Bool-cases, Option-cases, inl, inr, All,
}
use aether_webos.Memory.Heap.{
  Block, Heap, heap_start, heap_size, header_size, align8, reuse, bump, kmalloc,
}
use aether_webos.Memory.Heap.Invariant.{shape, Laid, Laid-start, IsValid, align8_lem}

-- Address and size of the data of every block in use.
abbrev pub live : List Block → List (ℕ × ℕ)
live [] = []
live (b ∷ bs) = if b.is_free then live bs else (b.addr + header_size, b.size) ∷ live bs

-- The area lies inside `lo`..`hi`.
abbrev pub Inside : ℕ → ℕ → ℕ × ℕ → Type 0
Inside lo hi (a, n) = (lo ≤ a) × (a + n ≤ hi)

abbrev pub Disjoint : ℕ × ℕ → ℕ × ℕ → Type 0
Disjoint (a, n) (b, m) = (a + n ≤ b) ⊎ (b + m ≤ a)

-- No two areas of the list share a byte.
abbrev pub Separate : List (ℕ × ℕ) → Type 0
Separate [] = Unit
Separate (x ∷ xs) = All (Disjoint x) xs × Separate xs

Inside-wider :
    (lo hi hi' : ℕ) (xs : List (ℕ × ℕ)) → hi ≤ hi' → All (Inside lo hi) xs → All (Inside lo hi') xs
Inside-wider lo hi hi' [] h all = tt
Inside-wider lo hi hi' ((a, n) ∷ xs) h all = (omega arith, Inside-wider lo hi hi' xs h all.1)

Disjoint-above :
    (lo hi a n : ℕ) (xs : List (ℕ × ℕ)) → hi ≤ a → All (Inside lo hi) xs → All (Disjoint (a, n)) xs
Disjoint-above lo hi a n [] h all = tt
Disjoint-above lo hi a n ((b, m) ∷ xs) h all =
    (inr (omega arith), Disjoint-above lo hi a n xs h all.1)

pub live-Inside :
    (end : ℕ) (bs : List Block)
    → Laid end (shape bs)
    → All (Inside (heap_start + header_size) end) (live bs)
live-Inside end [] laid = tt
live-Inside end (b ∷ bs) laid =
    let older : All (Inside (heap_start + header_size) end) (live bs) =
      Inside-wider (heap_start + header_size) b.addr end (live bs) (omega arith)
        (live-Inside b.addr bs laid.2) in
    elim (Bool-cases b.is_free) [
      | inl free ↦ rw free older
      | inr used ↦ rw used (omega (arith, Laid-start b.addr (shape bs) laid.2), older)
    ]

-- The areas in use of a heap in order share no byte.
pub live-Separate : (end : ℕ) (bs : List Block) → Laid end (shape bs) → Separate (live bs)
live-Separate end [] laid = tt
live-Separate end (b ∷ bs) laid = elim (Bool-cases b.is_free) [
  | inl free ↦ rw free (live-Separate b.addr bs laid.2)
  | inr used ↦ rw used (
    Disjoint-above (heap_start + header_size) b.addr (b.addr + header_size) b.size (live bs)
        (omega arith) (live-Inside b.addr bs laid.2),
    live-Separate b.addr bs laid.2,
  )
]

-- The area `(p, n)` is new: at least `size` bytes, aligned, in the heap, apart from those in use
-- before, and the only one that is added to them.
pub record IsFresh (size p end : ℕ) (before after : List (ℕ × ℕ)) : Type 0 where
  pub n : ℕ
  pub enough : size ≤ n
  pub aligned : p % 8 ≡ 0
  pub inside : Inside (heap_start + header_size) end (p, n)
  pub apart : All (Disjoint (p, n)) before
  pub added : Perm after ((p, n) ∷ before)

IsFresh-here :
    (size end : ℕ) (b : Block) (bs : List Block)
    → Laid end (shape (b ∷ bs))
    → b.is_free ≡ true
    → size ≤ b.size
    → IsFresh size
        (b.addr + header_size)
        end
        (live (b ∷ bs))
        (live (record b { is_free = false } ∷ bs))
IsFresh-here size end b bs laid free fits = rw free (record {
  n = b.size;
  enough = fits;
  aligned = omega (arith, Laid-start b.addr (shape bs) laid.2);
  inside = omega (arith, Laid-start b.addr (shape bs) laid.2);
  apart =
      Disjoint-above (heap_start + header_size) b.addr (b.addr + header_size) b.size (live bs)
        (omega arith) (live-Inside b.addr bs laid.2);
  added = Perm.refl _;
})

IsFresh-there :
    (size p end : ℕ) (b : Block) (bs bs' : List Block)
    → Laid end (shape (b ∷ bs))
    → IsFresh size p b.addr (live bs) (live bs')
    → IsFresh size p end (live (b ∷ bs)) (live (b ∷ bs'))
IsFresh-there size p end b bs bs' laid f = elim (Bool-cases b.is_free) [
  | inl free ↦ rw free (record {
    n = f.n;
    enough = f.enough;
    aligned = f.aligned;
    inside = omega arith;
    apart = f.apart;
    added = f.added;
  })
  | inr used ↦ rw used (record {
    n = f.n;
    enough = f.enough;
    aligned = f.aligned;
    inside = omega arith;
    apart = (inl (omega arith), f.apart);
    added = Perm.trans (Perm.cons (b.addr + header_size, b.size) f.added) (Perm.swap _ _ _);
  })
]

reuse-live :
    (size end : ℕ) (bs : List Block) (p : ℕ) (bs' : List Block)
    → Laid end (shape bs)
    → reuse size bs ≡ some (p, bs')
    → IsFresh size p end (live bs) (live bs')
unfolding reuse
reuse-live size end [] p bs' laid e = absurd cc
reuse-live size end (b ∷ bs) p bs' laid e = elim (Bool-cases (b.is_free && leb size b.size)) [
  | inl free ↦
      let taken : (p ≡ b.addr + header_size) × (bs' ≡ record b { is_free = false } ∷ bs) =
        ground (arith, free) in
      rw (taken.0, taken.1) (IsFresh-here size end b bs laid (ground arith) (ground arith))
  | inr used ↦ elim (Option-cases (reuse size bs)) [
    | inl missing ↦ absurd (ground (arith, used, missing))
    | inr ((q, rest), found) ↦
        let kept : (p ≡ q) × (bs' ≡ b ∷ rest) = ground (arith, used, found) in
        rw (kept.0, kept.1)
          (IsFresh-there size q end b bs rest laid (reuse-live size b.addr bs q rest laid.2 found))
  ]
]

bump-some :
    (size : ℕ) (h : Heap) (p : ℕ)
    → IsValid h
    → size < 2 ^ 63
    → (bump size h).1 ≡ some p
    → (p ≡ h.ptr + header_size)
      × (p + size ≤ heap_start + heap_size)
      × ((bump size h).0.blocks ≡ record { addr = h.ptr; size = size; is_free = false } ∷ h.blocks)
unfolding bump
bump-some size h p v small e = ground arith

bump-live :
    (size : ℕ) (h : Heap) (p : ℕ)
    → IsValid h
    → size < 2 ^ 63
    → (bump size h).1 ≡ some p
    → IsFresh size p (heap_start + heap_size) (live h.blocks) (live (bump size h).0.blocks)
bump-live size h p v small e =
    let (at, fits, blocks) = bump-some size h p v small e in
    rw (blocks, at)
      (record {
        n = size;
        enough = le_refl size;
        aligned = omega (arith, Laid-start h.ptr (shape h.blocks) v.laid);
        inside = omega (arith, Laid-start h.ptr (shape h.blocks) v.laid);
        apart =
            Disjoint-above (heap_start + header_size) h.ptr (h.ptr + header_size) size
              (live h.blocks) (omega arith) (live-Inside h.ptr h.blocks v.laid);
        added = Perm.refl _;
      })

IsFresh-weaken :
    (size size' p end end' : ℕ) (before after : List (ℕ × ℕ))
    → size' ≤ size
    → end ≤ end'
    → IsFresh size p end before after
    → IsFresh size' p end' before after
IsFresh-weaken size size' p end end' before after hs he f = record {
  n = f.n;
  enough = omega arith;
  aligned = f.aligned;
  inside = omega arith;
  apart = f.apart;
  added = f.added;
}

-- Every pointer that `kmalloc` returns for a request of less than `2 ^ 63 - 8` bytes is aligned,
-- starts an area of at least that size inside the heap that shares no byte with an area in use,
-- and the areas in use afterwards are the earlier ones and this one.
pub kmalloc-IsFresh :
    (request : ℕ) (h : Heap) (p : ℕ)
    → IsValid h
    → request < 2 ^ 63 - 8
    → (kmalloc request h).1 ≡ some p
    → IsFresh request p (heap_start + heap_size) (live h.blocks) (live (kmalloc request h).0.blocks)
unfolding kmalloc
kmalloc-IsFresh request h p v small e = elim (Option-cases (reuse (align8 request) h.blocks)) [
  | inl missing ↦
      rw (missing, kmalloc)
        (IsFresh-weaken (align8 request) request p (heap_start + heap_size) (heap_start + heap_size)
          (live h.blocks) (live (bump (align8 request) h).0.blocks)
          (omega (arith, align8_lem request)) (le_refl _)
          (bump-live (align8 request) h p v (omega (arith, align8_lem request))
            (rw (missing, kmalloc) at e)))
  | inr ((q, bs), found) ↦
      let same : p ≡ q = ground (arith, found) in
      rw (found, kmalloc, same)
        (IsFresh-weaken (align8 request) request q h.ptr (heap_start + heap_size) (live h.blocks)
          (live bs) (omega (arith, align8_lem request)) v.within
          (reuse-live (align8 request) h.ptr h.blocks q bs v.laid found))
]
