-- ===== src/Memory/Heap/Release.antt =====
-- `kfree` of AetherWebOS/src/kernel/memory.c: what a caller gives up, and that it can be had again.
use mathlib.Core.List.{Perm}
use mathlib.Core.List.Perm
use aether_webos.Prelude.{
  ℕ, ◌+◌, ◌≤◌, ◌<◌, ◌≡◌, ◌≢◌, ◌⊎◌, refl, arith, List, [], ◌∷◌, some, none, ◌==◌, Bool-cases,
  Option-cases, inl, inr, All, ap,
}
use aether_webos.Memory.Heap.{
  Block, Heap, heap_start, header_size, align8, reuse, kmalloc, mark_free, kfree,
}
use aether_webos.Memory.Heap.Invariant.{shape, Laid, IsValid}
use aether_webos.Memory.Heap.Live.{live, Inside, live-Inside}

-- The area is in the list.
abbrev pub Held : ℕ × ℕ → List (ℕ × ℕ) → Type 0
Held x [] = ⊥
Held x (y ∷ ys) = (x ≡ y) ⊎ Held x ys

Held-Inside :
    (lo hi p n : ℕ) (xs : List (ℕ × ℕ)) → All (Inside lo hi) xs → Held (p, n) xs → p + n ≤ hi
Held-Inside lo hi p n [] all held = absurd held
Held-Inside lo hi p n ((a, m) ∷ xs) all (inl e) = ground arith
Held-Inside lo hi p n ((a, m) ∷ xs) all (inr held) = Held-Inside lo hi p n xs all.1 held

mark_free-above :
    (p end : ℕ) (bs : List Block) → Laid end (shape bs) → end < p → mark_free p bs ≡ bs
unfolding mark_free
mark_free-above p end [] laid h = refl
mark_free-above p end (b ∷ bs) laid h =
    ground (arith, mark_free-above p b.addr bs laid.2 (omega arith))

Perm_here :
    (b : Block) (bs : List Block) (p n : ℕ)
    → p ≡ b.addr + header_size
    → (Held (p, n) (live bs) → p + n ≤ b.addr)
    → Held (p, n) (live (b ∷ bs))
    → Perm (live (b ∷ bs)) ((p, n) ∷ live bs)
Perm_here b bs p n e older held = elim (Bool-cases b.is_free) [
  | inl free ↦ absurd (omega (arith, older (rw free at held)))
  | inr used ↦ rw used (go (rw used at held))
]
  where
    go :
        Held (p, n) ((b.addr + header_size, b.size) ∷ live bs)
        → Perm ((b.addr + header_size, b.size) ∷ live bs) ((p, n) ∷ live bs)
    go (inl same) = rw same (Perm.refl _)
    go (inr lower) = absurd (omega (arith, older lower))

Perm_there :
    (b : Block) (bs bs' : List Block) (p n : ℕ)
    → p ≢ b.addr + header_size
    → (Held (p, n) (live bs) → Perm (live bs) ((p, n) ∷ live bs'))
    → Held (p, n) (live (b ∷ bs))
    → Perm (live (b ∷ bs)) ((p, n) ∷ live (b ∷ bs'))
Perm_there b bs bs' p n ne rec held = elim (Bool-cases b.is_free) [
  | inl free ↦ rw free (rec (rw free at held))
  | inr used ↦ rw used (go (rw used at held))
]
  where
    go :
        Held (p, n) ((b.addr + header_size, b.size) ∷ live bs)
        → Perm
            ((b.addr + header_size, b.size) ∷ live bs)
            ((p, n) ∷ (b.addr + header_size, b.size) ∷ live bs')
    go (inl same) = absurd (ne (ap (λ (x : ℕ × ℕ). x.0) same))
    go (inr lower) =
        Perm.trans (Perm.cons (b.addr + header_size, b.size) (rec lower)) (Perm.swap _ _ _)

mark_free-live :
    (p n end : ℕ) (bs : List Block)
    → Laid end (shape bs)
    → Held (p, n) (live bs)
    → Perm (live bs) ((p, n) ∷ live (mark_free p bs))
unfolding mark_free
mark_free-live p n end [] laid held = absurd held
mark_free-live p n end (b ∷ bs) laid held =
    let older : Held (p, n) (live bs) → p + n ≤ b.addr =
      Held-Inside (heap_start + header_size) b.addr p n (live bs) (live-Inside b.addr bs laid.2) in
    elim (Bool-cases (b.addr + header_size == p)) [
      | inl here ↦
          rw (here, mark_free-above p b.addr bs laid.2 (ground arith))
            (Perm_here b bs p n (ground arith) older held)
      | inr elsewhere ↦ rw elsewhere (
          Perm_there b bs (mark_free p bs) p n (ground arith) (mark_free-live p n b.addr bs laid.2)
            held)
    ]

-- `kfree` of an area in use gives that area up and no other.
pub kfree-live :
    (h : Heap) (p n : ℕ)
    → IsValid h
    → Held (p, n) (live h.blocks)
    → Perm (live h.blocks) ((p, n) ∷ live (kfree (some p) h).blocks)
unfolding kfree
kfree-live h p n v held = mark_free-live p n h.ptr h.blocks v.laid held

Held-cons :
    (b : Block) (bs : List Block) (p n : ℕ)
    → Held (p, n) (live (b ∷ bs))
    → ((p ≡ b.addr + header_size) × (n ≡ b.size)) ⊎ Held (p, n) (live bs)
Held-cons b bs p n held = elim (Bool-cases b.is_free) [
  | inl free ↦ inr (rw free at held)
  | inr used ↦ go (rw used at held)
]
  where
    go :
        Held (p, n) ((b.addr + header_size, b.size) ∷ live bs)
        → ((p ≡ b.addr + header_size) × (n ≡ b.size)) ⊎ Held (p, n) (live bs)
    go (inl same) = inl (ap (λ (x : ℕ × ℕ). x.0) same, ap (λ (x : ℕ × ℕ). x.1) same)
    go (inr lower) = inr lower

-- A free block of the size that is asked for is found.
reuse-found :
    (size p n : ℕ) (bs : List Block)
    → Held (p, n) (live bs)
    → size ≤ n
    → reuse size (mark_free p bs) ≢ none
unfolding reuse mark_free
reuse-found size p n [] held fits e = held
reuse-found size p n (b ∷ bs) held fits e = elim (Held-cons b bs p n held) [
  | inl first ↦ ground (arith, first)
  | inr later ↦
      ground (arith, Option-cases (reuse size (mark_free p bs)), reuse-found size p n bs later fits)
]

-- After `kfree` of an area of `n` bytes, `kmalloc` serves every request that fits `n` bytes when it
-- is rounded up, and `heap_ptr` does not move.
pub kmalloc-kfree :
    (h : Heap) (p n request : ℕ)
    → Held (p, n) (live h.blocks)
    → align8 request ≤ n
    → ((kmalloc request (kfree (some p) h)).1 ≢ none)
      × ((kmalloc request (kfree (some p) h)).0.ptr ≡ h.ptr)
unfolding kmalloc kfree
kmalloc-kfree h p n request held fits =
    elim (Option-cases (reuse (align8 request) (mark_free p h.blocks))) [
      | inl missing ↦ absurd (reuse-found (align8 request) p n h.blocks held fits missing)
      | inr (q, found) ↦ ground (arith, found)
    ]
