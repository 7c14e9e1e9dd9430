-- ===== src/Memory/Heap/Invariant.antt =====
-- The blocks of the heap lie end to end from `HEAP_START` to `heap_ptr`, and `kmalloc` and `kfree`
-- of AetherWebOS/src/kernel/memory.c keep them so.
use aether_webos.Prelude.{
  ℕ, ◌+◌, ◌-◌, ◌*◌, ◌%◌, ◌/◌, ◌^◌, ◌≤◌, ◌<◌, ◌≡◌, refl, arith, List, [], ◌∷◌, ◌&&◌, Option, none,
  some, leb, Bool-cases, Option-cases, inl, inr, bit_and_field, ◌↔◌,
}
use aether_webos.Memory.Heap.{
  Block, Heap, heap_start, heap_size, header_size, initial, align8, reuse, bump, kmalloc, mark_free,
  kfree,
}

-- Where the blocks stand and how large they are; only `bump` changes it.
abbrev pub shape : List Block → List (ℕ × ℕ)
shape [] = []
shape (b ∷ bs) = (b.addr, b.size) ∷ shape bs

-- The blocks fill the memory up to `end`, and each is aligned.
abbrev pub Laid : ℕ → List (ℕ × ℕ) → Type 0
Laid end [] = end ≡ heap_start
Laid end ((a, n) ∷ bs) = (a + header_size + n ≡ end) × (n % 8 ≡ 0) × Laid a bs

pub record IsValid (h : Heap) : Type 0 where
  pub laid : Laid h.ptr (shape h.blocks)
  pub within : h.ptr ≤ heap_start + heap_size

pub align8_lem : (n : ℕ) → n < 2 ^ 63 → align8 n ≡ (n + 7) / 8 * 8
unfolding align8
align8_lem n h = omega (arith, bit_and_field 3 61 ((n + 7) % 2 ^ 64))

pub Laid-start : (end : ℕ) (bs : List (ℕ × ℕ)) → Laid end bs → (heap_start ≤ end) × (end % 8 ≡ 0)
Laid-start end [] h = omega arith
Laid-start end ((a, n) ∷ bs) h = omega (arith, Laid-start a bs h.2)

pub reuse-shape :
    (size : ℕ) (bs : List Block) (p : ℕ) (bs' : List Block)
    → reuse size bs ≡ some (p, bs')
    → shape bs' ≡ shape bs
unfolding reuse
reuse-shape size [] p bs' e = cc
reuse-shape size (b ∷ bs) p bs' e = elim (Bool-cases (b.is_free && leb size b.size)) [
  | inl free ↦ ground (arith, free)
  | inr used ↦ elim (Option-cases (reuse size bs)) [
    | inl missing ↦ ground (arith, used, missing)
    | inr ((q, rest), found) ↦ ground (arith, used, found, reuse-shape size bs q rest found)
  ]
]

pub mark_free-shape : (p : ℕ) (bs : List Block) → shape (mark_free p bs) ≡ shape bs
unfolding mark_free
mark_free-shape p [] = refl
mark_free-shape p (b ∷ bs) = ground (arith, mark_free-shape p bs)

pub initial-IsValid : IsValid initial
unfolding initial
initial-IsValid = omega arith

-- `bump` fails exactly if the block and its header do not fit behind `heap_ptr`.
pub bump_lem :
    (size : ℕ) (h : Heap)
    → IsValid h
    → size < 2 ^ 63
    → size % 8 ≡ 0
    → IsValid (bump size h).0
      × (((bump size h).1 ≡ none) ↔ (heap_start + heap_size < h.ptr + header_size + size))
unfolding bump
bump_lem size h v small aligned = ground arith

-- A request of less than `2 ^ 63 - 8` bytes leaves the blocks end to end and inside the heap, also
-- when it fails.
pub kmalloc-IsValid :
    (request : ℕ) (h : Heap) → IsValid h → request < 2 ^ 63 - 8 → IsValid (kmalloc request h).0
unfolding kmalloc
kmalloc-IsValid request h v small = elim (Option-cases (reuse (align8 request) h.blocks)) [
  | inl missing ↦
      rw (missing, kmalloc)
        (bump_lem (align8 request) h v (omega (arith, align8_lem request))
          (omega (arith, align8_lem request))).0
  | inr ((p, bs), found) ↦ ground (arith, found, reuse-shape (align8 request) h.blocks p bs found)
]

-- A call of `kfree` leaves the blocks end to end and inside the heap.
pub kfree-IsValid : (p : Option ℕ) (h : Heap) → IsValid h → IsValid (kfree p h)
unfolding kfree
kfree-IsValid none h v = v
kfree-IsValid (some p) h v = ground (arith, mark_free-shape p h.blocks)
