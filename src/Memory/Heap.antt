-- ===== src/Memory/Heap.antt =====
-- `kmalloc` and `kfree` of AetherWebOS/src/kernel/memory.c. The list of headers that starts at
-- `free_list` is a list of blocks, newest first; a block's header stands at `addr`, in front of its
-- data. What the program stores in the data is no part of this state.
pub mod Invariant
pub mod Live
pub mod Release
pub mod Calls
use aether_webos.Prelude.{
  ℕ, ◌+◌, ◌-◌, ◌*◌, ◌^◌, List, [], ◌∷◌, Bool, true, false, ◌&&◌, ◌||◌, Option, none, some, ◌==◌,
  ltb, leb, if◌then◌else◌, bit_and, u64,
}

-- `mem_header_t`, without the pointer that the list stands for.
pub record Block : Type 0 where
  pub addr : ℕ
  pub size : ℕ
  pub is_free : Bool

-- `heap_ptr` and `free_list`, and the addresses at which `kfree` took a header to be where no block
-- has one: its store there changed memory that is not described here.
pub record Heap : Type 0 where
  pub ptr : ℕ
  pub blocks : List Block
  pub strays : List ℕ

abbrev pub heap_start : ℕ
heap_start = 0x41000000

abbrev pub heap_size : ℕ
heap_size = 16 * 1024 * 1024

-- `sizeof(mem_header_t)`: a `size_t`, an `int` with padding, and a pointer.
abbrev pub header_size : ℕ
header_size = 24

unfoldable pub initial : Heap
initial = record { ptr = heap_start; blocks = []; strays = [] }

-- `(size + 7) & ~7` on a `size_t`.
unfoldable pub align8 : ℕ → ℕ
align8 size = bit_and (u64 (size + 7)) (2 ^ 64 - 8)

-- The walk over the list: the first free block that is large enough is taken.
unfoldable pub reuse : ℕ → List Block → Option (ℕ × List Block)
reuse size [] = none
reuse size (b ∷ bs) =
    let rest : Option (ℕ × List Block) = elim (reuse size bs) [
      | none ↦ none
      | some (p, bs') ↦ some (p, b ∷ bs')
    ] in
    if b.is_free && leb size b.size
    then some (b.addr + header_size, record b { is_free = false } ∷ bs)
    else rest

-- A new block at `heap_ptr`, if the heap has room; `none` is NULL.
unfoldable pub bump : ℕ → Heap → Heap × Option ℕ
bump size h =
    let total_size = u64 (header_size + size) in
    if ltb (heap_start + heap_size) (u64 (h.ptr + total_size)) then (h, none) else (
      record {
        ptr = u64 (h.ptr + total_size);
        blocks = record { addr = h.ptr; size = size; is_free = false } ∷ h.blocks;
        strays = h.strays;
      },
      some (h.ptr + header_size),
    )

unfoldable pub kmalloc : ℕ → Heap → Heap × Option ℕ
kmalloc request h =
    let size = align8 request in
    elim (reuse size h.blocks) [
      | some (p, bs) ↦ (record h { blocks = bs }, some p)
      | none ↦ bump size h
    ]

-- `header->is_free = 1` at the header in front of `ptr`, for each block that it may be.
unfoldable pub mark_free : ℕ → List Block → List Block
mark_free p [] = []
mark_free p (b ∷ bs) =
    (if b.addr + header_size == p then record b { is_free = true } else b) ∷ mark_free p bs

-- Whether the pointer is that of a block's data.
unfoldable pub heads : ℕ → List Block → Bool
heads p [] = false
heads p (b ∷ bs) = (b.addr + header_size == p) || heads p bs

-- `none` is NULL. There is no test of the pointer: the store is made in front of any address.
unfoldable pub kfree : Option ℕ → Heap → Heap
kfree none h = h
kfree (some p) h = record h {
  blocks = mark_free p h.blocks;
  strays = if heads p h.blocks then h.strays else u64 (p + (2 ^ 64 - header_size)) ∷ h.strays;
}
