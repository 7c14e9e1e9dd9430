-- ===== src/Memory/Heap/Calls.antt =====
-- Any sequence of calls of `kmalloc` and `kfree` of AetherWebOS/src/kernel/memory.c.
use aether_webos.Prelude.{
  ℕ, ◌+◌, ◌-◌, ◌^◌, ◌≤◌, ◌<◌, List, [], ◌∷◌, Option, none, some, All, true, refl, ◌≡◌, ◌∙◌, arith,
}
use aether_webos.Memory.Heap.{
  Heap, heap_start, heap_size, header_size, initial, bump, heads, kmalloc, kfree,
}
use aether_webos.Memory.Heap.Invariant.{IsValid, initial-IsValid, kmalloc-IsValid, kfree-IsValid}
use aether_webos.Memory.Heap.Live.{live, Inside, Separate, live-Inside, live-Separate}

pub data Call : Type 0 where
  alloc : ℕ → Call
  release : Option ℕ → Call

abbrev pub call : Call → Heap → Heap
call (Call.alloc request) h = (kmalloc request h).0
call (Call.release p) h = kfree p h

abbrev pub calls : List Call → Heap → Heap
calls [] h = h
calls (c ∷ cs) h = calls cs (call c h)

-- A request can be rounded up without a wrap, and a pointer that is freed is NULL or that of a
-- block, in use or not.
abbrev pub Proper : Call → Heap → Type 0
Proper (Call.alloc request) h = request < 2 ^ 63 - 8
Proper (Call.release none) h = Unit
Proper (Call.release (some p)) h = heads p h.blocks ≡ true

-- So is each call, at the time at which it is made.
abbrev pub AllProper : List Call → Heap → Type 0
AllProper [] h = Unit
AllProper (c ∷ cs) h = Proper c h × AllProper cs (call c h)

kmalloc-strays : (request : ℕ) (h : Heap) → (kmalloc request h).0.strays ≡ h.strays
unfolding kmalloc bump
kmalloc-strays request h = ground arith

call-Proper :
    (c : Call) (h : Heap)
    → Proper c h
    → IsValid h
    → IsValid (call c h) × ((call c h).strays ≡ h.strays)
unfolding kfree
call-Proper (Call.alloc request) h small v =
    (kmalloc-IsValid request h v small, kmalloc-strays request h)
call-Proper (Call.release none) h proper v = (v, refl)
call-Proper (Call.release (some p)) h proper v = (kfree-IsValid (some p) h v, rw (proper) refl)

calls-Proper :
    (cs : List Call) (h : Heap)
    → AllProper cs h
    → IsValid h
    → IsValid (calls cs h) × ((calls cs h).strays ≡ h.strays)
calls-Proper [] h proper v = (v, refl)
calls-Proper (c ∷ cs) h proper v =
    let (v', same) = call-Proper c h proper.0 v in
    let (end, all_same) = calls-Proper cs (call c h) proper.1 v' in (end, all_same ∙ same)

-- Whatever sequence of calls the program makes from the start, with requests of less than
-- 2^63 - 8 bytes, and with frees of NULL and of pointers to blocks that there are at that time, also
-- of one that is free already, in any order: the blocks lie end to end from the start of the heap to
-- `heap_ptr`, which does not pass the end of the heap, the areas in use lie inside it and share no
-- byte, and no free wrote outside a header.
pub calls-Separate :
    (cs : List Call)
    → AllProper cs initial
    → let h = calls cs initial in
      IsValid h
      × (h.ptr ≤ heap_start + heap_size)
      × All (Inside (heap_start + header_size) h.ptr) (live h.blocks)
      × Separate (live h.blocks)
      × (h.strays ≡ [])
unfolding initial
calls-Separate cs proper =
    let (v, clean) = calls-Proper cs initial proper initial-IsValid in
    let h : Heap = calls cs initial in
    (v, v.within, live-Inside h.ptr h.blocks v.laid, live-Separate h.ptr h.blocks v.laid, clean)
