-- ===== src/Net/Tcp/Input/Open.antt =====
-- The passive open of AetherWebOS/src/drivers/ethernet/tcp/tcp_input.c, by cases.
use aether_webos.Prelude.{
  ℕ, ◌≡◌, refl, arith, ◌+◌, List, ◌∷◌, none, some, ◌&&◌, ◌==◌, true, u32, ==_iff,
}
use aether_webos.Memory.Heap.{kmalloc}
use aether_webos.Net.Stack.{Tcb, Net}
use aether_webos.Net.Tcp.{
  modify, has, flag_syn, tcb_size, new_tcb, tcp_allocate_tcb, tcp_send_synack,
}
use aether_webos.Net.Tcp.Input.{Segment, opened, passive_open}

-- The stack with the new connection at the head of the list.
abbrev pub with_opened : Segment → Net → ℕ → Net
with_opened s net p = record net {
  heap = (kmalloc tcb_size net.heap).0;
  tcp_global_isn = u32 (net.tcp_global_isn + 1000);
  tcp_tcb_list = opened s net.tcp_global_isn (new_tcb p net.aether_ip) ∷ net.tcp_tcb_list;
}

allocate-none :
    (net : Net)
    → (kmalloc tcb_size net.heap).1 ≡ none
    → tcp_allocate_tcb net ≡ (record net { heap = (kmalloc tcb_size net.heap).0 }, none)
unfolding tcp_allocate_tcb
allocate-none net e = ground (arith, e)

allocate-some :
    (net : Net) (p : ℕ)
    → (kmalloc tcb_size net.heap).1 ≡ some p
    → tcp_allocate_tcb net ≡ (
      record net {
        heap = (kmalloc tcb_size net.heap).0;
        tcp_tcb_list = new_tcb p net.aether_ip ∷ net.tcp_tcb_list;
      },
      some p,
    )
unfolding tcp_allocate_tcb
allocate-some net p e = ground (arith, e)

pub passive_open-none :
    (s : Segment) (net : Net)
    → (has s.flags flag_syn && (s.dst_port == 80)) ≡ true
    → (kmalloc tcb_size net.heap).1 ≡ none
    → passive_open s net ≡ record net { heap = (kmalloc tcb_size net.heap).0 }
unfolding passive_open
passive_open-none s net syn e = ground (arith, syn, allocate-none net e)

on_head : (f : Tcb → Tcb) (t : Tcb) (ts : List Tcb) → modify t.at f (t ∷ ts) ≡ f t ∷ ts
unfolding modify
on_head f t ts = rw ((==_iff t.at t.at).1 refl) refl

pub passive_open_lem :
    (s : Segment) (net : Net) (p : ℕ)
    → (has s.flags flag_syn && (s.dst_port == 80)) ≡ true
    → (kmalloc tcb_size net.heap).1 ≡ some p
    → passive_open s net ≡ tcp_send_synack p (with_opened s net p)
unfolding passive_open
passive_open_lem s net p syn e = ground (
  arith,
  syn,
  allocate-some net p e,
  on_head (opened s net.tcp_global_isn) (new_tcb p net.aether_ip) net.tcp_tcb_list,
)
