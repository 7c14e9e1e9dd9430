-- ===== src/Net/Tcp/Lists.antt =====
-- The connection list of AetherWebOS/src/drivers/ethernet/tcp/tcp.c: what a change behind a pointer
-- and the sending of a packet do to it.
use aether_webos.Prelude.{
  ℕ, ◌≡◌, refl, arith, List, [], ◌∷◌, none, some, Bool-cases, true, inl, inr, ◌==◌, All, u16, ◌+◌,
  length, Option-cases,
}
use aether_webos.Memory.Heap.{kmalloc}
use aether_webos.Net.Stack.{Tcb, Net, ethernet_send, enqueue, ipv4_send}
use aether_webos.Net.Tcp.{tcb_at, modify, unlink, send_from, advance}

pub ethernet_send-tcp_tcb_list :
    (mac : List ℕ) (ethertype : ℕ) (payload : List ℕ) (net : Net)
    → (ethernet_send mac ethertype payload net).tcp_tcb_list ≡ net.tcp_tcb_list
unfolding ethernet_send enqueue
ethernet_send-tcp_tcb_list mac ethertype payload net = ground arith

pub ipv4_send-tcp_tcb_list :
    (dst_ip protocol : ℕ) (payload : List ℕ) (net : Net)
    → (ipv4_send dst_ip protocol payload net).tcp_tcb_list ≡ net.tcp_tcb_list
unfolding ipv4_send
ipv4_send-tcp_tcb_list dst_ip protocol payload net = grind (arith, ethernet_send-tcp_tcb_list)

module _ {ℓ} (P : Tcb → Type ℓ) where
  pub All-modify :
      (p : ℕ) (f : Tcb → Tcb) (ts : List Tcb)
      → ((t : Tcb) → P t → P (f t))
      → All P ts
      → All P (modify p f ts)
  unfolding modify
  All-modify p f [] h a = tt
  All-modify p f (t ∷ ts) h a = elim (Bool-cases (t.at == p)) [
    | inl e ↦ rw (e, modify) (h t a.0, a.1)
    | inr e ↦ rw (e, modify) (a.0, All-modify p f ts h a.1)
  ]

  pub All-modify_twice :
      (p : ℕ) (f g : Tcb → Tcb) (ts : List Tcb)
      → ((t : Tcb) → (f t).at ≡ t.at)
      → ((t : Tcb) → P t → P (g (f t)))
      → All P ts
      → All P (modify p g (modify p f ts))
  unfolding modify
  All-modify_twice p f g [] k h a = tt
  All-modify_twice p f g (t ∷ ts) k h a = elim (Bool-cases (t.at == p)) [
    | inl e ↦
        let e' : ((f t).at == p) ≡ true = ground (arith, k t, e) in
        rw (e, modify, e') (h t a.0, a.1)
    | inr e ↦ rw (e, modify, e) (a.0, All-modify_twice p f g ts k h a.1)
  ]

  pub All-unlink : (p : ℕ) (ts : List Tcb) → All P ts → All P (unlink p ts)
  unfolding unlink
  All-unlink p [] a = tt
  All-unlink p (t ∷ ts) a = elim (Bool-cases (t.at == p)) [
    | inl e ↦ rw (e, unlink) a.1
    | inr e ↦ rw (e, unlink) (a.0, All-unlink p ts a.1)
  ]

  -- The connection that is unlinked may have been changed before.
  pub All-unlink_modified :
      (p : ℕ) (f : Tcb → Tcb) (ts : List Tcb)
      → ((t : Tcb) → (f t).at ≡ t.at)
      → All P ts
      → All P (unlink p (modify p f ts))
  unfolding modify unlink
  All-unlink_modified p f [] k a = tt
  All-unlink_modified p f (t ∷ ts) k a = elim (Bool-cases (t.at == p)) [
    | inl e ↦
        let e' : ((f t).at == p) ≡ true = ground (arith, k t, e) in rw (e, modify, unlink, e') a.1
    | inr e ↦ rw (e, modify, unlink, e) (a.0, All-unlink_modified p f ts k a.1)
  ]

  -- A sent segment leaves each connection as it is, but for the next sequence number of its own.
  pub All-send_from :
      (t : Tcb) (flags : ℕ) (payload : List ℕ) (net : Net)
      → ((u : Tcb) → P u → P (advance flags (length payload) u))
      → All P net.tcp_tcb_list
      → All P (send_from t flags payload net).tcp_tcb_list
  unfolding send_from
  All-send_from t flags payload net h a =
      elim (Option-cases (kmalloc (u16 (20 + length payload)) net.heap).1) [
        | inl e ↦ rw (e, send_from) a
        | inr (b, e) ↦
            rw (e, send_from, ipv4_send-tcp_tcb_list)
              (All-modify t.at (advance flags (length payload)) net.tcp_tcb_list h a)
      ]

pub tcb_at-modify :
    (p : ℕ) (f : Tcb → Tcb) (t : Tcb) (ts : List Tcb)
    → ((u : Tcb) → (f u).at ≡ u.at)
    → tcb_at p ts ≡ some t
    → tcb_at p (modify p f ts) ≡ some (f t)
unfolding tcb_at modify
tcb_at-modify p f t [] k h = ground arith
tcb_at-modify p f t (u ∷ us) k h = elim (Bool-cases (u.at == p)) [
  | inl e ↦ ground (arith, e, k u)
  | inr e ↦ ground (arith, e, tcb_at-modify p f t us k)
]

pub tcb_at-modify-none :
    (p : ℕ) (f : Tcb → Tcb) (ts : List Tcb) → tcb_at p ts ≡ none → modify p f ts ≡ ts
unfolding tcb_at modify
tcb_at-modify-none p f [] h = refl
tcb_at-modify-none p f (u ∷ us) h = elim (Bool-cases (u.at == p)) [
  | inl e ↦ ground (arith, e)
  | inr e ↦ ground (arith, e, tcb_at-modify-none p f us)
]
