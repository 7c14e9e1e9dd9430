-- ===== src/Net/Tcp/Others.antt =====
-- An operation on one connection leaves what another pointer points to
-- (AetherWebOS/src/drivers/ethernet/tcp).
use aether_webos.Prelude.{
  ℕ, ◌≡◌, ◌≢◌, refl, arith, ◌∙◌, List, [], ◌∷◌, some, Bool-cases, inl, inr, Option-cases, ◌+◌,
  length, u16, ◌==◌, false,
}
use aether_webos.Memory.Heap.{kmalloc}
use aether_webos.Net.Stack.{TcpState, Tcb, Net}
use aether_webos.Net.Tcp.{
  tcb_at, modify, unlink, on_tcb, set_state, advance, send_from, closes, is_established,
  tcp_send_segment, tcp_send_fin, tcp_send_data, tcp_close, tcp_remove_tcb, socket_dispatch,
}
use aether_webos.Net.Tcp.Http.{http_response}
use aether_webos.Net.Tcp.Lists.{ipv4_send-tcp_tcb_list}

pub tcb_at-at : (p : ℕ) (t : Tcb) (ts : List Tcb) → tcb_at p ts ≡ some t → t.at ≡ p
unfolding tcb_at
tcb_at-at p t [] h = absurd (ground arith)
tcb_at-at p t (u ∷ us) h = elim (Bool-cases (u.at == p)) [
  | inl e ↦ ground (arith, e)
  | inr e ↦ tcb_at-at p t us (rw (e, tcb_at) at h)
]

module _ (p q : ℕ) (other : p ≢ q) where
  pub others-modify :
      (f : Tcb → Tcb) (ts : List Tcb)
      → ((t : Tcb) → (f t).at ≡ t.at)
      → tcb_at q (modify p f ts) ≡ tcb_at q ts
  unfolding modify tcb_at
  others-modify f [] k = refl
  others-modify f (t ∷ ts) k = elim (Bool-cases (t.at == p)) [
    | inl e ↦
        let far : (t.at == q) ≡ false = ground (arith, e) in
        let still : ((f t).at == q) ≡ false = ground (arith, e, k t) in
        rw (e, modify, far, tcb_at, still) refl
    | inr e ↦ elim (Bool-cases (t.at == q)) [
      | inl here ↦ rw (e, modify, here, tcb_at) refl
      | inr there ↦ rw (e, modify, there, tcb_at) (others-modify f ts k)
    ]
  ]

  pub others-unlink : (ts : List Tcb) → tcb_at q (unlink p ts) ≡ tcb_at q ts
  unfolding unlink tcb_at
  others-unlink [] = refl
  others-unlink (t ∷ ts) = elim (Bool-cases (t.at == p)) [
    | inl e ↦ let far : (t.at == q) ≡ false = ground (arith, e) in rw (e, unlink, far, tcb_at) refl
    | inr e ↦ elim (Bool-cases (t.at == q)) [
      | inl here ↦ rw (e, unlink, here, tcb_at) refl
      | inr there ↦ rw (e, unlink, there, tcb_at) (others-unlink ts)
    ]
  ]

  pub others-segment :
      (flags : ℕ) (payload : List ℕ) (net : Net)
      → tcb_at q (tcp_send_segment p flags payload net).tcp_tcb_list ≡ tcb_at q net.tcp_tcb_list
  unfolding tcp_send_segment send_from
  others-segment flags payload net = elim (Option-cases (tcb_at p net.tcp_tcb_list)) [
    | inl e ↦ rw (e, tcp_send_segment) refl
    | inr (t, e) ↦ elim (Option-cases (kmalloc (u16 (20 + length payload)) net.heap).1) [
      | inl k ↦ rw (e, tcp_send_segment, k, send_from) refl
      | inr (b, k) ↦
          rw
            (
              e,
              tcp_send_segment,
              k,
              send_from,
              ipv4_send-tcp_tcb_list,
              tcb_at-at p t net.tcp_tcb_list e,
            )
            (others-modify (advance flags (length payload)) net.tcp_tcb_list (λ u. refl))
    ]
  ]

  pub others-close :
      (net : Net) → tcb_at q (tcp_close p net).tcp_tcb_list ≡ tcb_at q net.tcp_tcb_list
  unfolding tcp_close tcp_send_fin
  others-close net = elim (Option-cases (tcb_at p net.tcp_tcb_list)) [
    | inl e ↦ rw (e, tcp_close) refl
    | inr (t, e) ↦ elim (Bool-cases (closes t.state)) [
      | inl c ↦
          rw (e, tcp_close, c)
            (others-segment 17 [] (on_tcb p (set_state TcpState.last_ack) net)
              ∙ others-modify (set_state TcpState.last_ack) net.tcp_tcb_list (λ u. refl))
      | inr c ↦ rw (e, tcp_close, c) refl
    ]
  ]

  others-data :
      (bytes : List ℕ) (net : Net)
      → tcb_at q (tcp_send_data p bytes net).tcp_tcb_list ≡ tcb_at q net.tcp_tcb_list
  unfolding tcp_send_data
  others-data bytes net = elim (Option-cases (tcb_at p net.tcp_tcb_list)) [
    | inl e ↦ rw (e, tcp_send_data) refl
    | inr (t, e) ↦ elim (Bool-cases (is_established t.state)) [
      | inl c ↦ rw (e, tcp_send_data, c) (others-segment 24 bytes net)
      | inr c ↦ rw (e, tcp_send_data, c) refl
    ]
  ]

  pub others-socket :
      (net : Net) → tcb_at q (socket_dispatch p net).tcp_tcb_list ≡ tcb_at q net.tcp_tcb_list
  unfolding socket_dispatch
  others-socket net =
      others-close (tcp_send_data p http_response net) ∙ others-data http_response net

  pub others-remove :
      (net : Net) → tcb_at q (tcp_remove_tcb p net).tcp_tcb_list ≡ tcb_at q net.tcp_tcb_list
  unfolding tcp_remove_tcb
  others-remove net = elim (Option-cases (tcb_at p net.tcp_tcb_list)) [
    | inl e ↦ rw (e, tcp_remove_tcb) refl
    | inr (t, e) ↦ rw (e, tcp_remove_tcb) (others-unlink net.tcp_tcb_list)
  ]
