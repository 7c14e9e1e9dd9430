-- ===== src/Net/Tcp/Keys.antt =====
-- The 4-tuples of the connections, and that no operation on an existing connection changes them
-- (AetherWebOS/src/drivers/ethernet/tcp).
use aether_webos.Prelude.{
  ℕ, ◌≡◌, ◌≢◌, refl, arith, ap, ◌∙◌, List, [], ◌∷◌, none, Bool-cases, inl, inr, All, Option-cases,
  ◌+◌, length, u16, map, false, ◌==◌,
}
use aether_webos.Memory.Heap.{kmalloc}
use aether_webos.Net.Stack.{TcpState, Tcb, Net}
use aether_webos.Net.Tcp.{
  tcb_at, modify, unlink, on_tcb, set_state, advance, send_from, closes, is_established,
  tcp_send_segment, tcp_send_fin, tcp_send_data, tcp_close, socket_dispatch, matches, tcp_find_tcb,
}
use aether_webos.Net.Tcp.Http.{http_response}
use aether_webos.Net.Tcp.Lists.{ipv4_send-tcp_tcb_list}

-- What a connection is found by.
pub record Key : Type 0 where
  pub remote_ip : ℕ
  pub remote_port : ℕ
  pub local_ip : ℕ
  pub local_port : ℕ

abbrev pub key : Tcb → Key
key t = record {
  remote_ip = t.remote_ip;
  remote_port = t.remote_port;
  local_ip = t.local_ip;
  local_port = t.local_port;
}

abbrev pub keys : List Tcb → List Key
keys ts = map key ts

abbrev pub Apart : Key → List Key → Type 0
Apart k ks = All (λ (j : Key). j ≢ k) ks

abbrev pub Distinct : List Key → Type 0
Distinct [] = Unit
Distinct (k ∷ ks) = Apart k ks × Distinct ks

-- What is read of a connection, and no change of its state or its numbers reaches.
pub record Keeps {ℓ} {X : Type ℓ} (view : Tcb → X) : Type ℓ where
  pub on_state : (st : TcpState) (t : Tcb) → view (set_state st t) ≡ view t
  pub on_expected : (n : ℕ) (t : Tcb) → view (record t { rcv_nxt = n }) ≡ view t
  pub on_sent : (flags len : ℕ) (t : Tcb) → view (advance flags len t) ≡ view t

module _ {ℓ} {X : Type ℓ} (view : Tcb → X) where
  pub views-modify :
      (p : ℕ) (f : Tcb → Tcb) (ts : List Tcb)
      → ((t : Tcb) → view (f t) ≡ view t)
      → map view (modify p f ts) ≡ map view ts
  unfolding modify
  views-modify p f [] h = refl
  views-modify p f (t ∷ ts) h = elim (Bool-cases (t.at == p)) [
    | inl e ↦ rw (e, modify) (ap (λ k. k ∷ map view ts) (h t))
    | inr e ↦ rw (e, modify) (ap (λ ks. view t ∷ ks) (views-modify p f ts h))
  ]

module _ {ℓ} {X : Type ℓ} (view : Tcb → X) (keeps : Keeps view) where
  pub segment-views :
      (p flags : ℕ) (payload : List ℕ) (net : Net)
      → map view (tcp_send_segment p flags payload net).tcp_tcb_list ≡ map view net.tcp_tcb_list
  unfolding tcp_send_segment send_from
  segment-views p flags payload net = elim (Option-cases (tcb_at p net.tcp_tcb_list)) [
    | inl e ↦ rw (e, tcp_send_segment) refl
    | inr (t, e) ↦ elim (Option-cases (kmalloc (u16 (20 + length payload)) net.heap).1) [
      | inl k ↦ rw (e, tcp_send_segment, k, send_from) refl
      | inr (b, k) ↦
          rw (e, tcp_send_segment, k, send_from, ipv4_send-tcp_tcb_list)
            (views-modify view t.at (advance flags (length payload)) net.tcp_tcb_list
              (keeps.on_sent flags (length payload)))
    ]
  ]

  pub close-views :
      (p : ℕ) (net : Net) → map view (tcp_close p net).tcp_tcb_list ≡ map view net.tcp_tcb_list
  unfolding tcp_close tcp_send_fin
  close-views p net = elim (Option-cases (tcb_at p net.tcp_tcb_list)) [
    | inl e ↦ rw (e, tcp_close) refl
    | inr (t, e) ↦ elim (Bool-cases (closes t.state)) [
      | inl c ↦
          rw (e, tcp_close, c)
            (segment-views p 17 [] (on_tcb p (set_state TcpState.last_ack) net)
              ∙ views-modify view p (set_state TcpState.last_ack) net.tcp_tcb_list
                  (keeps.on_state TcpState.last_ack))
      | inr c ↦ rw (e, tcp_close, c) refl
    ]
  ]

  data-views :
      (p : ℕ) (bytes : List ℕ) (net : Net)
      → map view (tcp_send_data p bytes net).tcp_tcb_list ≡ map view net.tcp_tcb_list
  unfolding tcp_send_data
  data-views p bytes net = elim (Option-cases (tcb_at p net.tcp_tcb_list)) [
    | inl e ↦ rw (e, tcp_send_data) refl
    | inr (t, e) ↦ elim (Bool-cases (is_established t.state)) [
      | inl c ↦ rw (e, tcp_send_data, c) (segment-views p 24 bytes net)
      | inr c ↦ rw (e, tcp_send_data, c) refl
    ]
  ]

  pub socket-views :
      (p : ℕ) (net : Net)
      → map view (socket_dispatch p net).tcp_tcb_list ≡ map view net.tcp_tcb_list
  unfolding socket_dispatch
  socket-views p net =
      close-views p (tcp_send_data p http_response net) ∙ data-views p http_response net

pub key-Keeps : Keeps key
key-Keeps = record {
  on_state = λ st t. refl;
  on_expected = λ n t. refl;
  on_sent = λ flags len t. refl;
}

-- A connection that is not found has a 4-tuple of its own.
pub find-none :
    (src_ip src_port dst_ip dst_port : ℕ) (ts : List Tcb)
    → tcp_find_tcb src_ip src_port dst_ip dst_port ts ≡ none
    → Apart
        (record {
          remote_ip = src_ip;
          remote_port = src_port;
          local_ip = dst_ip;
          local_port = dst_port;
        })
        (keys ts)
unfolding tcp_find_tcb matches
find-none src_ip src_port dst_ip dst_port [] h = tt
find-none src_ip src_port dst_ip dst_port (t ∷ ts) h =
    elim (Bool-cases (matches src_ip src_port dst_ip dst_port t)) [
      | inl e ↦ ground (arith, e)
      | inr e ↦ (other t e, find-none src_ip src_port dst_ip dst_port ts (ground (arith, e)))
    ]
  where
    other :
        (u : Tcb)
        → matches src_ip src_port dst_ip dst_port u ≡ false
        → key u ≢ record {
          remote_ip = src_ip;
          remote_port = src_port;
          local_ip = dst_ip;
          local_port = dst_port;
        }
    other u e eq =
        let a : u.remote_ip ≡ src_ip = ap (λ (k : Key). k.remote_ip) eq in
        let b : u.remote_port ≡ src_port = ap (λ (k : Key). k.remote_port) eq in
        let c : u.local_ip ≡ dst_ip = ap (λ (k : Key). k.local_ip) eq in
        let d : u.local_port ≡ dst_port = ap (λ (k : Key). k.local_port) eq in ground (arith, e)

pub Apart-unlink :
    (k : Key) (p : ℕ) (ts : List Tcb) → Apart k (keys ts) → Apart k (keys (unlink p ts))
unfolding unlink
Apart-unlink k p [] a = tt
Apart-unlink k p (t ∷ ts) a = elim (Bool-cases (t.at == p)) [
  | inl e ↦ rw (e, unlink) a.1
  | inr e ↦ rw (e, unlink) (a.0, Apart-unlink k p ts a.1)
]

pub Distinct-unlink : (p : ℕ) (ts : List Tcb) → Distinct (keys ts) → Distinct (keys (unlink p ts))
unfolding unlink
Distinct-unlink p [] d = tt
Distinct-unlink p (t ∷ ts) d = elim (Bool-cases (t.at == p)) [
  | inl e ↦ rw (e, unlink) d.1
  | inr e ↦ rw (e, unlink) (Apart-unlink (key t) p ts d.0, Distinct-unlink p ts d.1)
]
