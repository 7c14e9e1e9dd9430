-- ===== src/Net/Tcp/Places.antt =====
-- The 4-tuple and the address find the same connection (AetherWebOS/src/drivers/ethernet/tcp/tcp.c).
use aether_webos.Prelude.{
  ℕ, ◌≡◌, refl, sym, arith, ap, ◌∙◌, List, [], ◌∷◌, none, some, Bool-cases, inl, inr, map, true,
  false, ◌==◌, All,
}
use aether_webos.Net.Stack.{Tcb}
use aether_webos.Net.Tcp.{tcb_at, unlink, matches, tcp_find_tcb}
use aether_webos.Net.Tcp.Others.{tcb_at-at}
use aether_webos.Net.Tcp.Keys.{Key, Keeps, key, keys, Apart, Distinct}

-- Where a connection lies, and what it is found by.
pub record Place : Type 0 where
  pub where_at : ℕ
  pub whose : Key

abbrev pub place : Tcb → Place
place t = record { where_at = t.at; whose = key t }

pub place-Keeps : Keeps place
place-Keeps = record {
  on_state = λ st t. refl;
  on_expected = λ n t. refl;
  on_sent = λ flags len t. refl;
}

module _ (src_ip src_port dst_ip dst_port : ℕ) where
  matches-key :
      (u v : Tcb)
      → key v ≡ key u
      → matches src_ip src_port dst_ip dst_port v ≡ matches src_ip src_port dst_ip dst_port u
  unfolding matches
  matches-key u v eq =
      rw
        (
          ap (λ (k : Key). k.remote_ip) eq,
          ap (λ (k : Key). k.remote_port) eq,
          ap (λ (k : Key). k.local_ip) eq,
          ap (λ (k : Key). k.local_port) eq,
        )
        refl

  find-matches :
      (t : Tcb) (ts : List Tcb)
      → tcp_find_tcb src_ip src_port dst_ip dst_port ts ≡ some t
      → matches src_ip src_port dst_ip dst_port t ≡ true
  unfolding tcp_find_tcb
  find-matches t [] h = absurd (ground arith)
  find-matches t (u ∷ us) h = elim (Bool-cases (matches src_ip src_port dst_ip dst_port u)) [
    | inl e ↦ ground (arith, e)
    | inr e ↦ find-matches t us (rw (e, tcp_find_tcb) at h)
  ]

  -- Of the connection that both find, an entry with the place of the first one is at the head.
  pub find-places :
      (p : ℕ) (t : Tcb) (before after : List Tcb)
      → map place after ≡ map place before
      → tcp_find_tcb src_ip src_port dst_ip dst_port before ≡ some t
      → tcb_at p before ≡ some t
      → tcp_find_tcb src_ip src_port dst_ip dst_port after ≡ tcb_at p after
  unfolding tcp_find_tcb tcb_at
  find-places p t [] after same found here = absurd (ground arith)
  find-places p t (u ∷ us) [] same found here = absurd (ground arith)
  find-places p t (u ∷ us) (v ∷ vs) same found here =
      let one : place v ≡ place u = ground (arith, same) in
      let rest : map place vs ≡ map place us = ground (arith, same) in
      let m = matches-key u v (ap (λ (x : Place). x.whose) one) in
      let at_same : v.at ≡ u.at = ap (λ (x : Place). x.where_at) one in
      elim (Bool-cases (u.at == p)) [
        | inl e ↦
            let is_u : u ≡ t = ground (arith, e, here) in
            let own : matches src_ip src_port dst_ip dst_port u ≡ true =
              rw (is_u) (find-matches t (u ∷ us) found) in
            let head : (v.at == p) ≡ true = ap (λ a. a == p) at_same ∙ e in rw (m ∙ own, head) refl
        | inr e ↦ elim (Bool-cases (matches src_ip src_port dst_ip dst_port u)) [
          | inl own ↦
              let is_u : u ≡ t = ground (arith, own, found) in
              let at_p : t.at ≡ p = tcb_at-at p t (u ∷ us) here in
              absurd (ground (arith, e, ap (λ (x : Tcb). x.at) is_u, at_p))
          | inr other ↦
              let tail : (v.at == p) ≡ false = ap (λ a. a == p) at_same ∙ e in
              rw (m ∙ other, tail)
                (find-places p t us vs rest (rw (other, tcp_find_tcb) at found)
                  (rw (e, tcb_at) at here))
        ]
      ]

  -- The removal of the connection that is found leaves none with its 4-tuple.
  Apart-find :
      (t : Tcb) (ts : List Tcb)
      → matches src_ip src_port dst_ip dst_port t ≡ true
      → Apart (key t) (keys ts)
      → tcp_find_tcb src_ip src_port dst_ip dst_port ts ≡ none
  unfolding tcp_find_tcb matches
  Apart-find t [] m a = refl
  Apart-find t (u ∷ us) m a = elim (Bool-cases (matches src_ip src_port dst_ip dst_port u)) [
    | inl e ↦ absurd (a.0 (ground (arith, m, e)))
    | inr e ↦ rw (e, tcp_find_tcb) (Apart-find t us m a.1)
  ]

  pub find-unlink :
      (p : ℕ) (t : Tcb) (ts : List Tcb)
      → Distinct (keys ts)
      → tcp_find_tcb src_ip src_port dst_ip dst_port ts ≡ some t
      → tcb_at p ts ≡ some t
      → tcp_find_tcb src_ip src_port dst_ip dst_port (unlink p ts) ≡ none
  unfolding tcp_find_tcb tcb_at unlink
  find-unlink p t [] d found here = absurd (ground arith)
  find-unlink p t (u ∷ us) d found here = elim (Bool-cases (u.at == p)) [
    | inl e ↦
        let is_u : u ≡ t = ground (arith, e, here) in
        let own : matches src_ip src_port dst_ip dst_port u ≡ true =
          rw (is_u) (find-matches t (u ∷ us) found) in
        rw (e, unlink) (Apart-find u us own d.0)
    | inr e ↦ elim (Bool-cases (matches src_ip src_port dst_ip dst_port u)) [
      | inl own ↦
          let is_u : u ≡ t = ground (arith, own, found) in
          let at_p : t.at ≡ p = tcb_at-at p t (u ∷ us) here in
          absurd (ground (arith, e, ap (λ (x : Tcb). x.at) is_u, at_p))
      | inr other ↦
          rw (e, unlink, other, tcp_find_tcb)
            (find-unlink p t us d.1 (rw (other, tcp_find_tcb) at found) (rw (e, tcb_at) at here))
    ]
  ]

module _ {ℓ} (P : Tcb → Type ℓ) (src_ip src_port dst_ip dst_port : ℕ) where
  pub All-find :
      (t : Tcb) (ts : List Tcb)
      → tcp_find_tcb src_ip src_port dst_ip dst_port ts ≡ some t
      → All P ts
      → P t
  unfolding tcp_find_tcb
  All-find t [] h a = absurd (ground arith)
  All-find t (u ∷ us) h a = elim (Bool-cases (matches src_ip src_port dst_ip dst_port u)) [
    | inl e ↦ let is_u : u ≡ t = ground (arith, e, h) in rw (sym is_u) a.0
    | inr e ↦ All-find t us (rw (e, tcp_find_tcb) at h) a.1
  ]
