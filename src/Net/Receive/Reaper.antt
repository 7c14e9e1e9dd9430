-- ===== src/Net/Receive/Reaper.antt =====
-- The loop of `net_tx_reaper` in AetherWebOS/src/drivers/virtio/virtio_net.c ends with every used
-- entry taken.
use aether_webos.Prelude.{
  ℕ, zero, suc, ◌^◌, ◌<◌, ◌≡◌, ◌≢◌, refl, arith, sym, ◌∙◌, none, Option-cases, inl, inr, List, [],
  ◌∷◌, All, Bool-cases, ◌==◌,
}
use aether_webos.Net.Virtqueue.{Virtqueue, Stats, count_used, virtqueue_pop_used}
use aether_webos.Net.Virtqueue.Reclaim.{returned, next_receipt, pop_used_some, pop_used-none}
use aether_webos.Net.Stack.{Net}
use aether_webos.Net.Receive.{Receipts, receive, reap_one, reap_loop, pending, net_tx_reaper}

abbrev pub Indexed : Virtqueue → Type 0
Indexed vq = (vq.used_idx < 2 ^ 16) × (vq.last_used_idx < 2 ^ 16)

reap_next : Net → Net
reap_next net =
    let vq = net.tx_queue in
    reap_one (next_receipt vq) (returned (next_receipt vq) vq)
      (count_used vq.queue_index net.net_stats) net

reap_loop-suc :
    (fuel : ℕ) (net : Net)
    → net.tx_queue.last_used_idx ≢ net.tx_queue.used_idx
    → reap_loop (suc fuel) net ≡ reap_loop fuel (reap_next net)
unfolding reap_loop reap_next
reap_loop-suc fuel net other = ground (arith, pop_used_some net.tx_queue net.net_stats other)

reap_loop-done :
    (fuel : ℕ) (net : Net)
    → Indexed net.tx_queue
    → pending net.tx_queue ≡ fuel
    → ((reap_loop fuel net).tx_queue.last_used_idx ≡ net.tx_queue.used_idx)
      × ((reap_loop fuel net).tx_queue.used_idx ≡ net.tx_queue.used_idx)
      × ((reap_loop fuel net).tcp_tcb_list ≡ net.tcp_tcb_list)
unfolding reap_loop pending reap_one reap_next
reap_loop-done zero net ix e = (omega arith, refl, refl)
reap_loop-done (suc fuel) net ix e =
    rw (reap_loop-suc fuel net (λ same. absurd (omega arith)))
      (reap_loop-done fuel (reap_next net) (ix.0, omega arith) (omega arith))

idle-done :
    (net : Net) (stats : Stats)
    → Indexed net.tx_queue
    → (virtqueue_pop_used (net_tx_reaper [] net).tx_queue stats
        ≡ ((net_tx_reaper [] net).tx_queue, stats, none))
      × ((net_tx_reaper [] net).tcp_tcb_list ≡ net.tcp_tcb_list)
unfolding net_tx_reaper
idle-done net stats ix =
    let done = reap_loop-done (pending net.tx_queue) net ix refl in
    let (last, used, list) = done in
    (pop_used-none (net_tx_reaper [] net).tx_queue stats (last ∙ sym used), list)

reaper-stops :
    (w : Receipts) (ws : List Receipts) (net : Net)
    → net.tx_queue.last_used_idx ≡ w.idx
    → net_tx_reaper (w ∷ ws) net ≡ receive w net
unfolding net_tx_reaper
reaper-stops w ws net same =
    ground (arith, pop_used-none (receive w net).tx_queue net.net_stats same)

reaper-goes :
    (w : Receipts) (ws : List Receipts) (net : Net)
    → net.tx_queue.last_used_idx ≢ w.idx
    → net_tx_reaper (w ∷ ws) net ≡ net_tx_reaper ws (reap_next (receive w net))
unfolding net_tx_reaper reap_next
reaper-goes w ws net other =
    ground (arith, pop_used_some (receive w net).tx_queue net.net_stats other)

next-list : (net : Net) → (reap_next net).tcp_tcb_list ≡ net.tcp_tcb_list
unfolding reap_next reap_one
next-list net = refl

next-Indexed :
    (w : Receipts) (net : Net) → w.idx < 2 ^ 16 → Indexed (reap_next (receive w net)).tx_queue
unfolding reap_next reap_one
next-Indexed w net small = (small, omega arith)

-- The device may write used entries while `net_tx_reaper` runs. When it stops after any number of
-- rounds, the loop ends with every used descriptor taken: the next `virtqueue_pop_used` finds none.
-- The connections stay as they are. The indices, also those that the device writes, are words of 16
-- bits.
pub net_tx_reaper-done :
    (ws : List Receipts) (net : Net) (stats : Stats)
    → Indexed net.tx_queue
    → All (λ (w : Receipts). w.idx < 2 ^ 16) ws
    → (virtqueue_pop_used (net_tx_reaper ws net).tx_queue stats
        ≡ ((net_tx_reaper ws net).tx_queue, stats, none))
      × ((net_tx_reaper ws net).tcp_tcb_list ≡ net.tcp_tcb_list)
net_tx_reaper-done [] net stats ix words = idle-done net stats ix
net_tx_reaper-done (w ∷ ws) net stats ix words =
    elim (Bool-cases (net.tx_queue.last_used_idx == w.idx)) [
      | inl e ↦
          let same : net.tx_queue.last_used_idx ≡ w.idx = ground (arith, e) in
          rw (reaper-stops w ws net same) (pop_used-none (receive w net).tx_queue stats same, refl)
      | inr e ↦
          let rest =
            net_tx_reaper-done ws (reap_next (receive w net)) stats (next-Indexed w net words.0)
              words.1 in
          rw (reaper-goes w ws net (λ same. ground (arith, same, e)))
            (rest.0, rest.1 ∙ next-list (receive w net))
    ]

loop-tcp_tcb_list : (fuel : ℕ) (net : Net) → (reap_loop fuel net).tcp_tcb_list ≡ net.tcp_tcb_list
unfolding reap_loop reap_one
loop-tcp_tcb_list zero net = refl
loop-tcp_tcb_list (suc fuel) net =
    elim (Option-cases (virtqueue_pop_used net.tx_queue net.net_stats).2) [
      | inl e ↦ rw (e, reap_loop) refl
      | inr ((id, len), e) ↦
          rw (e, reap_loop)
            (loop-tcp_tcb_list fuel (
              reap_one id (virtqueue_pop_used net.tx_queue net.net_stats).0
                (virtqueue_pop_used net.tx_queue net.net_stats).1 net))
    ]

pub reaper-tcp_tcb_list :
    (ws : List Receipts) (net : Net) → (net_tx_reaper ws net).tcp_tcb_list ≡ net.tcp_tcb_list
unfolding net_tx_reaper
reaper-tcp_tcb_list [] net = loop-tcp_tcb_list (pending net.tx_queue) net
reaper-tcp_tcb_list (w ∷ ws) net = elim (Bool-cases (net.tx_queue.last_used_idx == w.idx)) [
  | inl e ↦ rw (reaper-stops w ws net (ground (arith, e))) refl
  | inr e ↦
      rw (reaper-goes w ws net (λ same. ground (arith, same, e)))
        (reaper-tcp_tcb_list ws (reap_next (receive w net)) ∙ next-list (receive w net))
]
