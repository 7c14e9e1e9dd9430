-- ===== src/Earlier/Tcp/LastAck.antt =====
-- The slots of the table of AetherWebOS/backups/src/tcp.c that are in LAST_ACK.
use aether_webos.Prelude.{
  ℕ, zero, suc, ◌+◌, ◌≡◌, refl, arith, sym, ap, ◌∙◌, List, [], ◌∷◌, Option, none, some, Bool, true,
  false, Bool-cases, inl, inr,
}
use aether_webos.Earlier.Table.{
  State, Slot, is_closed, is_established, is_syn_rcvd, slot_at, on_slot, free_from,
}
use aether_webos.Earlier.Tcp.{Stack, on_tcb, set_state}

abbrev is_last_ack : State → Bool
is_last_ack State.last_ack = true
is_last_ack _ = false

-- Whether the slot `n` is in LAST_ACK.
unfoldable pub lingers : ℕ → List Slot → Bool
lingers n [] = false
lingers zero (t ∷ ts) = is_last_ack t.state
lingers (suc n) (t ∷ ts) = lingers n ts

abbrev pub Lingers : ℕ → List Slot → Type 0
Lingers n ts = lingers n ts ≡ true

pub syn_rcvd-moves : (st : State) → is_syn_rcvd st ≡ true → is_last_ack st ≡ false
syn_rcvd-moves State.closed h = refl
syn_rcvd-moves State.listen h = refl
syn_rcvd-moves State.syn_rcvd h = refl
syn_rcvd-moves State.established h = refl
syn_rcvd-moves State.fin_wait_1 h = refl
syn_rcvd-moves State.fin_wait_2 h = refl
syn_rcvd-moves State.close_wait h = refl
syn_rcvd-moves State.last_ack h = absurd (ground (arith, h))
syn_rcvd-moves State.time_wait h = refl

pub established-moves : (st : State) → is_established st ≡ true → is_last_ack st ≡ false
established-moves State.closed h = refl
established-moves State.listen h = refl
established-moves State.syn_rcvd h = refl
established-moves State.established h = refl
established-moves State.fin_wait_1 h = refl
established-moves State.fin_wait_2 h = refl
established-moves State.close_wait h = refl
established-moves State.last_ack h = absurd (ground (arith, h))
established-moves State.time_wait h = refl

closed-moves : (st : State) → is_closed st ≡ true → is_last_ack st ≡ false
closed-moves State.closed h = refl
closed-moves State.listen h = refl
closed-moves State.syn_rcvd h = refl
closed-moves State.established h = refl
closed-moves State.fin_wait_1 h = refl
closed-moves State.fin_wait_2 h = refl
closed-moves State.close_wait h = refl
closed-moves State.last_ack h = absurd (ground (arith, h))
closed-moves State.time_wait h = refl

pub not_syn_rcvd : (st : State) → is_last_ack st ≡ true → is_syn_rcvd st ≡ false
not_syn_rcvd State.closed h = refl
not_syn_rcvd State.listen h = refl
not_syn_rcvd State.syn_rcvd h = absurd (ground (arith, h))
not_syn_rcvd State.established h = refl
not_syn_rcvd State.fin_wait_1 h = refl
not_syn_rcvd State.fin_wait_2 h = refl
not_syn_rcvd State.close_wait h = refl
not_syn_rcvd State.last_ack h = refl
not_syn_rcvd State.time_wait h = refl

-- A change of the slot `i` that leaves LAST_ACK.
pub on_slot-Lingers :
    (n i : ℕ) (f : Slot → Slot) (ts : List Slot)
    → ((t : Slot)
        → slot_at i ts ≡ some t
        → is_last_ack t.state ≡ true
        → is_last_ack (f t).state ≡ true)
    → Lingers n ts
    → Lingers n (on_slot i f ts)
unfolding lingers on_slot slot_at
on_slot-Lingers n i f [] k h = h
on_slot-Lingers zero zero f (t ∷ ts) k h = k t refl h
on_slot-Lingers zero (suc i) f (t ∷ ts) k h = h
on_slot-Lingers (suc n) zero f (t ∷ ts) k h = h
on_slot-Lingers (suc n) (suc i) f (t ∷ ts) k h = on_slot-Lingers n i f ts k h

pub same-Lingers :
    (n : ℕ) (f : Slot → Slot)
    → ((t : Slot) → (f t).state ≡ t.state)
    → (i : ℕ) (ts : List Slot) → Lingers n ts
    → Lingers n (on_slot i f ts)
same-Lingers n f same i ts h = on_slot-Lingers n i f ts (λ t here k. ap is_last_ack (same t) ∙ k) h

-- A change of a slot that is not in LAST_ACK.
moved-Lingers :
    (n i : ℕ) (f : Slot → Slot) (t : Slot) (ts : List Slot)
    → slot_at i ts ≡ some t
    → is_last_ack t.state ≡ false
    → Lingers n ts
    → Lingers n (on_slot i f ts)
moved-Lingers n i f t ts there other h =
    on_slot-Lingers n i f ts
      (λ u here k. absurd (
        ground (
          arith,
          sym k
              ∙ (ap (λ (o : Option Slot). elim o [ none ↦ false | some v ↦ is_last_ack v.state ])
                    (sym here ∙ there)
                  ∙ other),
        )))
      h

pub state-Lingers :
    (n i : ℕ) (state : State) (t : Slot) (s : Stack)
    → slot_at i s.tcb_table ≡ some t
    → is_last_ack t.state ≡ false
    → Lingers n s.tcb_table
    → Lingers n (on_tcb i (set_state state) s).tcb_table
state-Lingers n i state t s there other h =
    moved-Lingers n i (set_state state) t s.tcb_table there other h

-- The slot behind a pointer is closed.
abbrev ClosedAt : ℕ → List Slot → Type 0
ClosedAt i ts = (t : Slot) × (slot_at i ts ≡ some t) × (is_closed t.state ≡ true)

-- Where the search from index `b` ends.
free-closed :
    (b k : ℕ) (ts : List Slot) → free_from b ts ≡ some k → (j : ℕ) × (k ≡ b + j) × ClosedAt j ts
unfolding free_from slot_at
free-closed b k [] e = absurd (ground (arith, e))
free-closed b k (t ∷ ts) e = elim (Bool-cases (is_closed t.state)) [
  | inl c ↦ (0, ground (arith, e, c), (t, refl, c))
  | inr c ↦
      let (j, sum, there) = free-closed (b + 1) k ts (rw c at e) in
      (suc j, ground (arith, sum), there)
]

pub free_from-closed : (i : ℕ) (ts : List Slot) → free_from 0 ts ≡ some i → ClosedAt i ts
free_from-closed i ts e =
    let (j, same, there) = free-closed 0 i ts e in
    let equal : i ≡ j = ground (arith, same) in rw equal there

pub closed-Lingers :
    (n i : ℕ) (f : Slot → Slot) (ts : List Slot)
    → ClosedAt i ts
    → Lingers n ts
    → Lingers n (on_slot i f ts)
closed-Lingers n i f ts (t, there, c) h = moved-Lingers n i f t ts there (closed-moves t.state c) h
