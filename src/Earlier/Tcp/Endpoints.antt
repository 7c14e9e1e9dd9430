-- ===== src/Earlier/Tcp/Endpoints.antt =====
-- The remote ends of the open connections stay different from each other
-- (AetherWebOS/backups/src/tcp.c).
use aether_webos.Prelude.{
  ℕ, zero, suc, ◌+◌, ◌≡◌, ◌⊎◌, refl, arith, sym, ap, ◌∙◌, List, [], ◌∷◌, Option, none, some, Bool,
  true, false, not, ◌&&◌, ◌==◌, All, Bool-cases, inl, inr,
}
use aether_webos.Earlier.Table.{Slot, is_closed, slot_at, on_slot, matches, find_from}

-- Two connections are open to the same remote end.
abbrev pub clash : Slot → Slot → Bool
clash t u = not (is_closed t.state) && matches t.remote_ip t.remote_port u

abbrev pub Apart : Slot → List Slot → Type 0
Apart t ts = All (λ (u : Slot). clash t u ≡ false) ts

-- No two connections of the table are open to the same remote end.
abbrev pub Unclashed : List Slot → Type 0
Unclashed [] = Unit
Unclashed (t ∷ ts) = Apart t ts × Unclashed ts

-- The connection `u` is closed, or it has the remote end of `t` and is open only if `t` is.
abbrev pub Keeps : Slot → Slot → Type 0
Keeps t u =
    (is_closed u.state ≡ true)
    ⊎ ((u.remote_ip ≡ t.remote_ip)
        × (u.remote_port ≡ t.remote_port)
        × (is_closed t.state ≡ true → is_closed u.state ≡ true))

true-ne-false : true ≡ false → ⊥
true-ne-false e = ground (arith, e)

Keeps-left : (t u x : Slot) → Keeps t u → clash t x ≡ false → clash u x ≡ false
Keeps-left t u x (inl c) h = rw c refl
Keeps-left t u x (inr (ip, port, still)) h = elim (Bool-cases (is_closed u.state)) [
  | inl c ↦ rw c refl
  | inr c ↦ elim (Bool-cases (is_closed t.state)) [
    | inl d ↦ absurd (true-ne-false (sym (still d) ∙ c))
    | inr d ↦ rw (c, ip, port) (rw d at h)
  ]
]

closed-right : (x u : Slot) → is_closed u.state ≡ true → clash x u ≡ false
closed-right x u c = elim (Bool-cases (is_closed x.state)) [
  | inl d ↦ rw d refl
  | inr d ↦ rw (d, c) refl
]

pub Keeps-right : (t u x : Slot) → Keeps t u → clash x t ≡ false → clash x u ≡ false
Keeps-right t u x (inl c) h = closed-right x u c
Keeps-right t u x (inr (ip, port, still)) h = elim (Bool-cases (is_closed u.state)) [
  | inl c ↦ closed-right x u c
  | inr c ↦ elim (Bool-cases (is_closed t.state)) [
    | inl d ↦ absurd (true-ne-false (sym (still d) ∙ c))
    | inr d ↦ rw (c, ip, port) (rw d at h)
  ]
]

pub Apart-left : (t u : Slot) (ts : List Slot) → Keeps t u → Apart t ts → Apart u ts
Apart-left t u [] k a = tt
Apart-left t u (x ∷ ts) k a = (Keeps-left t u x k a.0, Apart-left t u ts k a.1)

Apart-on_slot :
    (x : Slot) (i : ℕ) (f : Slot → Slot) (ts : List Slot)
    → ((t : Slot) → slot_at i ts ≡ some t → Keeps t (f t))
    → Apart x ts
    → Apart x (on_slot i f ts)
unfolding on_slot slot_at
Apart-on_slot x i f [] k a = tt
Apart-on_slot x zero f (t ∷ ts) k a = (Keeps-right t (f t) x (k t refl) a.0, a.1)
Apart-on_slot x (suc i) f (t ∷ ts) k a = (a.0, Apart-on_slot x i f ts k a.1)

pub on_slot-Unclashed :
    (i : ℕ) (f : Slot → Slot) (ts : List Slot)
    → ((t : Slot) → slot_at i ts ≡ some t → Keeps t (f t))
    → Unclashed ts
    → Unclashed (on_slot i f ts)
unfolding on_slot slot_at
on_slot-Unclashed i f [] k h = tt
on_slot-Unclashed zero f (t ∷ ts) k h = (Apart-left t (f t) ts (k t refl) h.0, h.1)
on_slot-Unclashed (suc i) f (t ∷ ts) k h =
    (Apart-on_slot t i f ts k h.0, on_slot-Unclashed i f ts k h.1)

pub slot_at-on_slot :
    (i : ℕ) (f : Slot → Slot) (t : Slot) (ts : List Slot)
    → slot_at i ts ≡ some t
    → slot_at i (on_slot i f ts) ≡ some (f t)
unfolding on_slot slot_at
slot_at-on_slot i f t [] h = absurd (ground arith)
slot_at-on_slot zero f t (u ∷ ts) h =
    ap (λ (o : Option Slot). elim o [ none ↦ none | some v ↦ some (f v) ]) h
slot_at-on_slot (suc i) f t (u ∷ ts) h = slot_at-on_slot i f t ts h

-- No open connection leads to the remote end.
abbrev pub NoMatch : ℕ → ℕ → List Slot → Type 0
NoMatch ip port ts = All (λ (u : Slot). matches ip port u ≡ false) ts

pub find-NoMatch :
    (ip port i : ℕ) (ts : List Slot) → find_from ip port i ts ≡ none → NoMatch ip port ts
unfolding find_from
find-NoMatch ip port i [] h = tt
find-NoMatch ip port i (t ∷ ts) h = elim (Bool-cases (matches ip port t)) [
  | inl e ↦ absurd (ground (arith, rw (e, find_from) at h))
  | inr e ↦ (e, find-NoMatch ip port (i + 1) ts (rw (e, find_from) at h))
]

swap : (a b c d : ℕ) → ((c == a) && (d == b)) ≡ false → ((a == c) && (b == d)) ≡ false
swap a b c d h = ground (arith, h)

module _ (ip port : ℕ) (new : Slot) (here : (new.remote_ip ≡ ip) × (new.remote_port ≡ port)) where
  new-clash : (u : Slot) → matches ip port u ≡ false → clash new u ≡ false
  new-clash u h = elim (Bool-cases (is_closed new.state)) [
    | inl c ↦ rw c refl
    | inr c ↦ rw (c, here.0, here.1) h
  ]

  Apart-new : (ts : List Slot) → NoMatch ip port ts → Apart new ts
  Apart-new [] h = tt
  Apart-new (u ∷ ts) h = (new-clash u h.0, Apart-new ts h.1)

  clash-new : (x : Slot) → matches ip port x ≡ false → clash x new ≡ false
  clash-new x h = elim (Bool-cases (is_closed x.state)) [
    | inl d ↦ rw d refl
    | inr d ↦ elim (Bool-cases (is_closed new.state)) [
      | inl c ↦ closed-right x new c
      | inr c ↦ rw (d, c, here.0, here.1) (swap ip port x.remote_ip x.remote_port (rw d at h))
    ]
  ]

  Apart-put :
      (x : Slot) (i : ℕ) (ts : List Slot)
      → matches ip port x ≡ false
      → Apart x ts
      → Apart x (on_slot i (λ t. new) ts)
  unfolding on_slot
  Apart-put x i [] h a = tt
  Apart-put x zero (t ∷ ts) h a = (clash-new x h, a.1)
  Apart-put x (suc i) (t ∷ ts) h a = (a.0, Apart-put x i ts h a.1)

  pub put-Unclashed :
      (i : ℕ) (ts : List Slot)
      → NoMatch ip port ts
      → Unclashed ts
      → Unclashed (on_slot i (λ t. new) ts)
  unfolding on_slot
  put-Unclashed i [] h a = tt
  put-Unclashed zero (t ∷ ts) h a = (Apart-new ts h.1, a.1)
  put-Unclashed (suc i) (t ∷ ts) h a = (Apart-put t i ts h.0 a.0, put-Unclashed i ts h.1 a.1)
