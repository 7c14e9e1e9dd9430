-- ===== src/Console/Pl011/Pacing.antt =====
-- What reaches the transmitter of the UART in AetherWebOS/src/drivers/uart.c, and when.
use aether_webos.Prelude.{
  ℕ, zero, suc, ◌<◌, ◌≡◌, refl, arith, sym, ◌∙◌, List, [], ◌∷◌, ◌++◌, map, some, true, ◌==◌,
  if◌then◌else◌, bit_and, Bool-cases, Option-cases, inl, inr, u8, u32,
}
use aether_webos.Bus.{Access, Trace, Answers}
use aether_webos.Console.Pl011.{uart0_dr, uart0_fr, uart_is_writable, uart_putc, send}

-- The last access was a read of the flag register that showed room in the transmitter.
abbrev pub HasRoom : Trace → Type 0
HasRoom (Access.read addr fr ∷ t) = (addr ≡ uart0_fr) × (bit_and fr 32 ≡ 0)
HasRoom _ = ⊥

-- Every write of a byte comes right after such a read.
abbrev pub Paced : Trace → Type 0
Paced [] = Unit
Paced (Access.read addr val ∷ t) = Paced t
Paced (Access.write addr val ∷ t) = (addr ≡ uart0_dr → HasRoom t) × Paced t

-- The bytes written to the data register, oldest first, in front of `later`.
abbrev pub written : Trace → List ℕ → List ℕ
written [] later = later
written (Access.read addr val ∷ t) later = written t later
written (Access.write addr val ∷ t) later =
    let others = written t later in if addr == uart0_dr then written t (val ∷ later) else others

putc-Paced :
    (fuel : ℕ) (device : Answers) (c : ℕ) (t t' : Trace) (later : List ℕ)
    → uart_putc fuel device c t ≡ some t'
    → Paced t
    → Paced t' × (written t' later ≡ written t (u8 c ∷ later))
unfolding uart_putc uart_is_writable
putc-Paced zero device c t t' later e p = absurd (ground (arith, e))
putc-Paced (suc fuel) device c t t' later e p =
    let fr : ℕ = u32 (device t uart0_fr) in
    elim (Bool-cases (bit_and fr 32 == 0)) [
      | inl room ↦
          let done : Access.write uart0_dr (u8 c) ∷ Access.read uart0_fr fr ∷ t ≡ t' =
            ground (arith, rw (room, uart_putc) at e) in
          rw (sym done) ((λ same. (refl, ground (arith, room)), p), refl)
      | inr full ↦
          putc-Paced fuel device c (Access.read uart0_fr fr ∷ t) t' later
            (rw (full, uart_putc) at e) p
    ]

-- Whatever the UART answers: when the output of a text returns, each of its bytes was written to the
-- data register once and in order, and each write came right after a read of the flag register that
-- showed room in the transmitter.
pub send-Paced :
    (fuel : ℕ) (device : Answers) (cs : List ℕ) (t t' : Trace) (later : List ℕ)
    → Paced t
    → send fuel device cs t ≡ some t'
    → Paced t' × (written t' later ≡ written t (map u8 cs ++ later))
unfolding send
send-Paced fuel device [] t t' later p e =
    let same : t ≡ t' = ground (arith, e) in rw (sym same) (p, refl)
send-Paced fuel device (c ∷ cs) t t' later p e = elim (Option-cases (uart_putc fuel device c t)) [
  | inl stuck ↦ absurd (ground (arith, rw (stuck, send) at e))
  | inr (u, sent) ↦
      let (paced, first) = putc-Paced fuel device c t u (map u8 cs ++ later) sent p in
      let (all, rest) = send-Paced fuel device cs u t' later paced (rw (sent, send) at e) in
      (all, rest ∙ first)
]

-- The accesses after `k` reads of the flag register.
abbrev pub polled : ℕ → Answers → Trace → Trace
polled zero device t = t
polled (suc k) device t = polled k device (Access.read uart0_fr (u32 (device t uart0_fr)) ∷ t)

-- One of the next `n` reads of the flag register shows room, whatever was accessed before.
abbrev pub Drains : ℕ → Answers → Type 0
Drains n device =
    (t : Trace) → (k : ℕ) × (k < n) × (bit_and (u32 (device (polled k device t) uart0_fr)) 32 ≡ 0)

putc-returns :
    (fuel k : ℕ) (device : Answers) (c : ℕ) (t : Trace)
    → k < fuel
    → bit_and (u32 (device (polled k device t) uart0_fr)) 32 ≡ 0
    → (t' : Trace) × (uart_putc fuel device c t ≡ some t')
unfolding uart_putc uart_is_writable
putc-returns zero k device c t h room = absurd (omega arith)
putc-returns (suc fuel) zero device c t h room =
    let fr : ℕ = u32 (device t uart0_fr) in
    let now : (bit_and fr 32 == 0) ≡ true = ground (arith, room) in
    (Access.write uart0_dr (u8 c) ∷ Access.read uart0_fr fr ∷ t, rw (now, uart_putc) refl)
putc-returns (suc fuel) (suc k) device c t h room =
    let fr : ℕ = u32 (device t uart0_fr) in
    elim (Bool-cases (bit_and fr 32 == 0)) [
      | inl now ↦
          (Access.write uart0_dr (u8 c) ∷ Access.read uart0_fr fr ∷ t, rw (now, uart_putc) refl)
      | inr full ↦
          let (t', later) =
            putc-returns fuel k device c (Access.read uart0_fr fr ∷ t) (omega arith) room in
          (t', rw (full, uart_putc) later)
    ]

-- When the transmitter shows room within `n` reads of its flag register, the output of any text
-- returns, with at most `n` reads for each byte.
pub send-returns :
    (n : ℕ) (device : Answers) (cs : List ℕ) (t : Trace)
    → Drains n device
    → (t' : Trace) × (send n device cs t ≡ some t')
unfolding send
send-returns n device [] t drains = (t, refl)
send-returns n device (c ∷ cs) t drains =
    let (k, small, room) = drains t in
    let (u, sent) = putc-returns n k device c t small room in
    let (t', rest) = send-returns n device cs u drains in (t', rw (sent, send) rest)
