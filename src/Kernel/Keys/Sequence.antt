-- ===== src/Kernel/Keys/Sequence.antt =====
-- Whole escape sequences in AetherWebOS/src/kernel/kernel.c.
use aether_webos.Prelude.{
  ℕ, ◌+◌, ◌-◌, ◌*◌, ◌^◌, ◌≤◌, ◌<◌, ◌≡◌, ◌≢◌, ap, ◌∙◌, ◌⊎◌, refl, arith, List, [], ◌∷◌, ◌++◌, All,
  inl, inr,
}
use aether_webos.Kernel.Keys.{
  KernelMode, Console, esc, with_digit, select_mode, in_number, in_function, after_escape, key_step,
  type_keys,
}

abbrev pub IsDigit : ℕ → Type 0
IsDigit c = (48 ≤ c) × (c ≤ 57)

-- The number that digits continue.
unfoldable pub decimal_from : ℕ → List ℕ → ℕ
decimal_from n [] = n
decimal_from n (c ∷ cs) = decimal_from (n * 10 + (c - 48)) cs

decimal_mono : (cs : List ℕ) (n : ℕ) → n ≤ decimal_from n cs
unfolding decimal_from
decimal_mono [] n = omega arith
decimal_mono (c ∷ cs) n = omega (arith, decimal_mono cs (n * 10 + (c - 48)))

abbrev reading : ℕ → Console → Console
reading n s = record s { esc_state = 2; num = n }

digit-step :
    (c n : ℕ) (s : Console)
    → IsDigit c
    → n * 10 + (c - 48) < 2 ^ 31
    → (key_step c (reading n s)).0 ≡ reading (n * 10 + (c - 48)) s
unfolding key_step in_number with_digit
digit-step c n s d small = ground (arith, d.0, d.1, small)

digits-read :
    (cs rest : List ℕ) (n : ℕ) (s : Console)
    → All IsDigit cs
    → decimal_from n cs < 2 ^ 31
    → type_keys (cs ++ rest) (reading n s) ≡ type_keys rest (reading (decimal_from n cs) s)
unfolding type_keys decimal_from
digits-read [] rest n s d small = refl
digits-read (c ∷ cs) rest n s d small =
    let m : ℕ = n * 10 + (c - 48) in
    rw (digit-step c n s d.0 (omega (arith, decimal_mono cs m)), type_keys)
      (digits-read cs rest m s d.1 small)

start :
    (rest : List ℕ) (s : Console)
    → type_keys (esc ∷ b'[' ∷ rest) s ≡ type_keys rest (reading s.num s)
unfolding type_keys key_step after_escape
start rest s = refl

-- No digit, and neither `~` nor the escape byte
abbrev pub Breaks : ℕ → Type 0
Breaks other = ((other < 48) ⊎ (57 < other)) × (other ≢ b'~') × (other ≢ esc)

break-off :
    (other n : ℕ) (s : Console)
    → Breaks other
    → (key_step other (reading n s)).0 ≡ record s { esc_state = 0; num = n }
unfolding key_step in_number
break-off other n s (inl o, tilde, escape) = ground (arith, o, tilde, escape)
break-off other n s (inr o, tilde, escape) = ground (arith, o, tilde, escape)

finish :
    (digits : List ℕ) (n : ℕ) (s : Console)
    → All IsDigit digits
    → decimal_from n digits < 2 ^ 31
    → type_keys (digits ++ (b'~' ∷ [])) (reading n s) ≡ record {
      esc_state = 0;
      num = 0;
      overflown = s.overflown;
      current_mode = select_mode (decimal_from n digits) s.current_mode;
    }
unfolding type_keys key_step in_number
finish digits n s d small = rw (digits-read digits (b'~' ∷ []) n s d small) refl

-- After `ESC [`, digits and `~`, started in any state but with no number kept, the mode is that
-- which the number selects: 18 asks for the shutdown, 21 shows the statistics, and any other
-- number changes nothing. The machine is ready for the next sequence.
pub type_keys-number :
    (digits : List ℕ) (s : Console)
    → All IsDigit digits
    → s.num ≡ 0
    → decimal_from 0 digits < 2 ^ 31
    → type_keys (esc ∷ b'[' ∷ (digits ++ (b'~' ∷ []))) s ≡ record {
      esc_state = 0;
      num = 0;
      overflown = s.overflown;
      current_mode = select_mode (decimal_from 0 digits) s.current_mode;
    }
type_keys-number digits s d z small =
    rw (start (digits ++ (b'~' ∷ [])) s, z) (finish digits 0 s d small)

-- A sequence that is broken off, by a byte that is no digit, no `~` and no escape, keeps its number,
-- so the digits of the next sequence continue it: with digits before the break, the next `ESC [`,
-- digits, `~` selects by all digits. The number is 0 before the first sequence, and all the digits
-- together make a number below 2^31, so that no `int` overflows.
pub type_keys-aborted :
    (first second : List ℕ) (other : ℕ) (s : Console)
    → All IsDigit first
    → All IsDigit second
    → s.num ≡ 0
    → Breaks other
    → decimal_from (decimal_from 0 first) second < 2 ^ 31
    → type_keys (esc ∷ b'[' ∷ (first ++ (other ∷ esc ∷ b'[' ∷ (second ++ (b'~' ∷ []))))) s
      ≡ record {
        esc_state = 0;
        num = 0;
        overflown = s.overflown;
        current_mode = select_mode (decimal_from (decimal_from 0 first) second) s.current_mode;
      }
unfolding type_keys
type_keys-aborted first second other s d d' z o small =
    let n : ℕ = decimal_from 0 first in
    let again : List ℕ = esc ∷ b'[' ∷ (second ++ (b'~' ∷ [])) in
    let bound : n < 2 ^ 31 = omega (arith, decimal_mono second n) in
    start (first ++ (other ∷ again)) s
    ∙ rw z (digits-read first (other ∷ again) 0 s d bound)
    ∙ ap (type_keys again) (break-off other n s o)
    ∙ start (second ++ (b'~' ∷ [])) (record s { esc_state = 0; num = n })
    ∙ finish second n s d' small

-- Only two bytes change the mode: `P` after `ESC O`, and `~` after `ESC [` and 18 or 21.
pub key_step-mode :
    (c : ℕ) (s : Console)
    → (key_step c s).0.current_mode ≢ s.current_mode
    → ((s.esc_state ≡ 20) × (c ≡ b'P') × ((key_step c s).0.current_mode ≡ KernelMode.mode_debug))
      ⊎ ((s.esc_state ≡ 2) × (c ≡ b'~') × ((s.num ≡ 18) ⊎ (s.num ≡ 21)))
unfolding key_step in_number with_digit in_function after_escape select_mode
key_step-mode c s ne = ground arith
