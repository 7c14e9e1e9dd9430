-- ===== src/Net/Checksum/Laws.antt =====
-- The checksums as arithmetic modulo 65535.
use aether_webos.Prelude.{
  ℕ, zero, suc, ◌+◌, ◌-◌, ◌*◌, ◌/◌, ◌%◌, ◌^◌, ◌≤◌, ◌<◌, ◌≡◌, ◌⊎◌, arith, ap, sym, ◌∙◌, List, [],
  ◌∷◌, ◌++◌, true, ◌==◌, if◌then◌else◌, u16, u32, ◌↔◌, length, length-append, All, All-append,
  IsByte, bit_and_low,
}
use native.Mathlib.Decide.{dec_lt}
use aether_webos.Utils.ByteOrder.Laws.{htons-lt, htons_sum}
use aether_webos.Net.Checksum.{
  fold_fuel, fold_loop, complement16, accumulate_from, checksum_accumulate, checksum_finalize,
  pseudo_sum, tcp_compute_checksum, tcp_validate_checksum,
}

-- The number from 1 to 65535 that is the sum modulo 65535, or 0 for the sum 0.
abbrev pub ones_sum : ℕ → ℕ
ones_sum s = if s == 0 then 0 else (s - 1) % 65535 + 1

fold_round : (s : ℕ) → s < 2 ^ 32 → ones_sum (s % 65536 + s / 65536) ≡ ones_sum s
fold_round s h = ground arith

fold_loop_small : (f s : ℕ) → s < 65536 → fold_loop (suc f) s ≡ s
unfolding fold_loop
fold_loop_small f s h = ground arith

fold_loop_large :
    (f s : ℕ) → s < 2 ^ 32 → 65536 ≤ s → fold_loop (suc f) s ≡ fold_loop f (s % 65536 + s / 65536)
unfolding fold_loop
fold_loop_large f s h big = ground (arith, bit_and_low 16 s)

ones_sum_small : (s : ℕ) → s < 65536 → ones_sum s ≡ s
ones_sum_small s h = ground arith

-- The loop ends within its fuel, with the folded sum.
pub fold_loop_lem : (s : ℕ) → s < 2 ^ 32 → fold_loop fold_fuel s ≡ ones_sum s
fold_loop_lem s h = elim (dec_lt s 65536) [
  | yes small ↦ fold_loop_small 2 s small ∙ sym (ones_sum_small s small)
  | no big ↦
      let s' : ℕ = s % 65536 + s / 65536 in
      fold_loop_large 2 s h (omega arith)
      ∙ elim (dec_lt s' 65536) [
        | yes small ↦ fold_loop_small 1 s' small ∙ sym (ones_sum_small s' small)
        | no big' ↦
            let s'' : ℕ = s' % 65536 + s' / 65536 in
            fold_loop_large 1 s' (omega arith) (omega arith)
            ∙ fold_loop_small 0 s'' (omega arith)
            ∙ sym (ones_sum_small s'' (omega arith))
            ∙ fold_round s' (omega arith)
      ]
      ∙ fold_round s h
]

-- The sum of the words, lowest byte first.
abbrev pub words : List ℕ → ℕ
words [] = 0
words (a ∷ []) = a
words (a ∷ b ∷ rest) = a + b * 256 + words rest

words-bound : (xs : List ℕ) → All IsByte xs → 2 * words xs ≤ 65535 * (length xs + 1)
words-bound [] h = omega arith
words-bound (a ∷ []) h = omega arith
words-bound (a ∷ b ∷ rest) h = omega (arith, words-bound rest h.1.1)

accumulate-words :
    (xs : List ℕ) (s : ℕ) → s + words xs < 2 ^ 32 → accumulate_from xs s ≡ s + words xs
unfolding accumulate_from
accumulate-words [] s h = omega arith
accumulate-words (a ∷ []) s h = omega arith
accumulate-words (a ∷ b ∷ rest) s h =
    ap (accumulate_from rest) (omega arith)
    ∙ accumulate-words rest (s + (a + b * 256)) (omega arith)
    ∙ omega arith

-- Words behind an even number of bytes add up.
words-append : (k : ℕ) (xs ys : List ℕ) → length xs ≡ 2 * k → words (xs ++ ys) ≡ words xs + words ys
words-append zero [] ys h = omega arith
words-append zero (a ∷ xs) ys h = absurd (omega arith)
words-append (suc k) [] ys h = absurd (omega arith)
words-append (suc k) (a ∷ []) ys h = absurd (omega arith)
words-append (suc k) (a ∷ b ∷ xs) ys h = omega (arith, words-append k xs ys (omega arith))

-- The pseudo header and the segment, added up without the wrap of `uint32_t`.
abbrev pub tcp_total : ℕ → ℕ → List ℕ → ℕ
tcp_total src dst segment = pseudo_sum src dst (length segment) + words segment

pseudo_bound :
    (src dst n : ℕ) → src < 2 ^ 32 → dst < 2 ^ 32 → n < 2 ^ 16 → pseudo_sum src dst n < 400000
unfolding pseudo_sum
pseudo_bound src dst n hs hd hn =
    omega (arith, bit_and_low 16 src, bit_and_low 16 dst, htons-lt 6, htons-lt n hn)

-- A segment of at most 65535 bytes never wraps the accumulator, and the checksum is the complement
-- of the folded sum.
pub tcp_compute_checksum_lem :
    (src dst : ℕ) (segment : List ℕ)
    → src < 2 ^ 32
    → dst < 2 ^ 32
    → length segment < 2 ^ 16
    → All IsByte segment
    → (tcp_total src dst segment < 2 ^ 32)
      × (tcp_compute_checksum src dst segment ≡ 65535 - ones_sum (tcp_total src dst segment))
unfolding tcp_compute_checksum checksum_finalize checksum_accumulate
tcp_compute_checksum_lem src dst segment hs hd hl hb =
    let low : pseudo_sum src dst (length segment) < 400000 =
      pseudo_bound src dst (length segment) hs hd hl in
    let high : 2 * words segment ≤ 65535 * (length segment + 1) = words-bound segment hb in
    let sum : accumulate_from segment 0 ≡ words segment =
      accumulate-words segment 0 (omega arith) ∙ omega arith in
    let same : u32 (u32 (pseudo_sum src dst (u16 (length segment))) + accumulate_from segment 0)
        ≡ tcp_total src dst segment =
      ground arith in
    (
      omega arith,
      ap (λ (t : ℕ). complement16 (fold_loop fold_fuel t)) same
          ∙ ap complement16 (fold_loop_lem (tcp_total src dst segment) (omega arith))
          ∙ ground arith,
    )

-- A segment is accepted exactly if its total is a multiple of 65535 other than 0.
pub tcp_validate_checksum_iff :
    (src dst : ℕ) (segment : List ℕ)
    → src < 2 ^ 32
    → dst < 2 ^ 32
    → length segment < 2 ^ 16
    → All IsByte segment
    → (tcp_validate_checksum src dst segment ≡ true)
      ↔ ((0 < tcp_total src dst segment) × (tcp_total src dst segment % 65535 ≡ 0))
unfolding tcp_validate_checksum
tcp_validate_checksum_iff src dst segment hs hd hl hb =
    ground (arith, tcp_compute_checksum_lem src dst segment hs hd hl hb)

-- The two bytes of the checksum field, at byte 16, as the processor stores them.
abbrev pub with_checksum : List ℕ → ℕ → List ℕ → List ℕ
with_checksum head c tail = head ++ (c % 256 ∷ c / 256 ∷ tail)

words-with_checksum :
    (head tail : List ℕ) (c : ℕ)
    → length head ≡ 16
    → words (with_checksum head c tail) ≡ words (with_checksum head 0 tail) + c
words-with_checksum head tail c h =
    omega (
      arith,
      words-append 8 head (c % 256 ∷ c / 256 ∷ tail) h,
      words-append 8 head (0 ∷ 0 ∷ tail) h,
    )

pseudo_pos : (src dst n : ℕ) → 0 < pseudo_sum src dst n
unfolding pseudo_sum
pseudo_pos src dst n = omega (arith, htons_sum 6)

word_total :
    (src dst k a b : ℕ) (head tail : List ℕ)
    → length head ≡ 2 * k
    → tcp_total src dst (head ++ (a ∷ b ∷ tail))
      ≡ pseudo_sum src dst (2 * k + suc (suc (length tail)))
        + words head
        + words tail
        + (a + b * 256)
word_total src dst k a b head tail hh =
    ground (arith, length-append head (a ∷ b ∷ tail), words-append k head (a ∷ b ∷ tail) hh)

word_multiple :
    (src dst k a b : ℕ) (head tail : List ℕ)
    → src < 2 ^ 32
    → dst < 2 ^ 32
    → length head ≡ 2 * k
    → length tail + 2 * k + 2 < 2 ^ 16
    → All IsByte head
    → All IsByte tail
    → IsByte a
    → IsByte b
    → tcp_validate_checksum src dst (head ++ (a ∷ b ∷ tail)) ≡ true
    → (0 < tcp_total src dst (head ++ (a ∷ b ∷ tail)))
      × (tcp_total src dst (head ++ (a ∷ b ∷ tail)) % 65535 ≡ 0)
word_multiple src dst k a b head tail hs hd hh ht bh bt ba bb =
    (tcp_validate_checksum_iff src dst (head ++ (a ∷ b ∷ tail)) hs hd
      (omega (arith, length-append head (a ∷ b ∷ tail)))
      (All-append IsByte head (a ∷ b ∷ tail) bh (ba, (bb, bt)))).0

-- A sender that computes the checksum over the segment with a zero field and stores it there
-- produces a segment that `tcp_validate_checksum` accepts.
pub tcp_validate-compute :
    (src dst : ℕ) (head tail : List ℕ)
    → src < 2 ^ 32
    → dst < 2 ^ 32
    → length head ≡ 16
    → length tail + 18 < 2 ^ 16
    → All IsByte head
    → All IsByte tail
    → tcp_validate_checksum src dst
        (with_checksum head (tcp_compute_checksum src dst (with_checksum head 0 tail)) tail)
      ≡ true
tcp_validate-compute src dst head tail hs hd hh ht bh bt =
    let zeroed : List ℕ = with_checksum head 0 tail in
    let c : ℕ = tcp_compute_checksum src dst zeroed in
    let small : length zeroed < 2 ^ 16 = omega (arith, length-append head (0 ∷ 0 ∷ tail)) in
    let computed : (tcp_total src dst zeroed < 2 ^ 32)
        × (c ≡ 65535 - ones_sum (tcp_total src dst zeroed)) =
      tcp_compute_checksum_lem src dst zeroed hs hd small
        (All-append IsByte head (0 ∷ 0 ∷ tail) bh (omega arith, (omega arith, bt))) in
    let c_small : c < 65536 = omega arith in
    let same_length : length (with_checksum head c tail) ≡ length zeroed =
      omega
        (arith, length-append head (0 ∷ 0 ∷ tail), length-append head (c % 256 ∷ c / 256 ∷ tail)) in
    let total : tcp_total src dst (with_checksum head c tail) ≡ tcp_total src dst zeroed + c =
      ap (λ (n : ℕ). pseudo_sum src dst n + words (with_checksum head c tail)) same_length
      ∙ omega (arith, words-with_checksum head tail c hh) in
    (tcp_validate_checksum_iff src dst (with_checksum head c tail) hs hd (omega arith)
        (All-append IsByte head (c % 256 ∷ c / 256 ∷ tail) bh (omega arith, (omega arith, bt)))).1
      (ground (arith, pseudo_pos src dst (length zeroed)))

-- If a segment and the one with another word at an even place are both accepted, then the words
-- are the same or one is 0 and the other 0xFFFF: every other change of one word is found.
pub tcp_validate-detects :
    (src dst k a b a' b' : ℕ) (head tail : List ℕ)
    → src < 2 ^ 32
    → dst < 2 ^ 32
    → length head ≡ 2 * k
    → length tail + 2 * k + 2 < 2 ^ 16
    → All IsByte head
    → All IsByte tail
    → All IsByte (a ∷ b ∷ a' ∷ b' ∷ [])
    → tcp_validate_checksum src dst (head ++ (a ∷ b ∷ tail)) ≡ true
    → tcp_validate_checksum src dst (head ++ (a' ∷ b' ∷ tail)) ≡ true
    → ((a ≡ a') × (b ≡ b'))
      ⊎ (((a + b * 256 ≡ 0) × (a' + b' * 256 ≡ 65535))
          ⊎ ((a + b * 256 ≡ 65535) × (a' + b' * 256 ≡ 0)))
tcp_validate-detects src dst k a b a' b' head tail hs hd hh ht bh bt bw vx vy =
    let multiple : tcp_total src dst (head ++ (a ∷ b ∷ tail)) % 65535 ≡ 0 =
      (word_multiple src dst k a b head tail hs hd hh ht bh bt bw.0 bw.1.0 vx).1 in
    let multiple' : tcp_total src dst (head ++ (a' ∷ b' ∷ tail)) % 65535 ≡ 0 =
      (word_multiple src dst k a' b' head tail hs hd hh ht bh bt bw.1.1.0 bw.1.1.1.0 vy).1 in
    ground (arith, word_total src dst k a b head tail hh, word_total src dst k a' b' head tail hh)
