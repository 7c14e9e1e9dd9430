-- ===== src/Console/Ipv6/Longest.antt =====
-- The search in `print_ipv6` of AetherWebOS/src/drivers/ethernet/ipv6.c finds the longest run of zero words.
use aether_webos.Prelude.{
  ℕ, zero, suc, ◌+◌, ◌-◌, ◌≤◌, ◌<◌, ◌≡◌, refl, arith, sym, ap, ◌∙◌, List, [], ◌∷◌, Option, none,
  some, true, false, ◌==◌, ltb, leb, if◌then◌else◌, length, drop, length-drop, Bool-cases, inl, inr,
}
use aether_webos.Console.Ipv6.{zeros, Run, search}

drop-nil : (n : ℕ) → drop {A = ℕ} n [] ≡ []
drop-nil zero = refl
drop-nil (suc n) = refl

drop-drop : (a p : ℕ) (ws : List ℕ) → a ≤ p → drop p ws ≡ drop (p - a) (drop a ws)
drop-drop zero p ws h = ap (λ (t : ℕ). drop t ws) (omega arith)
drop-drop (suc a) zero ws h = absurd (omega arith)
drop-drop (suc a) (suc p) [] h = sym (drop-nil (suc p - suc a))
drop-drop (suc a) (suc p) (w ∷ ws) h =
    drop-drop a p ws (omega arith) ∙ ap (λ (t : ℕ). drop t (drop a ws)) (omega arith)

drop-add : (i k : ℕ) (ws : List ℕ) → drop (i + k) ws ≡ drop k (drop i ws)
drop-add i k ws =
    let same : i + k - i ≡ k = omega arith in
    drop-drop i (i + k) ws (omega arith) ∙ ap (λ (t : ℕ). drop t (drop i ws)) same

zeros-drop : (p : ℕ) (ws : List ℕ) → p ≤ zeros ws → zeros (drop p ws) + p ≡ zeros ws
unfolding zeros
zeros-drop zero ws h = omega arith
zeros-drop (suc p) [] h = absurd (omega arith)
zeros-drop (suc p) (w ∷ ws) h = ground (arith, zeros-drop p ws)

-- `r` is as long as every run of zeros that starts in the words.
abbrev Longest : List ℕ → Run → Type 0
Longest ws r = (p : ℕ) → zeros (drop p ws) ≤ r.best_len

Longest-nil : (r : Run) → Longest [] r
unfolding zeros
Longest-nil r p = rw (drop-nil p) (omega arith)

-- The better of two runs.
abbrev better : ℕ → ℕ → Run → Run
better i len best =
    if ltb best.best_len len then record { best_start = some i; best_len = len } else best

better-longer :
    (i len : ℕ) (best : Run)
    → (best.best_len ≤ (better i len best).best_len) × (len ≤ (better i len best).best_len)
better-longer i len best = ground arith

-- Behind a run at the start, and in it.
Longest-run :
    (ws : List ℕ) (r : Run) → zeros ws ≤ r.best_len → Longest (drop (zeros ws) ws) r → Longest ws r
Longest-run ws r head tail p = elim (Bool-cases (leb (zeros ws) p)) [
  | inl past ↦ rw (drop-drop (zeros ws) p ws (ground arith)) (tail (p - zeros ws))
  | inr inside ↦ omega (arith, zeros-drop p ws (ground arith))
]

Longest-word :
    (w : ℕ) (ws : List ℕ) (r : Run) → (w == 0) ≡ false → Longest ws r → Longest (w ∷ ws) r
unfolding zeros
Longest-word w ws r e tail zero = rw e (omega arith)
Longest-word w ws r e tail (suc p) = tail p

zeros-positive : (w : ℕ) (ws : List ℕ) → (w == 0) ≡ true → 0 < zeros (w ∷ ws)
unfolding zeros
zeros-positive w ws e = ground arith

search-Longest :
    (n i : ℕ) (ws : List ℕ) (best : Run)
    → length ws ≤ n
    → (best.best_len ≤ (search n i ws best).best_len) × Longest ws (search n i ws best)
unfolding search
search-Longest zero i [] best enough = (omega arith, Longest-nil best)
search-Longest zero i (w ∷ ws) best enough = absurd (omega arith)
search-Longest (suc n) i [] best enough = (omega arith, Longest-nil best)
search-Longest (suc n) i (w ∷ ws) best enough = elim (Bool-cases (w == 0)) [
  | inl e ↦
      let len : ℕ = zeros (w ∷ ws) in
      let best' : Run = better i len best in
      let more = better-longer i len best in
      let (grown, rest) =
        search-Longest n (i + len) (drop len (w ∷ ws)) best'
          (omega (arith, zeros-positive w ws e, length-drop len (w ∷ ws))) in
      rw (e, search)
        (
          omega (arith, more, grown),
          Longest-run (w ∷ ws) (search n (i + len) (drop len (w ∷ ws)) best')
              (omega (arith, more, grown)) rest,
        )
  | inr e ↦
      let (grown, rest) = search-Longest n (i + 1) ws best (omega arith) in
      rw (e, search) (grown, Longest-word w ws (search n (i + 1) ws best) e rest)
]

-- The run stands where `r` says.
Attained : List ℕ → Option ℕ → ℕ → Type 0
Attained words none len = len ≡ 0
Attained words (some s) len = zeros (drop s words) ≡ len

better-Attained :
    (words : List ℕ) (i : ℕ) (best : Run)
    → Attained words best.best_start best.best_len
    → Attained words
        (better i (zeros (drop i words)) best).best_start
        (better i (zeros (drop i words)) best).best_len
unfolding Attained
better-Attained words i best h = elim (Bool-cases (ltb best.best_len (zeros (drop i words)))) [
  | inl e ↦ rw e refl
  | inr e ↦ rw e h
]

search-Attained :
    (n i : ℕ) (words ws : List ℕ) (best : Run)
    → ws ≡ drop i words
    → Attained words best.best_start best.best_len
    → Attained words (search n i ws best).best_start (search n i ws best).best_len
unfolding search
search-Attained zero i words ws best here h = h
search-Attained (suc n) i words [] best here h = h
search-Attained (suc n) i words (w ∷ ws) best here h = elim (Bool-cases (w == 0)) [
  | inl e ↦
      let len : ℕ = zeros (w ∷ ws) in
      let past : drop len (w ∷ ws) ≡ drop (i + len) words =
        ap (λ (t : List ℕ). drop len t) here ∙ sym (drop-add i len words) in
      rw (e, search)
        (search-Attained n (i + len) words (drop len (w ∷ ws)) (better i len best) past
          (rw here (better-Attained words i best h)))
  | inr e ↦
      let past : ws ≡ drop (i + 1) words =
        ap (λ (t : List ℕ). drop 1 t) here ∙ sym (drop-add i 1 words) in
      rw (e, search) (search-Attained n (i + 1) words ws best past h)
]

-- For up to eight words, the search of `print_ipv6` finds a run that is as long as any run of zero
-- words in the address: `best_len` is at least the length of the run at each place, it is the length
-- of the run at `best_start`, and it is 0 when no start was found, so that there is no zero word then.
pub search-longest :
    (words : List ℕ)
    → length words ≤ 8
    → let r = search 8 0 words (record { best_start = none; best_len = 0 }) in
      ((p : ℕ) → zeros (drop p words) ≤ r.best_len)
      × ((s : ℕ) → r.best_start ≡ some s → zeros (drop s words) ≡ r.best_len)
      × (r.best_start ≡ none → r.best_len ≡ 0)
unfolding Attained
search-longest words few =
    let r = search 8 0 words (record { best_start = none; best_len = 0 }) in
    let attained =
      search-Attained 8 0 words words (record { best_start = none; best_len = 0 }) refl refl in
    (
      (search-Longest 8 0 words (record { best_start = none; best_len = 0 }) few).1,
      λ s e. rw e at attained,
      λ e. rw e at attained,
    )
