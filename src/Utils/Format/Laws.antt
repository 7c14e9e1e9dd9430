-- ===== src/Utils/Format/Laws.antt =====
-- `ksnprintf` prints the start of the full text, as much as fits, and never more than the buffer.
use mathlib.Core.Option
use native.Mathlib.Nat.{sub-zero}
use aether_webos.Prelude.{
  ℕ, zero, suc, ◌+◌, ◌-◌, ◌≤◌, ◌<◌, ◌≡◌, refl, arith, List, [], ◌∷◌, ◌++◌, Option, none, some, ◌==◌,
  if◌then◌else◌, length, take, length-take, ap, take_all, ◌↔◌, Bool-cases, Option-cases, ==_iff,
  inl, inr, false, ◌∙◌,
}
use aether_webos.Utils.Format.{Arg, directive, format_loop, ksnprintf}

-- The whole text of a format, with no limit on its length.
unfoldable pub render : List ℕ → List Arg → Option (List ℕ)
render [] args = some []
render (c ∷ []) args = if c == b'%' then none else some (c ∷ [])
render (c ∷ d ∷ fmt) args =
    let plain = Option.map (λ out. c ∷ out) (render (d ∷ fmt) args) in
    let special : Option (List ℕ) = elim (directive d args) [
      | none ↦ none
      | some (text, rest) ↦ Option.map (λ out. text ++ out) (render fmt rest)
    ] in
    if c == b'%' then special else plain

take-append :
    (n : ℕ) (xs ys : List ℕ) → take n (xs ++ ys) ≡ take n xs ++ take (n - length (take n xs)) ys
take-append zero xs ys = refl
take-append (suc n) [] ys = rw sub-zero
take-append (suc n) (x ∷ xs) ys =
    ap (λ t. x ∷ t) (take-append n xs ys ∙ ap (λ (k : ℕ). take n xs ++ take k ys) (omega arith))

take-cons : (n : ℕ) (x : ℕ) (xs : List ℕ) → (n == 0) ≡ false → take n (x ∷ xs) ≡ x ∷ take (n - 1) xs
take-cons zero x xs h = cc
take-cons (suc n) x xs h = ap (λ (k : ℕ). x ∷ take k xs) (omega arith)

take-nil : (n : ℕ) → take {A = ℕ} n [] ≡ []
take-nil zero = refl
take-nil (suc n) = refl

-- With the full text known, the loop stores as much of it as there is room for.
format_loop-take :
    (fmt : List ℕ) (args : List Arg) (remaining : ℕ) (text : List ℕ)
    → render fmt args ≡ some text
    → format_loop fmt args remaining ≡ some (take remaining text)
unfolding render format_loop
format_loop-take [] args remaining text h = ground (arith, take-nil remaining)
format_loop-take (c ∷ []) args remaining text h = elim (Bool-cases (remaining == 0)) [
  | inl e ↦ rw (e, (==_iff remaining 0).0 e)
  | inr more ↦ ground (arith, take-cons remaining c [] more, take-nil (remaining - 1))
]
format_loop-take (c ∷ d ∷ fmt) args remaining text h = elim (Bool-cases (remaining == 0)) [
  | inl e ↦ rw (e, (==_iff remaining 0).0 e)
  | inr more ↦ elim (Bool-cases (c == b'%')) [
    | inl e ↦ elim (Option-cases (directive d args)) [
      | inl missing ↦ ground (arith, missing)
      | inr (used, eq) ↦ elim (Option-cases (render fmt used.1)) [
        | inl missing ↦ ground (arith, missing)
        | inr (rest, eq') ↦ ground (
          arith,
          format_loop-take fmt used.1 (remaining - length (take remaining used.0)) rest eq',
          take-append remaining used.0 rest,
        )
      ]
    ]
    | inr e ↦ elim (Option-cases (render (d ∷ fmt) args)) [
      | inl missing ↦ ground (arith, missing)
      | inr (rest, eq) ↦ ground (
        arith,
        format_loop-take (d ∷ fmt) args (remaining - 1) rest eq,
        take-cons remaining c rest more,
      )
    ]
  ]
]

-- If the arguments fit the format, `ksnprintf` with a buffer of `out_size` bytes stores the first
-- `out_size - 1` characters of the full text, or all of it if it is shorter, so that they and the
-- NUL stay inside the buffer; the full text comes out exactly when it is shorter than the buffer.
pub ksnprintf-truncates :
    (out_size : ℕ) (fmt : List ℕ) (args : List Arg) (text : List ℕ)
    → 0 < out_size
    → render fmt args ≡ some text
    → (out : List ℕ) × (ksnprintf out_size fmt args ≡ some out)
      × (out ≡ take (out_size - 1) text)
      × (length out + 1 ≤ out_size)
      × ((length text < out_size) ↔ (out ≡ text))
unfolding ksnprintf
ksnprintf-truncates out_size fmt args text pos h = (
  take (out_size - 1) text,
  ground (arith, format_loop-take fmt args (out_size - 1) text h),
  refl,
  omega (arith, length-take (out_size - 1) text),
  (
    λ short. take_all (out_size - 1) text (omega arith),
    λ whole. omega (arith, ap (length {0}) whole, length-take (out_size - 1) text),
  ),
)
