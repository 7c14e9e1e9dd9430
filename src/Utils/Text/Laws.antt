-- ===== src/Utils/Text/Laws.antt =====
-- The C string functions against the texts that the strings hold.
use aether_webos.Prelude.{
  ℕ, zero, suc, ◌+◌, ◌^◌, ◌≤◌, ◌<◌, ◌≡◌, refl, arith, List, [], ◌∷◌, ◌++◌, Bool, true, false,
  Option, some, ◌==◌, ◌≢◌, ◌⊎◌, inl, inr, ap, ◌∙◌, length, drop, length-append, append_assoc, All,
  All-append, u32, Bool-cases, ==_iff, ltb,
}
use aether_webos.Utils.Text.{
  str_len_from, str_len, copy_string, append_at_end, str_append, matches_at, contains_from,
  str_contains,
}

-- A text has no NUL inside; a string is a text, its NUL and what lies behind.
abbrev pub IsText : List ℕ → Type 0
IsText xs = All (λ (c : ℕ). 0 < c) xs

abbrev pub cstring : List ℕ → List ℕ → List ℕ
cstring text behind = text ++ (0 ∷ behind)

str_len_from-lem :
    (xs behind : List ℕ) (n : ℕ)
    → IsText xs
    → n + length xs < 2 ^ 32
    → str_len_from (cstring xs behind) n ≡ some (n + length xs)
unfolding str_len_from
str_len_from-lem [] behind n t h = ap some (omega arith)
str_len_from-lem (zero ∷ xs) behind n t h = absurd (omega arith)
str_len_from-lem (suc c ∷ xs) behind n t h =
    str_len_from-lem xs behind (u32 (n + 1)) t.1 (omega arith) ∙ ap some (omega arith)

copy_string-lem :
    (ys behind room : List ℕ)
    → IsText ys
    → length ys < length room
    → copy_string (cstring ys behind) room ≡ some (cstring ys (drop (suc (length ys)) room))
unfolding copy_string
copy_string-lem [] behind (x ∷ room) t h = refl
copy_string-lem [] behind [] t h = absurd (omega arith)
copy_string-lem (y ∷ ys) behind [] t h = absurd (omega arith)
copy_string-lem (zero ∷ ys) behind (x ∷ room) t h = absurd (omega arith)
copy_string-lem (suc c ∷ ys) behind (x ∷ room) t h =
    rw (copy_string-lem ys behind room t.1 (omega arith))

append_at_end-lem :
    (xs ys room behind : List ℕ)
    → IsText xs
    → IsText ys
    → length ys ≤ length room
    → append_at_end (cstring xs room) (cstring ys behind)
      ≡ some (xs ++ cstring ys (drop (length ys) room))
unfolding append_at_end
append_at_end-lem [] ys room behind tx ty h = copy_string-lem ys behind (0 ∷ room) ty (omega arith)
append_at_end-lem (zero ∷ xs) ys room behind tx ty h = absurd (omega arith)
append_at_end-lem (suc c ∷ xs) ys room behind tx ty h =
    rw (append_at_end-lem xs ys room behind tx.1 ty h)

-- `str_append` puts the second text behind the first, with its NUL, and keeps the bytes behind
-- that, if the buffer has room; `str_len` then returns the sum of the lengths.
pub str_append-text :
    (xs ys room behind : List ℕ)
    → IsText xs
    → IsText ys
    → length ys ≤ length room
    → length xs + length ys < 2 ^ 32
    → (buffer : List ℕ) × (str_append (some (cstring xs room)) (some (cstring ys behind))
        ≡ some (some buffer))
      × (buffer ≡ xs ++ cstring ys (drop (length ys) room))
      × (str_len buffer ≡ some (length xs + length ys))
unfolding str_append str_len
str_append-text xs ys room behind tx ty h small = (
  xs ++ cstring ys (drop (length ys) room),
  rw (append_at_end-lem xs ys room behind tx ty h),
  refl,
  rw (← append_assoc xs ys (0 ∷ drop (length ys) room)) (
      str_len_from-lem (xs ++ ys) (drop (length ys) room) 0
        (All-append (λ (c : ℕ). 0 < c) xs ys tx ty) (omega (arith, length-append xs ys))
      ∙ ap some (omega (arith, length-append xs ys))),
)

-- The text `needle` starts `haystack`.
abbrev pub StartsWith : List ℕ → List ℕ → Type 0
StartsWith needle haystack = (rest : List ℕ) × (needle ++ rest ≡ haystack)

-- The text `needle` stands somewhere in `haystack`.
abbrev pub Occurs : List ℕ → List ℕ → Type 0
Occurs needle haystack =
    (before : List ℕ) × (after : List ℕ) × (before ++ (needle ++ after) ≡ haystack)

-- The answer of a search is right, and it is given.
abbrev pub Decides {ℓ} : Option Bool → Type ℓ → Type ℓ
Decides answer P = ((answer ≡ some true) × P) ⊎ ((answer ≡ some false) × ¬ P)

StartsWith-tail :
    (c d : ℕ) (ys xs : List ℕ) → StartsWith (c ∷ ys) (d ∷ xs) → StartsWith ys xs × (c ≡ d)
StartsWith-tail c d ys xs (rest, e) = ((rest, cc), cc)

cons-StartsWith :
    (d c : ℕ) (ys xs : List ℕ) → d ≡ c → StartsWith ys xs → StartsWith (c ∷ ys) (d ∷ xs)
cons-StartsWith d c ys xs e (rest, h) = (rest, cc)

cons-ne-nil : {c : ℕ} {xs : List ℕ} → (c ∷ xs) ≡ [] → ⊥
cons-ne-nil e = cc

tests_differ : (x c : ℕ) → (x == c) ≡ false → c ≡ x → ⊥
tests_differ x c h e = ground arith

matches_at-Decides :
    (ys xs behind behind' : List ℕ)
    → IsText ys
    → IsText xs
    → Decides (matches_at (cstring ys behind) (cstring xs behind')) (StartsWith ys xs)
unfolding matches_at
matches_at-Decides [] xs behind behind' ty tx = inl (refl, (xs, refl))
matches_at-Decides (zero ∷ ys) xs behind behind' ty tx = absurd (omega arith)
matches_at-Decides (suc c ∷ ys) [] behind behind' ty tx = inr (ground arith, λ h. cons-ne-nil h.1)
matches_at-Decides (suc c ∷ ys) (x ∷ xs) behind behind' ty tx = elim (Bool-cases (x == suc c)) [
  | inl e ↦ elim (matches_at-Decides ys xs behind behind' ty.1 tx.1) [
    | inl m ↦ inl (rw e m.0, cons-StartsWith x (suc c) ys xs ((==_iff x (suc c)).0 e) m.1)
    | inr m ↦ inr (rw e m.0, λ h. m.1 (StartsWith-tail (suc c) x ys xs h).0)
  ]
  | inr e ↦ inr (rw e, λ h. tests_differ x (suc c) e (StartsWith-tail (suc c) x ys xs h).1)
]

-- A match at the first place, or one further on.
Occurs-cons : (x : ℕ) (ys xs : List ℕ) → Occurs ys (x ∷ xs) → StartsWith ys (x ∷ xs) ⊎ Occurs ys xs
Occurs-cons x ys xs ([], after, e) = inl (after, e)
Occurs-cons x ys xs (b ∷ before, after, e) = inr (before, after, cc)

cons-Occurs : (x : ℕ) (ys xs : List ℕ) → Occurs ys xs → Occurs ys (x ∷ xs)
cons-Occurs x ys xs (before, after, e) = (x ∷ before, after, ap (λ t. x ∷ t) e)

Occurs-nil : (ys : List ℕ) → ys ≢ [] → ¬ Occurs ys []
Occurs-nil [] ne h = ne refl
Occurs-nil (y ∷ ys) ne ([], after, e) = cons-ne-nil e
Occurs-nil (y ∷ ys) ne (b ∷ before, after, e) = cons-ne-nil e

contains_from-Decides :
    (ys xs behind behind' : List ℕ)
    → IsText ys
    → IsText xs
    → ys ≢ []
    → Decides (contains_from (cstring ys behind) (cstring xs behind')) (Occurs ys xs)
unfolding contains_from
contains_from-Decides ys [] behind behind' ty tx ne = inr (refl, Occurs-nil ys ne)
contains_from-Decides ys (zero ∷ xs) behind behind' ty tx ne = absurd (omega arith)
contains_from-Decides ys (suc x ∷ xs) behind behind' ty tx ne =
    elim (matches_at-Decides ys (suc x ∷ xs) behind behind' ty tx) [
      | inl here ↦ inl (rw (here.0, contains_from), ([], here.1.0, here.1.1))
      | inr not_here ↦ elim (contains_from-Decides ys xs behind behind' ty tx.1 ne) [
        | inl later ↦
            inl (rw (not_here.0, later.0, contains_from), cons-Occurs (suc x) ys xs later.1)
        | inr never ↦ inr (
          rw (not_here.0, never.0, contains_from),
          λ h. elim (Occurs-cons (suc x) ys xs h) [
            | inl first ↦ not_here.1 first
            | inr rest ↦ never.1 rest
          ],
        )
      ]
    ]

-- For two texts, the second not empty, `str_contains` reads inside both strings and returns 1
-- exactly if the second stands somewhere in the first.
pub str_contains_iff :
    (haystack needle behind behind' : List ℕ)
    → IsText haystack
    → IsText needle
    → needle ≢ []
    → Decides
        (str_contains (some (cstring haystack behind)) (some (cstring needle behind')))
        (Occurs needle haystack)
unfolding str_contains
str_contains_iff haystack needle behind behind' th tn ne =
    contains_from-Decides needle haystack behind' behind tn th ne

-- The empty text is found in every text but the empty one.
pub str_contains-empty :
    (haystack behind behind' : List ℕ)
    → IsText haystack
    → str_contains (some (cstring haystack behind)) (some (cstring [] behind'))
      ≡ some (ltb 0 (length haystack))
unfolding str_contains contains_from matches_at
str_contains-empty [] behind behind' th = refl
str_contains-empty (zero ∷ haystack) behind behind' th = absurd (omega arith)
str_contains-empty (suc x ∷ haystack) behind behind' th = ground arith
