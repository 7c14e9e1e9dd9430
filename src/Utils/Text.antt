-- ===== src/Utils/Text.antt =====
-- The C string functions of AetherWebOS/src/common/utils.c. A pointer is the list of the bytes from
-- where it points to the end of its object, so a string ends at the first 0 of the list; `none` is
-- an access past the end of the object.
pub mod Laws
use mathlib.Core.Option
use aether_webos.Prelude.{
  ℕ, zero, suc, ◌+◌, ◌%◌, ◌^◌, List, [], ◌∷◌, ◌++◌, Bool, true, false, Option, none, some, ◌==◌,
  if◌then◌else◌, u32,
}

-- `while (s[len]) len++` on a `uint32_t`, at index `len`.
unfoldable pub str_len_from : List ℕ → ℕ → Option ℕ
str_len_from [] len = none
str_len_from (zero ∷ s) len = some len
str_len_from (suc c ∷ s) len = str_len_from s (u32 (len + 1))

unfoldable pub str_len : List ℕ → Option ℕ
unfolding str_len_from
str_len s = str_len_from s 0

-- `str[0] = '\0'` unless `str` is NULL, the outer `none`.
unfoldable pub str_clear : Option (List ℕ) → Option (Option (List ℕ))
str_clear none = some none
str_clear (some []) = none
str_clear (some (c ∷ str)) = some (some (0 ∷ str))

-- `while (*data) *str++ = *data++; *str = '\0'`
unfoldable pub copy_string : List ℕ → List ℕ → Option (List ℕ)
copy_string [] str = none
copy_string (c ∷ source) [] = none
copy_string (zero ∷ source) (x ∷ str) = some (0 ∷ str)
copy_string (suc c ∷ source) (x ∷ str) = Option.map (λ s. suc c ∷ s) (copy_string source str)

-- `while (*str) str++`, then the copy.
unfoldable pub append_at_end : List ℕ → List ℕ → Option (List ℕ)
unfolding copy_string
append_at_end [] source = none
append_at_end (zero ∷ str) source = copy_string source (0 ∷ str)
append_at_end (suc c ∷ str) source = Option.map (λ s. suc c ∷ s) (append_at_end str source)

-- Either pointer may be NULL, the inner `none`; then nothing is written.
unfoldable pub str_append : Option (List ℕ) → Option (List ℕ) → Option (Option (List ℕ))
str_append none source = some none
str_append (some str) none = some (some str)
str_append (some str) (some source) = Option.map some (append_at_end str source)

-- `while (needle[j] && haystack[i+j] == needle[j]) j++; if (!needle[j]) ...`
unfoldable pub matches_at : List ℕ → List ℕ → Option Bool
matches_at [] haystack = none
matches_at (zero ∷ needle) haystack = some true
matches_at (suc c ∷ needle) [] = none
matches_at (suc c ∷ needle) (x ∷ haystack) =
    let rest = matches_at needle haystack in if x == suc c then rest else some false

-- `for (int i = 0; haystack[i]; i++)`, from index `i` on; the result is the function's 0 or 1.
unfoldable pub contains_from : List ℕ → List ℕ → Option Bool
contains_from needle [] = none
contains_from needle (zero ∷ haystack) = some false
contains_from needle (suc x ∷ haystack) =
    let rest = contains_from needle haystack in
    elim (matches_at needle (suc x ∷ haystack)) [
      | none ↦ none
      | some true ↦ some true
      | some false ↦ rest
    ]

unfoldable pub str_contains : Option (List ℕ) → Option (List ℕ) → Option Bool
str_contains none needle = some false
str_contains (some haystack) none = some false
str_contains (some haystack) (some needle) = contains_from needle haystack
