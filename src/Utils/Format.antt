-- ===== src/Utils/Format.antt =====
-- `ksnprintf` and `mini_sprintf_telemetry` of AetherWebOS/src/common/utils.c.
-- The format and the strings are the characters before their NUL. `none` stands for behaviour that
-- C leaves undefined: a missing argument, one of another type, and a format that ends in `%`.
pub mod Laws
use mathlib.Core.Option
use aether_webos.Prelude.{
  ℕ, zero, suc, ◌+◌, ◌-◌, ◌%◌, ◌^◌, List, [], ◌∷◌, ◌++◌, Option, none, some, ◌==◌, ltb,
  if◌then◌else◌, length, take,
}
use aether_webos.Utils.Decimal.{utoa_dec, ltoa}

-- What the caller passes for `...`; an `int` is its 32-bit pattern.
pub data Arg : Type 0 where
  uint : ℕ → Arg
  int : ℕ → Arg
  str : List ℕ → Arg

-- The characters of `%d`: a sign, and the digits of `(unsigned int)val` or `(unsigned int)-val`.
unfoldable pub signed_text : ℕ → List ℕ
signed_text w = if ltb w (2 ^ 31) then utoa_dec w else b'-' ∷ utoa_dec ((2 ^ 32 - w) % 2 ^ 32)

-- The characters that the directive `d` stands for, and the arguments left. A directive of another
-- letter prints nothing and takes no argument.
unfoldable pub directive : ℕ → List Arg → Option (List ℕ × List Arg)
directive d args =
    if d == b'u'
    then elim args [ uint v ∷ rest ↦ some (utoa_dec v, rest) | _ ↦ none ]
    else if d == b'd'
    then elim args [ int w ∷ rest ↦ some (signed_text w, rest) | _ ↦ none ]
    else if d == b's'
    then elim args [ str s ∷ rest ↦ some (s, rest) | _ ↦ none ]
    else some ([], args)

-- The main loop, with room for `remaining` more characters. The copy loops stop when it is used up.
unfoldable pub format_loop : List ℕ → List Arg → ℕ → Option (List ℕ)
format_loop [] args remaining = some []
format_loop (c ∷ []) args remaining =
    if remaining == 0 then some [] else if c == b'%' then none else some (c ∷ [])
format_loop (c ∷ d ∷ fmt) args remaining =
    if remaining == 0
    then some []
    else (let plain = Option.map (λ out. c ∷ out) (format_loop (d ∷ fmt) args (remaining - 1)) in
        let special : Option (List ℕ) = elim (directive d args) [
          | none ↦ none
          | some (text, rest) ↦
              Option.map (λ out. take remaining text ++ out)
                (format_loop fmt rest (remaining - length (take remaining text)))
        ] in
        if c == b'%' then special else plain)

-- The characters stored in `out` before the NUL; the value that the function returns is their number.
unfoldable pub ksnprintf : ℕ → List ℕ → List Arg → Option (List ℕ)
ksnprintf out_size fmt args = if out_size == 0 then some [] else format_loop fmt args (out_size - 1)

-- The pairs of `keys` and `values`, in order.
unfoldable pub telemetry_pairs : List (List ℕ × ℕ) → List ℕ
telemetry_pairs [] = []
telemetry_pairs ((key, value) ∷ rest) = key ++ (ltoa value ++ telemetry_pairs rest)

-- '{"rx":'
abbrev pub rx_key : List ℕ
rx_key = 123 ∷ 34 ∷ 114 ∷ 120 ∷ 34 ∷ 58 ∷ []

-- ',"tx":'
abbrev pub tx_key : List ℕ
tx_key = 44 ∷ 34 ∷ 116 ∷ 120 ∷ 34 ∷ 58 ∷ []

-- ',"err":'
abbrev pub err_key : List ℕ
err_key = 44 ∷ 34 ∷ 101 ∷ 114 ∷ 114 ∷ 34 ∷ 58 ∷ []

-- ',"buf":'
abbrev pub buf_key : List ℕ
buf_key = 44 ∷ 34 ∷ 98 ∷ 117 ∷ 102 ∷ 34 ∷ 58 ∷ []

-- ',"tcp_active":'
abbrev pub tcp_key : List ℕ
tcp_key = 44 ∷ 34 ∷ 116 ∷ 99 ∷ 112 ∷ 95 ∷ 97 ∷ 99 ∷ 116 ∷ 105 ∷ 118 ∷ 101 ∷ 34 ∷ 58 ∷ []

-- ',"retransmissions":'
abbrev pub rexmit_key : List ℕ
rexmit_key =
    44 ∷ 34 ∷ 114 ∷ 101 ∷ 116 ∷ 114 ∷ 97 ∷ 110 ∷ 115 ∷ 109 ∷ 105 ∷ 115 ∷ 115 ∷ 105 ∷ 111 ∷ 110 ∷ 115
    ∷ 34 ∷ 58 ∷ []

-- ',"checksum_err":'
abbrev pub cksum_key : List ℕ
cksum_key =
    44 ∷ 34 ∷ 99 ∷ 104 ∷ 101 ∷ 99 ∷ 107 ∷ 115 ∷ 117 ∷ 109 ∷ 95 ∷ 101 ∷ 114 ∷ 114 ∷ 34 ∷ 58 ∷ []

-- The bytes stored in `out`, with the NUL.
unfoldable pub mini_sprintf_telemetry : ℕ → ℕ → ℕ → ℕ → ℕ → ℕ → ℕ → List ℕ
mini_sprintf_telemetry rx tx err buf tcp rexmit cksum =
    telemetry_pairs (
      (rx_key, rx)
      ∷ (tx_key, tx)
      ∷ (err_key, err)
      ∷ (buf_key, buf)
      ∷ (tcp_key, tcp)
      ∷ (rexmit_key, rexmit)
      ∷ (cksum_key, cksum)
      ∷ [])
    ++ (b'}' ∷ 0 ∷ [])
