-- ===== src/Net/Tcp/Http.antt =====
-- AetherWebOS/src/drivers/ethernet/socket.c: the answer to a request. The debug output, which reads
-- the first three bytes of the payload, is left out.
use aether_webos.Prelude.{ℕ, List, [], ◌∷◌, ◌++◌, Bool, false, ◌&&◌, ◌==◌, length}
use aether_webos.Utils.Decimal.{utoa_dec}

-- The characters of `html_body`.
abbrev pub html_body : List ℕ
html_body =
    60 ∷ 104 ∷ 116 ∷ 109 ∷ 108 ∷ 62 ∷ 13 ∷ 10 ∷ 60 ∷ 104 ∷ 101 ∷ 97 ∷ 100 ∷ 62 ∷ 60 ∷ 116 ∷ 105
    ∷ 116 ∷ 108 ∷ 101 ∷ 62 ∷ 65 ∷ 101 ∷ 116 ∷ 104 ∷ 101 ∷ 114 ∷ 32 ∷ 87 ∷ 101 ∷ 98 ∷ 79 ∷ 83 ∷ 60
    ∷ 47 ∷ 116 ∷ 105 ∷ 116 ∷ 108 ∷ 101 ∷ 62 ∷ 60 ∷ 47 ∷ 104 ∷ 101 ∷ 97 ∷ 100 ∷ 62 ∷ 13 ∷ 10 ∷ 60
    ∷ 98 ∷ 111 ∷ 100 ∷ 121 ∷ 62 ∷ 13 ∷ 10 ∷ 60 ∷ 104 ∷ 49 ∷ 62 ∷ 87 ∷ 101 ∷ 108 ∷ 99 ∷ 111 ∷ 109
    ∷ 101 ∷ 32 ∷ 116 ∷ 111 ∷ 32 ∷ 65 ∷ 101 ∷ 116 ∷ 104 ∷ 101 ∷ 114 ∷ 32 ∷ 87 ∷ 101 ∷ 98 ∷ 79 ∷ 83
    ∷ 60 ∷ 47 ∷ 104 ∷ 49 ∷ 62 ∷ 13 ∷ 10 ∷ 60 ∷ 112 ∷ 62 ∷ 67 ∷ 117 ∷ 115 ∷ 116 ∷ 111 ∷ 109 ∷ 32 ∷ 84
    ∷ 67 ∷ 80 ∷ 32 ∷ 83 ∷ 116 ∷ 97 ∷ 99 ∷ 107 ∷ 32 ∷ 82 ∷ 117 ∷ 110 ∷ 110 ∷ 105 ∷ 110 ∷ 103 ∷ 32
    ∷ 66 ∷ 97 ∷ 114 ∷ 101 ∷ 32 ∷ 77 ∷ 101 ∷ 116 ∷ 97 ∷ 108 ∷ 32 ∷ 65 ∷ 65 ∷ 114 ∷ 99 ∷ 104 ∷ 54 ∷ 52
    ∷ 60 ∷ 47 ∷ 112 ∷ 62 ∷ 13 ∷ 10 ∷ 60 ∷ 47 ∷ 98 ∷ 111 ∷ 100 ∷ 121 ∷ 62 ∷ 13 ∷ 10 ∷ 60 ∷ 47 ∷ 104
    ∷ 116 ∷ 109 ∷ 108 ∷ 62 ∷ 13 ∷ 10 ∷ []

-- The characters of `http_header_prefix`.
abbrev pub http_header_prefix : List ℕ
http_header_prefix =
    72 ∷ 84 ∷ 84 ∷ 80 ∷ 47 ∷ 49 ∷ 46 ∷ 48 ∷ 32 ∷ 50 ∷ 48 ∷ 48 ∷ 32 ∷ 79 ∷ 75 ∷ 13 ∷ 10 ∷ 67 ∷ 111
    ∷ 110 ∷ 116 ∷ 101 ∷ 110 ∷ 116 ∷ 45 ∷ 84 ∷ 121 ∷ 112 ∷ 101 ∷ 58 ∷ 32 ∷ 116 ∷ 101 ∷ 120 ∷ 116 ∷ 47
    ∷ 104 ∷ 116 ∷ 109 ∷ 108 ∷ 13 ∷ 10 ∷ 67 ∷ 111 ∷ 110 ∷ 116 ∷ 101 ∷ 110 ∷ 116 ∷ 45 ∷ 76 ∷ 101 ∷ 110
    ∷ 103 ∷ 116 ∷ 104 ∷ 58 ∷ 32 ∷ []

unfoldable pub is_http_get : List ℕ → Bool
is_http_get (a ∷ b ∷ c ∷ rest) = (a == b'G') && (b == b'E') && (c == b'T')
is_http_get _ = false

-- The bytes written to `response`; the digits of `body_len` are those of `utoa_dec`.
unfoldable pub http_response : List ℕ
http_response =
    http_header_prefix ++ (utoa_dec (length html_body) ++ ((13 ∷ 10 ∷ 13 ∷ 10 ∷ []) ++ html_body))
