-- ===== src/Net/Telemetry.antt =====
-- `net_get_telemetry_json` of AetherWebOS/src/kernel/health.c: the counters as a JSON text.
use aether_webos.Prelude.{
  ℕ, ◌+◌, ◌*◌, ◌-◌, ◌^◌, ◌≤◌, ◌<◌, ◌≡◌, refl, arith, ap, ◌∙◌, List, [], ◌∷◌, ◌++◌, append_assoc,
  Option, none, some, true, ◌&&◌, ◌==◌, leb, if◌then◌else◌, length, length-append, All,
}
use aether_webos.Utils.Decimal.{ltoa, utoa_dec}
use aether_webos.Utils.Decimal.Laws.{
  IsDigit, value_from, utoa_dec-value, length-utoa_dec, ltoa-eq-utoa_dec,
}
use aether_webos.Utils.Format.{
  telemetry_pairs, mini_sprintf_telemetry, rx_key, tx_key, err_key, buf_key, tcp_key, rexmit_key,
  cksum_key,
}
use aether_webos.Net.Virtqueue.{Stats}

unfoldable pub net_get_telemetry_json : Stats → List ℕ
net_get_telemetry_json s =
    mini_sprintf_telemetry s.rx_packets s.tx_packets s.dropped_packets s.buffer_usage s.tcp_active
      s.retransmissions s.checksum_errors

-- A reader of the numbers of an object whose values are numbers: it looks for a colon, or has read a
-- part of the number behind one.
abbrev pub read_values : Option ℕ → List ℕ → List ℕ
read_values none [] = []
read_values none (c ∷ cs) =
    let start = read_values (some 0) cs in
    let on = read_values none cs in if c == b':' then start else on
read_values (some n) [] = n ∷ []
read_values (some n) (c ∷ cs) =
    let more = read_values (some (n * 10 + (c - b'0'))) cs in
    let on = read_values none cs in if leb b'0' c && leb c b'9' then more else n ∷ on

digits-read :
    (n : ℕ) (ds rest : List ℕ)
    → All IsDigit ds
    → read_values (some n) (ds ++ rest) ≡ read_values (some (value_from n ds)) rest
digits-read n [] rest h = refl
digits-read n (d ∷ ds) rest h =
    let digit : (leb b'0' d && leb d b'9') ≡ true = ground (arith, h.0) in
    rw digit (digits-read (n * 10 + (d - b'0')) ds rest h.1)

value-read :
    (v : ℕ) (rest : List ℕ)
    → v < 2 ^ 64
    → read_values (some 0) (ltoa v ++ rest) ≡ read_values (some v) rest
value-read v rest h =
    let (value, digits) = utoa_dec-value v h in
    rw ((ltoa-eq-utoa_dec v).0)
      (digits-read 0 (utoa_dec v) rest digits ∙ ap (λ (n : ℕ). read_values (some n) rest) value)

-- A value and what follows it.
inner-read :
    (v : ℕ) (next tail : List ℕ)
    → v < 2 ^ 64
    → read_values (some 0) ((ltoa v ++ next) ++ tail) ≡ read_values (some v) (next ++ tail)
inner-read v next tail h =
    ap (read_values (some 0)) (append_assoc (ltoa v) next tail) ∙ value-read v (next ++ tail) h

put : (v : ℕ) {xs ys : List ℕ} → xs ≡ ys → v ∷ xs ≡ v ∷ ys
put v e = ap (λ (l : List ℕ). v ∷ l) e

-- The bytes of the keys, and 20 for each value.
abbrev room : List (List ℕ × ℕ) → ℕ
room [] = 0
room ((key, value) ∷ rest) = length key + 20 + room rest

length-telemetry_pairs :
    (pairs : List (List ℕ × ℕ))
    → All (λ p. p.1 < 2 ^ 64) pairs
    → length (telemetry_pairs pairs) ≤ room pairs
unfolding telemetry_pairs
length-telemetry_pairs [] h = omega arith
length-telemetry_pairs ((key, value) ∷ rest) h =
    let text : length (ltoa value) ≡ length (utoa_dec value) =
      ap (length {0}) ((ltoa-eq-utoa_dec value).0) in
    omega (
      arith,
      text,
      length-utoa_dec 20 value (omega arith) (omega (arith, h.0)),
      length-append key (ltoa value ++ telemetry_pairs rest),
      length-append (ltoa value) (telemetry_pairs rest),
      length-telemetry_pairs rest h.1,
    )

abbrev key_pairs : Stats → List (List ℕ × ℕ)
key_pairs s =
    (rx_key, s.rx_packets)
    ∷ (tx_key, s.tx_packets)
    ∷ (err_key, s.dropped_packets)
    ∷ (buf_key, s.buffer_usage)
    ∷ (tcp_key, s.tcp_active)
    ∷ (rexmit_key, s.retransmissions)
    ∷ (cksum_key, s.checksum_errors)
    ∷ []

length-telemetry :
    (s : Stats)
    → s.rx_packets < 2 ^ 64
    → s.tx_packets < 2 ^ 64
    → s.dropped_packets < 2 ^ 64
    → s.buffer_usage < 2 ^ 64
    → s.tcp_active < 2 ^ 64
    → s.retransmissions < 2 ^ 64
    → s.checksum_errors < 2 ^ 64
    → length (net_get_telemetry_json s) ≤ 217
unfolding net_get_telemetry_json mini_sprintf_telemetry
length-telemetry s h1 h2 h3 h4 h5 h6 h7 = omega (
  arith,
  length-append (telemetry_pairs (key_pairs s)) (b'}' ∷ 0 ∷ []),
  length-telemetry_pairs (key_pairs s) (h1, (h2, (h3, (h4, (h5, (h6, (h7, tt))))))),
)

-- Every counter of 64 bits can be read back from the text of `net_get_telemetry_json`, in the order
-- of its keys: received, sent, dropped, in use, established, sent again, wrong checksum. With its NUL the text takes at most
-- 217 bytes.
pub net_get_telemetry_json-read :
    (s : Stats)
    → s.rx_packets < 2 ^ 64
    → s.tx_packets < 2 ^ 64
    → s.dropped_packets < 2 ^ 64
    → s.buffer_usage < 2 ^ 64
    → s.tcp_active < 2 ^ 64
    → s.retransmissions < 2 ^ 64
    → s.checksum_errors < 2 ^ 64
    → (read_values none (net_get_telemetry_json s)
        ≡ s.rx_packets ∷ s.tx_packets ∷ s.dropped_packets ∷ s.buffer_usage ∷ s.tcp_active
          ∷ s.retransmissions ∷ s.checksum_errors ∷ [])
      × (length (net_get_telemetry_json s) ≤ 217)
unfolding net_get_telemetry_json mini_sprintf_telemetry telemetry_pairs
net_get_telemetry_json-read s h1 h2 h3 h4 h5 h6 h7 = (
  inner-read s.rx_packets _ _ h1
      ∙ put s.rx_packets (
          inner-read s.tx_packets _ _ h2
          ∙ put s.tx_packets (
              inner-read s.dropped_packets _ _ h3
              ∙ put s.dropped_packets (
                  inner-read s.buffer_usage _ _ h4
                  ∙ put s.buffer_usage (
                      inner-read s.tcp_active _ _ h5
                      ∙ put s.tcp_active (
                          inner-read s.retransmissions _ _ h6
                          ∙ put s.retransmissions (inner-read s.checksum_errors _ _ h7)))))),
  length-telemetry s h1 h2 h3 h4 h5 h6 h7,
)
