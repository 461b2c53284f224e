-- ===== src/Stats/Ring/Header/Extent.antt =====
-- `decodeHeader` (pkg/stats/ring.go) looks at the first `header_len` bytes only.
use casa_os_common.Common.{
  ℕ, ◌+◌, ◌^◌, ◌≤◌, ◌<◌, ◌≡◌, inl, inr, arith, Bytes, ltb, Bool-cases, ltb_false→le,
}
use casa_os_common.Common.Int.{ℤ, from_word}
use casa_os_common.Stats.Limits.{
  max_series, max_item_len, header_len, off_version, off_minutes, off_forgotten, off_name_len,
  off_name, off_nseries, off_seq, off_crc,
}
use casa_os_common.Stats.Ring.Buffer.{Mem, read, get_le, read_ext}
use casa_os_common.Stats.Ring.Header.{decode_header, decode_rest, get_keys}
use casa_os_common.Stats.Ring.Header.Keys.{get_keys_ext}

module _ (m m' : Mem) (same : (j : ℕ) → j < header_len → m j ≡ m' j) where
  pub read_same : (off n : ℕ) → off + n ≤ header_len → read off n m ≡ read off n m'
  read_same off n b = read_ext off n m m' (λ j p q. same j (omega arith))

  keys_same : (n : ℕ) → n ≤ max_series → get_keys n 0 m ≡ get_keys n 0 m'
  keys_same n b = get_keys_ext n 0 m m' (omega arith) (λ j lo hi. same j (omega arith))

  decode_rest_ext :
      (v k : ℕ) (f : ℤ) (nl : ℕ)
      → nl ≤ max_item_len
      → decode_rest v k f nl m ≡ decode_rest v k f nl m'
  unfolding decode_rest
  decode_rest_ext v k f nl b =
      let n = get_le (read off_nseries 4 m') in
      rw
        (
          read_same off_nseries 4 (omega arith),
          read_same off_seq 8 (omega arith),
          read_same off_name nl (omega arith),
        )
        (elim (Bool-cases (ltb max_series n)) [
          | inl e ↦ rw e
          | inr e ↦ rw (keys_same n (ltb_false→le max_series n e))
        ])

  pub decode_header_ext :
      (crc : Bytes → ℕ) (len : ℕ)
      → decode_header crc (record { len = len; at = m })
        ≡ decode_header crc (record { len = len; at = m' })
  unfolding decode_header
  decode_header_ext crc len =
      let nl = get_le (read off_name_len 2 m') in
      rw
        (
          read_same 0 8 (omega arith),
          read_same off_version 4 (omega arith),
          read_same off_minutes 4 (omega arith),
          read_same off_forgotten 8 (omega arith),
          read_same off_name_len 2 (omega arith),
          read_same 0 off_crc (omega arith),
          read_same off_crc 4 (omega arith),
        )
        (elim (Bool-cases (ltb max_item_len nl)) [
          | inl e ↦ ground arith
          | inr e ↦ ground (
            arith,
            decode_rest_ext (get_le (read off_version 4 m')) (get_le (read off_minutes 4 m'))
                (from_word (2 ^ 63) (get_le (read off_forgotten 8 m'))) nl
                (ltb_false→le max_item_len nl e),
          )
        ])
