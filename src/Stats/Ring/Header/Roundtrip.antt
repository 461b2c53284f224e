-- ===== src/Stats/Ring/Header/Roundtrip.antt =====
-- `decodeHeader` reads back what `encodeHeader` wrote (pkg/stats/ring.go).
use casa_os_common.Common.{ℕ, ◌≤◌, ◌<◌, ◌^◌, ◌≡◌, refl, ◌∙◌, length, arith, Bytes, eq_bytes_refl}
use casa_os_common.Common.Int.{ℤ, to_word, from_word, pos_part, neg_part}
use casa_os_common.Stats.Errors.{ok}
use casa_os_common.Stats.Limits.{
  minutes, max_series, max_item_len, format_version, off_crc, magic, header_size,
}
use casa_os_common.Stats.Ring.Buffer.{Mem, zeroed, read, get_le-put_le}
use casa_os_common.Stats.Ring.Header.{
  Header, name_len_field, fixed_fields, write_all, encode_header, decode_header, decode_rest,
  put_keys, get_keys,
}
use casa_os_common.Stats.Ring.Header.Keys.{FitKeys, get_keys_ext, get_keys-put_keys}
use casa_os_common.Stats.Ring.Header.Fields.{
  read-magic, read_version, read_minutes, read_forgotten, read_name_len, read_name, read_nseries,
  read_seq, read_crc, slots-encode_header,
}

-- A header that the package writes: its own version and length, a name and keys that fit.
pub record IsEncodable (h : Header) : Type 0 where
  pub version_is : h.version ≡ format_version
  pub minutes_are : h.minute_slots ≡ minutes
  pub forgotten_low : neg_part h.forgotten ≤ 2 ^ 63
  pub forgotten_high : pos_part h.forgotten < 2 ^ 63
  pub name_len_is : name_len_field h ≡ length h.name
  pub name_some : 1 ≤ length h.name
  pub name_fits : length h.name ≤ max_item_len
  pub keys_fit : FitKeys h.keys
  pub series_fit : length h.keys ≤ max_series
  pub seq_fits : h.seq < 2 ^ 64

from_word-to_word :
    (z : ℤ)
    → neg_part z ≤ 2 ^ 63
    → pos_part z < 2 ^ 63
    → from_word (2 ^ 63) (to_word (2 ^ 64) z) ≡ z
from_word-to_word z l u = ground arith

to_word-lt : (z : ℤ) → to_word (2 ^ 64) z < 2 ^ 64
to_word-lt z = ground arith

module _ (crc : Bytes → ℕ) (crc_fits : (bs : Bytes) → crc bs < 2 ^ 32) (h : Header)
    (v : IsEncodable h) where
  open v use {
    version_is, minutes_are, forgotten_low, forgotten_high, name_len_is, name_some, name_fits,
    keys_fit, series_fit, seq_fits,
  }

  abbrev m : Mem
  m = (encode_header crc h).at

  len_is : (encode_header crc h).len ≡ header_size
  unfolding encode_header
  len_is = refl

  keys_read : get_keys (length h.keys) 0 m ≡ ok h.keys
  keys_read =
      get_keys_ext (length h.keys) 0 m (put_keys 0 h.keys (write_all (fixed_fields h) zeroed))
        (omega arith) (λ j lo hi. slots-encode_header crc h j (omega arith) hi)
      ∙ get_keys-put_keys 0 h.keys _ (omega arith) keys_fit

  rest_read :
      decode_rest h.version h.minute_slots h.forgotten (length h.name) m
      ≡ ok (record h { name_len = length h.name })
  unfolding decode_rest
  rest_read =
      rw
        (
          read_nseries crc h,
          get_le-put_le 4 (length h.keys) (omega arith),
          keys_read,
          read_name crc h name_fits,
          read_seq crc h,
          get_le-put_le 8 h.seq seq_fits,
        )
        (ground arith)

  -- Decoding an encoded header gives it back, with the length of its name filled in.
  pub decode_header-encode_header :
      decode_header crc (encode_header crc h) ≡ ok (record h { name_len = length h.name })
  unfolding decode_header
  decode_header-encode_header =
      rw
        (
          read-magic crc h,
          read_version crc h,
          read_minutes crc h,
          read_forgotten crc h,
          read_name_len crc h,
          read_crc crc h,
          get_le-put_le 4 (crc (read 0 off_crc m)) (crc_fits (read 0 off_crc m)),
          get_le-put_le 4 h.version (omega arith),
          get_le-put_le 4 h.minute_slots (omega arith),
          get_le-put_le 2 (name_len_field h) (omega arith),
          get_le-put_le 8 (to_word (2 ^ 64) h.forgotten) (to_word-lt h.forgotten),
          from_word-to_word h.forgotten forgotten_low forgotten_high,
          name_len_is,
          eq_bytes_refl magic,
        )
        (ground (arith, rest_read, len_is))
