-- ===== src/Stats/Ring/Header.antt =====
-- The header of a ring file: `header`, `encodeHeader` and `decodeHeader` of pkg/stats/ring.go.
-- `crc` stands for crc32.ChecksumIEEE.
pub mod Fields
pub mod Keys
pub mod Roundtrip
pub mod Extent
use casa_os_common.Common.{
  ℕ, zero, suc, ◌+◌, ◌-◌, ◌*◌, ◌%◌, ◌^◌, Bool, not, ◌||◌, List, [], ◌∷◌, length, take, ltb, leb,
  ◌==◌, if◌then◌else◌, Bytes, eq_bytes,
}
use casa_os_common.Common.Int.{ℤ, to_word, from_word}
use casa_os_common.Stats.Errors.{Result, ok, err, wrap, cause, corrupt, bad_version, ◌>>=◌}
use casa_os_common.Stats.Limits.{
  minutes, max_series, max_key_len, max_item_len, format_version, header_size, key_slot,
  off_version, off_minutes, off_forgotten, off_name_len, off_name, off_nseries, off_keys, off_seq,
  off_crc, header_len, magic,
}
use casa_os_common.Stats.Ring.Buffer.{Mem, Buf, zeroed, write, read, put_le, get_le}

pub record Header : Type 0 where
  pub version : ℕ
  pub minute_slots : ℕ
  pub forgotten : ℤ
  pub name : Bytes
  pub name_len : ℕ
  pub keys : List Bytes
  pub seq : ℕ

-- `nl`: the length field, which a zero `nameLen` leaves to the name.
abbrev pub name_len_field : Header → ℕ
name_len_field h = if h.name_len == 0 then length h.name else h.name_len

-- A row of `Put…` and `copy` calls, the first one first.
abbrev pub write_all : List (ℕ × Bytes) → Mem → Mem
write_all [] m = m
write_all ((off, bs) ∷ ws) m = write_all ws (write off bs m)

-- What `encodeHeader` writes before the key slots.
abbrev pub fixed_fields : Header → List (ℕ × Bytes)
fixed_fields h =
    (0, magic)
    ∷ (off_version, put_le 4 h.version)
    ∷ (off_minutes, put_le 4 h.minute_slots)
    ∷ (off_forgotten, put_le 8 (to_word (2 ^ 64) h.forgotten))
    ∷ (off_name_len, put_le 2 (name_len_field h))
    ∷ (off_name, take max_item_len h.name)
    ∷ (off_nseries, put_le 4 (length h.keys))
    ∷ []

-- One key slot: its length byte, then at most 63 bytes of the key.
pub put_key : ℕ → Bytes → Mem → Mem
put_key i k m =
    write (off_keys + i * key_slot + 1) (take (key_slot - 1) k)
      (write (off_keys + i * key_slot) (length k % 256 ∷ []) m)

-- The loop over `h.keys`; `break` at MaxSeries.
pub put_keys : ℕ → List Bytes → Mem → Mem
put_keys i [] m = m
put_keys i (k ∷ ks) m = if leb max_series i then m else put_keys (suc i) ks (put_key i k m)

-- All but the checksum.
pub body : Header → Mem
body h = write off_seq (put_le 8 h.seq) (put_keys 0 h.keys (write_all (fixed_fields h) zeroed))

unfoldable pub encode_header : (Bytes → ℕ) → Header → Buf
unfolding body put_keys put_key
encode_header crc h = record {
  len = header_size;
  at = write off_crc (put_le 4 (crc (read 0 off_crc (body h)))) (body h);
}

-- The loop of `decodeHeader` over the key slots: `n` slots from slot `i` on.
unfoldable pub get_keys : ℕ → ℕ → Mem → Result (List Bytes)
get_keys zero i m = ok []
get_keys (suc n) i m =
    let l = m (off_keys + i * key_slot) in
    let rest = get_keys n (suc i) m in
    if ltb l 1 || ltb max_key_len l
    then err (wrap (cause corrupt))
    else rest >>= λ ks. ok (read (off_keys + i * key_slot + 1) l m ∷ ks)

-- The fields behind the length of the name.
unfoldable pub decode_rest : (version mins : ℕ) (forgotten : ℤ) (nl : ℕ) → Mem → Result Header
decode_rest version mins forgotten nl m =
    let n = get_le (read off_nseries 4 m) in
    let slots = get_keys n 0 m in
    if ltb max_series n
    then err (wrap (cause corrupt))
    else slots >>= λ ks. ok (record {
      version = version;
      minute_slots = mins;
      forgotten = forgotten;
      name = read off_name nl m;
      name_len = nl;
      keys = ks;
      seq = get_le (read off_seq 8 m);
    })

unfoldable pub decode_header : (Bytes → ℕ) → Buf → Result Header
decode_header crc b =
    let m = b.at in
    let version = get_le (read off_version 4 m) in
    let mins = get_le (read off_minutes 4 m) in
    let forgotten = from_word (2 ^ 63) (get_le (read off_forgotten 8 m)) in
    let nl = get_le (read off_name_len 2 m) in
    if ltb b.len header_len
    then err (wrap (cause corrupt))
    else if not (eq_bytes (read 0 8 m) magic)
    then err (wrap (cause corrupt))
    else if not (crc (read 0 off_crc m) == get_le (read off_crc 4 m))
    then err (wrap (cause corrupt))
    else if not (version == format_version)
    then err (wrap (cause bad_version))
    else if not (mins == minutes)
    then err (wrap (cause corrupt))
    else if ltb nl 1 || ltb max_item_len nl
    then err (wrap (cause corrupt))
    else decode_rest version mins forgotten nl m
