-- ===== src/Stats/Ring/Header/Fields.antt =====
-- What reads of an encoded header see: each field where `encodeHeader` put it (pkg/stats/ring.go).
use casa_os_common.Common.{
  ℕ, ◌+◌, ◌≤◌, ◌<◌, ◌^◌, ◌≡◌, refl, ◌∙◌, ◌⊎◌, List, [], ◌∷◌, arith, length, drop, length-take,
  take_of_length-le, Bytes,
}
use casa_os_common.Common.Int.{to_word}
use casa_os_common.Stats.Limits.{
  max_item_len, off_version, off_minutes, off_forgotten, off_name_len, off_name, off_nseries,
  off_keys, off_seq, off_crc, magic,
}
use casa_os_common.Stats.Ring.Buffer.{
  Mem, zeroed, write, read, put_le, read-write_self, read-write_apart, write_out,
}
use casa_os_common.Stats.Ring.Header.{
  Header, name_len_field, write_all, fixed_fields, put_keys, body, encode_header,
}
use casa_os_common.Stats.Ring.Header.Keys.{read-put_keys}

-- Every write of the list is beside the range.
abbrev AllApart : ℕ → ℕ → List (ℕ × Bytes) → Type 0
AllApart off n [] = Unit
AllApart off n ((o, bs) ∷ ws) = ((off + n ≤ o) ⊎ (o + length bs ≤ off)) × AllApart off n ws

read-write_all :
    (off n : ℕ) (ws : List (ℕ × Bytes)) (m : Mem)
    → AllApart off n ws
    → read off n (write_all ws m) ≡ read off n m
read-write_all off n [] m h = refl
read-write_all off n ((o, bs) ∷ ws) m h =
    read-write_all off n ws (write o bs m) h.1 ∙ read-write_apart off n o bs m h.0

module _ (crc : Bytes → ℕ) (h : Header) where
  -- Before the key slots the encoded header shows the fixed fields.
  fixed-encode_header :
      (off n : ℕ)
      → off + n ≤ off_keys
      → read off n (encode_header crc h).at ≡ read off n (write_all (fixed_fields h) zeroed)
  unfolding encode_header body put_le
  fixed-encode_header off n b =
      read-write_apart off n off_crc _ _ (omega arith)
      ∙ read-write_apart off n off_seq _ _ (omega arith)
      ∙ read-put_keys 0 h.keys _ off n (omega arith)

  -- The field that the first write of the list sets, if the later writes are beside it.
  field :
      (off : ℕ) (bs : Bytes) (ws : List (ℕ × Bytes)) (m : Mem)
      → AllApart off (length bs) ws
      → read off (length bs) (write_all ws (write off bs m)) ≡ bs
  field off bs ws m a =
      read-write_all off (length bs) ws (write off bs m) a ∙ read-write_self off bs m

  pub read-magic : read 0 8 (encode_header crc h).at ≡ magic
  unfolding put_le
  read-magic =
      fixed-encode_header 0 8 (omega arith)
      ∙ field 0 magic (drop 1 (fixed_fields h)) _ (omega (arith, length-take 256 h.name))

  pub read_version : read off_version 4 (encode_header crc h).at ≡ put_le 4 h.version
  unfolding put_le
  read_version =
      fixed-encode_header off_version 4 (omega arith)
      ∙ field off_version (put_le 4 h.version) (drop 2 (fixed_fields h)) _
          (omega (arith, length-take 256 h.name))

  pub read_minutes : read off_minutes 4 (encode_header crc h).at ≡ put_le 4 h.minute_slots
  unfolding put_le
  read_minutes =
      fixed-encode_header off_minutes 4 (omega arith)
      ∙ field off_minutes (put_le 4 h.minute_slots) (drop 3 (fixed_fields h)) _
          (omega (arith, length-take 256 h.name))

  pub read_forgotten :
      read off_forgotten 8 (encode_header crc h).at ≡ put_le 8 (to_word (2 ^ 64) h.forgotten)
  unfolding put_le
  read_forgotten =
      fixed-encode_header off_forgotten 8 (omega arith)
      ∙ field off_forgotten (put_le 8 (to_word (2 ^ 64) h.forgotten)) (drop 4 (fixed_fields h)) _
          (omega (arith, length-take 256 h.name))

  pub read_name_len : read off_name_len 2 (encode_header crc h).at ≡ put_le 2 (name_len_field h)
  unfolding put_le
  read_name_len =
      fixed-encode_header off_name_len 2 (omega arith)
      ∙ field off_name_len (put_le 2 (name_len_field h)) (drop 5 (fixed_fields h)) _
          (omega (arith, length-take 256 h.name))

  pub read_name :
      length h.name ≤ max_item_len → read off_name (length h.name) (encode_header crc h).at ≡ h.name
  unfolding put_le
  read_name b =
      fixed-encode_header off_name (length h.name) (omega arith)
      ∙ rw (take_of_length-le 256 h.name b)
          (field off_name h.name (drop 6 (fixed_fields h)) _ (omega arith))

  pub read_nseries : read off_nseries 4 (encode_header crc h).at ≡ put_le 4 (length h.keys)
  unfolding put_le
  read_nseries =
      fixed-encode_header off_nseries 4 (omega arith)
      ∙ field off_nseries (put_le 4 (length h.keys)) [] _ tt

  pub read_seq : read off_seq 8 (encode_header crc h).at ≡ put_le 8 h.seq
  unfolding encode_header put_le
  read_seq =
      read-write_apart off_seq 8 off_crc _ _ (omega arith) ∙ field off_seq (put_le 8 h.seq) [] _ tt

  -- The checksum that is read is that of everything before it.
  pub read_crc :
      read off_crc 4 (encode_header crc h).at
      ≡ put_le 4 (crc (read 0 off_crc (encode_header crc h).at))
  unfolding encode_header put_le
  read_crc =
      rw
        (read-write_apart 0 off_crc off_crc (put_le 4 (crc (read 0 off_crc (body h)))) (body h)
          (omega arith))
        (field off_crc (put_le 4 (crc (read 0 off_crc (body h)))) [] _ tt)

  -- The key slots of the encoded header are those that the loop wrote.
  pub slots-encode_header :
      (j : ℕ)
      → off_keys ≤ j
      → j < off_seq
      → (encode_header crc h).at j ≡ put_keys 0 h.keys (write_all (fixed_fields h) zeroed) j
  unfolding encode_header body put_le
  slots-encode_header j lo hi =
      write_out off_crc _ (body h) j (omega arith) ∙ write_out off_seq _ _ j (omega arith)
