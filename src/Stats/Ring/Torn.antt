-- ===== src/Stats/Ring/Torn.antt =====
-- `writeHeader` of pkg/stats/ring.go: it succeeds, or it is torn, and a restart finds the new header
-- or the old one.
use casa_os_common.Common.{
  ℕ, ◌+◌, ◌-◌, ◌*◌, ◌%◌, ◌^◌, ◌≤◌, ◌<◌, ◌≡◌, refl, ◌∙◌, ◌⊎◌, ◌≢◌, Option, none, some, List, [], ◌∷◌,
  min, arith, Bytes,
}
use casa_os_common.Stats.Errors.{ok, err, cause, io_error}
use casa_os_common.Stats.Limits.{header_size, header_len, off_crc}
use casa_os_common.Stats.Ring.Buffer.{Mem, Buf, read, get_le}
use casa_os_common.Stats.Ring.Header.{Header, encode_header, decode_header}
use casa_os_common.Stats.Ring.Disk.{
  File, Fate, Ring, M, done, failed, store, write_at, sync, >>=-ok, >>=-err, write_at_free,
  write_at_complete, write_at_failed, sync_free, sync_complete, sync_failed, ◌>>◌,
}
use casa_os_common.Stats.Ring.Write.{write_header, set_header}
use casa_os_common.Stats.Ring.Open.{header_copy}

-- How many bytes of its header a `writeHeader` with these fates stores before it fails; `none` where
-- both its calls succeed.
abbrev pub tear : List Fate → Option ℕ
tear [] = none
tear (done ∷ []) = none
tear (done ∷ done ∷ p) = none
tear (done ∷ failed n ∷ p) = some header_size
tear (failed n ∷ p) = some (min n header_size)

module _ (crc : Bytes → ℕ) where
  -- The header that `writeHeader` writes for `h`.
  abbrev pub next_header : Ring → Header → Header
  next_header r h = record h { seq = (r.hdr.seq + 1) % 2 ^ 64 }

  -- The ring behind a `writeHeader` of `h` that succeeded.
  abbrev pub header_written : Ring → Header → List Fate → Ring
  header_written r h p =
      let b = encode_header crc (next_header r h) in
      record r {
        file = store b b.len ((1 - r.cur) * header_size) r.file;
        plan = p;
        hdr = next_header r h;
        cur = 1 - r.cur;
        published = h.keys;
        forgotten = h.forgotten;
      }

  -- The ring behind one that stored `n` bytes and failed.
  abbrev pub header_torn : Ring → Header → ℕ → List Fate → Ring
  header_torn r h n p = record r {
    file = store (encode_header crc (next_header r h)) n ((1 - r.cur) * header_size) r.file;
    plan = p;
  }

  module _ (r : Ring) (h : Header) where
    abbrev b : Buf
    b = encode_header crc (next_header r h)

    abbrev w : M (Unit {0})
    w = write_at b ((1 - r.cur) * header_size)

    abbrev k : M (Unit {0})
    k = set_header (next_header r h) (1 - r.cur)

    pub write_header_by :
        (plan : List Fate)
        → r.plan ≡ plan
        → tear plan ≡ none
        → (p : List Fate) × (write_header crc h r ≡ (ok tt, header_written r h p))
    unfolding write_header
    write_header_by [] e t = (
      r.plan,
      >>=-ok w (λ _. sync >> k) r (write_at_free b _ r e) ∙ >>=-ok sync (λ _. k) _ (sync_free _ e),
    )
    write_header_by (done ∷ []) e t = (
      [],
      >>=-ok w (λ _. sync >> k) r (write_at_complete b _ r _ e)
          ∙ >>=-ok sync (λ _. k) _ (sync_free _ refl),
    )
    write_header_by (done ∷ done ∷ p) e t = (
      p,
      >>=-ok w (λ _. sync >> k) r (write_at_complete b _ r _ e)
          ∙ >>=-ok sync (λ _. k) _ (sync_complete _ p refl),
    )
    write_header_by (done ∷ failed n ∷ p) e t = cc
    write_header_by (failed n ∷ p) e t = cc

    pub write_header_torn_by :
        (n : ℕ) (plan : List Fate)
        → r.plan ≡ plan
        → tear plan ≡ some n
        → (_ : n ≤ header_size) × (p : List Fate) × (write_header crc h r
            ≡ (err (cause io_error), header_torn r h n p))
    unfolding write_header encode_header
    write_header_torn_by n [] e t = cc
    write_header_torn_by n (done ∷ []) e t = cc
    write_header_torn_by n (done ∷ done ∷ p) e t = cc
    write_header_torn_by n (done ∷ failed m ∷ p) e t =
        let q : header_size ≡ n = cc in
        rw (← q) (
          omega arith,
          p,
          >>=-ok w (λ _. sync >> k) r (write_at_complete b _ r _ e)
              ∙ >>=-err sync (λ _. k) _ (sync_failed _ m p refl),
        )
    write_header_torn_by n (failed m ∷ p) e t =
        let q : min m header_size ≡ n = cc in
        rw (← q) (omega arith, p, >>=-err w (λ _. sync >> k) r (write_at_failed b _ r m p e))

  -- The header copy that a write torn behind `n` bytes leaves.
  abbrev pub torn_copy : Ring → Header → ℕ → Mem
  torn_copy r h n j =
      (store (encode_header crc (next_header r h)) n ((1 - r.cur) * header_size) r.file).at
        ((1 - r.cur) * header_size + j)

  -- The checksum tells a mixture of two headers from both.
  abbrev pub Detects : Ring → Header → ℕ → Type 0
  Detects r h n =
      ((j : ℕ) → j < header_len → torn_copy r h n j ≡ r.file.at ((1 - r.cur) * header_size + j))
      ⊎ ((j : ℕ) → j < header_len → torn_copy r h n j ≡ (encode_header crc (next_header r h)).at j)
      ⊎ (crc (read 0 off_crc (torn_copy r h n)) ≢ get_le (read off_crc 4 (torn_copy r h n)))

  -- A copy with a wrong checksum is no header.
  pub header_copy_mismatch :
      (f : File) (i : ℕ)
      → let m = λ (j : ℕ). f.at (i * header_size + j) in
        crc (read 0 off_crc m) ≢ get_le (read off_crc 4 m) → header_copy crc f i ≡ ok none
  unfolding header_copy decode_header
  header_copy_mismatch f i ne = ground arith
