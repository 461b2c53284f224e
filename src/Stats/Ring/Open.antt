-- ===== src/Stats/Ring/Open.antt =====
-- Creating and opening a ring file: `createRing`, `openRing` and `parseRing` of pkg/stats/ring.go.
use casa_os_common.Common.{
  ℕ, ◌+◌, ◌-◌, ◌*◌, Bool, true, false, not, ◌&&◌, ◌||◌, Option, none, some, [], length, ltb,
  if◌then◌else◌, Bytes,
}
use casa_os_common.Common.Int.{pos}
use casa_os_common.Stats.Errors.{
  Err, Result, ok, err, cause, wrap, bad_item, bad_version, corrupt, io_error, ◌>>=◌,
}
use casa_os_common.Stats.Limits.{minutes, max_item_len, format_version, header_size, data_start}
use casa_os_common.Stats.Ring.Buffer.{Buf}
use casa_os_common.Stats.Ring.Header.{Header, encode_header, decode_header}
use casa_os_common.Stats.Ring.Layout.{ring_file_size}
use casa_os_common.Stats.Ring.Disk.{File, Ring}

-- `errors.Is(err, errVersion)` for the errors of `decodeHeader`
abbrev pub is_version : Err → Bool
is_version (cause bad_version) = true
is_version (wrap e) = is_version e
is_version _ = false

-- The header of a new ring.
abbrev pub new_header : Bytes → ℕ → Header
new_header item seq = record {
  version = format_version;
  minute_slots = minutes;
  forgotten = pos 0;
  name = item;
  name_len = 0;
  keys = [];
  seq = seq;
}

-- Which calls of `parseRing` succeed: `Stat`, and `ReadAt` of a whole copy of the header.
pub record Reads : Type 0 where
  pub stat_ok : Bool
  pub first_ok : Bool
  pub second_ok : Bool

-- Which calls of `createRing` succeed, with those of the `openRing` at its end; the error of `SyncDir` is
-- ignored.
pub record Calls : Type 0 where
  pub open_ok : Bool
  pub write_ok : Bool
  pub sync_ok : Bool
  pub close_ok : Bool
  pub rename_ok : Bool
  pub reopen_ok : Bool
  pub reads : Reads

abbrev pub all_ok : Calls → Bool
all_ok c =
    c.open_ok && c.write_ok && c.sync_ok && c.close_ok && c.rename_ok && c.reopen_ok
    && c.reads.stat_ok && c.reads.first_ok && c.reads.second_ok

module _ (crc : Bytes → ℕ) where
  -- One turn of the loop over the two copies: no header when the read is short or the copy is
  -- corrupt, an error when it is of another version.
  unfoldable pub header_copy : File → ℕ → Result (Option Header)
  header_copy f i =
      let b : Buf = record { len = header_size; at = λ j. f.at (i * header_size + j) } in
      if ltb f.size (i * header_size + header_size) then ok none else elim (decode_header crc b) [
        | ok h ↦ ok (some h)
        | err e ↦ if is_version e then err e else ok none
      ]

  -- The valid copy with the higher seq, the first one at a tie.
  unfoldable pub newer_copy : Option Header → Option Header → Option (Header × ℕ)
  newer_copy none none = none
  newer_copy none (some b) = some (b, 1)
  newer_copy (some a) none = some (a, 0)
  newer_copy (some a) (some b) = if ltb a.seq b.seq then some (b, 1) else some (a, 0)

  unfoldable pub ring_from : File → Option (Header × ℕ) → Result Ring
  ring_from f none = err (wrap (cause corrupt))
  ring_from f (some (h, cur)) =
      if ltb f.size (ring_file_size (length h.keys))
      then err (wrap (cause corrupt))
      else ok (record {
        file = f;
        plan = [];
        item = h.name;
        hdr = h;
        cur = cur;
        published = h.keys;
        forgotten = h.forgotten;
        closed = false;
      })

  -- A copy that cannot be read is passed over.
  abbrev pub copy_read : Bool → File → ℕ → Result (Option Header)
  copy_read false f i = ok none
  copy_read true f i = header_copy f i

  -- `parseRing`
  unfoldable pub parse_ring_by : Reads → File → Result Ring
  unfolding header_copy newer_copy ring_from
  parse_ring_by s f =
      let parsed = copy_read s.first_ok f 0 >>= λ a.
      copy_read s.second_ok f 1 >>= λ b. ring_from f (newer_copy a b) in
      if s.stat_ok then parsed else err (cause io_error)

  -- The same where its calls succeed.
  unfoldable pub parse_ring : File → Result Ring
  unfolding header_copy newer_copy ring_from
  parse_ring f = header_copy f 0 >>= λ a. header_copy f 1 >>= λ b. ring_from f (newer_copy a b)

  -- `openRing`; `none` for a file that cannot be opened
  unfoldable pub open_ring : Reads → Option File → Result Ring
  unfolding parse_ring_by
  open_ring s none = err (cause io_error)
  open_ring s (some f) = elim (parse_ring_by s f) [ ok r ↦ ok r | err e ↦ err (wrap e) ]

  -- The new file: two headers of the item and an empty stamp column.
  unfoldable pub new_file : Bytes → File
  new_file item =
      let a = encode_header crc (new_header item 1) in
      let b = encode_header crc (new_header item 0) in
      record {
        size = ring_file_size 0;
        at = λ i.
            if ltb i header_size
            then a.at i
            else if ltb i data_start
            then b.at (i - header_size)
            else 0;
      }

  -- `createRing`: the result, and the file then at the path. The new file is at another path until the
  -- rename; without a sync the close is still called, and without an error before it the rename.
  unfoldable pub create_ring : Bytes → Calls → Option File → Result Ring × Option File
  unfolding open_ring new_file
  create_ring item c old =
      let synced = c.write_ok && c.sync_ok in
      let closed = synced && c.close_ok in
      let renamed = closed && c.rename_ok in
      let f = new_file item in
      if ltb (length item) 1 || ltb max_item_len (length item)
      then (err (cause bad_item), old)
      else if not c.open_ok
      then (err (cause io_error), old)
      else if not renamed
      then (err (cause io_error), old)
      else (open_ring c.reads (if c.reopen_ok then some f else none), some f)
