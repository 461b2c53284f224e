-- ===== src/Stats/Ring/Create.antt =====
-- `createRing` of pkg/stats/ring.go where its calls succeed.
use casa_os_common.Common.{
  ℕ, ◌+◌, ◌-◌, ◌*◌, ◌≤◌, ◌<◌, ◌^◌, ◌≡◌, refl, ap, Option, some, [], length, arith, Bytes, true,
  false,
}
use casa_os_common.Common.Int.{pos}
use casa_os_common.Stats.Errors.{ok}
use casa_os_common.Stats.Limits.{header_size, max_item_len}
use casa_os_common.Stats.Ring.Header.{Header, encode_header}
use casa_os_common.Stats.Ring.Header.Roundtrip.{IsEncodable}
use casa_os_common.Stats.Ring.Disk.{File, Ring}
use casa_os_common.Stats.Ring.Open.{
  header_copy, open_ring, new_header, new_file, Calls, all_ok, create_ring,
}
use casa_os_common.Stats.Ring.Recover.{IsOpen, header_copy-encode_header, parse_ring-IsOpen}

-- The header of a new ring as it is read back.
abbrev pub read_header : Bytes → ℕ → Header
read_header item seq = record (new_header item seq) { name_len = length item }

module _ (crc : Bytes → ℕ) where
  -- The ring of a new file.
  abbrev pub new_ring : Bytes → Ring
  new_ring item = record {
    file = new_file crc item;
    plan = [];
    item = item;
    hdr = read_header item 1;
    cur = 0;
    published = [];
    forgotten = pos 0;
    closed = false;
  }

  module _ (crc_fits : (bs : Bytes) → crc bs < 2 ^ 32) (item : Bytes) (some_name : 1 ≤ length item)
      (name_fits : length item ≤ max_item_len) where
    new_header-IsEncodable : (seq : ℕ) → seq ≤ 1 → IsEncodable (new_header item seq)
    new_header-IsEncodable seq h = ground arith

    first_copy : header_copy crc (new_file crc item) 0 ≡ ok (some (read_header item 1))
    unfolding new_file
    first_copy =
        header_copy-encode_header crc crc_fits (new_header item 1) 0 (new_file crc item)
          (new_header-IsEncodable 1 (omega arith)) (omega arith) (λ j q. ground arith)

    second_copy : header_copy crc (new_file crc item) 1 ≡ ok (some (read_header item 0))
    unfolding new_file
    second_copy =
        header_copy-encode_header crc crc_fits (new_header item 0) 1 (new_file crc item)
          (new_header-IsEncodable 0 (omega arith)) (omega arith)
          (λ j q.
            let e : 1 * header_size + j - header_size ≡ j = omega arith in
            ground (arith, ap (encode_header crc (new_header item 0)).at e))

    pub new_ring-IsOpen : IsOpen crc (new_ring item)
    unfolding new_file
    new_ring-IsOpen = record {
      cur_in = omega arith;
      current = first_copy;
      other = some (read_header item 0);
      other_is = second_copy;
      other_older = omega arith;
      encodable = ground arith;
      name_len_set = refl;
      size_fits = omega arith;
      item_is = refl;
      published_is = refl;
      forgotten_is = refl;
    }

    -- Where all its calls succeed, `createRing` puts a file at the path that opens as a ring of the
    -- item, alive and with no series.
    pub create_ring_new :
        (c : Calls) (old : Option File)
        → all_ok c ≡ true
        → (create_ring crc item c old ≡ (ok (new_ring item), some (new_file crc item)))
          × IsOpen crc (new_ring item)
    unfolding create_ring open_ring
    create_ring_new c old h =
        let v = new_ring-IsOpen in
        (ground (arith, h, parse_ring-IsOpen crc (new_ring item) c.reads v), v)
