-- ===== src/Stats/Ring/Durable.antt =====
-- `writeHeader` of pkg/stats/ring.go is durable: after it the file holds the new header; if it fails,
-- a restart finds the old header or the new one, and nothing else.
use native.Mathlib.Decide.{dec_lt}
use casa_os_common.Common.{
  ℕ, ◌+◌, ◌-◌, ◌*◌, ◌^◌, ◌≤◌, ◌<◌, ◌≡◌, refl, sym, ap, ◌∙◌, ◌⊎◌, inl, inr, Option, none, some, [],
  length, arith, Bytes, false,
}
use casa_os_common.Stats.Errors.{ok, err, cause, io_error}
use casa_os_common.Stats.Limits.{header_size, header_len}
use casa_os_common.Stats.Ring.Buffer.{Buf}
use casa_os_common.Stats.Ring.Header.{Header, encode_header}
use casa_os_common.Stats.Ring.Header.Roundtrip.{IsEncodable}
use casa_os_common.Stats.Ring.Layout.{ring_file_size}
use casa_os_common.Stats.Ring.Disk.{File, Ring, store}
use casa_os_common.Stats.Ring.Write.{write_header}
use casa_os_common.Stats.Ring.Open.{header_copy, ring_from, parse_ring}
use casa_os_common.Stats.Ring.Recover.{
  len-encode_header, IsOpen, Older, HasCopy, store_in, size-store, header_copy_ext,
  header_copy-encode_header, header_copy-store_other, parse_current,
}
use casa_os_common.Stats.Ring.Torn.{
  next_header, tear, write_header_by, write_header_torn_by, torn_copy, Detects,
  header_copy_mismatch,
}

module _ (crc : Bytes → ℕ) (crc_fits : (bs : Bytes) → crc bs < 2 ^ 32) (r : Ring) (h : Header) where
  abbrev h' : Header
  h' = next_header crc r h

  -- The ring that a restart builds from a header.
  abbrev ring_of : File → Header → ℕ → Ring
  ring_of f k cur = record {
    file = f;
    plan = [];
    item = k.name;
    hdr = k;
    cur = cur;
    published = k.keys;
    forgotten = k.forgotten;
    closed = false;
  }

  -- What `addSeries` and `setForgotten` hand to `writeHeader`.
  pub record CanWrite : Type 0 where
    pub encodable : IsEncodable h'
    pub name_len_set : h.name_len ≡ length h.name
    pub same_item : h.name ≡ r.item
    pub size_fits : ring_file_size (length h.keys) ≤ r.file.size
    pub seq_room : r.hdr.seq + 1 < 2 ^ 64

  module _ (v : IsOpen crc r) (w : CanWrite) (n : ℕ) (le : n ≤ header_size) where
    abbrev g : File
    g = store (encode_header crc h') n ((1 - r.cur) * header_size) r.file

    sizes : (g.size ≡ r.file.size) × HasCopy r.file 0 × HasCopy r.file 1
    sizes = omega (
      arith,
      v.size_fits,
      v.cur_in,
      size-store (encode_header crc h') n ((1 - r.cur) * header_size) r.file
          (omega (arith, v.size_fits, v.cur_in)),
    )

    -- The current copy stays readable whatever happens to the write.
    current_kept : header_copy crc g r.cur ≡ ok (some r.hdr)
    current_kept =
        header_copy-store_other crc (encode_header crc h') n r.cur (1 - r.cur) r.file
          (omega (arith, sizes, v.cur_in)) (omega (arith, sizes, v.cur_in)) le
          (omega (arith, v.cur_in))
        ∙ v.current

    found_new :
        header_copy crc g (1 - r.cur) ≡ ok (some h')
        → (r' : Ring) × (parse_ring crc g ≡ ok r') × (r'.hdr ≡ h')
    unfolding ring_from
    found_new e = (
      ring_of g h' (1 - r.cur),
      parse_current crc g (1 - r.cur) h' (some r.hdr) (omega arith) e
            (ap (header_copy crc g) (omega (arith, v.cur_in)) ∙ current_kept)
            (omega (arith, w.seq_room))
          ∙ ground (arith, w.size_fits, sizes),
      refl,
    )

    found_old :
        (o : Option Header)
        → header_copy crc g (1 - r.cur) ≡ ok o
        → Older o r.hdr.seq
        → (r' : Ring) × (parse_ring crc g ≡ ok r') × (r'.hdr ≡ r.hdr)
    unfolding ring_from
    found_old o e old = (
      ring_of g r.hdr r.cur,
      parse_current crc g r.cur r.hdr o v.cur_in current_kept e old
          ∙ ground (arith, v.size_fits, sizes),
      refl,
    )

    new_copy :
        ((j : ℕ) → j < header_len → torn_copy crc r h n j ≡ (encode_header crc h').at j)
        → header_copy crc g (1 - r.cur) ≡ ok (some h')
    new_copy same =
        header_copy-encode_header crc crc_fits h' (1 - r.cur) g w.encodable
          (omega (arith, sizes, v.cur_in)) same
        ∙ ap (λ k. ok (some (record h' { name_len = k }))) (sym w.name_len_set)

    -- Whatever a torn write leaves, a restart finds the old header or the new one.
    pub parse_ring_torn :
        (n < header_len → Detects crc r h n)
        → (r' : Ring) × (parse_ring crc g ≡ ok r') × ((r'.hdr ≡ r.hdr) ⊎ (r'.hdr ≡ h'))
    parse_ring_torn detects = elim (dec_lt n header_len) [
      | no long ↦ or_new (
          found_new (
            new_copy (λ j q.
              store_in (encode_header crc h') n ((1 - r.cur) * header_size) r.file j
                (omega arith))))
      | yes short ↦ elim (detects short) [
        | inl same ↦ or_old (
            found_old v.other
              (header_copy_ext crc g r.file (1 - r.cur) (omega (arith, sizes, v.cur_in))
                  (omega (arith, sizes, v.cur_in)) same
                ∙ v.other_is)
              v.other_older)
        | inr (inl same) ↦ or_new (found_new (new_copy same))
        | inr (inr wrong) ↦
            or_old (found_old none (header_copy_mismatch crc g (1 - r.cur) wrong) tt)
      ]
    ]
      where
        or_old :
            (r' : Ring) × (parse_ring crc g ≡ ok r') × (r'.hdr ≡ r.hdr)
            → (r' : Ring) × (parse_ring crc g ≡ ok r') × ((r'.hdr ≡ r.hdr) ⊎ (r'.hdr ≡ h'))
        or_old (a, p, e) = (a, p, inl e)

        or_new :
            (r' : Ring) × (parse_ring crc g ≡ ok r') × (r'.hdr ≡ h')
            → (r' : Ring) × (parse_ring crc g ≡ ok r') × ((r'.hdr ≡ r.hdr) ⊎ (r'.hdr ≡ h'))
        or_new (a, p, e) = (a, p, inr e)

  module _ (v : IsOpen crc r) (w : CanWrite) where
    abbrev b : Buf
    b = encode_header crc h'

    full : b.len ≤ header_size
    full = omega (arith, len-encode_header crc h')

    -- On an open ring with a sequence number that can grow, and for a header that has the name of the ring,
    -- that can be encoded, and for the series of which the file is large enough, as setForgotten hands one
    -- over: when the write and the sync succeed, writeHeader succeeds and leaves the ring open with the new
    -- header, which the file holds as its newest copy.
    pub write_header-IsOpen :
        tear r.plan ≡ none
        → ((write_header crc h r).0 ≡ ok tt)
          × IsOpen crc (write_header crc h r).1
          × ((write_header crc h r).1.hdr ≡ h')
    write_header-IsOpen t =
        let (p, e) = write_header_by crc r h r.plan refl t in
        rw e (
          refl,
          record {
            cur_in = omega arith;
            current = new_copy v w b.len full (λ j q.
                store_in b b.len ((1 - r.cur) * header_size) r.file j
                  (omega (arith, len-encode_header crc h')));
            other = some r.hdr;
            other_is =
                ap (header_copy crc (g v w b.len full)) (omega (arith, v.cur_in))
                ∙ current_kept v w b.len full;
            other_older = omega (arith, w.seq_room);
            encodable = w.encodable;
            name_len_set = w.name_len_set;
            size_fits = omega (arith, w.size_fits, sizes v w b.len full);
            item_is = sym w.same_item;
            published_is = refl;
            forgotten_is = refl;
          },
          refl,
        )

    -- On such a ring and for such a header: when the write is torn behind n bytes, or its sync fails,
    -- writeHeader returns an error, keeps the header, copy and published keys in memory, and a restart that
    -- can read the file finds a ring with the old header or with the new one, if the checksum tells a torn
    -- copy from both.
    pub write_header_failed :
        (n : ℕ)
        → tear r.plan ≡ some n
        → (n < header_len → Detects crc r h n)
        → ((write_header crc h r).0 ≡ err (cause io_error))
          × ((write_header crc h r).1.hdr ≡ r.hdr)
          × ((write_header crc h r).1.cur ≡ r.cur)
          × ((write_header crc h r).1.published ≡ r.published)
          × ((r' : Ring) × (parse_ring crc (write_header crc h r).1.file ≡ ok r')
              × ((r'.hdr ≡ r.hdr) ⊎ (r'.hdr ≡ h')))
    write_header_failed n t detects =
        let (le, p, e) = write_header_torn_by crc r h n r.plan refl t in
        rw e (refl, refl, refl, refl, parse_ring_torn v w n le detects)
