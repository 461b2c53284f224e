-- ===== src/Stats/Ring/Forget.antt =====
-- `setForgotten` of pkg/stats/ring.go, which hands `writeHeader` the header it has with another mark.
use casa_os_common.Common.{sym, ℕ, ◌+◌, ◌^◌, ◌≤◌, ◌<◌, ◌≡◌, ap, ◌∙◌, Bytes, none, arith}
use casa_os_common.Common.Int.{ℤ, pos_part, neg_part}
use casa_os_common.Stats.Errors.{ok}
use casa_os_common.Stats.Ring.Header.{Header}
use casa_os_common.Stats.Ring.Header.Roundtrip.{IsEncodable}
use casa_os_common.Stats.Ring.Disk.{Ring}
use casa_os_common.Stats.Ring.Write.{set_forgotten}
use casa_os_common.Stats.Ring.Recover.{IsOpen}
use casa_os_common.Stats.Ring.Torn.{next_header, tear}
use casa_os_common.Stats.Ring.Durable.{CanWrite, write_header-IsOpen}

module _ (crc : Bytes → ℕ) (crc_fits : (bs : Bytes) → crc bs < 2 ^ 32) (r : Ring) (at : ℤ)
    (v : IsOpen crc r) where
  abbrev h : Header
  h = record r.hdr { forgotten = at }

  next-IsEncodable :
      neg_part at ≤ 2 ^ 63
      → pos_part at < 2 ^ 63
      → r.hdr.seq + 1 < 2 ^ 64
      → IsEncodable (next_header crc r h)
  next-IsEncodable low high room = record {
    version_is = v.encodable.version_is;
    minutes_are = v.encodable.minutes_are;
    forgotten_low = low;
    forgotten_high = high;
    name_len_is = v.encodable.name_len_is;
    name_some = v.encodable.name_some;
    name_fits = v.encodable.name_fits;
    keys_fit = v.encodable.keys_fit;
    series_fit = v.encodable.series_fit;
    seq_fits = omega (arith, room);
  }

  -- The header of `setForgotten` meets the conditions of `writeHeader`.
  pub set_forgotten-CanWrite :
      neg_part at ≤ 2 ^ 63
      → pos_part at < 2 ^ 63
      → r.hdr.seq + 1 < 2 ^ 64
      → CanWrite crc crc_fits r h
  set_forgotten-CanWrite low high room = record {
    encodable = next-IsEncodable low high room;
    name_len_set = v.name_len_set;
    same_item = sym v.item_is;
    size_fits = v.size_fits;
    seq_room = room;
  }

  -- On an open ring with a sequence number that can grow, setForgotten of any 64-bit time, where its write
  -- and its sync succeed, succeeds and leaves the ring open; readers see the new mark and the same series.
  pub set_forgotten-IsOpen :
      neg_part at ≤ 2 ^ 63
      → pos_part at < 2 ^ 63
      → r.hdr.seq + 1 < 2 ^ 64
      → tear r.plan ≡ none
      → ((set_forgotten crc at r).0 ≡ ok tt)
        × IsOpen crc (set_forgotten crc at r).1
        × ((set_forgotten crc at r).1.forgotten ≡ at)
        × ((set_forgotten crc at r).1.published ≡ r.published)
  unfolding set_forgotten
  set_forgotten-IsOpen low high room t =
      let w = set_forgotten-CanWrite low high room in
      let (done, v', hdr) = write_header-IsOpen crc crc_fits r h v w t in
      (
        done,
        v',
        v'.forgotten_is ∙ ap (λ k. k.forgotten) hdr,
        v'.published_is ∙ ap (λ k. k.keys) hdr ∙ sym v.published_is,
      )
