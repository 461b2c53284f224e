-- ===== src/Stats/Ring/Tests.antt =====
-- Runs of the ring functions (pkg/stats/ring.go) and uses of their theorems at concrete inputs.
use casa_os_common.Common.{
  ℕ, ◌%◌, ◌^◌, ◌<◌, ◌≡◌, refl, ◌⊎◌, inr, arith, true, false, Option, none, some, [], ◌∷◌, Bytes,
  codes, get_or,
}
use casa_os_common.Common.Int.{pos, negsuc, ◌+ℤ◌, ◌-ℤ◌}
use casa_os_common.Stats.Errors.{ok, err, cause, io_error}
use casa_os_common.Stats.Limits.{off_crc}
use casa_os_common.Stats.Ring.Buffer.{read, get_le, write, put_le}
use casa_os_common.Stats.Floats.Toy.{Toy, toy}
use casa_os_common.Stats.Ring.Header.{Header, encode_header, decode_header}
use casa_os_common.Stats.Ring.Header.Roundtrip.{IsEncodable, decode_header-encode_header}
use casa_os_common.Stats.Ring.Layout.{slot_of}
use casa_os_common.Stats.Ring.Disk.{File, Ring, failed, store}
use casa_os_common.Stats.Ring.Write.{set_forgotten, MinuteValue, write_header, write_minute}
use casa_os_common.Stats.Ring.Open.{Reads, parse_ring_by, parse_ring, create_ring, new_file, Calls}
use casa_os_common.Stats.Ring.Create.{new_ring, new_ring-IsOpen, create_ring_new}
use casa_os_common.Stats.Ring.Recover.{reopened, IsOpen, parse_ring-IsOpen}
use casa_os_common.Stats.Ring.Torn.{next_header, torn_copy}
use casa_os_common.Stats.Ring.Forget.{set_forgotten-IsOpen}
use casa_os_common.Stats.Ring.Durable.{CanWrite, write_header-IsOpen, write_header_failed}
use casa_os_common.Stats.Ring.Scan.{still, window_of}
use casa_os_common.Stats.Ring.Lookup.{ReadBack, read_window-still, write_minute-ReadBack}
use casa_os_common.Stats.Ring.Window.{read_window}

-- A checksum that is no more than the low byte of the sequence number.
abbrev sum : Bytes → ℕ
sum bs = get_or bs 3358 0 % 256

sum_fits : (bs : Bytes) → sum bs < 2 ^ 32
sum_fits bs = omega arith

abbrev nas : Bytes
nas = codes "nas"

slots_run : (slot_of (pos 10081) ≡ 1) × (slot_of (negsuc 0) ≡ 10079)
unfolding slot_of ◌+ℤ◌
slots_run = (refl, refl)

abbrev full_header : Header
full_header = record {
  version = 1;
  minute_slots = 10080;
  forgotten = negsuc 4;
  name = nas;
  name_len = 0;
  keys = codes "cpu/total" ∷ codes "fs/free" ∷ [];
  seq = 9;
}

full_header-IsEncodable : IsEncodable full_header
full_header-IsEncodable = omega arith

decode_header-encode_header_example :
    decode_header sum (encode_header sum full_header) ≡ ok (record full_header { name_len = 3 })
decode_header-encode_header_example =
    decode_header-encode_header sum sum_fits full_header full_header-IsEncodable

abbrev ring : Ring
ring = new_ring sum nas

ring-IsOpen : IsOpen sum ring
ring-IsOpen = new_ring-IsOpen sum sum_fits nas (omega arith) (omega arith)

-- The newer copy cannot be read.
abbrev half_read : Reads
half_read = record { stat_ok = true; first_ok = false; second_ok = true }

parse_ring-IsOpen_example :
    parse_ring_by sum half_read ring.file ≡ reopened sum ring false true ring-IsOpen.other
parse_ring-IsOpen_example = parse_ring-IsOpen sum ring half_read ring-IsOpen refl

abbrev forgotten_header : Header
forgotten_header = record ring.hdr { forgotten = pos 60 }

ring-CanWrite : CanWrite sum sum_fits ring forgotten_header
unfolding new_file
ring-CanWrite = ground arith

write_header-IsOpen_example :
    ((write_header sum forgotten_header ring).0 ≡ ok tt)
    × IsOpen sum (write_header sum forgotten_header ring).1
    × ((write_header sum forgotten_header ring).1.hdr ≡ next_header sum ring forgotten_header)
write_header-IsOpen_example =
    write_header-IsOpen sum sum_fits ring forgotten_header ring-IsOpen ring-CanWrite refl

-- The write stops between the sequence number and the checksum.
abbrev torn_ring : Ring
torn_ring = record ring { plan = failed 3366 ∷ [] }

torn_ring-IsOpen : IsOpen sum torn_ring
torn_ring-IsOpen = record {
  cur_in = ring-IsOpen.cur_in;
  current = ring-IsOpen.current;
  other = ring-IsOpen.other;
  other_is = ring-IsOpen.other_is;
  other_older = ring-IsOpen.other_older;
  encodable = ring-IsOpen.encodable;
  name_len_set = ring-IsOpen.name_len_set;
  size_fits = ring-IsOpen.size_fits;
  item_is = ring-IsOpen.item_is;
  published_is = ring-IsOpen.published_is;
  forgotten_is = ring-IsOpen.forgotten_is;
}

torn_ring-CanWrite : CanWrite sum sum_fits torn_ring forgotten_header
unfolding new_file
torn_ring-CanWrite = ground arith

torn_sum :
    (sum (read 0 off_crc (torn_copy sum torn_ring forgotten_header 3366)) ≡ 2)
    × (get_le (read off_crc 4 (torn_copy sum torn_ring forgotten_header 3366)) ≡ 0)
unfolding new_file encode_header store read get_le write put_le
torn_sum = (refl, refl)

write_header_failed_example :
    ((write_header sum forgotten_header torn_ring).0 ≡ err (cause io_error))
    × ((write_header sum forgotten_header torn_ring).1.hdr ≡ ring.hdr)
    × ((write_header sum forgotten_header torn_ring).1.cur ≡ 0)
    × ((write_header sum forgotten_header torn_ring).1.published ≡ [])
    × ((r' : Ring) × (parse_ring sum (write_header sum forgotten_header torn_ring).1.file ≡ ok r')
        × ((r'.hdr ≡ ring.hdr) ⊎ (r'.hdr ≡ next_header sum torn_ring forgotten_header)))
write_header_failed_example =
    write_header_failed sum sum_fits torn_ring forgotten_header torn_ring-IsOpen torn_ring-CanWrite
      3366 refl (λ h. inr (inr (λ e. omega (arith, torn_sum))))

set_forgotten-IsOpen_example :
    ((set_forgotten sum (pos 60) ring).0 ≡ ok tt)
    × IsOpen sum (set_forgotten sum (pos 60) ring).1
    × ((set_forgotten sum (pos 60) ring).1.forgotten ≡ pos 60)
    × ((set_forgotten sum (pos 60) ring).1.published ≡ ring.published)
set_forgotten-IsOpen_example =
    set_forgotten-IsOpen sum sum_fits ring (pos 60) ring-IsOpen (omega arith) (omega arith)
      (omega arith) refl

abbrev cpu_ring : Ring
cpu_ring = record ring {
  file = record { size = 169472; at = ring.file.at };
  hdr = record ring.hdr { keys = codes "cpu/total" ∷ [] };
}

-- The only series had 1500 to 2600, with the average 1700.
abbrev minute_vals : ℕ → Option (MinuteValue Toy)
minute_vals i = some (record { avg = some 1700; low = some 1500; high = some 2600 })

write_minute-ReadBack_example :
    (g : File) × (write_minute toy (pos 28000000) minute_vals cpu_ring
      ≡ (ok tt, record cpu_ring { file = g }))
    × ReadBack toy (pos 28000000) minute_vals 1 cpu_ring.file g
write_minute-ReadBack_example =
    write_minute-ReadBack toy (pos 28000000) minute_vals cpu_ring refl (omega arith)

abbrev calls : Calls
calls = record {
  open_ok = true;
  write_ok = true;
  sync_ok = true;
  close_ok = true;
  rename_ok = true;
  reopen_ok = true;
  reads = record { stat_ok = true; first_ok = true; second_ok = true };
}

create_ring_new_example :
    (create_ring sum nas calls none ≡ (ok ring, some (new_file sum nas))) × IsOpen sum ring
create_ring_new_example =
    create_ring_new sum sum_fits nas (omega arith) (omega arith) calls none refl

read_window-still_example :
    read_window toy false
      (codes "cpu/total" ∷ [])
      (still cpu_ring.file)
      (pos 27999000)
      (pos 27999000 +ℤ pos 1440 -ℤ pos 1)
      []
    ≡ ok (window_of toy cpu_ring.file (pos 27999000) 1440 [] 0 (codes "cpu/total" ∷ []))
read_window-still_example =
    read_window-still toy cpu_ring.file (codes "cpu/total" ∷ []) [] (pos 27999000) 1440
      (omega arith) (omega arith) (omega arith)
