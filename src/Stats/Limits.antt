-- ===== src/Stats/Limits.antt =====
-- The constants of pkg/stats/types.go and pkg/stats/ring.go.
use casa_os_common.Common.{ℕ, ◌+◌, ◌*◌, [], ◌∷◌, Bytes}

abbrev pub minutes : ℕ
minutes = 10080

abbrev pub live_slots : ℕ
live_slots = 180

abbrev pub max_series : ℕ
max_series = 48

abbrev pub max_items : ℕ
max_items = 256

abbrev pub max_forgotten : ℕ
max_forgotten = 256

abbrev pub max_key_len : ℕ
max_key_len = 63

abbrev pub max_item_len : ℕ
max_item_len = 256

abbrev pub format_version : ℕ
format_version = 1

abbrev pub max_file_size : ℕ
max_file_size = 8192 + 40320 * (1 + 3 * max_series)

abbrev pub header_size : ℕ
header_size = 4096

abbrev pub data_start : ℕ
data_start = 2 * header_size

abbrev pub col_bytes : ℕ
col_bytes = minutes * 4

abbrev pub key_slot : ℕ
key_slot = 64

abbrev pub off_version : ℕ
off_version = 8

abbrev pub off_minutes : ℕ
off_minutes = 12

abbrev pub off_forgotten : ℕ
off_forgotten = 16

abbrev pub off_name_len : ℕ
off_name_len = 24

abbrev pub off_name : ℕ
off_name = 26

abbrev pub off_nseries : ℕ
off_nseries = off_name + max_item_len

abbrev pub off_keys : ℕ
off_keys = off_nseries + 4

abbrev pub off_seq : ℕ
off_seq = off_keys + max_series * key_slot

abbrev pub off_crc : ℕ
off_crc = off_seq + 8

abbrev pub header_len : ℕ
header_len = off_crc + 4

-- 'R', 'C', 'S', 'T', 'A', 'T', 'S', 0
abbrev pub magic : Bytes
magic = 82 ∷ 67 ∷ 83 ∷ 84 ∷ 65 ∷ 84 ∷ 83 ∷ 0 ∷ []
