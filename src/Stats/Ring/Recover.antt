-- ===== src/Stats/Ring/Recover.antt =====
-- The header copies of a ring file (pkg/stats/ring.go): what a restart finds after `writeHeader`,
-- whether it succeeded or was torn.
use casa_os_common.Common.{
  inr, inl, ltb, Bool-cases, if◌then◌else◌, true, Bool, ℕ, zero, suc, ◌+◌, ◌-◌, ◌*◌, ◌^◌, ◌≤◌, ◌<◌,
  ◌≡◌, refl, ap, ◌∙◌, ◌⊎◌, ◌≢◌, Option, none, some, [], length, arith, Bytes, false,
}
use casa_os_common.Stats.Errors.{corrupt, cause, wrap, err, Result, ok}
use casa_os_common.Stats.Limits.{header_size, header_len}
use casa_os_common.Stats.Ring.Buffer.{Buf}
use casa_os_common.Stats.Ring.Header.{Header, encode_header, decode_header}
use casa_os_common.Stats.Ring.Header.Roundtrip.{IsEncodable, decode_header-encode_header}
use casa_os_common.Stats.Ring.Header.Extent.{decode_header_ext}
use casa_os_common.Stats.Ring.Layout.{ring_file_size}
use casa_os_common.Stats.Ring.Disk.{File, Ring, store}
use casa_os_common.Stats.Ring.Open.{
  Reads, parse_ring_by, header_copy, newer_copy, ring_from, parse_ring,
}

pub store_in :
    (b : Buf) (n off : ℕ) (f : File) (i : ℕ) → i < n → (store b n off f).at (off + i) ≡ b.at i
unfolding store
store_in b n off f i h = let e : off + i - off ≡ i = omega arith in ground (arith, ap b.at e)

pub store_out :
    (b : Buf) (n off : ℕ) (f : File) (i : ℕ)
    → (i < off) ⊎ (off + n ≤ i)
    → (store b n off f).at i ≡ f.at i
unfolding store
store_out b n off f i h = ground arith

pub size-store :
    (b : Buf) (n off : ℕ) (f : File) → off + n ≤ f.size → (store b n off f).size ≡ f.size
unfolding store
size-store b n off f h = ground arith

-- A copy that is not there or has a smaller seq.
abbrev pub Older : Option Header → ℕ → Type 0
Older none s = Unit
Older (some o) s = o.seq < s

abbrev pub HasCopy : File → ℕ → Type 0
HasCopy f i = i * header_size + header_size ≤ f.size

pub len-encode_header : (crc : Bytes → ℕ) (h : Header) → (encode_header crc h).len ≡ header_size
unfolding encode_header
len-encode_header crc h = refl

module _ (crc : Bytes → ℕ) where
  -- A copy is what its bytes up to `header_len` say.
  pub header_copy_ext :
      (f g : File) (i : ℕ)
      → HasCopy f i
      → HasCopy g i
      → ((j : ℕ) → j < header_len → f.at (i * header_size + j) ≡ g.at (i * header_size + j))
      → header_copy crc f i ≡ header_copy crc g i
  unfolding header_copy
  header_copy_ext f g i bf bg same = ground (
    arith,
    decode_header_ext (λ j. f.at (i * header_size + j)) (λ j. g.at (i * header_size + j)) same crc
        header_size,
  )

  -- A copy that holds the bytes of an encoded header up to the checksum is read as that header.
  pub header_copy-encode_header :
      (crc_fits : (bs : Bytes) → crc bs < 2 ^ 32) (h : Header) (i : ℕ) (f : File)
      → IsEncodable h
      → HasCopy f i
      → ((j : ℕ) → j < header_len → f.at (i * header_size + j) ≡ (encode_header crc h).at j)
      → header_copy crc f i ≡ ok (some (record h { name_len = length h.name }))
  unfolding header_copy
  header_copy-encode_header crc_fits h i f v has same = ground (
    arith,
    decode_header_ext (λ j. f.at (i * header_size + j)) (encode_header crc h).at same crc
        header_size,
    len_is,
    decode_header-encode_header crc crc_fits h v,
  )
    where
      len_is :
          decode_header crc (record { len = header_size; at = (encode_header crc h).at })
          ≡ decode_header crc (encode_header crc h)
      len_is = unfold encode_header in refl

  -- A write into one copy leaves the other alone.
  pub header_copy-store_other :
      (b : Buf) (n i k : ℕ) (f : File)
      → HasCopy f i
      → HasCopy f k
      → n ≤ header_size
      → i ≢ k
      → header_copy crc (store b n (k * header_size) f) i ≡ header_copy crc f i
  header_copy-store_other b n i k f hi hk le ne =
      header_copy_ext (store b n (k * header_size) f) f i
        (omega (arith, size-store b n (k * header_size) f (omega arith))) hi
        (λ j q. store_out b n (k * header_size) f (i * header_size + j) (omega arith))

  parse_copies :
      (f : File) (a b : Option Header)
      → header_copy crc f 0 ≡ ok a
      → header_copy crc f 1 ≡ ok b
      → parse_ring crc f ≡ ring_from crc f (newer_copy crc a b)
  unfolding parse_ring
  parse_copies f a b p q = rw (p, q)

  -- The copy with the higher seq is the one that a restart takes.
  pub parse_current :
      (f : File) (cur : ℕ) (h : Header) (o : Option Header)
      → cur ≤ 1
      → header_copy crc f cur ≡ ok (some h)
      → header_copy crc f (1 - cur) ≡ ok o
      → Older o h.seq
      → parse_ring crc f ≡ ring_from crc f (some (h, cur))
  unfolding newer_copy
  parse_current f zero h none le p q old = parse_copies f (some h) none p q
  parse_current f zero h (some o) le p q old =
      parse_copies f (some h) (some o) p q ∙ ap (ring_from crc f) (ground arith)
  parse_current f (suc zero) h none le p q old = parse_copies f none (some h) q p
  parse_current f (suc zero) h (some o) le p q old =
      parse_copies f (some o) (some h) q p ∙ ap (ring_from crc f) (ground arith)
  parse_current f (suc (suc k)) h o le p q old = absurd (omega arith)

  -- An open ring and its file agree: the current header is the newest valid copy.
  pub record IsOpen (r : Ring) : Type 0 where
    pub cur_in : r.cur ≤ 1
    pub current : header_copy crc r.file r.cur ≡ ok (some r.hdr)
    pub other : Option Header
    pub other_is : header_copy crc r.file (1 - r.cur) ≡ ok other
    pub other_older : Older other r.hdr.seq
    pub encodable : IsEncodable r.hdr
    pub name_len_set : r.hdr.name_len ≡ length r.hdr.name
    pub size_fits : ring_file_size (length r.hdr.keys) ≤ r.file.size
    pub item_is : r.item ≡ r.hdr.name
    pub published_is : r.published ≡ r.hdr.keys
    pub forgotten_is : r.forgotten ≡ r.hdr.forgotten

  -- Whether the copy of the header with that index is read.
  abbrev pub is_read : Reads → ℕ → Bool
  is_read s zero = s.first_ok
  is_read s (suc i) = s.second_ok

  -- The ring of the older copy, if it is there and was read.
  abbrev pub older_ring : Ring → Bool → Option Header → Result Ring
  older_ring r false o = err (wrap (cause corrupt))
  older_ring r true none = err (wrap (cause corrupt))
  older_ring r true (some h) =
      if ltb r.file.size (ring_file_size (length h.keys))
      then err (wrap (cause corrupt))
      else ok (record {
        file = r.file;
        plan = [];
        item = h.name;
        hdr = h;
        cur = 1 - r.cur;
        published = h.keys;
        forgotten = h.forgotten;
        closed = false;
      })

  -- The older copy where it was read.
  abbrev other_of : Bool → Option Header → ℕ → Option (Header × ℕ)
  other_of false o k = none
  other_of true none k = none
  other_of true (some h) k = some (h, k)

  parse_copies_by :
      (s : Reads) (f : File) (a b : Option Header)
      → s.stat_ok ≡ true
      → header_copy crc f 0 ≡ ok a
      → header_copy crc f 1 ≡ ok b
      → parse_ring_by crc s f
        ≡ ring_from crc f
            (newer_copy crc (if s.first_ok then a else none) (if s.second_ok then b else none))
  unfolding parse_ring_by
  parse_copies_by s f a b t p q = elim (Bool-cases s.first_ok) [
    | inl x ↦ elim (Bool-cases s.second_ok) [
      | inl y ↦ simp (t, x, y, p, q) refl
      | inr y ↦ simp (t, x, y, p) refl
    ]
    | inr x ↦ elim (Bool-cases s.second_ok) [
      | inl y ↦ simp (t, x, y, q) refl
      | inr y ↦ simp (t, x, y) refl
    ]
  ]

  newer_first :
      (x y : Bool) (h : Header) (o : Option Header)
      → Older o h.seq
      → newer_copy crc (if x then some h else none) (if y then o else none)
        ≡ (if x then some (h, 0) else other_of y o 1)
  unfolding newer_copy
  newer_first true true h none old = refl
  newer_first true true h (some o) old = ground (arith, old)
  newer_first true false h o old = refl
  newer_first false true h none old = refl
  newer_first false true h (some o) old = refl
  newer_first false false h o old = refl

  newer_second :
      (x y : Bool) (h : Header) (o : Option Header)
      → Older o h.seq
      → newer_copy crc (if x then o else none) (if y then some h else none)
        ≡ (if y then some (h, 1) else other_of x o 0)
  unfolding newer_copy
  newer_second true true h none old = refl
  newer_second true true h (some o) old = ground (arith, old)
  newer_second true false h none old = refl
  newer_second true false h (some o) old = refl
  newer_second false true h o old = refl
  newer_second false false h o old = refl

  parse_current_by :
      (s : Reads) (f : File) (cur : ℕ) (h : Header) (o : Option Header)
      → s.stat_ok ≡ true
      → cur ≤ 1
      → header_copy crc f cur ≡ ok (some h)
      → header_copy crc f (1 - cur) ≡ ok o
      → Older o h.seq
      → parse_ring_by crc s f
        ≡ ring_from crc f
            (if is_read s cur then some (h, cur) else other_of (is_read s (1 - cur)) o (1 - cur))
  parse_current_by s f zero h o t le p q old =
      parse_copies_by s f (some h) o t p q
      ∙ ap (ring_from crc f) (newer_first s.first_ok s.second_ok h o old)
  parse_current_by s f (suc zero) h o t le p q old =
      parse_copies_by s f o (some h) t q p
      ∙ ap (ring_from crc f) (newer_second s.first_ok s.second_ok h o old)
  parse_current_by s f (suc (suc k)) h o t le p q old = absurd (omega arith)

  ring_from-other_of :
      (r : Ring) (b : Bool) (o : Option Header)
      → ring_from crc r.file (other_of b o (1 - r.cur)) ≡ older_ring r b o
  unfolding ring_from
  ring_from-other_of r false o = refl
  ring_from-other_of r true none = refl
  ring_from-other_of r true (some h) = refl

  ring_from_current :
      (r : Ring)
      → IsOpen r
      → ring_from crc r.file (some (r.hdr, r.cur)) ≡ ok (record r { plan = []; closed = false })
  unfolding ring_from
  ring_from_current r v = ground (arith, v.size_fits, v.item_is, v.published_is, v.forgotten_is)

  -- The ring that comes of the copies that are read.
  abbrev pub reopened : Ring → Bool → Bool → Option Header → Result Ring
  reopened r true b o = ok (record r { plan = []; closed = false })
  reopened r false b o = older_ring r b o

  ring_from-reopened :
      (r : Ring) (x y : Bool) (o : Option Header)
      → IsOpen r
      → ring_from crc r.file (if x then some (r.hdr, r.cur) else other_of y o (1 - r.cur))
        ≡ reopened r x y o
  ring_from-reopened r true y o v = ring_from_current r v
  ring_from-reopened r false y o v = ring_from-other_of r y o

  pub parse_ring_open :
      (r : Ring) → IsOpen r → parse_ring crc r.file ≡ ok (record r { plan = []; closed = false })
  parse_ring_open r v =
      parse_current r.file r.cur r.hdr v.other v.cur_in v.current v.other_is v.other_older
      ∙ ring_from_current r v

  -- Where the Stat of it succeeds, parsing the file of an open ring gives that ring, with the same headers,
  -- item, keys and forgotten mark, if the current copy of its header can be read. If it cannot, it gives
  -- the ring of the older copy, where that is there, can be read and the file is large enough for its
  -- series, and the error of a corrupt file otherwise.
  pub parse_ring-IsOpen :
      (r : Ring) (s : Reads) (v : IsOpen r)
      → s.stat_ok ≡ true
      → parse_ring_by crc s r.file ≡ reopened r (is_read s r.cur) (is_read s (1 - r.cur)) v.other
  parse_ring-IsOpen r s v t =
      parse_current_by s r.file r.cur r.hdr v.other t v.cur_in v.current v.other_is v.other_older
      ∙ ring_from-reopened r (is_read s r.cur) (is_read s (1 - r.cur)) v.other v
