-- ===== src/Stats/Ring/Buffer.antt =====
-- Byte buffers and encoding/binary's little-endian words, as pkg/stats/ring.go uses them.
use mathlib.Core.Path.{ap₂}
use native.Mathlib.Nat.{pow-suc}
use casa_os_common.Common.{
  ℕ, zero, suc, ◌+◌, ◌-◌, ◌*◌, ◌/◌, ◌%◌, ◌^◌, ◌≤◌, ◌<◌, ◌≡◌, refl, ap, ◌∙◌, ◌⊎◌, ◌&&◌, [], ◌∷◌,
  arith, ltb, leb, length, get_or, if◌then◌else◌, Bytes, AllBytes,
}

-- The bytes of a buffer or a file by position; fresh memory is zero.
abbrev pub Mem : Type 0
Mem = ℕ → ℕ

abbrev pub zeroed : Mem
zeroed i = 0

-- A `[]byte`: only the first `len` bytes count.
pub record Buf : Type 0 where
  pub len : ℕ
  pub at : Mem

-- `copy(b[off:], bs)`, where the room suffices.
unfoldable pub write : ℕ → Bytes → Mem → Mem
write off bs m i = if leb off i && ltb i (off + length bs) then get_or bs (i - off) 0 else m i

-- `b[off : off+n]`
unfoldable pub read : ℕ → ℕ → Mem → Bytes
read off zero m = []
read off (suc n) m = m off ∷ read (off + 1) n m

-- The `n` low bytes of `x`, least significant first: `PutUint16`, `PutUint32`, `PutUint64`.
unfoldable pub put_le : ℕ → ℕ → Bytes
put_le zero x = []
put_le (suc n) x = x % 256 ∷ put_le n (x / 256)

-- `Uint16`, `Uint32`, `Uint64`
unfoldable pub get_le : Bytes → ℕ
get_le [] = 0
get_le (b ∷ bs) = b + 256 * get_le bs

pub length-read : (off n : ℕ) (m : Mem) → length (read off n m) ≡ n
unfolding read
length-read off zero m = refl
length-read off (suc n) m = ap suc (length-read (off + 1) n m)

pub length-put_le : (n x : ℕ) → length (put_le n x) ≡ n
unfolding put_le
length-put_le zero x = refl
length-put_le (suc n) x = ap suc (length-put_le n (x / 256))

pub write_in :
    (off : ℕ) (bs : Bytes) (m : Mem) (i : ℕ)
    → i < length bs
    → write off bs m (off + i) ≡ get_or bs i 0
unfolding write
write_in off bs m i h =
    let e : off + i - off ≡ i = omega arith in ground (arith, ap (λ k. get_or bs k 0) e)

pub write_out :
    (off : ℕ) (bs : Bytes) (m : Mem) (i : ℕ)
    → (i < off) ⊎ (off + length bs ≤ i)
    → write off bs m i ≡ m i
unfolding write
write_out off bs m i h = ground arith

-- Two memories that agree on a range are read alike there.
pub read_ext :
    (off n : ℕ) (m m' : Mem)
    → ((i : ℕ) → off ≤ i → i < off + n → m i ≡ m' i)
    → read off n m ≡ read off n m'
unfolding read
read_ext off zero m m' h = refl
read_ext off (suc n) m m' h =
    ap₂ ◌∷◌ (h off (omega arith) (omega arith))
      (read_ext (off + 1) n m m' (λ i p q. h i (omega arith) (omega arith)))

pub read_list :
    (off : ℕ) (bs : Bytes) (m : Mem)
    → ((i : ℕ) → i < length bs → m (off + i) ≡ get_or bs i 0)
    → read off (length bs) m ≡ bs
unfolding read
read_list off [] m h = refl
read_list off (b ∷ bs) m h =
    ap₂ ◌∷◌ (ap m (omega arith) ∙ h 0 (omega arith))
      (read_list (off + 1) bs m (λ i p. ap m (omega arith) ∙ h (suc i) (omega arith)))

-- What was written is read back.
pub read-write_self : (off : ℕ) (bs : Bytes) (m : Mem) → read off (length bs) (write off bs m) ≡ bs
read-write_self off bs m = read_list off bs (write off bs m) (write_in off bs m)

-- A write beside the range that is read does not show.
pub read-write_apart :
    (off n off' : ℕ) (bs : Bytes) (m : Mem)
    → (off + n ≤ off') ⊎ (off' + length bs ≤ off)
    → read off n (write off' bs m) ≡ read off n m
read-write_apart off n off' bs m h =
    read_ext off n (write off' bs m) m (λ i p q. write_out off' bs m i (ground arith))

-- Two ranges that hold the same bytes are read alike.
pub read_move :
    (off off' n : ℕ) (m m' : Mem)
    → ((i : ℕ) → i < n → m (off + i) ≡ m' (off' + i))
    → read off n m ≡ read off' n m'
unfolding read
read_move off off' zero m m' h = refl
read_move off off' (suc n) m m' h =
    ap₂ ◌∷◌ (ap m (omega arith) ∙ h 0 (omega arith) ∙ ap m' (omega arith)) (
      read_move (off + 1) (off' + 1) n m m'
        (λ i p. ap m (omega arith) ∙ h (suc i) (omega arith) ∙ ap m' (omega arith)))

pub get_le-put_le : (n x : ℕ) → x < 256 ^ n → get_le (put_le n x) ≡ x
unfolding get_le put_le
get_le-put_le zero x h = omega arith
get_le-put_le (suc n) x h =
    omega (arith, get_le-put_le n (x / 256) (omega (arith, h, pow-suc 256 n)))

pub put_le-AllBytes : (n x : ℕ) → AllBytes (put_le n x)
unfolding put_le
put_le-AllBytes zero x = tt
put_le-AllBytes (suc n) x = (omega arith, put_le-AllBytes n (x / 256))
