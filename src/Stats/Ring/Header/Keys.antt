-- ===== src/Stats/Ring/Header/Keys.antt =====
-- The key slots of an encoded header, written by `encodeHeader` and read by `decodeHeader`
-- (pkg/stats/ring.go).
use casa_os_common.Common.{
  ℕ, zero, suc, ◌+◌, ◌*◌, ◌%◌, ◌≤◌, ◌<◌, ◌≡◌, refl, ap, ◌∙◌, ◌⊎◌, inl, inr, List, [], ◌∷◌, arith,
  length, take, leb_false→lt, ltb_false→le, leb→le, length-take, take_of_length-le, Bool-cases, leb,
  ltb, Bytes,
}
use casa_os_common.Stats.Errors.{ok}
use casa_os_common.Stats.Limits.{max_series, max_key_len, key_slot, off_keys, off_seq}
use casa_os_common.Stats.Ring.Buffer.{
  Mem, write, read, write_in, write_out, read_ext, read-write_self,
}
use casa_os_common.Stats.Ring.Header.{put_key, put_keys, get_keys}

-- Each key has from one to 63 bytes.
abbrev pub FitKeys : List Bytes → Type 0
FitKeys [] = Unit
FitKeys (k ∷ ks) = (1 ≤ length k) × (length k ≤ max_key_len) × FitKeys ks

put_key_out :
    (i : ℕ) (k : Bytes) (m : Mem) (j : ℕ)
    → (j < off_keys + i * key_slot) ⊎ (off_keys + suc i * key_slot ≤ j)
    → put_key i k m j ≡ m j
unfolding put_key
put_key_out i k m j h =
    write_out (off_keys + i * key_slot + 1) (take 63 k) _ j (omega (arith, length-take 63 k))
    ∙ write_out (off_keys + i * key_slot) (length k % 256 ∷ []) m j (omega arith)

put_key_len :
    (i : ℕ) (k : Bytes) (m : Mem)
    → length k ≤ max_key_len
    → put_key i k m (off_keys + i * key_slot) ≡ length k
unfolding put_key
put_key_len i k m h =
    write_out (off_keys + i * key_slot + 1) (take 63 k) _ (off_keys + i * key_slot) (omega arith)
    ∙ ap (write (off_keys + i * key_slot) (length k % 256 ∷ []) m) (omega arith)
    ∙ write_in (off_keys + i * key_slot) (length k % 256 ∷ []) m 0 (omega arith)
    ∙ omega arith

put_key_bytes :
    (i : ℕ) (k : Bytes) (m : Mem)
    → length k ≤ max_key_len
    → read (off_keys + i * key_slot + 1) (length k) (put_key i k m) ≡ k
unfolding put_key
put_key_bytes i k m h = rw (take_of_length-le 63 k h) (
    read-write_self (off_keys + i * key_slot + 1) k
      (write (off_keys + i * key_slot) (length k % 256 ∷ []) m))

-- Bytes before slot `i` and behind the last slot keep their value.
pub put_keys_out :
    (i : ℕ) (ks : List Bytes) (m : Mem) (j : ℕ)
    → (j < off_keys + i * key_slot) ⊎ (off_seq ≤ j)
    → put_keys i ks m j ≡ m j
unfolding put_keys
put_keys_out i [] m j h = refl
put_keys_out i (k ∷ ks) m j h = elim (Bool-cases (leb max_series i)) [
  | inl e ↦ rw e
  | inr e ↦ rw e (
      put_keys_out (suc i) ks (put_key i k m) j (omega arith)
      ∙ put_key_out i k m j (omega (arith, leb_false→lt 48 i e)))
]

pub read-put_keys :
    (i : ℕ) (ks : List Bytes) (m : Mem) (off n : ℕ)
    → (off + n ≤ off_keys + i * key_slot) ⊎ (off_seq ≤ off)
    → read off n (put_keys i ks m) ≡ read off n m
read-put_keys i ks m off n h =
    read_ext off n (put_keys i ks m) m (λ j p q. put_keys_out i ks m j (omega arith))

-- The slots of `n` keys from `i` on decide what the loop reads.
pub get_keys_ext :
    (n i : ℕ) (m m' : Mem)
    → i + n ≤ max_series
    → ((j : ℕ) → off_keys + i * key_slot ≤ j → j < off_seq → m j ≡ m' j)
    → get_keys n i m ≡ get_keys n i m'
unfolding get_keys
get_keys_ext zero i m m' b h = refl
get_keys_ext (suc n) i m m' b h =
    let l : m (off_keys + i * key_slot) ≡ m' (off_keys + i * key_slot) =
      h (off_keys + i * key_slot) (omega arith) (omega arith) in
    let rest : get_keys n (suc i) m ≡ get_keys n (suc i) m' =
      get_keys_ext n (suc i) m m' (omega arith) (λ j p q. h j (omega arith) q) in
    elim (Bool-cases (ltb 63 (m' (off_keys + i * key_slot)))) [
      | inl e ↦ ground arith
      | inr e ↦
          let bytes =
            read_ext (off_keys + i * key_slot + 1) (m' (off_keys + i * key_slot)) m m'
              (λ j p q. h j (omega arith) (omega (arith, ltb_false→le 63 _ e))) in
          rw (l, rest, bytes)
    ]

put_keys-cons :
    (i : ℕ) (k : Bytes) (ks : List Bytes) (m : Mem)
    → i < max_series
    → put_keys i (k ∷ ks) m ≡ put_keys (suc i) ks (put_key i k m)
unfolding put_keys
put_keys-cons i k ks m h = elim (Bool-cases (leb max_series i)) [
  | inl e ↦ absurd (omega (arith, leb→le 48 i e))
  | inr e ↦ rw e
]

get_keys-cons :
    (n i : ℕ) (k : Bytes) (ks : List Bytes) (m : Mem)
    → 1 ≤ length k
    → length k ≤ max_key_len
    → m (off_keys + i * key_slot) ≡ length k
    → read (off_keys + i * key_slot + 1) (length k) m ≡ k
    → get_keys n (suc i) m ≡ ok ks
    → get_keys (suc n) i m ≡ ok (k ∷ ks)
unfolding get_keys
get_keys-cons n i k ks m lo hi l bytes rest = rw (l, rest, bytes) (ground arith)

-- The loop of `decodeHeader` reads the keys that the loop of `encodeHeader` wrote.
pub get_keys-put_keys :
    (i : ℕ) (ks : List Bytes) (m : Mem)
    → i + length ks ≤ max_series
    → FitKeys ks
    → get_keys (length ks) i (put_keys i ks m) ≡ ok ks
unfolding get_keys
get_keys-put_keys i [] m b f = refl
get_keys-put_keys i (k ∷ ks) m b f =
    let m' = put_key i k m in
    let pos = off_keys + i * key_slot in
    rw (put_keys-cons i k ks m (omega arith)) (
      get_keys-cons (length ks) i k ks (put_keys (suc i) ks m') f.0 f.1
        (put_keys_out (suc i) ks m' pos (omega arith) ∙ put_key_len i k m f.1)
        (read-put_keys (suc i) ks m' (pos + 1) (length k) (omega arith) ∙ put_key_bytes i k m f.1)
        (get_keys-put_keys (suc i) ks m' (omega arith) f.2))
