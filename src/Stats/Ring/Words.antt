-- ===== src/Stats/Ring/Words.antt =====
-- A ring file (pkg/stats/ring.go) as a table of 4-byte words: column 0 is the stamp column, and
-- columns 1 + 3 i, 2 + 3 i and 3 + 3 i are those of series i.
use casa_os_common.Common.{ℕ, ◌+◌, ◌*◌, ◌≤◌, ◌<◌, ◌≡◌, sym, ap, ◌∙◌, ◌⊎◌, ◌≢◌, arith, length, Bytes}
use casa_os_common.Stats.Limits.{minutes, data_start, col_bytes}
use casa_os_common.Stats.Ring.Buffer.{read, put_le, length-put_le, read_ext, read_list}
use casa_os_common.Stats.Ring.Disk.{File, store}
use casa_os_common.Stats.Ring.Recover.{store_in, store_out, size-store}
use casa_os_common.Stats.Ring.Write.{buf}

abbrev pub word_pos : ℕ → ℕ → ℕ
word_pos col slot = data_start + col_bytes * col + slot * 4

unfoldable pub word : File → ℕ → ℕ → Bytes
word f col slot = read (word_pos col slot) 4 f.at

-- `WriteAt` of a word.
abbrev pub store_word : ℕ → ℕ → ℕ → File → File
store_word w col slot f = store (buf (put_le 4 w)) (length (put_le 4 w)) (word_pos col slot) f

pub word-store_word :
    (w col slot : ℕ) (f : File) → word (store_word w col slot f) col slot ≡ put_le 4 w
unfolding word
word-store_word w col slot f =
    let g = store_word w col slot f in
    ap (λ n. read (word_pos col slot) n g.at) (sym (length-put_le 4 w))
    ∙ read_list (word_pos col slot) (put_le 4 w) g.at
        (store_in (buf (put_le 4 w)) (length (put_le 4 w)) (word_pos col slot) f)

pub size-store_word :
    (w col slot : ℕ) (f : File)
    → word_pos col slot + 4 ≤ f.size
    → (store_word w col slot f).size ≡ f.size
size-store_word w col slot f h =
    size-store (buf (put_le 4 w)) (length (put_le 4 w)) (word_pos col slot) f
      (omega (arith, length-put_le 4 w))

pub word-store_word_ne :
    (w col slot col' slot' : ℕ) (f : File)
    → slot < minutes
    → slot' < minutes
    → (col' ≢ col) ⊎ (slot' ≢ slot)
    → word (store_word w col slot f) col' slot' ≡ word f col' slot'
unfolding word
word-store_word_ne w col slot col' slot' f h h' ne =
    read_ext (word_pos col' slot') 4 (store_word w col slot f).at f.at (λ i p q.
      store_out (buf (put_le 4 w)) (length (put_le 4 w)) (word_pos col slot) f i (apart i p q))
  where
    apart :
        (i : ℕ)
        → word_pos col' slot' ≤ i
        → i < word_pos col' slot' + 4
        → (i < word_pos col slot) ⊎ (word_pos col slot + length (put_le 4 w) ≤ i)
    apart i p q = omega (arith, length-put_le 4 w)
