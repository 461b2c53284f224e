-- ===== src/Stats/Ring/Disk.antt =====
-- The state of an open ring (`ring` of pkg/stats/ring.go), and calls of its file that can fail.
-- A method returns its result beside the new state, on an error too.
use casa_os_common.Common.{
  ℕ, ◌+◌, ◌-◌, ◌≡◌, ap, Bool, ◌&&◌, List, [], ◌∷◌, ltb, leb, if◌then◌else◌, min, max, Bytes,
}
use casa_os_common.Common.Int.{ℤ}
use casa_os_common.Stats.Errors.{Err, Result, ok, err, cause, io_error}
use casa_os_common.Stats.Ring.Buffer.{Mem, Buf}
use casa_os_common.Stats.Ring.Header.{Header}

pub record File : Type 0 where
  pub size : ℕ
  pub at : Mem

-- What becomes of one call of `WriteAt` or `Sync`: it succeeds, or it fails; a failed `WriteAt` has
-- stored that many bytes of its buffer.
pub data Fate : Type 0 where
  done : Fate
  failed : ℕ → Fate

-- `plan` holds the fates of the calls to come; past its end calls succeed. `published` and
-- `forgotten` are the atomics that readers load.
pub record Ring : Type 0 where
  pub file : File
  pub plan : List Fate
  pub item : Bytes
  pub hdr : Header
  pub cur : ℕ
  pub published : List Bytes
  pub forgotten : ℤ
  pub closed : Bool

-- The first `n` bytes of the buffer go to the file from `off` on.
unfoldable pub store : Buf → ℕ → ℕ → File → File
store b n off f = record {
  size = if ltb 0 n then max f.size (off + n) else f.size;
  at = λ i. if leb off i && ltb i (off + n) then b.at (i - off) else f.at i;
}

abbrev pub M : Type 0 → Type 0
M A = Ring → Result A × Ring

-- An early return on an error keeps the state.
abbrev pub and_then : {A B : Type 0} → Result A × Ring → (A → M B) → Result B × Ring
and_then (ok a, r) f = f a r
and_then (err e, r) f = (err e, r)

infixl 5 ◌>>=◌ ◌>>◌
abbrev pub ◌>>=◌ : {A B : Type 0} → M A → (A → M B) → M B
◌>>=◌ m f r = and_then (m r) f

abbrev pub ◌>>◌ : {B : Type 0} → M (Unit {0}) → M B → M B
m >> k = m >>= λ _. k

abbrev pub return : {A : Type 0} → A → M A
return a r = (ok a, r)

abbrev pub throw : {A : Type 0} → Err → M A
throw e r = (err e, r)

abbrev pub get : M Ring
get r = (ok r, r)

abbrev pub put : Ring → M (Unit {0})
put r' r = (ok tt, r')

-- `r.f.WriteAt(b, off)`
write_at_fate : Buf → ℕ → List Fate → Ring → Result (Unit {0}) × Ring
write_at_fate b off [] r = (ok tt, record r { file = store b b.len off r.file })
write_at_fate b off (done ∷ plan) r =
    (ok tt, record r { file = store b b.len off r.file; plan = plan })
write_at_fate b off (failed n ∷ plan) r =
    (err (cause io_error), record r { file = store b (min n b.len) off r.file; plan = plan })

unfoldable pub write_at : Buf → ℕ → M (Unit {0})
unfolding write_at_fate
write_at b off r = write_at_fate b off r.plan r

-- `r.f.Sync()`
sync_fate : List Fate → Ring → Result (Unit {0}) × Ring
sync_fate [] r = (ok tt, r)
sync_fate (done ∷ plan) r = (ok tt, record r { plan = plan })
sync_fate (failed n ∷ plan) r = (err (cause io_error), record r { plan = plan })

unfoldable pub sync : M (Unit {0})
unfolding sync_fate
sync r = sync_fate r.plan r

-- A bind whose first part is known.
pub >>=-ok :
    {A B : Type 0} (m : M A) (f : A → M B) (r : Ring) {a : A} {r' : Ring}
    → m r ≡ (ok a, r')
    → (m >>= f) r ≡ f a r'
>>=-ok m f r e = ap (λ out. and_then out f) e

pub >>=-err :
    {A B : Type 0} (m : M A) (f : A → M B) (r : Ring) {e : Err} {r' : Ring}
    → m r ≡ (err e, r')
    → (m >>= f) r ≡ (err e, r')
>>=-err m f r p = ap (λ out. and_then out f) p

-- Where no call fails.
pub write_at_free :
    (b : Buf) (off : ℕ) (r : Ring)
    → r.plan ≡ []
    → write_at b off r ≡ (ok tt, record r { file = store b b.len off r.file })
unfolding write_at write_at_fate
write_at_free b off r e = ap (λ q. write_at_fate b off q r) e

pub sync_free : (r : Ring) → r.plan ≡ [] → sync r ≡ (ok tt, r)
unfolding sync sync_fate
sync_free r e = ap (λ q. sync_fate q r) e

-- Where the next call is known to succeed or to fail.
pub write_at_complete :
    (b : Buf) (off : ℕ) (r : Ring) (p : List Fate)
    → r.plan ≡ done ∷ p
    → write_at b off r ≡ (ok tt, record r { file = store b b.len off r.file; plan = p })
unfolding write_at write_at_fate
write_at_complete b off r p e = ap (λ q. write_at_fate b off q r) e

pub write_at_failed :
    (b : Buf) (off : ℕ) (r : Ring) (n : ℕ) (p : List Fate)
    → r.plan ≡ failed n ∷ p
    → write_at b off r
      ≡ (err (cause io_error), record r { file = store b (min n b.len) off r.file; plan = p })
unfolding write_at write_at_fate
write_at_failed b off r n p e = ap (λ q. write_at_fate b off q r) e

pub sync_complete :
    (r : Ring) (p : List Fate) → r.plan ≡ done ∷ p → sync r ≡ (ok tt, record r { plan = p })
unfolding sync sync_fate
sync_complete r p e = ap (λ q. sync_fate q r) e

pub sync_failed :
    (r : Ring) (n : ℕ) (p : List Fate)
    → r.plan ≡ failed n ∷ p
    → sync r ≡ (err (cause io_error), record r { plan = p })
unfolding sync sync_fate
sync_failed r n p e = ap (λ q. sync_fate q r) e
