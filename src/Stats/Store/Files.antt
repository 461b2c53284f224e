-- ===== src/Stats/Store/Files.antt =====
-- The rings of ring files (`ring` of pkg/stats/ring.go) as those that the store uses.
use casa_os_common.Common.{
  true, ◌||◌, ltb, ℕ, zero, suc, ◌*◌, ◌/◌, ◌+◌, ◌^◌, ◌||◌, ltb, leb, ◌≡◌, refl, ◌≢◌, ◌⊎◌, inl, inr,
  ◌∙◌, sym, arith, Option, List, [], ◌∷◌, ◌++◌, length, Bytes, Option-cases, Bool-cases,
}
use mathlib.Core.Path.{subst}
use casa_os_common.Common.Int.{ℤ, to_word}
use casa_os_common.Stats.Errors.{Err, Result, ok, err, cause, gone, io_error}
use casa_os_common.Stats.Floats.{Floats}
use casa_os_common.Stats.Ring.Header.{Header}
use casa_os_common.Stats.Ring.Buffer.{Buf, put_le, zeroed}
use casa_os_common.Stats.Limits.{col_bytes, max_key_len, max_series, data_start}
use casa_os_common.Stats.Ring.Layout.{ring_file_size, slot_of}
use casa_os_common.Stats.Ring.Disk.{
  File, Fate, done, failed, Ring, M, and_then, write_at, sync, write_at_free, write_at_complete,
  write_at_failed, sync_free, sync_complete, sync_failed,
}
use casa_os_common.Stats.Ring.Write.{
  write_value, value_or_gap, write_header, set_forgotten, add_series, append_series, write_minute,
  write_values, write_series, MinuteValue, fill, buf, index_of, write_value, value_or_gap,
}
use casa_os_common.Stats.Ring.Window.{newest_minute}
use casa_os_common.Stats.Ring.Torn.{
  tear, header_written, header_torn, write_header_by, write_header_torn_by,
}
use casa_os_common.Stats.Store.Rings.{Rings}

-- The mark that readers load is that of the header, as `publish` sees to.
abbrev pub IsPublished : Ring → Type 0
IsPublished r = r.forgotten ≡ r.hdr.forgotten

-- The same, with the mark of another ring.
abbrev pub HasMark : ℤ → Ring → Type 0
HasMark t r = IsPublished r × (r.forgotten ≡ t)

abbrev pub Keeps : {A : Type 0} → M A → Type 0
Keeps m = (r : Ring) → IsPublished r → HasMark r.forgotten (m r).1

and_then-HasMark :
    {A B : Type 0} (t : ℤ) (out : Result A × Ring) (f : A → M B)
    → ((a : A) → Keeps (f a))
    → HasMark t out.1
    → HasMark t (and_then out f).1
and_then-HasMark t (ok a, r) f k (p, e) = let (q, g) = k a r p in (q, g ∙ e)
and_then-HasMark t (err e, r) f k h = h

Keeps-bind :
    {A B : Type 0} (m : M A) (f : A → M B)
    → Keeps m
    → ((a : A) → Keeps (f a))
    → Keeps (λ r. and_then (m r) f)
Keeps-bind m f k h r p = and_then-HasMark r.forgotten (m r) f h (k r p)

-- A ring that differs in its file and plan only.
abbrev touched : Ring → File → List Fate → Ring
touched r f p = record r { file = f; plan = p }

HasMark-by :
    {A : Type 0} {out : Result A × Ring} (r : Ring) {x : Result A} {r' : Ring}
    → out ≡ (x, r')
    → HasMark r.forgotten r'
    → HasMark r.forgotten out.1
HasMark-by r e h = subst (λ o. HasMark r.forgotten o.1) (sym e) h

write_at-Keeps-plan :
    (b : Buf) (off : ℕ) (r : Ring) (plan : List Fate)
    → r.plan ≡ plan
    → IsPublished r
    → HasMark r.forgotten (write_at b off r).1
write_at-Keeps-plan b off r [] e p = HasMark-by r (write_at_free b off r e) (p, refl)
write_at-Keeps-plan b off r (done ∷ q) e p = HasMark-by r (write_at_complete b off r q e) (p, refl)
write_at-Keeps-plan b off r (failed n ∷ q) e p =
    HasMark-by r (write_at_failed b off r n q e) (p, refl)

write_at-Keeps : (b : Buf) (off : ℕ) → Keeps (write_at b off)
write_at-Keeps b off r p = write_at-Keeps-plan b off r r.plan refl p

sync-Keeps-plan :
    (r : Ring) (plan : List Fate) → r.plan ≡ plan → IsPublished r → HasMark r.forgotten (sync r).1
sync-Keeps-plan r [] e p = HasMark-by r (sync_free r e) (p, refl)
sync-Keeps-plan r (done ∷ q) e p = HasMark-by r (sync_complete r q e) (p, refl)
sync-Keeps-plan r (failed n ∷ q) e p = HasMark-by r (sync_failed r n q e) (p, refl)

sync-Keeps : Keeps sync
sync-Keeps r p = sync-Keeps-plan r r.plan refl p

module _ (crc : Bytes → ℕ) where
  write_header_cases :
      (h : Header) (r : Ring)
      → ((p : List Fate) × (write_header crc h r ≡ (ok tt, header_written crc r h p)))
        ⊎ ((n : ℕ) × (p : List Fate) × (write_header crc h r
              ≡ (err (cause io_error), header_torn crc r h n p)))
  write_header_cases h r = elim (Option-cases (tear r.plan)) [
    | inl t ↦ inl (write_header_by crc r h r.plan refl t)
    | inr (n, t) ↦ (let (le, p, e) = write_header_torn_by crc r h n r.plan refl t in inr (n, p, e))
  ]

  pub set_forgotten-IsPublished :
      (t : ℤ) (r : Ring) → IsPublished r → IsPublished (set_forgotten crc t r).1
  unfolding set_forgotten
  set_forgotten-IsPublished t r s = elim (write_header_cases (record r.hdr { forgotten = t }) r) [
    | inl (p, e) ↦ subst (λ o. IsPublished o.1) (sym e) refl
    | inr (n, p, e) ↦ subst (λ o. IsPublished o.1) (sym e) s
  ]

  -- What becomes of the mark by the result.
  abbrev pub MarkBy : ℤ → ℤ → Result (Unit {0}) × Ring → Type 0
  MarkBy old t (ok u, r) = r.forgotten ≡ t
  MarkBy old t (err e, r) = (r.forgotten ≡ old) × (e ≡ cause io_error)

  pub set_forgotten-MarkBy : (t : ℤ) (r : Ring) → MarkBy r.forgotten t (set_forgotten crc t r)
  unfolding set_forgotten
  set_forgotten-MarkBy t r = elim (write_header_cases (record r.hdr { forgotten = t }) r) [
    | inl (p, e) ↦ subst (λ o. MarkBy r.forgotten t o) (sym e) refl
    | inr (n, p, e) ↦ subst (λ o. MarkBy r.forgotten t o) (sym e) (refl, refl)
  ]

  pub MarkBy-ok :
      (old t : ℤ) (o : Result (Unit {0}) × Ring) → MarkBy old t o → o.0 ≡ ok tt → o.1.forgotten ≡ t
  MarkBy-ok old t (ok u, r) m h = m
  MarkBy-ok old t (err e, r) m h = ground (arith, h)

  pub MarkBy-err :
      (old t : ℤ) (o : Result (Unit {0}) × Ring) (e : Err)
      → MarkBy old t o
      → o.0 ≡ err e
      → o.1.forgotten ≡ old
  MarkBy-err old t (ok u, r) e m h = ground (arith, h)
  MarkBy-err old t (err x, r) e m h = m.0

  pub MarkBy-gone :
      (old t : ℤ) (o : Result (Unit {0}) × Ring) → MarkBy old t o → o.0 ≢ err (cause gone)
  MarkBy-gone old t (ok u, r) m h = ground (arith, h)
  MarkBy-gone old t (err x, r) m h = let e = m.1 in ground (arith, h, e)

  -- The rest of `addSeries` behind its sync.
  grow-Keeps :
      (key : Bytes) (n : ℕ)
      → Keeps (λ r.
        and_then
          (write_header crc (record r.hdr { keys = r.hdr.keys ++ key ∷ [] }) r)
          (λ u r'. (ok n, r')))
  grow-Keeps key n r s =
      elim (write_header_cases (record r.hdr { keys = r.hdr.keys ++ key ∷ [] }) r) [
        | inl (p, e) ↦
            subst (λ o. HasMark r.forgotten (and_then o (λ u r'. (ok n, r'))).1) (sym e)
              (refl, sym s)
        | inr (k, p, e) ↦
            subst (λ o. HasMark r.forgotten (and_then o (λ u r'. (ok n, r'))).1) (sym e) (s, refl)
      ]

  -- `addSeries` behind its sync.
  abbrev grow : Bytes → ℕ → M ℕ
  grow key n r =
      and_then (write_header crc (record r.hdr { keys = r.hdr.keys ++ key ∷ [] }) r)
        (λ u r'. (ok n, r'))

module _ (crc : Bytes → ℕ) {F : Type 0} (fl : Floats F) where
  abbrev gaps : Buf
  gaps = record { len = 3 * col_bytes; at = fill (3 * col_bytes / 4) 0 (fl.bits32 fl.nan) zeroed }

  append_series-Keeps : (key : Bytes) (n : ℕ) → Keeps (append_series crc fl key n)
  unfolding append_series
  append_series-Keeps key n =
      Keeps-bind (write_at gaps (ring_file_size n)) (λ u r. and_then (sync r) (λ v. grow crc key n))
        (write_at-Keeps gaps (ring_file_size n))
        (λ u. Keeps-bind sync (λ v. grow crc key n) sync-Keeps (λ v. grow-Keeps crc key n))

  pub add_series-Keeps : (key : Bytes) → Keeps (add_series crc fl key)
  unfolding add_series
  add_series-Keeps key r s =
      let n = length r.hdr.keys in
      elim (Bool-cases (ltb (length key) 1 || ltb max_key_len (length key))) [
        | inl b ↦ simp (add_series, b) (s, refl)
        | inr b ↦ elim (Option-cases (index_of 0 key r.hdr.keys)) [
          | inr (i, e) ↦ simp (add_series, b, e) (s, refl)
          | inl e ↦ elim (Bool-cases (leb max_series n)) [
            | inl c ↦ simp (add_series, b, e, c) (s, refl)
            | inr c ↦ simp (add_series, b, e, c) (append_series-Keeps key n r s)
          ]
        ]
      ]

  write_series-Keeps : (i slot : ℕ) (v : MinuteValue F) → Keeps (write_series fl i slot v)
  unfolding write_series
  write_series-Keeps i slot v =
      Keeps-bind (write_value fl i 0 slot v.avg)
        (λ u r. and_then (write_value fl i 1 slot v.low r) (λ w. write_value fl i 2 slot v.high))
        (write_at-Keeps _ _)
        (λ u.
          Keeps-bind (write_value fl i 1 slot v.low) (λ w. write_value fl i 2 slot v.high)
            (write_at-Keeps _ _) (λ w. write_at-Keeps _ _))

  write_values-Keeps :
      (n i slot : ℕ) (vals : ℕ → Option (MinuteValue F)) → Keeps (write_values fl n i slot vals)
  unfolding write_values
  write_values-Keeps zero i slot vals r s = (s, refl)
  write_values-Keeps (suc n) i slot vals r s =
      Keeps-bind (write_series fl i slot (value_or_gap fl (vals i)))
        (λ u. write_values fl n (suc i) slot vals)
        (write_series-Keeps i slot (value_or_gap fl (vals i)))
        (λ u. write_values-Keeps n (suc i) slot vals) r s

  -- `writeMinute` behind its first two calls.
  abbrev stamp : ℤ → ℕ → M (Unit {0})
  stamp m w = write_at (buf (put_le 4 w)) (data_start + slot_of m * 4)

  abbrev end_minute : ℤ → M (Unit {0})
  end_minute m r = and_then (sync r) (λ u. stamp m (to_word (2 ^ 32) m))

  abbrev fill_minute : ℤ → (ℕ → Option (MinuteValue F)) → Ring → M (Unit {0})
  fill_minute m vals a r =
      and_then (write_values fl (length a.hdr.keys) 0 (slot_of m) vals r) (λ u. end_minute m)

  fill_minute-Keeps :
      (m : ℤ) (vals : ℕ → Option (MinuteValue F)) (a : Ring) → Keeps (fill_minute m vals a)
  fill_minute-Keeps m vals a =
      Keeps-bind (write_values fl (length a.hdr.keys) 0 (slot_of m) vals) (λ u. end_minute m)
        (write_values-Keeps (length a.hdr.keys) 0 (slot_of m) vals)
        (λ u.
          Keeps-bind sync (λ v. stamp m (to_word (2 ^ 32) m)) sync-Keeps (λ v. write_at-Keeps _ _))

  pub write_minute-Keeps :
      (m : ℤ) (vals : ℕ → Option (MinuteValue F)) → Keeps (write_minute fl m vals)
  unfolding write_minute
  write_minute-Keeps m vals =
      Keeps-bind (stamp m 0) (λ u r. and_then (sync r) (λ v r'. fill_minute m vals r' r'))
        (write_at-Keeps _ _)
        (λ u.
          Keeps-bind sync (λ v r'. fill_minute m vals r' r') sync-Keeps
            (λ v r'. fill_minute-Keeps m vals r' r'))

-- A ring whose readers see the mark of its header; every ring that is opened is one.
pub record OpenRing : Type 0 where
  pub ring : Ring
  pub same : ring.forgotten ≡ ring.hdr.forgotten

-- A method on it, by the one on the ring.
abbrev pub on_ring :
    {A : Type 0} (m : M A) (k : (r : Ring) → IsPublished r → IsPublished (m r).1) (r : OpenRing)
    → Result A × OpenRing
on_ring m k r = ((m r.ring).0, record { ring = (m r.ring).1; same = k r.ring r.same })

-- `seen` is what reads find of a file, `none` where they fail, and `closing` what `Close` of it returns.
abbrev pub file_rings :
    (crc : Bytes → ℕ) {F : Type 0} (fl : Floats F) (seen : File → Option File)
    (closing : Ring → Result (Unit {0}))
    → Rings F OpenRing
file_rings crc fl seen closing = record {
  forgotten_at = λ r. r.ring.forgotten;
  series = λ r. r.ring.published;
  set_forgotten = λ t. on_ring (set_forgotten crc t) (set_forgotten-IsPublished crc t);
  add_series = λ k. on_ring (add_series crc fl k) (λ r s. (add_series-Keeps crc fl k r s).0);
  write_minute =
      λ m vals. on_ring (write_minute fl m vals) (λ r s. (write_minute-Keeps crc fl m vals r s).0);
  newest_minute = λ r. newest_minute r.ring.closed (seen r.ring.file);
  close = λ r. (closing r.ring, record { ring = record r.ring { closed = true }; same = r.same });
  forgotten-set_forgotten = λ t r h.
      MarkBy-ok crc r.ring.forgotten t (set_forgotten crc t r.ring)
        (set_forgotten-MarkBy crc t r.ring) h;
  forgotten-set_forgotten_err = λ t r e h.
      MarkBy-err crc r.ring.forgotten t (set_forgotten crc t r.ring) e
        (set_forgotten-MarkBy crc t r.ring) h;
  forgotten-add_series = λ k r. (add_series-Keeps crc fl k r.ring r.same).1;
  forgotten-write_minute = λ m vals r. (write_minute-Keeps crc fl m vals r.ring r.same).1;
  forgotten-close = λ r. refl;
  set_forgotten-not_gone = λ t r.
      MarkBy-gone crc r.ring.forgotten t (set_forgotten crc t r.ring)
        (set_forgotten-MarkBy crc t r.ring);
}
