-- ===== src/Utils/File/Whole.antt =====
-- The archive that w has got when WriteArchive returns nil (utils/file/file.go).
use casa_os_common.Common.{
  ◌⊎◌, ℕ, ◌≡◌, refl, sym, ap, ◌∙◌, arith, Option, none, some, List, [], ◌∷◌, ◌++◌, Bytes, inl, inr,
}
use mathlib.Core.Path.{subst}
use casa_os_common.Utils.File.Archive.{
  Failure, Entry, ArchiveWriter, World, run, Answer, replied, stopped, Archiver, Phase, waits,
  ended, State, Visit,
}
use casa_os_common.Utils.File.Walk.{
  select, Paths, Selected, Start, Step, skips, adds, breaks, visit, prepare, answered, offer, add,
  walk_step, walk, walk_from, and_then, with_path, add_tree, add_trees, finish, result, begins,
  write_archive,
}
use mathlib.Core.List.{append-nil}
use casa_os_common.Utils.File.Perfect.{perfect, IsWriter, IsPerfect, run-IsPerfect}
use casa_os_common.Utils.File.Fed.{
  prepend_step, walk_entries, start_entries, join_entries, all_entries, Feeds, Grows, Grows-none,
  Grows-append,
}

waits_injective : {S : Type 0} (s t : S) → waits s ≡ waits t → s ≡ t
waits_injective s t e = cc

answered-Grows :
    {S : Type 0} (w : World) (arch : Archiver S) (st : State S) (f : Entry) (s : S) (n : ℕ)
    (x : Answer S × ArchiveWriter)
    → st.phase ≡ waits s
    → (x.1.err ≡ none → IsPerfect (arch.job s f) st.out x)
    → (answered w arch x n).0 ≡ none
    → (answered w arch x n).1.out.err ≡ none
    → Grows arch st (f ∷ []) (answered w arch x n).1
answered-Grows w arch st f s n (stopped e, out) p perf h h' = absurd (ground arith)
answered-Grows w arch st f s n (replied e t, out) p perf h h' =
    let (clear, reply, more) = perf h' in
    (
      clear,
      λ u q.
          let same : s ≡ u = waits_injective s u (sym p ∙ q) in
          let reply' : (perfect (arch.job s f)).0 ≡ replied none t =
            sym reply ∙ ap (λ o. replied o t) h in
          let fed : Feeds arch s (f ∷ []) t (perfect (arch.job s f)).1 =
            (t, [], reply', (refl, refl), sym (append-nil _)) in
          (
            t,
            (perfect (arch.job s f)).1,
            refl,
            subst (λ v. Feeds arch v (f ∷ []) t (perfect (arch.job s f)).1) same fed,
            more,
          ),
    )

offer-Grows :
    {S : Type 0} (w : World) (arch : Archiver S) (st : State S) (f : Entry) (ph : Phase S)
    → IsWriter w
    → st.phase ≡ ph
    → (offer w arch f st ph).0 ≡ none
    → (offer w arch f st ph).1.out.err ≡ none
    → Grows arch st (f ∷ []) (offer w arch f st ph).1
offer-Grows w arch st f (ended e) honest p h h' = absurd (ground arith)
offer-Grows w arch st f (waits s) honest p h h' =
    answered-Grows w arch st f s _ (run w (arch.job s f) st.out) p
      (run-IsPerfect w (arch.job s f) st.out honest) h h'

select-Grows :
    {S : Type 0} (w : World) (arch : Archiver S) (st : State S) (f : Entry) (c : Option Failure)
    → IsWriter w
    → (select w arch f st c).0 ≡ none
    → (select w arch f st c).1.out.err ≡ none
    → Grows arch st (f ∷ []) (select w arch f st c).1
select-Grows w arch st f (some e) honest h h' = absurd (ground arith)
select-Grows w arch st f none honest h h' = offer-Grows w arch st f st.phase honest refl h h'

-- What a part of the loop comes to, when it ends without an error: the entries are all there, and
-- the archiver has taken them.
abbrev Walked : {S : Type 0} → Archiver S → State S → Option (List Entry) → State S → Type 0
Walked arch st o st' = (fs : List Entry) × (o ≡ some fs) × Grows arch st fs st'

-- Both without an error, so far.
abbrev IsClear : {S : Type 0} → Option Failure × State S → Type 0
IsClear x = (x.0 ≡ none) × (x.1.out.err ≡ none)

walk_step-Walked :
    {S : Type 0} (paths : Paths) (w : World) (arch : Archiver S) (st : State S) (d : Step)
    → IsWriter w
    → IsClear (walk_step paths w arch st d)
    → Walked arch st (prepend_step d (some [])) (walk_step paths w arch st d).1
walk_step-Walked paths w arch st skips honest (h, h') = ([], refl, Grows-none arch st h')
walk_step-Walked paths w arch st (adds f) honest (h, h') =
    unfold add in (f ∷ [], refl, select-Grows w arch st f (w.cancelled st.adds) honest h h')
walk_step-Walked paths w arch st (breaks e) honest (h, h') = absurd (ground arith)

prepend_step-join_entries :
    (d : Step) (o : Option (List Entry))
    → prepend_step d o ≡ join_entries (prepend_step d (some [])) o
prepend_step-join_entries (breaks e) o = refl
prepend_step-join_entries skips none = refl
prepend_step-join_entries skips (some fs) = refl
prepend_step-join_entries (adds f) none = refl
prepend_step-join_entries (adds f) (some fs) = refl

-- One part, and behind it the rest.
and_then-Walked :
    {S : Type 0} (arch : Archiver S) (st : State S) (x : Option Failure × State S)
    (rest : State S → Option Failure × State S) (o o' : Option (List Entry))
    → (IsClear x → Walked arch st o x.1)
    → ((t : State S) → IsClear (rest t) → Walked arch t o' (rest t).1)
    → IsClear (and_then x rest)
    → Walked arch st (join_entries o o') (and_then x rest).1
and_then-Walked arch st (some e, t) rest o o' a b (h, h') = absurd (ground arith)
and_then-Walked arch st (none, t) rest o o' a b h =
    let (gs, q', y) = b t h in
    let (fs, q, x) = a (refl, y.0) in
    (
      fs ++ gs,
      ap (λ c. join_entries c o') q ∙ ap (λ c. join_entries (some fs) c) q',
      Grows-append arch st t (rest t).1 fs gs x y,
    )

walk-Walked :
    {S : Type 0} (paths : Paths) (w : World) (arch : Archiver S) (s : Start) (vs : List Visit)
    (st : State S)
    → IsWriter w
    → IsClear (walk paths w arch s vs st)
    → Walked arch st (walk_entries paths s vs) (walk paths w arch s vs st).1
unfolding walk
walk-Walked paths w arch s [] st honest (h, h') = ([], refl, Grows-none arch st h')
walk-Walked paths w arch s (v ∷ vs) st honest h =
    subst (λ o. Walked arch st o (walk paths w arch s (v ∷ vs) st).1)
      (sym (prepend_step-join_entries (visit paths s v) (walk_entries paths s vs)))
      (and_then-Walked arch st (walk_step paths w arch st (visit paths s v))
        (walk paths w arch s vs) _ (walk_entries paths s vs)
        (walk_step-Walked paths w arch st (visit paths s v) honest)
        (λ t. walk-Walked paths w arch s vs t honest) h)

walk_from-Walked :
    {S : Type 0} (paths : Paths) (w : World) (arch : Archiver S) (x : Failure ⊎ Start)
    (vs : List Visit) (st : State S)
    → IsWriter w
    → IsClear (walk_from paths w arch x vs st)
    → Walked arch st (start_entries paths x vs) (walk_from paths w arch x vs st).1
walk_from-Walked paths w arch (inl e) vs st honest (h, h') = absurd (ground arith)
walk_from-Walked paths w arch (inr s) vs st honest h = walk-Walked paths w arch s vs st honest h

with_path-Walked :
    {S : Type 0} (arch : Archiver S) (st : State S) (p : Bytes) (x : Option Failure × State S)
    (o : Option (List Entry))
    → (IsClear x → Walked arch st o x.1)
    → IsClear (with_path p x)
    → Walked arch st o (with_path p x).1
with_path-Walked arch st p (none, t) o a h = a h
with_path-Walked arch st p (some e, t) o a (h, h') = absurd (ground arith)

add_trees-Walked :
    {S : Type 0} (paths : Paths) (w : World) (arch : Archiver S) (cp : Bytes) (sels : List Selected)
    (st : State S)
    → IsWriter w
    → IsClear (add_trees paths w arch cp sels st)
    → Walked arch st (all_entries paths cp sels) (add_trees paths w arch cp sels st).1
unfolding add_trees add_tree
add_trees-Walked paths w arch cp [] st honest (h, h') = ([], refl, Grows-none arch st h')
add_trees-Walked paths w arch cp (p ∷ ps) st honest h =
    and_then-Walked arch st (with_path p.given (add_tree paths w arch cp p st))
      (add_trees paths w arch cp ps) (start_entries paths (prepare paths cp p) p.visits)
      (all_entries paths cp ps)
      (with_path-Walked arch st p.given (add_tree paths w arch cp p st) _
        (walk_from-Walked paths w arch (prepare paths cp p) p.visits st honest))
      (λ t. add_trees-Walked paths w arch cp ps t honest) h

-- What is written is the archive of the entries: the archiver has taken each and closed without an
-- error, over a w that takes everything.
abbrev pub IsArchive : {S : Type 0} → Archiver S → S → List Entry → List Bytes → Type 0
IsArchive {S = S} arch s fs cs =
    (s' : S) × (ps : List Bytes) × Feeds arch s fs s' ps
    × ((perfect (arch.finish s')).0 ≡ none)
    × (cs ≡ ps ++ (perfect (arch.finish s')).1)

result-IsClear :
    {S : Type 0} (paths : Paths) (w : World) (arch : Archiver S) (r : Option Failure)
    (x : Option Failure × ArchiveWriter)
    → (result paths w arch r x).0 ≡ none
    → (r ≡ none) × (x.0 ≡ none) × (x.1.err ≡ none) × ((result paths w arch r x).1 ≡ x.1)
result-IsClear paths w arch (some e) (a, out) h = absurd (ground arith)
result-IsClear paths w arch none (some e, out) h = absurd (ground arith)
result-IsClear paths w arch none (none, out) h = (refl, refl, h, refl)

finish-IsArchive :
    {S : Type 0} (paths : Paths) (w : World) (arch : Archiver S) (s s' : S) (fs : List Entry)
    (ps : List Bytes) (out : ArchiveWriter)
    → IsWriter w
    → out.written ≡ ps
    → Feeds arch s fs s' ps
    → (finish paths w arch (waits s') out).0 ≡ none
    → (finish paths w arch (waits s') out).1.err ≡ none
    → IsArchive arch s fs (finish paths w arch (waits s') out).1.written
finish-IsArchive paths w arch s s' fs ps out honest q fed h h' =
    let (n, r, m) = run-IsPerfect w (arch.finish s') out honest h' in
    (s', ps, fed, sym r ∙ h, m ∙ ap (λ c. c ++ (perfect (arch.finish s')).1) q)

-- The writer of the loop that starts without an error has none before its end.
finish-clear :
    {S : Type 0} (paths : Paths) (w : World) (arch : Archiver S) (ph : Phase S)
    (out : ArchiveWriter)
    → IsWriter w
    → (finish paths w arch ph out).1.err ≡ none
    → out.err ≡ none
finish-clear paths w arch (ended e) out honest h = h
finish-clear paths w arch (waits s) out honest h = (run-IsPerfect w (arch.finish s) out honest h).0

-- Where a write to w that returns no error has taken all bytes, and WriteArchive returns nil: every
-- path was walked to its end without an error, and what w was given is the whole archive of its
-- entries, path by path in the order of the walks: what the archiver writes for them, and at its end,
-- into a w that takes everything, when it replies nil to each and ends without an error.
pub write_archive-IsArchive :
    {S : Type 0} (paths : Paths) (w : World) (arch : Archiver S) (s : S) (common_path : Bytes)
    (sels : List Selected)
    → IsWriter w
    → (write_archive paths w arch s common_path sels).0 ≡ none
    → (fs : List Entry) × (all_entries paths common_path sels ≡ some fs)
      × IsArchive arch s fs (write_archive paths w arch s common_path sels).1.written
unfolding write_archive
write_archive-IsArchive paths w arch s cp [] honest h = absurd (ground arith)
write_archive-IsArchive {S = S} paths w arch s cp (p ∷ ps) honest h =
    let q = add_trees paths w arch cp (p ∷ ps) (begins paths w arch s) in
    let x = finish paths w arch q.1.phase q.1.out in
    let (a, b, c, d) = result-IsClear paths w arch q.0 x h in
    let clear = finish-clear paths w arch q.1.phase q.1.out honest c in
    let (fs, e, grown) =
      add_trees-Walked paths w arch cp (p ∷ ps) (begins paths w arch s) honest (a, clear) in
    let (s', cs, ph, fed, m) = grown.1 s refl in
    let whole : IsArchive arch s fs x.1.written =
      subst (λ y. IsArchive arch s fs (finish paths w arch y q.1.out).1.written) (sym ph)
        (finish-IsArchive paths w arch s s' fs cs q.1.out honest m fed
          (subst (λ y. (finish paths w arch y q.1.out).0 ≡ none) ph b)
          (subst (λ y. (finish paths w arch y q.1.out).1.err ≡ none) ph c)) in
    (fs, e, subst (λ y. IsArchive arch s fs y.written) (sym d) whole)
