-- ===== src/Utils/File/Fed.antt =====
-- The entries of a walk, and an archiver that has taken them (utils/file/file.go).
use casa_os_common.Common.{
  ◌⊎◌, ◌≡◌, refl, sym, ap, ◌∙◌, Option, none, some, List, [], ◌∷◌, ◌++◌, Bytes, inl, inr,
}
use mathlib.Core.Path.{subst}
use casa_os_common.Utils.File.Archive.{Failure, Entry, replied, Archiver, waits, State, Visit}
use casa_os_common.Utils.File.Walk.{
  Paths, Selected, Start, Step, skips, adds, breaks, visit, prepare,
}
use mathlib.Core.List.{append_assoc, append-nil}
use casa_os_common.Utils.File.Perfect.{perfect}

-- The entries of a walk, without regard to the archiver; none where a step ends it with an error.
abbrev pub prepend_step : Step → Option (List Entry) → Option (List Entry)
prepend_step (breaks e) rest = none
prepend_step skips rest = rest
prepend_step (adds f) none = none
prepend_step (adds f) (some fs) = some (f ∷ fs)

abbrev pub walk_entries : Paths → Start → List Visit → Option (List Entry)
walk_entries paths s [] = some []
walk_entries paths s (v ∷ vs) = prepend_step (visit paths s v) (walk_entries paths s vs)

abbrev pub start_entries : Paths → Failure ⊎ Start → List Visit → Option (List Entry)
start_entries paths (inl e) vs = none
start_entries paths (inr s) vs = walk_entries paths s vs

-- The entries of all selected paths, in order.
abbrev pub join_entries : Option (List Entry) → Option (List Entry) → Option (List Entry)
join_entries none y = none
join_entries (some fs) none = none
join_entries (some fs) (some gs) = some (fs ++ gs)

abbrev pub all_entries : Paths → Bytes → List Selected → Option (List Entry)
all_entries paths cp [] = some []
all_entries paths cp (p ∷ ps) =
    join_entries (start_entries paths (prepare paths cp p) p.visits) (all_entries paths cp ps)

-- From the first state to the second, the archiver takes the entries one by one and replies nil to
-- each, over a w that takes everything; it writes the chunks.
abbrev pub Feeds : {S : Type 0} → Archiver S → S → List Entry → S → List Bytes → Type 0
Feeds arch s [] s' cs = (s ≡ s') × (cs ≡ [])
Feeds {S = S} arch s (f ∷ fs) s'' cs =
    (s' : S) × (qs : List Bytes) × ((perfect (arch.job s f)).0 ≡ replied none s')
    × Feeds arch s' fs s'' qs
    × (cs ≡ (perfect (arch.job s f)).1 ++ qs)

Feeds-append :
    {S : Type 0} (arch : Archiver S) (s s' s'' : S) (fs gs : List Entry) (ps qs : List Bytes)
    → Feeds arch s fs s' ps
    → Feeds arch s' gs s'' qs
    → Feeds arch s (fs ++ gs) s'' (ps ++ qs)
Feeds-append arch s s' s'' [] gs ps qs (e, e') y =
    subst (λ t. Feeds arch t gs s'' (ps ++ qs)) (sym e)
      (subst (λ c. Feeds arch s' gs s'' (c ++ qs)) (sym e') y)
Feeds-append arch s s' s'' (f ∷ fs) gs ps qs (t, rs, r, x, e) y = (
  t,
  rs ++ qs,
  r,
  Feeds-append arch t s' s'' fs gs rs qs x y,
  ap (λ c. c ++ qs) e ∙ append_assoc (perfect (arch.job s f)).1 rs qs,
)

-- From the first state to the second, the archiver that waited has taken the entries and waits
-- again; its chunks were written behind the others.
abbrev Took : {S : Type 0} → Archiver S → State S → List Entry → State S → S → Type 0
Took {S = S} arch st fs st' s =
    (s' : S) × (ps : List Bytes) × (st'.phase ≡ waits s')
    × Feeds arch s fs s' ps
    × (st'.out.written ≡ st.out.written ++ ps)

-- There was no error before either.
abbrev pub Grows : {S : Type 0} → Archiver S → State S → List Entry → State S → Type 0
Grows {S = S} arch st fs st' =
    (st.out.err ≡ none) × ((s : S) → st.phase ≡ waits s → Took arch st fs st' s)

pub Grows-none :
    {S : Type 0} (arch : Archiver S) (st : State S) → st.out.err ≡ none → Grows arch st [] st
Grows-none arch st h = (h, λ s e. (s, [], e, (refl, refl), sym (append-nil st.out.written)))

pub Grows-append :
    {S : Type 0} (arch : Archiver S) (st st' st'' : State S) (fs gs : List Entry)
    → Grows arch st fs st'
    → Grows arch st' gs st''
    → Grows arch st (fs ++ gs) st''
Grows-append arch st st' st'' fs gs (h, x) (h', y) = (
  h,
  λ s e.
      let (t, ps, q, a, b) = x s e in
      let (u, qs, q', a', b') = y t q in
      (
        u,
        ps ++ qs,
        q',
        Feeds-append arch s t u fs gs ps qs a a',
        b' ∙ ap (λ c. c ++ qs) b ∙ append_assoc st.out.written ps qs,
      ),
)
