-- ===== src/Stats/Evaluator/Replace.antt =====
-- `writeFileAtomic` of pkg/stats/evaluator.go, with the file as it is after each call. Which calls fail
-- is a parameter, and how many bytes a failing write leaves.
use casa_os_common.Common.{
  ℕ, ◌≡◌, ◌⊎◌, refl, ◌∙◌, arith, Bool, true, false, Option, none, some, List, [], ◌∷◌, ◌++◌, take,
  Bytes, inl, inr,
}
use mathlib.Core.Path.{subst}
use casa_os_common.Stats.Errors.{Err}

-- A file's contents, and whether Sync has made them durable.
pub record Contents : Type 0 where
  pub bytes : Bytes
  pub synced : Bool

-- The file at the path and the one at path.tmp.
pub record Files : Type 0 where
  pub path : Option Contents
  pub tmp : Option Contents

-- The error of each call.
pub record Outcomes : Type 0 where
  pub opened : Option Err
  pub written : Option Err
  pub left : ℕ
  pub synced : Option Err
  pub closed : Option Err
  pub renamed : Option Err
  pub removed : Option Err
  pub dir_synced : Option Err

-- `if err == nil { err = … }`
abbrev pub or_else : Option Err → Option Err → Option Err
or_else none e = e
or_else (some f) e = some f

-- `WriteAt(b, 0)` into the emptied file
abbrev pub write_tmp : ℕ → Bytes → Option Err → Files → Files
write_tmp left b none f = record f { tmp = some (record { bytes = b; synced = false }) }
write_tmp left b (some e) f = record f {
  tmp = some (record { bytes = take left b; synced = false });
}

abbrev pub mark_synced : Option Contents → Option Contents
mark_synced none = none
mark_synced (some c) = some (record c { synced = true })

-- `Sync`, which is only called behind a write without an error
abbrev pub sync_tmp : Option Err → Option Err → Files → Files
sync_tmp none none f = record f { tmp = mark_synced f.tmp }
sync_tmp none (some e) f = f
sync_tmp (some d) e f = f

-- `Rename(tmp, path)` without an error
abbrev pub rename_tmp : Files → Files
rename_tmp f = record { path = f.tmp; tmp = none }

-- `Remove(tmp)`, whose error is ignored
abbrev pub remove_tmp : Option Err → Files → Files
remove_tmp none f = record f { tmp = none }
remove_tmp (some e) f = f

-- The end, by the error so far and that of the rename: the error, and the files as they were after
-- each call.
abbrev pub conclude : Outcomes → Files → Option Err → Option Err → Option Err × List Files
conclude c f (some e) r = (some e, remove_tmp c.removed f ∷ [])
conclude c f none (some e) = (some e, f ∷ remove_tmp c.removed f ∷ [])
conclude c f none none = (c.dir_synced, rename_tmp f ∷ [])

abbrev pub add_states : List Files → Option Err × List Files → Option Err × List Files
add_states fs (e, gs) = (e, fs ++ gs)

-- Behind the open: write, sync and close, and the end.
abbrev pub replace_with : Outcomes → Bytes → Files → Option Err × List Files
replace_with c b f =
    let g = record f { tmp = some (record { bytes = []; synced = false }) } in
    let h = write_tmp c.left b c.written g in
    let k = sync_tmp c.written c.synced h in
    add_states (g ∷ h ∷ k ∷ [])
      (conclude c k (or_else (or_else c.written c.synced) c.closed) c.renamed)

abbrev pub replace_by : Outcomes → Bytes → Files → Option Err → Option Err × List Files
replace_by c b f (some e) = (some e, [])
replace_by c b f none = replace_with c b f

-- `writeFileAtomic`: its error, and the files as they were after each call
unfoldable pub write_file_atomic : Outcomes → Bytes → Files → Option Err × List Files
write_file_atomic c b f = replace_by c b f c.opened

-- The new contents, durable.
abbrev pub whole_of : Bytes → Option Contents
whole_of b = some (record { bytes = b; synced = true })

-- At the path there is what was there before, or the new contents, whole and durable.
abbrev pub AllWhole : Option Contents → Bytes → List Files → Type 0
AllWhole old b [] = Unit
AllWhole old b (f ∷ fs) = ((f.path ≡ old) ⊎ (f.path ≡ whole_of b)) × AllWhole old b fs

-- The files at the end.
abbrev pub last_of : Files → List Files → Files
last_of f [] = f
last_of f (g ∷ gs) = last_of g gs

-- Without an error, the new contents are at the path and no other file is left.
abbrev pub IsReplaced : Option Err → Bytes → Files → Type 0
IsReplaced (some e) b f = Unit
IsReplaced none b f = (f.path ≡ whole_of b) × (f.tmp ≡ none)

remove_tmp-path : (r : Option Err) (f : Files) → (remove_tmp r f).path ≡ f.path
remove_tmp-path none f = refl
remove_tmp-path (some e) f = refl

IsReplaced-dir :
    (e : Option Err) (b : Bytes) (f : Files) → f.path ≡ whole_of b → f.tmp ≡ none → IsReplaced e b f
IsReplaced-dir none b f p q = (p, q)
IsReplaced-dir (some e) b f p q = tt

-- Both at once, for the calls of the end.
abbrev IsAtomic : Option Contents → Bytes → Files → Option Err × List Files → Type 0
IsAtomic old b f q = AllWhole old b q.1 × IsReplaced q.0 b (last_of f q.1)

conclude-IsAtomic :
    (c : Outcomes) (b : Bytes) (f : Files) (e r : Option Err)
    → (e ≡ none → f.tmp ≡ whole_of b)
    → IsAtomic f.path b f (conclude c f e r)
conclude-IsAtomic c b f (some e) r h = ((inl (remove_tmp-path c.removed f), tt), tt)
conclude-IsAtomic c b f none (some e) h = ((inl refl, (inl (remove_tmp-path c.removed f), tt)), tt)
conclude-IsAtomic c b f none none h =
    ((inr (h refl), tt), IsReplaced-dir c.dir_synced b (rename_tmp f) (h refl) refl)

-- What is at path.tmp once nothing has failed.
synced_whole :
    (left : ℕ) (b : Bytes) (w s d : Option Err) (f : Files)
    → or_else (or_else w s) d ≡ none
    → (sync_tmp w s (write_tmp left b w f)).tmp ≡ whole_of b
synced_whole left b none none d f h = refl
synced_whole left b none (some e) d f h = absurd (ground arith)
synced_whole left b (some e) s d f h = absurd (ground arith)

write_tmp-path :
    (left : ℕ) (b : Bytes) (w : Option Err) (f : Files) → (write_tmp left b w f).path ≡ f.path
write_tmp-path left b none f = refl
write_tmp-path left b (some e) f = refl

sync_tmp-path : (w s : Option Err) (f : Files) → (sync_tmp w s f).path ≡ f.path
sync_tmp-path none none f = refl
sync_tmp-path none (some e) f = refl
sync_tmp-path (some d) s f = refl

-- Whatever calls fail: after each call of writeFileAtomic there is at the path what was there before,
-- or all of the new contents, made durable before; and where it returns nil, those are there at
-- the end, and nothing is left at path.tmp.
pub write_file_atomic-AllWhole :
    (c : Outcomes) (b : Bytes) (f : Files)
    → AllWhole f.path b (write_file_atomic c b f).1
      × IsReplaced (write_file_atomic c b f).0 b (last_of f (write_file_atomic c b f).1)
unfolding write_file_atomic
write_file_atomic-AllWhole c b f = by_open c.opened
  where
    by_open : (o : Option Err) → IsAtomic f.path b f (replace_by c b f o)
    by_open (some e) = (tt, tt)
    by_open none =
        let g : Files = record f { tmp = some (record { bytes = []; synced = false }) } in
        let h = write_tmp c.left b c.written g in
        let k = sync_tmp c.written c.synced h in
        let p : h.path ≡ f.path = write_tmp-path c.left b c.written g in
        let q : k.path ≡ f.path = sync_tmp-path c.written c.synced h ∙ p in
        let e = or_else (or_else c.written c.synced) c.closed in
        let (a, z) =
          conclude-IsAtomic c b k e c.renamed
            (synced_whole c.left b c.written c.synced c.closed g) in
        let a' : AllWhole f.path b (conclude c k e c.renamed).1 =
          subst (λ o. AllWhole o b (conclude c k e c.renamed).1) q a in
        ((inl refl, (inl p, (inl q, a'))), z)
