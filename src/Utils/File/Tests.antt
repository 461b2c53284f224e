-- ===== src/Utils/File/Tests.antt =====
-- Runs of utils/file/file.go with a small archiver, and instances of the theorems.
use casa_os_common.Common.{
  ℕ, suc, ◌≡◌, refl, true, none, some, List, [], ◌∷◌, ◌++◌, ◌==◌, length, if◌then◌else◌, Bytes,
  codes, eq_bytes, inl, inr, ap,
}
use casa_os_common.Utils.File.Archive.{
  call, not_exist, archive, World, Entry, ends, writes, run, write, replied, Archiver, waits, Mode,
  directory, symlink, regular, special, Visit,
}
use casa_os_common.Utils.File.Walk.{
  Paths, Selected, begins, entry_name, prepare, visit, add, walk, add_tree, add_trees,
  write_archive,
}
use casa_os_common.Utils.File.Refused.{IsUnterminated, write_archive-IsUnterminated}
use casa_os_common.Utils.File.Fed.{all_entries}
use casa_os_common.Common.Int.{pos, ◌-ℤ◌}
use casa_os_common.Utils.File.Archive.{eof, unexpected_eof}
use casa_os_common.Utils.File.Sized.{
  Found, open_same, read_sized, drain_file, drain_sized, IsGuarded, open_same-IsGuarded,
}
use casa_os_common.Utils.File.Prefix.{
  cut_common, before_last, cut_all, common_prefix, IsDeepest, common_prefix-IsDeepest,
}
use casa_os_common.Utils.File.Whole.{IsArchive, write_archive-IsArchive}

-- Every name is written as a chunk, and a last chunk at the end.
abbrev lister : Archiver ℕ
lister = record {
  job = λ n f. writes f.name_in_archive (λ r. ends (replied r.1 (suc n)));
  finish = λ n. writes (codes "end") (λ r. ends r.1);
}

abbrev calm : World
calm = record { ctx_err = λ k. none; sink = λ k p. (length p, none); cancelled = λ k. none }

-- The context is done when the second entry is there.
abbrev hasty : World
hasty = record calm { cancelled = λ k. if k == 1 then some (call 7) else none }

abbrev plain : Paths
plain = record {
  clean = λ s. s;
  rel = λ c s. inr (codes "d");
  is_local = λ s. true;
  base = λ s. s;
  join = λ a b. a ++ b;
}

abbrev seen : Bytes → Mode → Visit
seen p m = record {
  path = p;
  walk_err = none;
  ctx_err = none;
  lstat = inr m;
  readlink = inl not_exist;
}

-- A directory with a file, a link that has gone, a socket and another file.
abbrev tree : Selected
tree = record {
  given = codes "/a/d";
  target = inr (codes "/a/d");
  is_dir = inr true;
  open_root = none;
  visits =
      seen (codes ".") directory
      ∷ seen (codes "f") regular
      ∷ seen (codes "l") symlink
      ∷ seen (codes "s") special
      ∷ seen (codes "g") regular
      ∷ [];
}

abbrev listing : List Bytes
listing = codes "ad/" ∷ codes "adf" ∷ codes "adg" ∷ codes "end" ∷ []

archive_run :
    write_archive plain calm lister 0 (codes "a") (tree ∷ [])
    ≡ (none, record { err = none; written = listing; calls = 4 })
unfolding write_archive add_trees add_tree prepare entry_name walk visit add run write eq_bytes
archive_run = refl

hasty_run : add_trees plain hasty lister (codes "a") (tree ∷ []) (begins plain hasty lister 0) ≡ (
  some (archive (codes "/a/d") (call 7)),
  record {
    phase = waits 1;
    out = record {
      err = some (archive (codes "/a/d") (call 7));
      written = codes "ad/" ∷ [];
      calls = 1;
    };
    adds = 2;
  },
)
unfolding add_trees add_tree prepare entry_name walk visit add run write eq_bytes
hasty_run = refl

write_archive-IsUnterminated_example :
    IsUnterminated
      (archive (codes "/a/d") (call 7))
      (add_trees plain hasty lister
        (codes "a")
        (tree ∷ [])
        (begins plain hasty lister 0)).1.out.written
      (write_archive plain hasty lister 0 (codes "a") (tree ∷ []))
write_archive-IsUnterminated_example =
    write_archive-IsUnterminated plain hasty lister 0 (codes "a") (tree ∷ [])
      (archive (codes "/a/d") (call 7)) (ap (λ q. q.0) hasty_run)

write_archive-IsArchive_example :
    (fs : List Entry) × (all_entries plain (codes "a") (tree ∷ []) ≡ some fs)
    × IsArchive lister 0 fs (write_archive plain calm lister 0 (codes "a") (tree ∷ [])).1.written
write_archive-IsArchive_example =
    write_archive-IsArchive plain calm lister 0 (codes "a") (tree ∷ []) (λ k p h. refl)
      (ap (λ q. q.0) archive_run)

abbrev whole : Found
whole = record { open_err = none; stat = inr (true, true) }

-- 7 bytes were announced, and the file ends behind 5.
short_run :
    drain_sized ((3, none) ∷ (2, none) ∷ (0, some eof) ∷ []) (pos 7) ≡ (5, some unexpected_eof)
unfolding drain_sized read_sized ◌-ℤ◌
short_run = refl

open_same-IsGuarded_example :
    (whole.stat ≡ inr (true, true))
    × IsGuarded 5
        (drain_file ((3, none) ∷ (2, none) ∷ (0, some eof) ∷ []))
        (drain_sized ((3, none) ∷ (2, none) ∷ (0, some eof) ∷ []) (pos 5))
unfolding open_same
open_same-IsGuarded_example =
    open_same-IsGuarded (codes "f") 5 (pos 5) whole ((3, none) ∷ (2, none) ∷ (0, some eof) ∷ [])
      refl

common_run : common_prefix (λ s. s) b'/' (codes "/a/bc" ∷ codes "/a/bd/e" ∷ []) ≡ codes "/a"
unfolding common_prefix cut_all cut_common before_last
common_run = refl

-- Relative paths that share no separator keep the bytes that they share.
relative_run : common_prefix (λ s. s) b'/' (codes "abc" ∷ codes "abd" ∷ []) ≡ codes "ab"
unfolding common_prefix cut_all cut_common before_last
relative_run = refl

common_prefix-IsDeepest_example :
    IsDeepest
      (λ s. s)
      b'/'
      (common_prefix (λ s. s) b'/' (codes "/a/bc" ∷ codes "/a/bd/e" ∷ []))
      (codes "/a/bc" ∷ codes "/a/bd/e" ∷ [])
common_prefix-IsDeepest_example =
    common_prefix-IsDeepest (λ s. s) b'/' (codes "/a/bc") (codes "/a/bd/e" ∷ [])
      ((refl, tt), ((refl, tt), tt))
