-- ===== src/Utils/Command/Tests.antt =====
-- Runs of the start scripts (utils/command/command.go), and instances of their theorems.
use casa_os_common.Common.{◌≡◌, refl, true, false, none, some, List, [], ◌∷◌, Bytes, codes}
use casa_os_common.Common.Int.{pos}
use casa_os_common.Utils.Version.{drop_spaces, drop_end_spaces}
use casa_os_common.Utils.Command.{
  Tail, write_all, split_blank, words_of, interpreter, broke, Run, DirEntry, write_tail,
}
use casa_os_common.Utils.Command.Output.{IsTail, joined, write_all-IsTail}
use casa_os_common.Utils.Command.Shebang.{IsCommand, LineCommand, interpreter-IsCommand}

abbrev empty : Tail
empty = record { buf = []; truncated = false }

abbrev writes : List Bytes
writes = codes "abc" ∷ codes "de" ∷ []

write_all-IsTail_example : IsTail 4 (joined [] writes) (write_all 4 writes empty)
write_all-IsTail_example = write_all-IsTail 4 writes [] empty (refl, refl)

tail_run : write_all 4 writes empty ≡ record { buf = codes "bcde"; truncated = true }
unfolding write_all write_tail
tail_run = refl

interpreter-IsCommand_example :
    IsCommand (interpreter (codes "#! /usr/bin/env bash -e "))
    × LineCommand
        (codes "#! /usr/bin/env bash -e ")
        (interpreter (codes "#! /usr/bin/env bash -e "))
interpreter-IsCommand_example = interpreter-IsCommand (codes "#! /usr/bin/env bash -e ")

env_run :
    interpreter (codes "#! /usr/bin/env bash -e ") ≡ codes "/usr/bin/env" ∷ codes "bash -e" ∷ []
unfolding interpreter words_of split_blank drop_spaces drop_end_spaces
env_run = refl

abbrev entries : List DirEntry
entries =
    record { name = codes "10-first"; regular = some true; contents = some (codes "#!/bin/bash") }
    ∷ record { name = codes "conf.d"; regular = some false; contents = none }
    ∷ record { name = codes "20-next"; regular = some true; contents = none }
    ∷ []

abbrev run : List Bytes → Bytes → Run
run argv path = record { ending = broke true; exit_code = pos 1; writes = writes }
