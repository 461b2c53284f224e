-- ===== src/Utils/Version/Words.antt =====
-- The config file that `init` of utils/version/version.go finds in the line `ExecStart` of a service.
use casa_os_common.Common.{
  ◌+◌, ◌<◌, ◌≡◌, refl, arith, false, List, [], ◌∷◌, ◌++◌, length, ltb, if◌then◌else◌, Bytes,
  eq_bytes, codes, length-append,
}
use casa_os_common.Utils.Version.{split}

-- The path of the config file, or a panic for an index out of range.
pub data Location : Type 0 where
  located : Bytes → Location
  panics : Location

-- The word at the index behind a `-c`.
abbrev pub first_of : List Bytes → Location
first_of [] = panics
first_of (p ∷ ps) = located p

-- The loop over the words.
unfoldable pub locate : Bytes → List Bytes → Location
locate default_path [] = located default_path
locate default_path (w ∷ ws) =
    let rest = locate default_path ws in if eq_bytes w (codes "-c") then first_of ws else rest

unfoldable pub locate_config : Bytes → List Bytes → Location
unfolding locate
locate_config default_path ws =
    if ltb 2 (length ws) then locate default_path ws else located default_path

-- `strings.Split(execStart, " ")` and the search
unfoldable pub config_path : Bytes → Bytes → Location
unfolding split locate_config
config_path default_path exec_start =
    let (first, others) = split b' ' exec_start in locate_config default_path (first ∷ others)

-- No word is `-c`.
abbrev pub NoSwitch : List Bytes → Type 0
NoSwitch [] = Unit
NoSwitch (w ∷ ws) = (eq_bytes w (codes "-c") ≡ false) × NoSwitch ws

locate_switch :
    (default_path : Bytes) (ws rest : List Bytes)
    → NoSwitch ws
    → locate default_path (ws ++ codes "-c" ∷ rest) ≡ first_of rest
unfolding locate eq_bytes
locate_switch default_path [] rest n = refl
locate_switch default_path (w ∷ ws) rest (h, n) =
    simp (locate, h) (locate_switch default_path ws rest n)

-- In a line of more than two words, init takes the word behind the first -c for the config file, and
-- panics where no word follows it.
locate_config_switch :
    (default_path : Bytes) (ws rest : List Bytes)
    → NoSwitch ws
    → 1 < length ws + length rest
    → locate_config default_path (ws ++ codes "-c" ∷ rest) ≡ first_of rest
unfolding locate_config
locate_config_switch default_path ws rest n l =
    ground (arith, locate_switch default_path ws rest n, length-append ws (codes "-c" ∷ rest))
