-- ===== src/Utils/Command/Shebang.antt =====
-- The command that a shebang line gives (utils/command/command.go).
use casa_os_common.Common.{
  ◌⊎◌, ap, ℕ, ◌≡◌, ◌≢◌, refl, arith, true, false, ◌&&◌, ◌||◌, Option, none, some, List, [], ◌∷◌,
  ◌==◌, ◌++◌, ap, ◌⊎◌, if◌then◌else◌, Bytes, codes, inl, inr, Option-cases, Bool-cases, sym,
}
use mathlib.Core.Path.{subst}
use casa_os_common.Utils.Version.{is_space, add_front, drop_spaces, drop_end_spaces, trim_space}
use casa_os_common.Utils.Command.{split_blank, words_of, interpreter}

-- A string that ends in no white space.
abbrev EndsWell : Bytes → Type 0
EndsWell [] = ⊥
EndsWell (c ∷ []) = is_space c ≡ false
EndsWell (c ∷ d ∷ s) = EndsWell (d ∷ s)

abbrev NoBlank : Bytes → Type 0
NoBlank [] = Unit
NoBlank (c ∷ s) = (c == 32 || c == 9 ≡ false) × NoBlank s

-- A word, without a space or a tab.
abbrev pub IsWord : Bytes → Type 0
IsWord s = (s ≢ []) × NoBlank s

-- A program, or a program and one argument.
abbrev pub IsCommand : List Bytes → Type 0
IsCommand [] = ⊥
IsCommand (p ∷ []) = IsWord p
IsCommand (p ∷ a ∷ []) = IsWord p × (a ≢ [])
IsCommand (p ∷ a ∷ b ∷ ws) = ⊥

-- What is behind the first blank ends as the string does.
split_blank-EndsWell : (s a : Bytes) → EndsWell s → (split_blank s).1 ≡ some a → EndsWell a
unfolding split_blank
split_blank-EndsWell [] a e h = absurd e
split_blank-EndsWell (c ∷ []) a e h = absurd (ground arith)
split_blank-EndsWell (c ∷ d ∷ s) a e h = elim (Bool-cases (c == 32 || c == 9)) [
  | inl b ↦ (let q : d ∷ s ≡ a = ground (arith, h, b) in subst (λ x. EndsWell x) q e)
  | inr b ↦
      (let q : (split_blank (d ∷ s)).1 ≡ some a = ground (arith, h, b) in
        split_blank-EndsWell (d ∷ s) a e q)
]

NoBlank-split_blank : (s : Bytes) → NoBlank (split_blank s).0
unfolding split_blank
NoBlank-split_blank [] = tt
NoBlank-split_blank (c ∷ s) = ground (arith, NoBlank-split_blank s)

-- The same of an empty string.
abbrev EndsWellOrEmpty : Bytes → Type 0
EndsWellOrEmpty [] = Unit
EndsWellOrEmpty (c ∷ s) = EndsWell (c ∷ s)

abbrev HeadWell : Bytes → Type 0
HeadWell [] = Unit
HeadWell (c ∷ s) = is_space c ≡ false

drop_spaces_well : (c : ℕ) (s : Bytes) → is_space c ≡ false → drop_spaces (c ∷ s) ≡ c ∷ s
unfolding drop_spaces
drop_spaces_well c s h = ground (arith, h)

drop_spaces_blank : (c : ℕ) (s : Bytes) → is_space c ≡ true → drop_spaces (c ∷ s) ≡ drop_spaces s
unfolding drop_spaces
drop_spaces_blank c s h = ground (arith, h)

EndsWell-drop_spaces : (s : Bytes) → EndsWell s → EndsWell (drop_spaces s)
EndsWell-drop_spaces [] e = absurd e
EndsWell-drop_spaces (c ∷ []) e = subst (λ x. EndsWell x) (sym (drop_spaces_well c [] e)) e
EndsWell-drop_spaces (c ∷ d ∷ s) e = elim (Bool-cases (is_space c)) [
  | inl b ↦
      subst (λ x. EndsWell x) (sym (drop_spaces_blank c (d ∷ s) b)) (EndsWell-drop_spaces (d ∷ s) e)
  | inr b ↦ subst (λ x. EndsWell x) (sym (drop_spaces_well c (d ∷ s) b)) e
]

HeadWell-drop_spaces : (s : Bytes) → HeadWell (drop_spaces s)
unfolding drop_spaces
HeadWell-drop_spaces [] = tt
HeadWell-drop_spaces (c ∷ s) = elim (Bool-cases (is_space c)) [
  | inl b ↦ subst (λ x. HeadWell x) (sym (drop_spaces_blank c s b)) (HeadWell-drop_spaces s)
  | inr b ↦ subst (λ x. HeadWell x) (sym (drop_spaces_well c s b)) b
]

add_front-HeadWell : (c : ℕ) (r : Bytes) → is_space c ≡ false → HeadWell (add_front c r)
add_front-HeadWell c [] h = subst (λ b. HeadWell (if b then [] else c ∷ [])) (sym h) h
add_front-HeadWell c (d ∷ t) h = h

add_front-EndsWellOrEmpty :
    (c : ℕ) (r : Bytes) → EndsWellOrEmpty r → EndsWellOrEmpty (add_front c r)
add_front-EndsWellOrEmpty c [] h = elim (Bool-cases (is_space c)) [
  | inl b ↦ subst (λ b. EndsWellOrEmpty (if b then [] else c ∷ [])) (sym b) tt
  | inr b ↦ subst (λ b. EndsWellOrEmpty (if b then [] else c ∷ [])) (sym b) b
]
add_front-EndsWellOrEmpty c (d ∷ t) h = h

drop_end_spaces-EndsWellOrEmpty : (s : Bytes) → EndsWellOrEmpty (drop_end_spaces s)
unfolding drop_end_spaces
drop_end_spaces-EndsWellOrEmpty [] = tt
drop_end_spaces-EndsWellOrEmpty (c ∷ s) =
    add_front-EndsWellOrEmpty c (drop_end_spaces s) (drop_end_spaces-EndsWellOrEmpty s)

HeadWell-drop_end_spaces : (s : Bytes) → HeadWell s → HeadWell (drop_end_spaces s)
unfolding drop_end_spaces
HeadWell-drop_end_spaces [] h = tt
HeadWell-drop_end_spaces (c ∷ s) h = add_front-HeadWell c (drop_end_spaces s) h

add_front_nonempty : (c : ℕ) (r : Bytes) → r ≢ [] → add_front c r ≢ []
add_front_nonempty c [] n h = n refl
add_front_nonempty c (d ∷ t) n h = ground arith

drop_end_spaces_nonempty : (s : Bytes) → EndsWell s → drop_end_spaces s ≢ []
unfolding drop_end_spaces
drop_end_spaces_nonempty [] e h = e
drop_end_spaces_nonempty (c ∷ []) e h = ground (arith, e, h)
drop_end_spaces_nonempty (c ∷ d ∷ s) e h =
    add_front_nonempty c (drop_end_spaces (d ∷ s)) (drop_end_spaces_nonempty (d ∷ s) e) h

split_blank-none : (s : Bytes) → (split_blank s).1 ≡ none → (split_blank s).0 ≡ s
unfolding split_blank
split_blank-none [] h = refl
split_blank-none (c ∷ s) h = ground (arith, split_blank-none s)

split_blank-nonempty : (c : ℕ) (s : Bytes) → is_space c ≡ false → (split_blank (c ∷ s)).0 ≢ []
unfolding split_blank
split_blank-nonempty c s h q = ground (arith, h)

-- The words by what is behind the first blank.
abbrev words_by : Bytes → Option Bytes → List Bytes
words_by s none = s ∷ []
words_by s (some arg) = (split_blank s).0 ∷ trim_space arg ∷ []

words_of-words_by :
    (c : ℕ) (s : Bytes) → words_of (c ∷ s) ≡ words_by (c ∷ s) (split_blank (c ∷ s)).1
unfolding words_of
words_of-words_by c s = elim (Option-cases (split_blank (c ∷ s)).1) [
  | inl n ↦ ground (arith, n)
  | inr (a, q) ↦ ground (arith, q)
]

shell-IsCommand : IsCommand (codes "/bin/sh" ∷ [])
shell-IsCommand = ((λ q. ground arith), (refl, (refl, (refl, (refl, (refl, (refl, (refl, tt))))))))

words_of-IsCommand : (s : Bytes) → HeadWell s → EndsWellOrEmpty s → IsCommand (words_of s)
unfolding words_of
words_of-IsCommand [] h e = shell-IsCommand
words_of-IsCommand (c ∷ s) h e =
    let first : IsWord (split_blank (c ∷ s)).0 =
      (split_blank-nonempty c s h, NoBlank-split_blank (c ∷ s)) in
    subst (λ ws. IsCommand ws) (sym (words_of-words_by c s))
      (elim (Option-cases (split_blank (c ∷ s)).1) [
        | inl n ↦
            (subst (λ o. IsCommand (words_by (c ∷ s) o)) (sym n)
              (subst (λ w. IsWord w) (split_blank-none (c ∷ s) n) first))
        | inr (a, q) ↦
            (let arg = EndsWell-drop_spaces a (split_blank-EndsWell (c ∷ s) a e q) in
              subst (λ o. IsCommand (words_by (c ∷ s) o)) (sym q)
                (first, drop_end_spaces_nonempty (drop_spaces a) arg))
      ])

interpreter_shape : (line : Bytes) → IsCommand (interpreter line)
unfolding interpreter
interpreter_shape [] = shell-IsCommand
interpreter_shape (c ∷ []) = shell-IsCommand
interpreter_shape (c ∷ d ∷ s) =
    let w =
      words_of-IsCommand (trim_space s)
        (HeadWell-drop_end_spaces (drop_spaces s) (HeadWell-drop_spaces s))
        (drop_end_spaces-EndsWellOrEmpty (drop_spaces s)) in
    elim (Bool-cases (c == b'#' && d == b'!')) [
      | inl b ↦
          subst (λ x. IsCommand (if x then words_of (trim_space s) else codes "/bin/sh" ∷ []))
            (sym b) w
      | inr b ↦
          subst (λ x. IsCommand (if x then words_of (trim_space s) else codes "/bin/sh" ∷ []))
            (sym b) shell-IsCommand
    ]

-- What comes of the text behind `#!`, without the white space around it: the shell where it is empty; the
-- text where it has no blank; else what is before the first blank, and the rest without white space.
abbrev pub TextCommand : Bytes → List Bytes → Type 0
TextCommand t argv =
    ((t ≡ []) × (argv ≡ codes "/bin/sh" ∷ []))
    ⊎ ((NoBlank t × (argv ≡ t ∷ []))
        ⊎ ((p : Bytes) × (b : ℕ) × (rest : Bytes) × (t ≡ p ++ b ∷ rest)
            × NoBlank p
            × (b == 32 || b == 9 ≡ true)
            × (argv ≡ p ∷ trim_space rest ∷ [])))

-- The same of a line, which may lack the `#!`.
abbrev pub LineCommand : Bytes → List Bytes → Type 0
LineCommand [] argv = argv ≡ codes "/bin/sh" ∷ []
LineCommand (c ∷ []) argv = argv ≡ codes "/bin/sh" ∷ []
LineCommand (c ∷ d ∷ s) argv =
    (((c ≢ b'#') ⊎ (d ≢ b'!')) × (argv ≡ codes "/bin/sh" ∷ []))
    ⊎ ((c ≡ b'#') × (d ≡ b'!') × TextCommand (trim_space s) argv)

-- A string is what is before its first blank, the blank and what is behind it.
split_blank-some :
    (s a : Bytes)
    → (split_blank s).1 ≡ some a
    → (b : ℕ) × (s ≡ (split_blank s).0 ++ b ∷ a) × (b == 32 || b == 9 ≡ true)
unfolding split_blank
split_blank-some [] a h = ground arith
split_blank-some (c ∷ s) a h = elim (Bool-cases (c == 32 || c == 9)) [
  | inl b ↦ (c, ground (arith, h, b), b)
  | inr b ↦
      (let (d, e, f) = split_blank-some s a (ground (arith, h, b)) in
        (d, ground (arith, b, ap (λ t. c ∷ t) e), f))
]

words_of-TextCommand : (s : Bytes) → TextCommand s (words_of s)
unfolding words_of
words_of-TextCommand [] = inl (refl, refl)
words_of-TextCommand (c ∷ s) =
    subst (λ ws. TextCommand (c ∷ s) ws) (sym (words_of-words_by c s))
      (elim (Option-cases (split_blank (c ∷ s)).1) [
        | inl n ↦
            (inr (
              inl (
                subst (λ w. NoBlank w) (split_blank-none (c ∷ s) n) (NoBlank-split_blank (c ∷ s)),
                ap (λ o. words_by (c ∷ s) o) n,
              )))
        | inr (a, q) ↦
            (let (b, e, f) = split_blank-some (c ∷ s) a q in
              inr (
                inr (
                  (split_blank (c ∷ s)).0,
                  b,
                  a,
                  e,
                  NoBlank-split_blank (c ∷ s),
                  f,
                  ap (λ o. words_by (c ∷ s) o) q,
                )))
      ])

interpreter_line : (line : Bytes) → LineCommand line (interpreter line)
unfolding interpreter
interpreter_line [] = refl
interpreter_line (c ∷ []) = refl
interpreter_line (c ∷ d ∷ s) = elim (Bool-cases (c == b'#')) [
  | inr p ↦ inl (inl (ground (arith, p)), ground (arith, p))
  | inl p ↦ elim (Bool-cases (d == b'!')) [
    | inr q ↦ inl (inr (ground (arith, q)), ground (arith, p, q))
    | inl q ↦
        (let both : c == b'#' && d == b'!' ≡ true = ground (arith, p, q) in
          inr (
            ground (arith, p),
            ground (arith, q),
            subst
                (λ x.
                  TextCommand (trim_space s)
                    (if x then words_of (trim_space s) else codes "/bin/sh" ∷ []))
                (sym both) (words_of-TextCommand (trim_space s)),
          ))
  ]
]

-- For any line, interpreter gives /bin/sh alone where the line does not start with #! or has only white
-- space behind it. Else it gives the text behind #!, without the white space around it: alone where it has
-- no space or tab, and cut at the first of them otherwise, into the program and one argument without white
-- space around it. The program is a word without a space or a tab, and the argument is not empty.
pub interpreter-IsCommand :
    (line : Bytes) → IsCommand (interpreter line) × LineCommand line (interpreter line)
interpreter-IsCommand line = (interpreter_shape line, interpreter_line line)
