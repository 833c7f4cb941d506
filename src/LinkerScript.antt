-- ===== src/LinkerScript.antt =====
-- GNU linker scripts: src/utils/linker_script.rs. A text is the list of its characters, after the
-- lossy decoding of the file's bytes.
pub mod Tokens
pub mod Laws
use rust_dlopen.Common.{
  ℕ, zero, suc, ◌+◌, ◌-◌, Bool, true, false, not, ◌&&◌, ◌||◌, List, [], ◌∷◌, ◌++◌, ◌==◌, ltb, leb,
  length, drop, if◌then◌else◌,
}

abbrev pub Text : Type 0
Text = List ℕ

abbrev pub text_eq : Text → Text → Bool
text_eq [] [] = true
text_eq [] (y ∷ ys) = false
text_eq (x ∷ xs) [] = false
text_eq (x ∷ xs) (y ∷ ys) = x == y && text_eq xs ys

-- `char::is_whitespace`
unfoldable pub is_whitespace : ℕ → Bool
is_whitespace c =
    (leb 9 c && leb c 13)
    || c == 32
    || c == 133
    || c == 160
    || c == 5760
    || (leb 8192 c && leb c 8202)
    || c == 8232
    || c == 8233
    || c == 8239
    || c == 8287
    || c == 12288

unfoldable pub is_paren : ℕ → Bool
is_paren c = c == b'(' || c == b')'

-- Whether a word ends before this character.
unfoldable pub is_break : ℕ → Bool
unfolding is_whitespace is_paren
is_break c = is_whitespace c || is_paren c

unfoldable pub starts_with : ℕ → Text → Bool
starts_with c [] = false
starts_with c (x ∷ xs) = x == c

-- The loop over a comment: what follows `*/`, or nothing.
unfoldable pub skip_comment : Text → Text
unfolding starts_with
skip_comment [] = []
skip_comment (c ∷ s) =
    let rest = skip_comment s in if c == b'*' && starts_with b'/' s then drop 1 s else rest

-- The loop over a word: its characters, and what follows it.
unfoldable pub take_word : Text → Text × Text
unfolding is_break
take_word [] = ([], [])
take_word (c ∷ s) =
    let (word, rest) = take_word s in if is_break c then ([], c ∷ s) else (c ∷ word, rest)

-- The loop of `tokenize`, with fuel.
unfoldable pub tokenize_from : ℕ → Text → List Text
unfolding is_whitespace is_paren skip_comment take_word starts_with
tokenize_from fuel [] = []
tokenize_from zero (c ∷ s) = []
tokenize_from (suc fuel) (c ∷ s) = elim (is_whitespace c) [
  | true ↦ tokenize_from fuel s
  | false ↦ elim (is_paren c) [
    | true ↦ (c ∷ []) ∷ tokenize_from fuel s
    | false ↦ elim (c == b'/' && starts_with b'*' s) [
      | true ↦ tokenize_from fuel (skip_comment (drop 1 s))
      | false ↦ (c ∷ (take_word s).0) ∷ tokenize_from fuel (take_word s).1
    ]
  ]
]

unfoldable pub tokenize : Text → List Text
unfolding tokenize_from
tokenize s = tokenize_from (length s) s

abbrev pub open_paren : Text
open_paren = b'(' ∷ []

abbrev pub close_paren : Text
close_paren = b')' ∷ []

-- "AS_NEEDED"
abbrev pub as_needed : Text
as_needed = b'A' ∷ b'S' ∷ b'_' ∷ b'N' ∷ b'E' ∷ b'E' ∷ b'D' ∷ b'E' ∷ b'D' ∷ []

abbrev pub group_word : Text
group_word = b'G' ∷ b'R' ∷ b'O' ∷ b'U' ∷ b'P' ∷ []

abbrev pub input_word : Text
input_word = b'I' ∷ b'N' ∷ b'P' ∷ b'U' ∷ b'T' ∷ []

abbrev pub ascii_upper : ℕ → ℕ
ascii_upper c = if leb b'a' c && leb c b'z' then c - 32 else c

-- `eq_ignore_ascii_case`, against a word in upper case.
abbrev pub eq_ignore_ascii_case : Text → Text → Bool
eq_ignore_ascii_case [] [] = true
eq_ignore_ascii_case [] (y ∷ ys) = false
eq_ignore_ascii_case (x ∷ xs) [] = false
eq_ignore_ascii_case (x ∷ xs) (y ∷ ys) =
    ascii_upper x == ascii_upper y && eq_ignore_ascii_case xs ys

-- Whether the next token is "(".
unfoldable pub opens : List Text → Bool
opens [] = false
opens (t ∷ ts) = text_eq t open_paren

-- `parse_group`, with fuel: the libraries it pushes, and the tokens that are left.
unfoldable pub parse_group : ℕ → List Text → List Text × List Text
unfolding opens
parse_group fuel [] = ([], [])
parse_group zero (t ∷ ts) = ([], t ∷ ts)
parse_group (suc fuel) (t ∷ ts) = elim (text_eq t close_paren) [
  | true ↦ ([], ts)
  | false ↦ elim (text_eq t as_needed) [
    | true ↦ elim (opens ts) [
      | true ↦
          let (inner, after) = parse_group fuel (drop 1 ts) in
          let (libs, rest) = parse_group fuel after in (inner ++ libs, rest)
      | false ↦ parse_group fuel (drop 1 ts)
    ]
    | false ↦
        let (libs, rest) = parse_group fuel ts in
        (if starts_with b'-' t then libs else t ∷ libs, rest)
  ]
]

abbrev pub is_command : Text → Bool
is_command t = eq_ignore_ascii_case t group_word || eq_ignore_ascii_case t input_word

-- The loop of `get_linker_script_libs`, with fuel.
unfoldable pub script_libs : ℕ → List Text → List Text
unfolding parse_group opens
script_libs fuel [] = []
script_libs zero (t ∷ ts) = []
script_libs (suc fuel) (t ∷ ts) = elim (is_command t && opens ts) [
  | true ↦ let (libs, rest) = parse_group (length ts) (drop 1 ts) in libs ++ script_libs fuel rest
  | false ↦ script_libs fuel ts
]

unfoldable pub get_linker_script_libs : Text → List Text
unfolding tokenize script_libs
get_linker_script_libs s = let tokens = tokenize s in script_libs (length tokens) tokens
