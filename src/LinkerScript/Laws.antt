-- ===== src/LinkerScript/Laws.antt =====
-- Scripts as they are written, for the parser of src/utils/linker_script.rs.
use rust_dlopen.Common.{
  ℕ, zero, suc, ◌≤◌, ◌<◌, ◌≡◌, refl, Bool, true, false, not, ◌&&◌, List, [], ◌∷◌, ◌++◌, length,
  length-append, arith, if◌then◌else◌,
}
use mathlib.Core.List.{append_assoc, append-nil}
use rust_dlopen.LinkerScript.{
  Text, text_eq, is_whitespace, is_paren, is_break, starts_with, tokenize, open_paren, close_paren,
  as_needed, is_command, opens, parse_group, script_libs, get_linker_script_libs,
}
use rust_dlopen.LinkerScript.Tokens.{
  has_break, is_word, print, IsToken, opening, closing, word, AllTokens, tokenize_print,
}

-- A group of a script: what stands between "(" and ")".
pub data Group : Type 0 where
  end_group : Group
  library : Text → Group → Group
  needed : Group → Group → Group

-- The tokens of a group, its closing parenthesis included.
unfoldable pub group_tokens : Group → List Text
group_tokens end_group = close_paren ∷ []
group_tokens (library t g) = t ∷ group_tokens g
group_tokens (needed a g) = as_needed ∷ open_paren ∷ group_tokens a ++ group_tokens g

-- The libraries of a group in their order: options, which start with '-', are none.
unfoldable pub group_libs : Group → List Text
group_libs end_group = []
group_libs (library t g) = if starts_with b'-' t then group_libs g else t ∷ group_libs g
group_libs (needed a g) = group_libs a ++ group_libs g

-- The names of a group are words, and none is the word "AS_NEEDED".
unfoldable pub is_group : Group → Bool
is_group end_group = true
is_group (library t g) = is_word t && not (text_eq t as_needed) && is_group g
is_group (needed a g) = is_group a && is_group g

word_not_close : (t : Text) → is_word t ≡ true → text_eq t close_paren ≡ false
unfolding is_word has_break is_break is_paren
word_not_close [] h = cc
word_not_close (c ∷ []) h = ground arith
word_not_close (c ∷ d ∷ w) h = ground arith

group_tokens_append :
    (a g : Group) (rest : List Text)
    → group_tokens (needed a g) ++ rest
      ≡ as_needed ∷ open_paren ∷ group_tokens a ++ (group_tokens g ++ rest)
unfolding group_tokens
group_tokens_append a g rest = rw append_assoc

parse_library :
    (fuel : ℕ) (t : Text) (ts libs rest : List Text)
    → text_eq t close_paren ≡ false
    → text_eq t as_needed ≡ false
    → parse_group fuel ts ≡ (libs, rest)
    → parse_group (suc fuel) (t ∷ ts) ≡ (if starts_with b'-' t then libs else t ∷ libs, rest)
unfolding parse_group
parse_library fuel t ts libs rest h k e = ground (arith, h, k, e)

parse_needed :
    (fuel : ℕ) (ts inner after libs rest : List Text)
    → parse_group fuel ts ≡ (inner, after)
    → parse_group fuel after ≡ (libs, rest)
    → parse_group (suc fuel) (as_needed ∷ open_paren ∷ ts) ≡ (inner ++ libs, rest)
unfolding parse_group opens
parse_needed fuel ts inner after libs rest e k = ground (arith, e, k)

group_tokens_positive : (g : Group) → 0 < length (group_tokens g)
unfolding group_tokens
group_tokens_positive end_group = omega arith
group_tokens_positive (library t g) = omega arith
group_tokens_positive (needed a g) = omega arith

needed_fuel :
    (a g : Group) (fuel : ℕ)
    → length (group_tokens (needed a g)) ≤ suc fuel
    → (length (group_tokens a) ≤ fuel) × (length (group_tokens g) ≤ fuel)
unfolding group_tokens
needed_fuel a g fuel l =
    let e = length-append (group_tokens a) (group_tokens g) in (omega (arith, e), omega (arith, e))

parse_group_lem :
    (g : Group) (fuel : ℕ) (rest : List Text)
    → is_group g ≡ true
    → length (group_tokens g) ≤ fuel
    → parse_group fuel (group_tokens g ++ rest) ≡ (group_libs g, rest)
unfolding group_tokens group_libs is_group
parse_group_lem g zero rest h l = absurd (omega (arith, group_tokens_positive g))
parse_group_lem end_group (suc fuel) rest h l = unfold parse_group in refl
parse_group_lem (library t g) (suc fuel) rest h l =
    parse_library fuel t (group_tokens g ++ rest) (group_libs g) rest
      (word_not_close t (ground arith)) (ground arith)
      (parse_group_lem g fuel rest (ground arith) (omega arith))
parse_group_lem (needed a g) (suc fuel) rest h l = rw (group_tokens_append a g rest) (
    parse_needed fuel (group_tokens a ++ (group_tokens g ++ rest)) (group_libs a)
      (group_tokens g ++ rest) (group_libs g) rest
      (parse_group_lem a fuel (group_tokens g ++ rest) (ground arith) (needed_fuel a g fuel l).0)
      (parse_group_lem g fuel rest (ground arith) (needed_fuel a g fuel l).1))

-- The tokens of a script with one command.
unfoldable pub script_tokens : Text → Group → List Text
unfolding group_tokens
script_tokens command g = command ∷ open_paren ∷ group_tokens g

AllTokens-append : (xs ys : List Text) → AllTokens xs → AllTokens ys → AllTokens (xs ++ ys)
AllTokens-append [] ys h k = k
AllTokens-append (x ∷ xs) ys h k = (h.0, AllTokens-append xs ys h.1 k)

word-IsToken : (t : Text) → is_word t ≡ true → IsToken t
word-IsToken [] h = unfold is_word in absurd (cc)
word-IsToken (c ∷ w) h = word c w h

group_tokens-AllTokens : (g : Group) → is_group g ≡ true → AllTokens (group_tokens g)
unfolding group_tokens is_group
group_tokens-AllTokens end_group h = (closing, tt)
group_tokens-AllTokens (library t g) h =
    (word-IsToken t (ground arith), group_tokens-AllTokens g (ground arith))
group_tokens-AllTokens (needed a g) h = (
  word-IsToken as_needed (
      unfold is_word in
      unfold has_break in
      unfold is_break in unfold is_whitespace in unfold is_paren in unfold starts_with in refl),
  (
    opening,
    AllTokens-append (group_tokens a) (group_tokens g) (group_tokens-AllTokens a (ground arith))
        (group_tokens-AllTokens g (ground arith)),
  ),
)

script_libs_lem :
    (command : Text) (g : Group) (fuel : ℕ)
    → is_command command ≡ true
    → is_group g ≡ true
    → script_libs (suc fuel) (script_tokens command g) ≡ group_libs g
unfolding script_libs script_tokens opens
script_libs_lem command g fuel h k =
    let e = parse_group_lem g (suc (length (group_tokens g))) [] k (omega arith) in
    let e' = rw append-nil at e in rw (script_libs, h, e', append-nil)

-- Reading a script that consists of one command, GROUP or INPUT in any case, and a group of names
-- and nested AS_NEEDED groups, written out with a space behind each token, gives the names of the
-- group in their order, those of the nested groups included and those that start with '-' left
-- out. No name is AS_NEEDED, has white space or a parenthesis in it, or starts a comment.
pub get_linker_script_libs_lem :
    (command : Text) (g : Group)
    → is_word command ≡ true
    → is_command command ≡ true
    → is_group g ≡ true
    → get_linker_script_libs (print (script_tokens command g)) ≡ group_libs g
unfolding get_linker_script_libs tokenize
get_linker_script_libs_lem command g w h k =
    let tokens = script_tokens command g in
    let all : AllTokens tokens =
      unfold script_tokens in (word-IsToken command w, (opening, group_tokens-AllTokens g k)) in
    let e = tokenize_print tokens (length (print tokens)) all (omega arith) in
    rw (tokenize, e)
      (unfold script_tokens in script_libs_lem command g (suc (length (group_tokens g))) h k)
