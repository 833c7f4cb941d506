-- ===== src/Tests/LoaderRuns.antt =====
-- The theorems on names, scripts, the cache and the start of the loader at concrete inputs.
use Prim.Native.Nat.{Ordering}
use rust_dlopen.Common.{
  ℕ, ◌+◌, ◌-◌, ◌%◌, ◌≤◌, ◌<◌, ◌≡◌, refl, ◌⊎◌, true, false, none, some, [], ◌∷◌, ◌++◌, ◌&&◌, ◌==◌,
  ltb, leb, arith, length, if◌then◌else◌,
}
use rust_dlopen.Common.Outcome.{done}
use rust_dlopen.Names.{shortname_from_name}
use rust_dlopen.Names.Laws.{has_separator, shortname_clean, shortname_of_clean}
use rust_dlopen.Memory.{Mem, memmove, memset, strlen}
use rust_dlopen.Memory.Laws.{memmove_lem, memset_lem, strlen_lem}
use rust_dlopen.StaticTls.{TlsInfo, fresh_area, register_static_module}
use rust_dlopen.StaticTls.Laws.{IsLaidOut, IsPlaced, register_static_module_lem}
use rust_dlopen.LinkerScript.{
  Text, input_word, get_linker_script_libs, is_whitespace, is_paren, is_break, starts_with,
}
use rust_dlopen.LinkerScript.Tokens.{has_break, is_word, print}
use rust_dlopen.LinkerScript.Laws.{
  Group, end_group, library, needed, group_libs, is_group, script_tokens,
  get_linker_script_libs_lem,
}
use rust_dlopen.Cli.{direct_program, starts_with_dash, handle_direct_invocation}
use rust_dlopen.Cli.Laws.{argv0_is, inhibit_cache, words, last_argv0, handle_direct_invocation_lem}
use rust_dlopen.Bootstrap.{
  parse_dynamic, empty_info, add_signed, word_end, RewrittenStack, rewrite_initial_stack,
}
use rust_dlopen.Bootstrap.Laws.{
  has_null, has_tag, last_value, parse_dynamic_lem, add_signed_lem, IsInitialStack,
  rewrite_initial_stack_lem,
}
use rust_dlopen.LdCache.Search.{cmp, lookup_sorted}
use rust_dlopen.LdCache.Laws.{Suits, lookup_sorted_lem}

shortname_clean_example : has_separator (shortname_from_name "/usr/lib/libc.so.6") ≡ false
shortname_clean_example = shortname_clean "/usr/lib/libc.so.6"

plain_short_name : shortname_from_name "libc.so.6" ≡ "libc.so.6"
plain_short_name = shortname_of_clean "libc.so.6" (unfold has_separator in refl) refl

abbrev ramp : Mem
ramp x = x

memmove_lem_example :
    memmove 12 10 5 ramp 14
    ≡ (if leb 12 14 && ltb 14 (12 + 5) then ramp (10 + (14 - 12)) else ramp 14)
memmove_lem_example = memmove_lem 12 10 5 ramp 14

memset_lem_example :
    memset 12 511 5 ramp 14 ≡ (if leb 12 14 && ltb 14 (12 + 5) then 511 % 256 else ramp 14)
memset_lem_example = memset_lem 12 511 5 ramp 14

abbrev word_at_three : Mem
word_at_three x = if x == 5 then 0 else 7

not_nul : (i : ℕ) → i < 2 → word_at_three (3 + i) ≡ 0 → ⊥
not_nul i h z = ground arith

strlen_lem_example : strlen 10 3 word_at_three ≡ 2
strlen_lem_example = strlen_lem 2 10 3 word_at_three not_nul refl (omega arith)

abbrev block : TlsInfo
block = record { align = 16; memsz = 40; filesz = 8 }

fresh-IsLaidOut : IsLaidOut fresh_area
fresh-IsLaidOut = record { apart = omega arith; inside = omega arith }

register_static_module_lem_example :
    IsLaidOut (register_static_module true block fresh_area).1
    × (((register_static_module true block fresh_area).0 ≡ none)
          × ((register_static_module true block fresh_area).1.modules ≡ [])
        ⊎ (offset : ℕ) × (align : ℕ) × ((register_static_module true block fresh_area).0
            ≡ some offset)
          × IsPlaced fresh_area.area block offset align)
register_static_module_lem_example =
    register_static_module_lem true block fresh_area fresh-IsLaidOut

abbrev script : Group
script =
    library (b'a' ∷ [])
      (needed (library (b'b' ∷ []) end_group) (library (b'-' ∷ b'l' ∷ []) end_group))

script_words : is_group script ≡ true
unfolding is_group is_word has_break is_break is_whitespace is_paren starts_with
script_words = refl

input_is_word : is_word input_word ≡ true
unfolding is_word has_break is_break is_whitespace is_paren starts_with
input_is_word = refl

get_linker_script_libs_lem_example :
    get_linker_script_libs (print (script_tokens input_word script)) ≡ group_libs script
get_linker_script_libs_lem_example =
    get_linker_script_libs_lem input_word script input_is_word refl script_words

handle_direct_invocation_lem_example :
    handle_direct_invocation
      ("ld.so" ∷ words (inhibit_cache ∷ argv0_is "x" ∷ []) ++ "prog" ∷ "--help" ∷ [])
    ≡ direct_program
        (1 + length (words (inhibit_cache ∷ argv0_is "x" ∷ [])))
        (last_argv0 none (inhibit_cache ∷ argv0_is "x" ∷ []))
handle_direct_invocation_lem_example =
    handle_direct_invocation_lem "ld.so" "prog" (inhibit_cache ∷ argv0_is "x" ∷ []) ("--help" ∷ [])
      (unfold starts_with_dash in refl)

parse_dynamic_lem_example :
    parse_dynamic (some (((7, 64) ∷ (9, 0) ∷ (8, 48) ∷ (7, 80) ∷ []) ++ (0, 0) ∷ (1, 1) ∷ []))
    ≡ some (record empty_info { relocations = record { offset = 80; size = 48; entry_size = 24 } })
unfolding has_tag last_value
parse_dynamic_lem_example =
    parse_dynamic_lem ((7, 64) ∷ (9, 0) ∷ (8, 48) ∷ (7, 80) ∷ []) 0 ((1, 1) ∷ [])
      (unfold has_null in refl) (omega arith)

add_signed_lem_example : add_signed 4096 (word_end - 16) ≡ (4096 + (word_end - 16)) % word_end
add_signed_lem_example = add_signed_lem 4096 (word_end - 16) (omega arith) (omega arith)

-- argc is 3 and the arguments are 91, 92, 93; then the environment 71, and one auxiliary entry.
abbrev stack_words : Mem
stack_words x =
    if x == 0
    then 3
    else if x == 1
    then 91
    else if x == 2
    then 92
    else if x == 3
    then 93
    else if x == 5
    then 71
    else if x == 7
    then 6
    else if x == 8
    then 4096
    else 0

stack_words-IsInitialStack : IsInitialStack 3 1 1 stack_words
stack_words-IsInitialStack = record {
  environment = λ i h z. ground arith;
  environment_end = refl;
  auxv = λ i h z. ground arith;
  auxv_end = refl;
}

rewrite_initial_stack_lem_example :
    (rewritten_stack : RewrittenStack) × (words : Mem) × (rewrite_initial_stack 8 3 1 0 stack_words
      ≡ (rewritten_stack, words))
    × (rewritten_stack.argc ≡ 2)
    × (words 0 ≡ 2)
    × (rewritten_stack.exec_path ≡ 92)
    × (words rewritten_stack.argv ≡ 92)
    × (rewritten_stack.envp + 1 ≡ 5)
    × (rewritten_stack.auxv + 1 ≡ 7)
    × (words 2 ≡ 93)
rewrite_initial_stack_lem_example =
    rewrite_initial_stack_lem 8 3 1 0 1 1 stack_words stack_words-IsInitialStack (omega arith)
      (omega arith) (omega arith) (omega arith) 2 (omega arith) (omega arith)

abbrev table_name : ℕ → Text
table_name i = if i == 0 then b'a' ∷ [] else b'b' ∷ []

table_sorted : (i j : ℕ) → i ≤ j → j < 3 → cmp (table_name i) (table_name j) ≡ Ordering.gt → ⊥
unfolding cmp
table_sorted i j h k e = ground arith

lookup_sorted_lem_example :
    (q : Text) × (j : ℕ) × (lookup_sorted
        (λ i. done (some (table_name i)))
        (λ i. i == 2)
        (λ i. done (some (b'/' ∷ [])))
        3
        (b'b' ∷ [])
      ≡ done (some q))
    × Suits
        (λ i. done (some (table_name i)))
        (λ i. i == 2)
        (λ i. done (some (b'/' ∷ [])))
        3
        table_name
        (b'b' ∷ [])
        (λ i h. refl)
        table_sorted
        (λ i. some (b'/' ∷ []))
        (λ i h. refl)
        j
        q
lookup_sorted_lem_example =
    lookup_sorted_lem (λ i. done (some (table_name i))) (λ i. i == 2) (λ i. done (some (b'/' ∷ [])))
      3 table_name (b'b' ∷ []) (λ i h. refl) table_sorted (λ i. some (b'/' ∷ [])) (λ i h. refl) 2
      (b'/' ∷ []) (record { inside = omega arith; same_name = refl; suitable = refl; path = refl })
