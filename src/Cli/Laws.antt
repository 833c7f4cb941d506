-- ===== src/Cli/Laws.antt =====
-- Command lines with settings, for `handle_direct_invocation` of rtld/impl/src/cli.rs.
use rust_dlopen.Common.{
  ℕ, ◌+◌, String, ◌≡◌, ◌∙◌, refl, suc, true, false, Option, none, some, List, [], ◌∷◌, ◌++◌, length,
  arith,
}
use rust_dlopen.Common.Eq.{str_eq, str_eq_iff}
use rust_dlopen.Cli.{
  starts_with_dash, consumes_value, direct_program, stand_alone, last_argument, arguments_from,
  handle_direct_invocation,
}

-- The options after which the reading goes on.
pub data Setting : Type 0 where
  argv0_is : String → Setting
  inhibit_cache : Setting
  library_path : String → Setting
  preload : String → Setting
  audit : String → Setting
  glibc_hwcaps_prepend : String → Setting
  glibc_hwcaps_mask : String → Setting
  inhibit_rpath : String → Setting

unfoldable pub words : List Setting → List String
words [] = []
words (argv0_is v ∷ s) = "--argv0" ∷ v ∷ words s
words (inhibit_cache ∷ s) = "--inhibit-cache" ∷ words s
words (library_path v ∷ s) = "--library-path" ∷ v ∷ words s
words (preload v ∷ s) = "--preload" ∷ v ∷ words s
words (audit v ∷ s) = "--audit" ∷ v ∷ words s
words (glibc_hwcaps_prepend v ∷ s) = "--glibc-hwcaps-prepend" ∷ v ∷ words s
words (glibc_hwcaps_mask v ∷ s) = "--glibc-hwcaps-mask" ∷ v ∷ words s
words (inhibit_rpath v ∷ s) = "--inhibit-rpath" ∷ v ∷ words s

-- The last value that is given for argv[0].
unfoldable pub last_argv0 : Option String → List Setting → Option String
last_argv0 argv0 [] = argv0
last_argv0 argv0 (argv0_is v ∷ s) = last_argv0 (some v) s
last_argv0 argv0 (_ ∷ s) = last_argv0 argv0 s

no_option :
    (program option : String)
    → starts_with_dash program ≡ false
    → starts_with_dash option ≡ true
    → str_eq program option ≡ false
no_option program option h k = ground (arith, str_eq_iff program option)

not_stand_alone : (program : String) → starts_with_dash program ≡ false → stand_alone program ≡ none
unfolding stand_alone
not_stand_alone program h = rw (
  stand_alone,
  no_option program "--help" h (unfold starts_with_dash in refl),
  no_option program "--version" h (unfold starts_with_dash in refl),
  no_option program "--list-diagnostics" h (unfold starts_with_dash in refl),
  no_option program "--list-tunables" h (unfold starts_with_dash in refl),
)

not_consumes_value :
    (program : String) → starts_with_dash program ≡ false → consumes_value program ≡ false
unfolding consumes_value
not_consumes_value program h = rw (
  consumes_value,
  no_option program "--library-path" h (unfold starts_with_dash in refl),
  no_option program "--preload" h (unfold starts_with_dash in refl),
  no_option program "--audit" h (unfold starts_with_dash in refl),
  no_option program "--glibc-hwcaps-prepend" h (unfold starts_with_dash in refl),
  no_option program "--glibc-hwcaps-mask" h (unfold starts_with_dash in refl),
  no_option program "--inhibit-rpath" h (unfold starts_with_dash in refl),
)

program_found :
    (index : ℕ) (argv0 : Option String) (program : String) (rest : List String)
    → starts_with_dash program ≡ false
    → arguments_from index argv0 (program ∷ rest) ≡ direct_program index argv0
unfolding arguments_from last_argument
program_found index argv0 program [] h = rw (
  arguments_from,
  last_argument,
  not_stand_alone program h,
  no_option program "--verify" h (unfold starts_with_dash in refl),
  no_option program "--list" h (unfold starts_with_dash in refl),
  no_option program "--argv0" h (unfold starts_with_dash in refl),
  not_consumes_value program h,
  no_option program "--inhibit-cache" h (unfold starts_with_dash in refl),
  h,
)
program_found index argv0 program (value ∷ rest) h = rw (
  arguments_from,
  not_stand_alone program h,
  no_option program "--verify" h (unfold starts_with_dash in refl),
  no_option program "--list" h (unfold starts_with_dash in refl),
  no_option program "--argv0" h (unfold starts_with_dash in refl),
  not_consumes_value program h,
  no_option program "--inhibit-cache" h (unfold starts_with_dash in refl),
  h,
)

words_append-cons :
    (s : List Setting) (program : String) (rest : List String)
    → (v : String) × (r : List String) × (words s ++ program ∷ rest ≡ v ∷ r)
unfolding words
words_append-cons [] program rest = (program, rest, refl)
words_append-cons (argv0_is v ∷ s) program rest = ("--argv0", _, refl)
words_append-cons (inhibit_cache ∷ s) program rest = ("--inhibit-cache", _, refl)
words_append-cons (library_path v ∷ s) program rest = ("--library-path", _, refl)
words_append-cons (preload v ∷ s) program rest = ("--preload", _, refl)
words_append-cons (audit v ∷ s) program rest = ("--audit", _, refl)
words_append-cons (glibc_hwcaps_prepend v ∷ s) program rest = ("--glibc-hwcaps-prepend", _, refl)
words_append-cons (glibc_hwcaps_mask v ∷ s) program rest = ("--glibc-hwcaps-mask", _, refl)
words_append-cons (inhibit_rpath v ∷ s) program rest = ("--inhibit-rpath", _, refl)

inhibit_cache_lem :
    (index : ℕ) (argv0 : Option String) (tail : List String) (v : String) (r : List String)
    → tail ≡ v ∷ r
    → arguments_from index argv0 ("--inhibit-cache" ∷ tail) ≡ arguments_from (index + 1) argv0 tail
unfolding arguments_from stand_alone consumes_value
inhibit_cache_lem index argv0 tail v r e = rw e refl

value_option :
    (option : String) (index : ℕ) (argv0 : Option String) (value : String) (rest : List String)
    → stand_alone option ≡ none
    → str_eq option "--verify" ≡ false
    → str_eq option "--list" ≡ false
    → str_eq option "--argv0" ≡ false
    → consumes_value option ≡ true
    → arguments_from index argv0 (option ∷ value ∷ rest) ≡ arguments_from (index + 2) argv0 rest
unfolding arguments_from
value_option option index argv0 value rest a b c d e = rw (arguments_from, a, b, c, d, e)

argv0_lem :
    (index : ℕ) (argv0 : Option String) (value : String) (rest : List String)
    → arguments_from index argv0 ("--argv0" ∷ value ∷ rest)
      ≡ arguments_from (index + 2) (some value) rest
unfolding arguments_from stand_alone
argv0_lem index argv0 value rest = refl

two_more : (index n : ℕ) → index + suc (suc n) ≡ index + 2 + n
two_more index n = omega arith

arguments_from_lem :
    (s : List Setting) (index : ℕ) (argv0 : Option String) (program : String) (rest : List String)
    → starts_with_dash program ≡ false
    → arguments_from index argv0 (words s ++ program ∷ rest)
      ≡ direct_program (index + length (words s)) (last_argv0 argv0 s)
unfolding words last_argv0
arguments_from_lem [] index argv0 program rest h =
    let e : index + 0 ≡ index = omega arith in rw e (program_found index argv0 program rest h)
arguments_from_lem (argv0_is v ∷ s) index argv0 program rest h =
    rw (two_more index (length (words s))) (
      argv0_lem index argv0 v (words s ++ program ∷ rest)
      ∙ arguments_from_lem s (index + 2) (some v) program rest h)
arguments_from_lem (inhibit_cache ∷ s) index argv0 program rest h =
    let (v, r, c) = words_append-cons s program rest in
    let e : index + length (words (inhibit_cache ∷ s)) ≡ index + 1 + length (words s) =
      omega arith in
    rw e (
      inhibit_cache_lem index argv0 (words s ++ program ∷ rest) v r c
      ∙ arguments_from_lem s (index + 1) argv0 program rest h)
arguments_from_lem (library_path v ∷ s) index argv0 program rest h =
    rw (two_more index (length (words s))) (
      value_option "--library-path" index argv0 v (words s ++ program ∷ rest)
        (unfold stand_alone in refl) refl refl refl (unfold consumes_value in refl)
      ∙ arguments_from_lem s (index + 2) argv0 program rest h)
arguments_from_lem (preload v ∷ s) index argv0 program rest h =
    rw (two_more index (length (words s))) (
      value_option "--preload" index argv0 v (words s ++ program ∷ rest)
        (unfold stand_alone in refl) refl refl refl (unfold consumes_value in refl)
      ∙ arguments_from_lem s (index + 2) argv0 program rest h)
arguments_from_lem (audit v ∷ s) index argv0 program rest h =
    rw (two_more index (length (words s))) (
      value_option "--audit" index argv0 v (words s ++ program ∷ rest) (unfold stand_alone in refl)
        refl refl refl (unfold consumes_value in refl)
      ∙ arguments_from_lem s (index + 2) argv0 program rest h)
arguments_from_lem (glibc_hwcaps_prepend v ∷ s) index argv0 program rest h =
    rw (two_more index (length (words s))) (
      value_option "--glibc-hwcaps-prepend" index argv0 v (words s ++ program ∷ rest)
        (unfold stand_alone in refl) refl refl refl (unfold consumes_value in refl)
      ∙ arguments_from_lem s (index + 2) argv0 program rest h)
arguments_from_lem (glibc_hwcaps_mask v ∷ s) index argv0 program rest h =
    rw (two_more index (length (words s))) (
      value_option "--glibc-hwcaps-mask" index argv0 v (words s ++ program ∷ rest)
        (unfold stand_alone in refl) refl refl refl (unfold consumes_value in refl)
      ∙ arguments_from_lem s (index + 2) argv0 program rest h)
arguments_from_lem (inhibit_rpath v ∷ s) index argv0 program rest h =
    rw (two_more index (length (words s))) (
      value_option "--inhibit-rpath" index argv0 v (words s ++ program ∷ rest)
        (unfold stand_alone in refl) refl refl refl (unfold consumes_value in refl)
      ∙ arguments_from_lem s (index + 2) argv0 program rest h)

-- A command line of settings, a program and its arguments is run as that program: the index is
-- the program's place among all the arguments, counted from the loader's own name, and argv[0] is
-- the value of the last `--argv0`, if there is one. The program's name does not start with '-';
-- what its arguments are does not matter.
pub handle_direct_invocation_lem :
    (loader program : String) (s : List Setting) (rest : List String)
    → starts_with_dash program ≡ false
    → handle_direct_invocation (loader ∷ words s ++ program ∷ rest)
      ≡ direct_program (1 + length (words s)) (last_argv0 none s)
unfolding handle_direct_invocation
handle_direct_invocation_lem loader program s rest h = arguments_from_lem s 1 none program rest h
