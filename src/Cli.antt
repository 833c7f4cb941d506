-- ===== src/Cli.antt =====
-- The command line of the replacement loader: `handle_direct_invocation` of
-- rtld/impl/src/cli.rs. What it prints before it exits is left out: the actions name it.
pub mod Laws
use Prim.Native.Char.{code}
use rust_dlopen.Common.{
  ℕ, ◌+◌, String, Bool, true, false, ◌||◌, Option, none, some, List, [], ◌∷◌, ◌==◌,
}
use rust_dlopen.Common.Eq.{str_eq}

-- `starts_with_dash`
unfoldable pub starts_with_dash : String → Bool
starts_with_dash String.[] = false
starts_with_dash (String.◌∷◌ c s) = code c == b'-'

unfoldable pub consumes_value : String → Bool
consumes_value arg =
    str_eq arg "--library-path"
    || str_eq arg "--preload"
    || str_eq arg "--audit"
    || str_eq arg "--glibc-hwcaps-prepend"
    || str_eq arg "--glibc-hwcaps-mask"
    || str_eq arg "--inhibit-rpath"

-- How the call ends: with a `DirectProgram`, or with an exit.
pub data Invocation : Type 0 where
  direct_program : ℕ → Option String → Invocation
  help : Invocation
  version : Invocation
  list_diagnostics : Invocation
  list_tunables : Invocation
  verify : String → Invocation
  list_needed : String → Invocation
  missing_option_value : String → Invocation
  unrecognized_option : String → Invocation

-- An option that takes no value and ends the call.
unfoldable pub stand_alone : String → Option Invocation
stand_alone arg = elim (str_eq arg "--help") [
  | true ↦ some help
  | false ↦ elim (str_eq arg "--version") [
    | true ↦ some version
    | false ↦ elim (str_eq arg "--list-diagnostics") [
      | true ↦ some list_diagnostics
      | false ↦ elim (str_eq arg "--list-tunables") [ true ↦ some list_tunables | false ↦ none ]
    ]
  ]
]

-- What the code does with the last argument, where `option_value` finds none.
unfoldable pub last_argument : ℕ → Option String → String → Invocation
unfolding stand_alone consumes_value starts_with_dash
last_argument index argv0 arg = elim (stand_alone arg) [
  | some action ↦ action
  | none ↦
      elim (str_eq arg "--verify"
        || str_eq arg "--list"
        || str_eq arg "--argv0"
        || consumes_value arg) [
          | true ↦ missing_option_value arg
          | false ↦ elim (str_eq arg "--inhibit-cache") [
            | true ↦ help
            | false ↦ elim (starts_with_dash arg) [
              | true ↦ unrecognized_option arg
              | false ↦ direct_program index argv0
            ]
          ]
        ]
]

-- The loop over the arguments from `index` on.
unfoldable pub arguments_from : ℕ → Option String → List String → Invocation
unfolding last_argument
arguments_from index argv0 [] = help
arguments_from index argv0 (arg ∷ []) = last_argument index argv0 arg
arguments_from index argv0 (arg ∷ value ∷ rest) = elim (stand_alone arg) [
  | some action ↦ action
  | none ↦ elim (str_eq arg "--verify") [
    | true ↦ verify value
    | false ↦ elim (str_eq arg "--list") [
      | true ↦ list_needed value
      | false ↦ elim (str_eq arg "--argv0") [
        | true ↦ arguments_from (index + 2) (some value) rest
        | false ↦ elim (consumes_value arg) [
          | true ↦ arguments_from (index + 2) argv0 rest
          | false ↦ elim (str_eq arg "--inhibit-cache") [
            | true ↦ arguments_from (index + 1) argv0 (value ∷ rest)
            | false ↦ elim (starts_with_dash arg) [
              | true ↦ unrecognized_option arg
              | false ↦ direct_program index argv0
            ]
          ]
        ]
      ]
    ]
  ]
]

-- `handle_direct_invocation`; the first of the arguments is the loader's own name.
unfoldable pub handle_direct_invocation : List String → Invocation
unfolding arguments_from
handle_direct_invocation [] = help
handle_direct_invocation (program ∷ args) = arguments_from 1 none args
