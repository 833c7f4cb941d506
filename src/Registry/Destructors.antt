-- ===== src/Registry/Destructors.antt =====
-- The destructor table of src/core_impl/register.rs: `__cxa_atexit`, `__cxa_finalize` and
-- `finalize`. A destructor is kept as its handle, its function and its argument.
pub mod Laws
use rust_dlopen.Common.{
  ℕ, ◌+◌, Bool, true, false, ◌&&◌, Option, none, some, List, [], ◌∷◌, ◌++◌, ◌==◌, ltb, leb,
  if◌then◌else◌,
}
use mathlib.Core.List.{reverse}
use rust_dlopen.Common.Maybe.{find_first}
use rust_dlopen.Registry.Types.{LoadedDylib}
use rust_dlopen.Registry.LinkContext.{LinkContext}
use rust_dlopen.Registry.State.{Manager}
use rust_dlopen.Registry.Lookup.{all_values}
use rust_dlopen.Registry.Symbols.{covers}

pub record Destructor : Type 0 where
  pub dso_handle : ℕ
  pub func : ℕ
  pub arg : ℕ

-- A range of addresses, `start..end`.
abbrev pub Range : Type 0
Range = ℕ × ℕ

abbrev pub in_range : Range → ℕ → Bool
in_range (start, end_) a = leb start a && ltb a end_

-- `register_atexit`, behind `__cxa_atexit` and `__cxa_thread_atexit_impl`; the result is always 0.
unfoldable pub register_atexit : Destructor → List Destructor → List Destructor
register_atexit d all_destructors = all_destructors ++ d ∷ []

-- The test of the loop of `finalize`.
unfoldable pub matches : ℕ → Option Range → Destructor → Bool
matches dso_handle range d =
    if dso_handle == 0
    then true
    else elim range [ some r ↦ in_range r d.dso_handle | none ↦ d.dso_handle == dso_handle ]

-- The loop of `finalize`: what is taken out, in order, and what stays.
unfoldable pub take_matching :
    (Destructor → Bool) → List Destructor → List Destructor × List Destructor
take_matching p [] = ([], [])
take_matching p (d ∷ ds) =
    let (to_run, rest) = take_matching p ds in
    if p d then (d ∷ to_run, rest) else (to_run, d ∷ rest)

module _ (L : LinkContext) where
  -- The range of the library that a handle points into, if none was given.
  unfoldable pub finalize_range : Manager L → ℕ → Option Range → Option Range
  unfolding covers find_first
  finalize_range m dso_handle (some r) = some r
  finalize_range m dso_handle none =
      if dso_handle == 0 then none else elim (find_first (covers dso_handle) (all_values L m)) [
        | none ↦ none
        | some v ↦ some (v.base, v.base + v.mapped_len)
      ]

  -- `finalize`: the destructors that run, in the order in which they run, and the new table.
  unfoldable pub finalize :
      Manager L → ℕ → Option Range → List Destructor → List Destructor × List Destructor
  unfolding finalize_range matches take_matching
  finalize m dso_handle range all_destructors =
      let (to_run, rest) =
        take_matching (matches dso_handle (finalize_range m dso_handle range)) all_destructors in
      (reverse to_run, rest)
