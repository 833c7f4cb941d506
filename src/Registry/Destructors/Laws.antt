-- ===== src/Registry/Destructors/Laws.antt =====
-- `register_atexit` and `finalize` of src/core_impl/register.rs: who runs, and in which order.
use rust_dlopen.Common.{ℕ, ◌≡◌, refl, Bool, true, Option, List, [], ◌∷◌, ◌++◌, arith, if◌then◌else◌}
use mathlib.Core.List.{reverse}
use mathlib.Core.List
use rust_dlopen.Registry.LinkContext.{LinkContext}
use rust_dlopen.Registry.State.{Manager}
use rust_dlopen.Registry.Destructors.{
  Destructor, Range, register_atexit, matches, take_matching, finalize_range, finalize,
}

-- The loop over a table with one more destructor at the end.
take_matching-append :
    (p : Destructor → Bool) (ds : List Destructor) (d : Destructor)
    → take_matching p (ds ++ d ∷ []) ≡ (
        let (to_run, rest) = take_matching p ds in
        if p d then (to_run ++ d ∷ [], rest) else (to_run, rest ++ d ∷ []))
unfolding take_matching
take_matching-append p [] d = ground arith
take_matching-append p (x ∷ ds) d = ground (arith, take_matching-append p ds d)

take_matching-rest :
    (p : Destructor → Bool) (ds : List Destructor)
    → take_matching p (take_matching p ds).1 ≡ ([], (take_matching p ds).1)
unfolding take_matching
take_matching-rest p [] = refl
take_matching-rest p (d ∷ ds) = ground (arith, take_matching-rest p ds)

take_matching-all :
    (p : Destructor → Bool) (ds : List Destructor)
    → ((d : Destructor) → p d ≡ true)
    → take_matching p ds ≡ (ds, [])
unfolding take_matching
take_matching-all p [] h = refl
take_matching-all p (d ∷ ds) h = rw (take_matching-all p ds h, h d)

reverse_aux-append_one :
    (xs : List Destructor) (x : Destructor) (acc : List Destructor)
    → List.reverse_aux (xs ++ x ∷ []) acc ≡ x ∷ List.reverse_aux xs acc
reverse_aux-append_one [] x acc = refl
reverse_aux-append_one (y ∷ xs) x acc = reverse_aux-append_one xs x (y ∷ acc)

reverse-append_one :
    (xs : List Destructor) (x : Destructor) → reverse (xs ++ x ∷ []) ≡ x ∷ reverse xs
reverse-append_one xs x = reverse_aux-append_one xs x []

module _ (L : LinkContext) (m : Manager L) where
  -- The destructor that was registered last runs first if it matches; otherwise it stays, behind
  -- those that stay. The others run, or stay, as they would without it.
  pub finalize-register_atexit :
      (dso_handle : ℕ) (range : Option Range) (d : Destructor) (ds : List Destructor)
      → finalize L m dso_handle range (register_atexit d ds) ≡ (
          let (to_run, rest) = finalize L m dso_handle range ds in
          if matches dso_handle (finalize_range L m dso_handle range) d
          then (d ∷ to_run, rest)
          else (to_run, rest ++ d ∷ []))
  unfolding finalize register_atexit
  finalize-register_atexit dso_handle range d ds =
      let p = matches dso_handle (finalize_range L m dso_handle range) in
      ground (arith, take_matching-append p ds d, reverse-append_one (take_matching p ds).0 d)

  -- Finalizing the same library again, with nothing registered in between, runs nothing and leaves
  -- the table as it is.
  pub finalize_once :
      (dso_handle : ℕ) (range : Option Range) (ds : List Destructor)
      → finalize L m dso_handle range (finalize L m dso_handle range ds).1
        ≡ ([], (finalize L m dso_handle range ds).1)
  unfolding finalize
  finalize_once dso_handle range ds =
      rw (take_matching-rest (matches dso_handle (finalize_range L m dso_handle range)) ds)

  -- With the handle 0, every destructor runs, in the reverse of the order in which they were
  -- registered, and none stays.
  pub finalize_all :
      (range : Option Range) (ds : List Destructor) → finalize L m 0 range ds ≡ (reverse ds, [])
  unfolding finalize matches
  finalize_all range ds =
      rw (take_matching-all (matches 0 (finalize_range L m 0 range)) ds (λ d. refl))
