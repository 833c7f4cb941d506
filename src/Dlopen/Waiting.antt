-- ===== src/Dlopen/Waiting.antt =====
-- `await_registered` of src/api/dlopen.rs, as `wait_for_library` calls it: what comes of a wait while
-- other threads change the registry.
use rust_dlopen.Common.{
  String, ◌≡◌, refl, ap, ◌∙◌, Option-cases, inl, inr, Bool, true, false, not, ◌&&◌, Option, none,
  some, List, [], ◌∷◌, ◌++◌, arith, if◌then◌else◌,
}
use rust_dlopen.Common.Maybe.{elem}
use rust_dlopen.Registry.Types.{LibraryLookup, pending, relocated, is_relocated, lookup_shortname}
use rust_dlopen.Registry.LinkContext.{LinkContext}
use rust_dlopen.Registry.State.{Manager}
use rust_dlopen.Registry.Lookup
use rust_dlopen.Dlopen.{is_usable}
use rust_dlopen.Dlopen.Operation.{
  OpenContext, returned, waiting, panicked, own_names, await_rounds, await_library,
  wait_for_library,
}

-- The library is reserved, and not by the operation itself.
abbrev pub is_busy : Bool → List String → Option LibraryLookup → Bool
is_busy own names none = false
is_busy own names (some (pending shortname)) = not (own && elem shortname names)
is_busy own names (some (relocated shortname name)) = false

is_usable-is_busy :
    (own : Bool) (names : List String) (lib : LibraryLookup)
    → is_usable (own_names own names) lib ≡ not (is_busy own names (some lib))
unfolding is_usable is_relocated lookup_shortname
is_usable-is_busy true names (pending k) = ground arith
is_usable-is_busy true names (relocated k n) = refl
is_usable-is_busy false names (pending k) = refl
is_usable-is_busy false names (relocated k n) = refl

module _ (L : LinkContext) where
  -- The registry after what other threads did.
  abbrev pub after_all : List (Manager L → Manager L) → Manager L → Manager L
  after_all [] m = m
  after_all (act ∷ acts) m = after_all acts (act m)

  module _ (own : Bool) (lookup : Manager L → Option LibraryLookup) where
    -- The library is busy at first and after each of these actions but the last.
    abbrev pub BusyBefore : List String → List (Manager L → Manager L) → Manager L → Type 0
    BusyBefore names [] m = Unit {0}
    BusyBefore names (act ∷ acts) m =
        (is_busy own names (lookup m) ≡ true) × BusyBefore names acts (act m)

    locked_rounds :
        (s : OpenContext L)
        → s.lock ≡ true
        → await_library lookup own s ≡ await_rounds lookup own s.others s
    unfolding await_library
    locked_rounds s locked =
        ap (λ b. if b then await_rounds lookup own s.others s else panicked) locked

    usable :
        (s : OpenContext L) (lib : LibraryLookup)
        → lookup s.manager ≡ some lib
        → is_busy own s.added_names (lookup s.manager) ≡ false
        → is_usable (own_names own s.added_names) lib ≡ true
    usable s lib e h = is_usable-is_busy own s.added_names lib ∙ ap not (rw e at h)

    unusable :
        (s : OpenContext L) (lib : LibraryLookup)
        → lookup s.manager ≡ some lib
        → is_busy own s.added_names (lookup s.manager) ≡ true
        → is_usable (own_names own s.added_names) lib ≡ false
    unusable s lib e h = is_usable-is_busy own s.added_names lib ∙ ap not (rw e at h)

    not_missing :
        (s : OpenContext L)
        → lookup s.manager ≡ none
        → is_busy own s.added_names (lookup s.manager) ≡ true
        → ⊥
    not_missing s e h = cc (rw e at h)

    rounds_end :
        (after : List (Manager L → Manager L)) (s : OpenContext L)
        → is_busy own s.added_names (lookup s.manager) ≡ false
        → await_rounds lookup own after s ≡ returned (lookup s.manager) s
    unfolding await_rounds
    rounds_end [] s h = elim (Option-cases (lookup s.manager)) [
      | inl e ↦ rw (await_rounds, e) refl
      | inr (lib, e) ↦ rw (await_rounds, e, usable s lib e h) refl
    ]
    rounds_end (act ∷ rest) s h = elim (Option-cases (lookup s.manager)) [
      | inl e ↦ rw (await_rounds, e) refl
      | inr (lib, e) ↦ rw (await_rounds, e, usable s lib e h) refl
    ]

    rounds_go :
        (act : Manager L → Manager L) (rest : List (Manager L → Manager L)) (s : OpenContext L)
        → is_busy own s.added_names (lookup s.manager) ≡ true
        → await_rounds lookup own (act ∷ rest) s
          ≡ await_rounds lookup own rest (record s { manager = act s.manager; others = rest })
    unfolding await_rounds
    rounds_go act rest s h = elim (Option-cases (lookup s.manager)) [
      | inl e ↦ absurd (not_missing s e h)
      | inr (lib, e) ↦ rw (await_rounds, e, unusable s lib e h) refl
    ]

    rounds_wait :
        (s : OpenContext L)
        → is_busy own s.added_names (lookup s.manager) ≡ true
        → await_rounds lookup own [] s ≡ waiting
    unfolding await_rounds
    rounds_wait s h = elim (Option-cases (lookup s.manager)) [
      | inl e ↦ absurd (not_missing s e h)
      | inr (lib, e) ↦ rw (await_rounds, e, unusable s lib e h) refl
    ]

    rounds_return :
        (before after : List (Manager L → Manager L)) (s : OpenContext L)
        → s.others ≡ before ++ after
        → BusyBefore s.added_names before s.manager
        → is_busy own s.added_names (lookup (after_all before s.manager)) ≡ false
        → await_rounds lookup own (before ++ after) s
          ≡ returned
              (lookup (after_all before s.manager))
              (record s { manager = after_all before s.manager; others = after })
    rounds_return [] after s e b h =
        rounds_end after s h ∙ (λ i. returned (lookup s.manager) (record s { others = e i }))
    rounds_return (act ∷ before) after s e (b, bs) h =
        rounds_go act (before ++ after) s b
        ∙ rounds_return before after
            (record s { manager = act s.manager; others = before ++ after }) refl bs h

    rounds_stuck :
        (acts : List (Manager L → Manager L)) (s : OpenContext L)
        → BusyBefore s.added_names acts s.manager
        → is_busy own s.added_names (lookup (after_all acts s.manager)) ≡ true
        → await_rounds lookup own acts s ≡ waiting
    rounds_stuck [] s b h = rounds_wait s h
    rounds_stuck (act ∷ acts) s (b, bs) h =
        rounds_go act acts s b
        ∙ rounds_stuck acts (record s { manager = act s.manager; others = acts }) bs h

  -- An operation that holds the lock waits for a library under a name, while other threads change
  -- the registry in any way whenever the lock is given up. If the name leads to a library that is
  -- reserved, and not by the operation itself where it says which are its own, until some of these
  -- changes have been made and no longer after them, then the wait ends at once: it returns what
  -- the name leads to in that state, nothing included, and the later changes are still to come.
  pub wait_for_library-returns :
      (own : Bool) (name : String) (s : OpenContext L) (before after : List (Manager L → Manager L))
      → s.lock ≡ true
      → s.others ≡ before ++ after
      → BusyBefore own (λ m. Lookup.lookup L m name) s.added_names before s.manager
      → is_busy own s.added_names (Lookup.lookup L (after_all before s.manager) name) ≡ false
      → wait_for_library own name s
        ≡ returned
            (Lookup.lookup L (after_all before s.manager) name)
            (record s { manager = after_all before s.manager; others = after })
  unfolding wait_for_library await_library
  wait_for_library-returns own name s before after locked others busy free =
      locked_rounds own (λ m. Lookup.lookup L m name) s locked
      ∙ ap (λ acts. await_rounds (λ m. Lookup.lookup L m name) own acts s) others
      ∙ rounds_return own (λ m. Lookup.lookup L m name) before after s others busy free

  -- As long as the name leads to a library that is reserved, and not by the operation itself where
  -- it says which are its own, the operation waits: it returns nothing, whatever else changes.
  pub wait_for_library-waits :
      (own : Bool) (name : String) (s : OpenContext L)
      → s.lock ≡ true
      → BusyBefore own (λ m. Lookup.lookup L m name) s.added_names s.others s.manager
      → is_busy own s.added_names (Lookup.lookup L (after_all s.others s.manager) name) ≡ true
      → wait_for_library own name s ≡ waiting
  unfolding wait_for_library await_library
  wait_for_library-waits own name s locked busy still =
      locked_rounds own (λ m. Lookup.lookup L m name) s locked
      ∙ rounds_stuck own (λ m. Lookup.lookup L m name) s.others s busy still
