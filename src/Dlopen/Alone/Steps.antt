-- ===== src/Dlopen/Alone/Steps.antt =====
-- The steps of an operation of src/api/dlopen.rs that no other thread disturbs.
use rust_dlopen.Common.{
  String, ◌≡◌, refl, sym, subst, ap, ◌∙◌, Bool, true, false, ◌||◌, Option, none, some, List, [],
  ◌∷◌, arith, if◌then◌else◌, Bool-cases, Option-cases, inl, inr,
}
use rust_dlopen.Common.Eq.{str_eq, str_eq_iff}
use rust_dlopen.Common.Maybe.{elem}
use rust_dlopen.Common.Outcome.{Outcome, done}
use rust_dlopen.Registry.Types.{LibraryLookup, lookup_shortname}
use rust_dlopen.Registry.LinkContext.{LinkContext, LinkContextLaws}
use rust_dlopen.Registry.State.{Manager}
use rust_dlopen.Registry.Update.{add_alias}
use rust_dlopen.Registry.Loading
use rust_dlopen.Registry.Consistent.{IsSound, SameLibraries, registered}
use rust_dlopen.Registry.Consistent.Alias.{add_alias_lem}
use rust_dlopen.Registry.Consistent.Publish.{reserve_pending_lem}
use rust_dlopen.Dlopen.{is_usable}
use rust_dlopen.Dlopen.Rollback.{AreAdded}
use rust_dlopen.Dlopen.Platform.{Platform}
use rust_dlopen.Dlopen.Operation.{
  OpenContext, returned, waiting, panicked, changed, change_manager, await_rounds, await_library,
  own_names, insert_name, alias_found, reserve_name, identity_if_ok,
}
use rust_dlopen.Dlopen.Alone.{Ensures, IsReady, Kept}

AreAdded-map :
    (p q : String → Bool) (names : List String)
    → ((k : String) → p k ≡ true → q k ≡ true)
    → AreAdded p names
    → AreAdded q names
AreAdded-map p q [] e a = tt
AreAdded-map p q (x ∷ names) e (b, c, d) = (e x b, c, AreAdded-map p q names e d)

pub elem-insert_name :
    (name k : String) (names : List String)
    → elem k (insert_name name names) ≡ (str_eq name k || elem k names)
unfolding elem insert_name
elem-insert_name name k [] = ground (arith, str_eq_iff name k, str_eq_iff k name)
elem-insert_name name k (x ∷ names) = ground (
  arith,
  str_eq_iff name k,
  str_eq_iff k name,
  str_eq_iff name x,
  str_eq_iff k x,
  elem-insert_name name k names,
)

AreAdded-insert_name :
    (p : String → Bool) (name : String) (names : List String)
    → p name ≡ true
    → elem name names ≡ false
    → AreAdded p names
    → AreAdded p (insert_name name names)
unfolding elem insert_name
AreAdded-insert_name p name [] known out a = (known, refl, tt)
AreAdded-insert_name p name (x ∷ names) known out (b, c, d) = ground (
  arith,
  str_eq_iff name x,
  str_eq_iff x name,
  elem-insert_name name x names,
  AreAdded-insert_name p name names known,
)

-- A wait ends at once, with what the lookup says, and changes nothing.
abbrev pub Awaits :
    {L : LinkContext}
    → (Manager L → Option LibraryLookup)
    → OpenContext L
    → Option LibraryLookup
    → OpenContext L
    → Type 0
Awaits lookup s r s' = (s' ≡ s) × (lookup s.manager ≡ r)

module _ (debug : Bool) (L : LinkContext) (laws : LinkContextLaws L) (start : Manager L) where
  await_alone :
      (lookup : Manager L → Option LibraryLookup) (own : Bool) (s : OpenContext L)
      → Ensures (Awaits lookup s) s (await_rounds lookup own [] s)
  unfolding await_rounds
  await_alone lookup own s = elim (Option-cases (lookup s.manager)) [
    | inl e ↦
        let ran : await_rounds lookup own [] s ≡ returned none s = rw (e, await_rounds) in
        subst (Ensures (Awaits lookup s) s) (sym ran) (refl, e)
    | inr (lib, e) ↦ elim (Bool-cases (is_usable (own_names own s.added_names) lib)) [
      | inl usable ↦
          let ran : await_rounds lookup own [] s ≡ returned (some lib) s =
            rw (e, await_rounds, usable) in
          subst (Ensures (Awaits lookup s) s) (sym ran) (refl, e)
      | inr busy ↦
          let ran : await_rounds lookup own [] s ≡ waiting = rw (e, await_rounds, busy) in
          subst (Ensures (Awaits lookup s) s) (sym ran) tt
    ]
  ]

  pub await_lem :
      (lookup : Manager L → Option LibraryLookup) (own : Bool) (s : OpenContext L)
      → IsReady L start s
      → Ensures (Awaits lookup s) s (await_library lookup own s)
  unfolding await_library
  await_lem lookup own s ready =
      subst
        (λ (b : Bool).
          Ensures (Awaits lookup s) s (if b then await_rounds lookup own s.others s else panicked))
        (sym ready.locked)
        (subst
          (λ (acts : List (Manager L → Manager L)).
            Ensures (Awaits lookup s) s (await_rounds lookup own acts s))
          (sym ready.alone) (await_alone lookup own s))

  -- New names and identities only.
  Kept-same :
      (s : OpenContext L) (m' : Manager L)
      → IsReady L start s
      → IsSound L m'
      → SameLibraries L s.manager m'
      → Kept L start s (record s { manager = m' })
  Kept-same s m' ready sound same = record {
    ready = record {
      locked = ready.locked;
      alone = ready.alone;
      consistent = record {
        sound = sound;
        global_matches = λ k.
            ground (arith, same.same_global, same.same_flag k, ready.consistent.global_matches k);
      };
      added =
          AreAdded-map (registered L s.manager) (registered L m') s.added_names
            (λ k e. same.same_registered k ∙ e) ready.added;
      grown = λ k. same.same_registered k ∙ ready.grown k;
      fresh = ready.fresh;
    };
    same_flags = refl;
    same_committed = refl;
    stays = λ k e. same.same_registered k ∙ e;
  }

  pub Kept-refl : (s : OpenContext L) → IsReady L start s → Kept L start s s
  Kept-refl s ready = record {
    ready = ready;
    same_flags = refl;
    same_committed = refl;
    stays = λ k e. e;
  }

  change_lem :
      (f : Manager L → Outcome (Manager L)) (s : OpenContext L) (m' : Manager L)
      → IsReady L start s
      → f s.manager ≡ done m'
      → change_manager f s ≡ returned tt (record s { manager = m' })
  change_lem f s m' ready e =
      subst
        (λ (b : Bool).
          (if b then changed s (f s.manager) else panicked)
          ≡ returned tt (record s { manager = m' }))
        (sym ready.locked) (ap (changed s) e)

  pub alias_found_lem :
      (p : Platform) (own : Bool) (shortname : String) (found : Option LibraryLookup)
      (s : OpenContext L)
      → IsReady L start s
      → ((lib : LibraryLookup)
          → found ≡ some lib
          → registered L s.manager (lookup_shortname lib) ≡ true)
      → Ensures
          (λ _ s'. Kept L start s s' × (found ≡ none → s' ≡ s))
          s
          (alias_found debug L p own shortname found s)
  unfolding alias_found
  alias_found_lem p own shortname none s ready known = (Kept-refl s ready, λ _. refl)
  alias_found_lem p own shortname (some lib) s ready known =
      elim (Bool-cases (is_usable (own_names own s.added_names) lib)) [
        | inl usable ↦
            let (m', e, sound, same, _) =
              add_alias_lem L laws debug (lookup_shortname lib) shortname s.manager
                ready.consistent.sound (known lib refl) in
            rw
              (usable, change_lem (add_alias debug L (lookup_shortname lib) shortname) s m' ready e)
              (Kept-same s m' ready sound same, λ h. cc)
        | inr busy ↦ rw busy (Kept-refl s ready, λ h. cc)
      ]

  -- A name that is not registered is reserved without a panic.
  pub reserve_name_lem :
      (p : Platform) (shortname full_name : String) (s : OpenContext L)
      → IsReady L start s
      → registered L s.manager shortname ≡ false
      → Ensures
          (λ _ s'. Kept L start s s' × (elem shortname s'.added_names ≡ true))
          s
          (reserve_name debug L p shortname full_name s)
  unfolding reserve_name
  reserve_name_lem p shortname full_name s ready unknown =
      let out : elem shortname s.added_names ≡ false = ground (arith, ready.grown shortname) in
      let identity = identity_if_ok (p.get_file_inode full_name) in
      let (m', e, c, named, _) =
        reserve_pending_lem debug L laws shortname full_name identity s.flags s.manager
          ready.consistent unknown in
      rw
        (
          out,
          change_lem (Loading.reserve_pending debug L shortname full_name identity s.flags) s m'
              ready e,
        )
        (
          record {
            ready = record {
              locked = ready.locked;
              alone = ready.alone;
              consistent = c;
              added =
                  AreAdded-insert_name (registered L m') shortname s.added_names
                    (ground (arith, named shortname, str_eq_iff shortname shortname)) out
                    (AreAdded-map (registered L s.manager) (registered L m') s.added_names
                      (λ k h. ground (arith, named k)) ready.added);
              grown = λ k.
                  ground
                    (arith, named k, ready.grown k, elem-insert_name shortname k s.added_names);
              fresh = λ k h. ground (
                arith,
                ready.fresh k,
                elem-insert_name shortname k s.added_names,
                str_eq_iff shortname k,
                ready.grown shortname,
              );
            };
            same_flags = refl;
            same_committed = refl;
            stays = λ k h. ground (arith, named k);
          },
          ground (
            arith,
            elem-insert_name shortname shortname s.added_names,
            str_eq_iff shortname shortname,
          ),
        )
