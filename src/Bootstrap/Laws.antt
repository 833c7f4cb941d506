-- ===== src/Bootstrap/Laws.antt =====
-- The stack that rtld/impl/src/bootstrap.rs starts a program with, and the tables it reads.
use rust_dlopen.Common.{
  ℕ, zero, suc, ◌+◌, ◌-◌, ◌*◌, ◌%◌, ◌≤◌, ◌<◌, ◌≡◌, ◌∙◌, refl, sym, ap, Bool, true, false, not, ◌&&◌,
  ◌||◌, some, List, [], ◌∷◌, ◌++◌, ◌==◌, arith, length, if◌then◌else◌,
}
use rust_dlopen.Memory.{Mem, write, copy_up, find_nul}
use rust_dlopen.Memory.Laws.{find_nul_lem, copy_up-inside, write-there, write-here}
use rust_dlopen.Bootstrap.{
  store_tag, parse_dynamic_from, parse_dynamic, DynamicInfo, empty_info, add_signed, word_end,
  find_at_null, rewrite_initial_stack, RewrittenStack,
}

-- The entries that are read, each stored over what stood there.
unfoldable pub stored : DynamicInfo → List (ℕ × ℕ) → DynamicInfo
stored info [] = info
stored info ((tag, value) ∷ entries) = stored (store_tag tag value info) entries

unfoldable pub has_null : List (ℕ × ℕ) → Bool
has_null [] = false
has_null ((tag, value) ∷ entries) = let rest = has_null entries in if tag == 0 then true else rest

parse_dynamic_from_lem :
    (left : ℕ) (info : DynamicInfo) (entries : List (ℕ × ℕ)) (v : ℕ) (after : List (ℕ × ℕ))
    → has_null entries ≡ false
    → length entries < left
    → parse_dynamic_from left info (entries ++ (0, v) ∷ after) ≡ some (stored info entries)
unfolding parse_dynamic_from has_null stored
parse_dynamic_from_lem zero info entries v after h l = absurd (omega arith)
parse_dynamic_from_lem (suc left) info [] v after h l = refl
parse_dynamic_from_lem (suc left) info ((tag, value) ∷ entries) v after h l =
    let rest = parse_dynamic_from_lem left (store_tag tag value info) entries v after in
    ground (arith, rest)

-- The value of the last entry with a tag and an acceptable value, or what is given if there is none.
unfoldable pub last_value : ℕ → (ℕ → Bool) → ℕ → List (ℕ × ℕ) → ℕ
last_value wanted ok d [] = d
last_value wanted ok d ((tag, value) ∷ entries) =
    last_value wanted ok (if tag == wanted && ok value then value else d) entries

unfoldable pub has_tag : ℕ → List (ℕ × ℕ) → Bool
has_tag wanted [] = false
has_tag wanted ((tag, value) ∷ entries) =
    let rest = has_tag wanted entries in if tag == wanted then true else rest

abbrev pub any_value : ℕ → Bool
any_value value = true

abbrev pub non_zero : ℕ → Bool
non_zero value = not (value == 0)

-- A field that one tag writes and no other holds the last of its values.
stored_field :
    (field : DynamicInfo → ℕ) (wanted : ℕ) (ok : ℕ → Bool)
    → ((tag value : ℕ) (info : DynamicInfo)
        → field (store_tag tag value info)
          ≡ (if tag == wanted && ok value then value else field info))
    → (info : DynamicInfo) (entries : List (ℕ × ℕ))
    → field (stored info entries) ≡ last_value wanted ok (field info) entries
unfolding stored last_value
stored_field field wanted ok step info [] = refl
stored_field field wanted ok step info ((tag, value) ∷ entries) =
    stored_field field wanted ok step (store_tag tag value info) entries
    ∙ ap (λ d. last_value wanted ok d entries) (step tag value info)

stored_needed :
    (info : DynamicInfo) (entries : List (ℕ × ℕ))
    → (stored info entries).has_needed ≡ (info.has_needed || has_tag 1 entries)
unfolding stored has_tag store_tag
stored_needed info [] = ground arith
stored_needed info ((tag, value) ∷ entries) =
    ground (arith, stored_needed (store_tag tag value info) entries)

-- What a table says: NEEDED is 1, RELA 7, RELASZ 8, RELAENT 9, RELR 36, RELRSZ 35, RELRENT 37,
-- JMPREL 23 and PLTRELSZ 2; an entry size of zero is passed over.
abbrev pub described_by : List (ℕ × ℕ) → DynamicInfo
described_by entries = record {
  has_needed = has_tag 1 entries;
  relocations = record {
    offset = last_value 7 any_value 0 entries;
    size = last_value 8 any_value 0 entries;
    entry_size = last_value 9 non_zero 24 entries;
  };
  relr = last_value 36 any_value 0 entries;
  relrsz = last_value 35 any_value 0 entries;
  relrent = last_value 37 non_zero 8 entries;
  jmprel = last_value 23 any_value 0 entries;
  pltrelsz = last_value 2 any_value 0 entries;
}

stored-described_by : (entries : List (ℕ × ℕ)) → stored empty_info entries ≡ described_by entries
unfolding store_tag
stored-described_by entries = λ i. record {
  has_needed = stored_needed empty_info entries i;
  relocations = record {
    offset =
        stored_field (λ x. x.relocations.offset) 7 any_value (λ t v x. ground arith) empty_info
          entries i;
    size =
        stored_field (λ x. x.relocations.size) 8 any_value (λ t v x. ground arith) empty_info
          entries i;
    entry_size =
        stored_field (λ x. x.relocations.entry_size) 9 non_zero (λ t v x. ground arith) empty_info
          entries i;
  };
  relr = stored_field (λ x. x.relr) 36 any_value (λ t v x. ground arith) empty_info entries i;
  relrsz = stored_field (λ x. x.relrsz) 35 any_value (λ t v x. ground arith) empty_info entries i;
  relrent = stored_field (λ x. x.relrent) 37 non_zero (λ t v x. ground arith) empty_info entries i;
  jmprel = stored_field (λ x. x.jmprel) 23 any_value (λ t v x. ground arith) empty_info entries i;
  pltrelsz =
      stored_field (λ x. x.pltrelsz) 2 any_value (λ t v x. ground arith) empty_info entries i;
}

-- A dynamic table whose first NULL entry has fewer than 4096 entries in front of it is read, and
-- nothing behind the NULL entry counts. Of the entries in front, the address, size and entry size
-- of each kind of relocations is the value of the last entry with its tag, where an entry size of
-- zero is passed over, and 24 and 8 are the entry sizes of RELA and RELR if there is none; a NEEDED
-- entry anywhere is noted.
pub parse_dynamic_lem :
    (entries : List (ℕ × ℕ)) (v : ℕ) (after : List (ℕ × ℕ))
    → has_null entries ≡ false
    → length entries < 4096
    → parse_dynamic (some (entries ++ (0, v) ∷ after)) ≡ some (described_by entries)
unfolding parse_dynamic
parse_dynamic_lem entries v after h l =
    parse_dynamic_from_lem 4096 empty_info entries v after h l
    ∙ ap some (stored-described_by entries)

-- For two words, of which the second is read as a signed addend, `add_signed` is their sum modulo
-- 2 ^ 64.
pub add_signed_lem :
    (base addend : ℕ)
    → base < word_end
    → addend < word_end
    → add_signed base addend ≡ (base + addend) % word_end
unfolding add_signed
add_signed_lem base addend h k = ground arith

find_at_null_lem :
    (m fuel auxp : ℕ) (stack : Mem)
    → ((i : ℕ) → i < m → stack (auxp + 2 * i) ≡ 0 → ⊥)
    → stack (auxp + 2 * m) ≡ 0
    → m < fuel
    → find_at_null fuel auxp stack ≡ auxp + 2 * m
unfolding find_at_null
find_at_null_lem m zero auxp stack h e l = absurd (omega arith)
find_at_null_lem zero (suc fuel) auxp stack h e l =
    let start : auxp + 2 * 0 ≡ auxp = omega arith in ground (arith, start)
find_at_null_lem (suc m) (suc fuel) auxp stack h e l =
    let first : stack (auxp + 2 * 0) ≡ 0 → ⊥ = h 0 (omega arith) in
    let start : auxp + 2 * 0 ≡ auxp = omega arith in
    let last : stack (auxp + 2 + 2 * m) ≡ 0 = rw (← next_pair auxp m) e in
    let rest =
      find_at_null_lem m fuel (auxp + 2) stack (later_pairs m auxp stack h) last (omega arith) in
    ground (arith, first, start, rest)
  where
    next_pair : (a i : ℕ) → a + 2 * suc i ≡ a + 2 + 2 * i
    next_pair a i = omega arith

    later_pairs :
        (n a : ℕ) (s : Mem)
        → ((i : ℕ) → i < suc n → s (a + 2 * i) ≡ 0 → ⊥)
        → (i : ℕ) → i < n
        → s (a + 2 + 2 * i) ≡ 0
        → ⊥
    later_pairs n a s h i p z = h (suc i) (omega arith) (rw (next_pair a i) z)

-- What the kernel leaves on the stack: argc, the arguments, the environment with `n` entries and
-- the auxiliary vector with `m`.
pub record IsInitialStack (argc n m : ℕ) (stack : Mem) : Type 0 where
  pub environment : (i : ℕ) → i < n → stack (argc + 2 + i) ≡ 0 → ⊥
  pub environment_end : stack (argc + 2 + n) ≡ 0
  pub auxv : (i : ℕ) → i < m → stack (argc + 2 + n + 1 + 2 * i) ≡ 0 → ⊥
  pub auxv_end : stack (argc + 2 + n + 1 + 2 * m) ≡ 0

module _ (fuel argc argv_index argv0 n m : ℕ) (stack : Mem) (kernel : IsInitialStack argc n m stack)
    (chosen : 0 < argv_index) (there : argv_index < argc) (enough_n : n < fuel)
    (enough_m : m < fuel) where
  abbrev old_auxv : ℕ
  old_auxv = argc + 2 + n + 1

  abbrev old_end : ℕ
  old_end = old_auxv + 2 * m + 2

  abbrev moved : Mem
  moved =
      write 0 (argc - argv_index) (copy_up 1 (1 + argv_index) 0 (old_end - (1 + argv_index)) stack)

  abbrev named : Mem
  named = if argv0 == 0 then moved else write 1 argv0 moved

  moved_lem : (i : ℕ) → i < old_end - (1 + argv_index) → moved (1 + i) ≡ stack (1 + argv_index + i)
  moved_lem i h =
      write-there 0 (argc - argv_index) (1 + i)
        (copy_up 1 (1 + argv_index) 0 (old_end - (1 + argv_index)) stack) (omega arith)
      ∙ copy_up-inside 1 (1 + argv_index) 0 (old_end - (1 + argv_index)) i stack (omega arith)
          (omega arith) (omega arith)

  named_lem :
      (i : ℕ) → 0 < i → i < old_end - (1 + argv_index) → named (1 + i) ≡ stack (1 + argv_index + i)
  named_lem i p h =
      let e = write-there 1 argv0 (1 + i) moved (omega arith) in ground (arith, e, moved_lem i h)

  named_at : (x : ℕ) → 1 < x → x + argv_index < old_end → named x ≡ stack (x + argv_index)
  named_at x p h =
      let a : 1 + (x - 1) ≡ x = omega arith in
      let b : 1 + argv_index + (x - 1) ≡ x + argv_index = omega arith in
      let e : named (1 + (x - 1)) ≡ stack (1 + argv_index + (x - 1)) =
        named_lem (x - 1) (omega arith) (omega arith) in
      ground (arith, a, b, e)

  rewritten : rewrite_initial_stack fuel argc argv_index argv0 stack ≡ (
    record {
      argc = argc - argv_index;
      argv = 1;
      envp = argc - argv_index + 2;
      auxv = find_nul fuel (argc - argv_index + 2) named + 1;
      exec_path = moved 1;
    },
    named,
  )
  unfolding rewrite_initial_stack
  rewritten =
      let e =
        find_nul_lem n fuel (argc + 2) stack kernel.environment kernel.environment_end enough_n in
      let f = find_at_null_lem m fuel old_auxv stack kernel.auxv kernel.auxv_end enough_m in
      rw (e, f)

  new_environment : (i : ℕ) → i ≤ n → named (argc - argv_index + 2 + i) ≡ stack (argc + 2 + i)
  new_environment i h =
      let a : argc - argv_index + 2 + i + argv_index ≡ argc + 2 + i = omega arith in
      let e = named_at (argc - argv_index + 2 + i) (omega arith) (omega arith) in rw a at e

  new_auxv : find_nul fuel (argc - argv_index + 2) named ≡ argc - argv_index + 2 + n
  new_auxv =
      find_nul_lem n fuel (argc - argv_index + 2) named
        (λ i p z. kernel.environment i p (sym (new_environment i (omega arith)) ∙ z))
        (new_environment n (omega arith) ∙ kernel.environment_end) enough_n

  -- On a stack as the kernel leaves it, with a program among the arguments at `argv_index`, and
  -- with fuel above the number of entries of the environment and of the auxiliary vector: argc
  -- becomes what is left; each word behind argv[0] up to the end of the auxiliary vector, such as
  -- word `x`, is the old word `argv_index` places further on; the environment and the auxiliary
  -- vector that are returned are the old ones, moved by as much. The path to run is the old
  -- argument, and argv[0] is the given name, or that path if none is given.
  pub rewrite_initial_stack_lem :
      (x : ℕ)
      → 1 < x
      → x + argv_index < argc + 2 + n + 1 + 2 * m + 2
      → (rewritten_stack : RewrittenStack) × (words : Mem) × (rewrite_initial_stack fuel argc
            argv_index argv0 stack
          ≡ (rewritten_stack, words))
        × (rewritten_stack.argc ≡ argc - argv_index)
        × (words 0 ≡ argc - argv_index)
        × (rewritten_stack.exec_path ≡ stack (1 + argv_index))
        × (words rewritten_stack.argv ≡ (if argv0 == 0 then stack (1 + argv_index) else argv0))
        × (rewritten_stack.envp + argv_index ≡ argc + 2)
        × (rewritten_stack.auxv + argv_index ≡ argc + 2 + n + 1)
        × (words x ≡ stack (x + argv_index))
  rewrite_initial_stack_lem x above below =
      let first : moved 1 ≡ stack (1 + argv_index) =
        (let e = moved_lem 0 (omega arith) in
          let z : 1 + argv_index + 0 ≡ 1 + argv_index = omega arith in rw z at e) in
      (
        _,
        named,
        rewritten,
        refl,
        ground (
          arith,
          write-here 0 (argc - argv_index)
              (copy_up 1 (1 + argv_index) 0 (old_end - (1 + argv_index)) stack),
          write-there 1 argv0 0 moved (omega arith),
        ),
        first,
        ground (arith, first, write-here 1 argv0 moved),
        omega arith,
        omega (arith, new_auxv),
        named_at x above below,
      )
