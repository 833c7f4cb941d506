-- ===== src/HostInit/Laws.antt =====
-- `recover_dynamic_table` of src/host_init.rs undoes what the system's loader does to the table.
use mathlib.Core.Option
use rust_dlopen.Common.{
  ℕ, zero, suc, ◌-◌, ◌≡◌, ◌≢◌, ◌≤◌, ◌<◌, inl, inr, refl, ap, ◌∙◌, ◌+◌, Bool, true, false, ◌&&◌,
  Option, none, some, List, [], ◌∷◌, ◌++◌, map, ◌==◌, ltb, lt→ltb, sym, length, arith,
}
use rust_dlopen.Common.{Bool-cases, if◌then◌else◌}
use rust_dlopen.HostInit.{
  ElfDyn, Image, dt_null, dt_addr_tags, contains_number, copy_entries, recover_entry,
  recover_dynamic_table,
}

-- The tags that glibc adds the base to in place (`ADJUST_DYN_INFO` of elf/get-dynamic-info.h): HASH,
-- PLTGOT, STRTAB, SYMTAB, RELA, REL, JMPREL, RELR, VERSYM, GNU_HASH.
abbrev pub relocated_tags : List ℕ
relocated_tags = 4 ∷ 3 ∷ 5 ∷ 6 ∷ 7 ∷ 17 ∷ 23 ∷ 36 ∷ 0x6ffffff0 ∷ 0x6ffffef5 ∷ []

-- Tags that it leaves alone and the recovery takes for addresses all the same: INIT, FINI,
-- INIT_ARRAY, FINI_ARRAY, GNU_LIBLIST, RELACOUNT, VERDEF, VERNEED.
abbrev pub ambiguous_tags : List ℕ
ambiguous_tags = 12 ∷ 13 ∷ 25 ∷ 26 ∷ 0x6ffffef9 ∷ 0x6ffffff9 ∷ 0x6ffffffc ∷ 0x6ffffffe ∷ []

-- What the system's loader leaves in memory of an entry of the file.
abbrev pub in_memory : ℕ → ElfDyn → ElfDyn
in_memory base e =
    if contains_number e.tag relocated_tags then record e { value = e.value + base } else e

-- An address is not 0, and the value of an ambiguous entry is not above the base.
abbrev pub CanBeTold : ℕ → ElfDyn → Type 0
CanBeTold base e =
    (contains_number e.tag relocated_tags ≡ true → 0 < e.value)
    × (contains_number e.tag ambiguous_tags ≡ true → e.value ≤ base)

-- The table at an address is what the loader leaves of the entries of the file, and ends with
-- DT_NULL.
abbrev pub Loaded : Image → ℕ → ℕ → List ElfDyn → ElfDyn → Type 0
Loaded image base dynamic [] last = (image.dyn_at dynamic ≡ last) × (last.tag ≡ dt_null)
Loaded image base dynamic (e ∷ entries) last =
    (image.dyn_at dynamic ≡ in_memory base e)
    × CanBeTold base e
    × (e.tag ≢ dt_null)
    × Loaded image base (dynamic + 16) entries last

relocated_is_address :
    (t : ℕ) → contains_number t relocated_tags ≡ true → contains_number t dt_addr_tags ≡ true
unfolding contains_number
relocated_is_address t h = ground arith

address_is_listed :
    (t : ℕ)
    → contains_number t relocated_tags ≡ false
    → contains_number t ambiguous_tags ≡ false
    → contains_number t dt_addr_tags ≡ false
unfolding contains_number
address_is_listed t h k = ground arith

entry_ext : (m e : ElfDyn) → m.tag ≡ e.tag → m.value ≡ e.value → m ≡ e
entry_ext m e t v = λ i. record { tag = t i; value = v i }

&&-false : (b : Bool) → (b && false) ≡ false
&&-false true = refl
&&-false false = refl

kept_below :
    (base : ℕ) (e : ElfDyn)
    → (contains_number e.tag dt_addr_tags ≡ true → e.value ≤ base)
    → recover_entry base e ≡ e
unfolding recover_entry
kept_below base e h = elim (Bool-cases (contains_number e.tag dt_addr_tags)) [
  | inr c ↦ rw c refl
  | inl c ↦
      let below : e.value ≤ base = h c in
      let test : ltb base e.value ≡ false = ground arith in
      rw (test, &&-false (contains_number e.tag dt_addr_tags)) refl
]

recover_entry_lem :
    (base : ℕ) (e : ElfDyn) → CanBeTold base e → recover_entry base (in_memory base e) ≡ e
unfolding recover_entry
recover_entry_lem base e (address, small) =
    elim (Bool-cases (contains_number e.tag relocated_tags)) [
      | inl c ↦
          let positive = address c in
          let above : base < e.value + base = omega arith in
          rw (c, relocated_is_address e.tag c, lt→ltb base (e.value + base) above)
            (entry_ext (record e { value = e.value + base - base }) e refl (omega arith))
      | inr c ↦ rw c (
          kept_below base e (λ t. elim (Bool-cases (contains_number e.tag ambiguous_tags)) [
            | inl a ↦ small a
            | inr a ↦ absurd (ground (arith, address_is_listed e.tag c a))
          ]))
    ]

in_memory_tag : (base : ℕ) (e : ElfDyn) → (in_memory base e).tag ≡ e.tag
in_memory_tag base e = ground arith

==_false : (a b : ℕ) → a ≢ b → (a == b) ≡ false
==_false a b h = ground arith

recover_last : (base : ℕ) (e : ElfDyn) → e.tag ≡ dt_null → recover_entry base e ≡ e
unfolding recover_entry contains_number
recover_last base e t = rw t refl

-- What is copied, entry by entry, is what `recover_entry` gives back.
recovered_step :
    (base : ℕ) (m e : ElfDyn) (later : Option (List ElfDyn)) (rest : List ElfDyn)
    → recover_entry base m ≡ e
    → Option.map (map (recover_entry base)) later ≡ some rest
    → Option.map (map (recover_entry base)) (Option.map (λ ms. m ∷ ms) later) ≡ some (e ∷ rest)
recovered_step base m e none rest h l = ground arith
recovered_step base m e (some ms) rest h l = ap some (cc)

-- Let the table in memory be what the system's loader leaves of the entries of a file: it has added
-- the base to the values of the tags that it relocates, which are not 0 in the file, and the
-- values of the tags that the recovery also takes for addresses are not above the base. Then, with
-- more fuel than entries, the recovered table is that of the file: the entries in order, and
-- DT_NULL.
pub recover_dynamic_table_lem :
    (image : Image) (base fuel dynamic : ℕ) (entries : List ElfDyn) (last : ElfDyn)
    → Loaded image base dynamic entries last
    → length entries < fuel
    → recover_dynamic_table image fuel dynamic base ≡ some (entries ++ last ∷ [])
unfolding recover_dynamic_table copy_entries
recover_dynamic_table_lem image base zero dynamic entries last h f = absurd (omega arith)
recover_dynamic_table_lem image base (suc fuel) dynamic [] last (d, n) f =
    rw (d, n) (ap (λ e. some (e ∷ [])) (recover_last base (record last { tag = dt_null }) refl))
recover_dynamic_table_lem image base (suc fuel) dynamic (e ∷ entries) last (m, c, n, h) f =
    let tag : (image.dyn_at dynamic).tag ≡ e.tag = ap (λ x. x.tag) m ∙ in_memory_tag base e in
    rw (==_false (image.dyn_at dynamic).tag dt_null (λ z. n (sym tag ∙ z))) (
      recovered_step base _ e _ _ (ap (recover_entry base) m ∙ recover_entry_lem base e c)
        (recover_dynamic_table_lem image base fuel (dynamic + 16) entries last h (omega arith)))
