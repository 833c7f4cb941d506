-- ===== src/LdCache.antt =====
-- The cache of the system's libraries: src/utils/ld_cache.rs, on the bytes of the file. Slicing
-- out of bounds is `panic`. The log messages are left out.
pub mod Search
pub mod Order
pub mod Laws
use Prim.Native.Nat.{bit_and}
use rust_dlopen.Common.{
  ℕ, zero, suc, ◌+◌, ◌-◌, ◌*◌, Bool, true, false, not, ◌&&◌, ◌||◌, Option, none, some, List, [],
  ◌∷◌, ◌==◌, ltb, leb, length, drop, take, get_or, if◌then◌else◌,
}
use rust_dlopen.Common.Outcome.{Outcome, done, panic, ◌>>=◌}
use rust_dlopen.LdCache.Search.{Text, lookup_sorted, starts_with_slash}

-- `LdCache`
pub record LdCache : Type 0 where
  pub file : List ℕ
  pub header_offset : ℕ
  pub nlibs : ℕ
  pub entry_size : ℕ
  pub string_table_offset : ℕ

abbrev pub byte_at : List ℕ → ℕ → ℕ
byte_at bytes i = get_or bytes i 0

-- `u32::from_le_bytes` of the four bytes from `i` on.
abbrev pub read_u32 : List ℕ → ℕ → ℕ
read_u32 bytes i =
    byte_at bytes i
    + 256 * byte_at bytes (i + 1)
    + 65536 * byte_at bytes (i + 2)
    + 16777216 * byte_at bytes (i + 3)

abbrev pub between : ℕ → ℕ → ℕ → Bool
between low high c = leb low c && leb c high

abbrev pub is_tail : ℕ → Bool
is_tail c = between 128 191 c

-- Whether the bytes are valid UTF-8, as `core::str::from_utf8` has it: no surrogates, no code
-- point that is too large, and none in more bytes than it needs.
unfoldable pub is_utf8 : List ℕ → Bool
is_utf8 [] = true
is_utf8 (a ∷ []) = ltb a 128
is_utf8 (a ∷ b ∷ []) = if ltb a 128 then ltb b 128 else between 194 223 a && is_tail b
is_utf8 (a ∷ b ∷ c ∷ []) =
    let after_one = is_utf8 (b ∷ c ∷ []) in
    let after_two = is_utf8 (c ∷ []) in
    if ltb a 128
    then after_one
    else if between 194 223 a
    then is_tail b && after_two
    else between 224 239 a
      && is_tail b
      && is_tail c
      && not (a == 224 && ltb b 160)
      && not (a == 237 && leb 160 b)
is_utf8 (a ∷ b ∷ c ∷ d ∷ s) = elim (ltb a 128) [
  | true ↦ is_utf8 (b ∷ c ∷ d ∷ s)
  | false ↦ elim (between 194 223 a) [
    | true ↦ is_tail b && is_utf8 (c ∷ d ∷ s)
    | false ↦ elim (between 224 239 a) [
      | true ↦
          is_tail b
          && is_tail c
          && not (a == 224 && ltb b 160)
          && not (a == 237 && leb 160 b)
          && is_utf8 (d ∷ s)
      | false ↦
          between 240 244 a
          && is_tail b
          && is_tail c
          && is_tail d
          && not (a == 240 && ltb b 144)
          && not (a == 244 && leb 144 b)
          && is_utf8 s
    ]
  ]
]

-- The bytes in front of the first NUL, or all of them.
unfoldable pub up_to_nul : List ℕ → List ℕ
up_to_nul [] = []
up_to_nul (c ∷ s) = if c == 0 then [] else c ∷ up_to_nul s

unfoldable pub extract_str : List ℕ → ℕ → Option Text
unfolding up_to_nul is_utf8
extract_str table offset =
    if leb (length table) offset
    then none
    else (let s = up_to_nul (drop offset table) in if is_utf8 s then some s else none)

-- `&data[offset..]`
abbrev pub slice_from : List ℕ → ℕ → Outcome (List ℕ)
slice_from bytes offset = if leb offset (length bytes) then done (drop offset bytes) else panic

abbrev pub entry_offset : LdCache → ℕ → ℕ
entry_offset cache idx = cache.header_offset + 48 + idx * cache.entry_size

unfoldable pub is_empty : Text → Bool
is_empty [] = true
is_empty (c ∷ s) = false

abbrev pub is_relative_name : Option Text → Bool
is_relative_name none = false
is_relative_name (some s) = not (is_empty s) && not (starts_with_slash s)

abbrev pub is_absolute_path : Option Text → Bool
is_absolute_path none = false
is_absolute_path (some s) = starts_with_slash s

-- `get_name`
unfoldable pub get_name : LdCache → ℕ → Outcome (Option Text)
unfolding extract_str is_empty starts_with_slash
get_name cache idx = if ltb (length cache.file) (entry_offset cache idx + 8) then done none else do
  header ← slice_from cache.file cache.header_offset
  let key_idx = read_u32 cache.file (entry_offset cache idx + 4)
  let in_header = extract_str header key_idx
  if is_relative_name in_header then done in_header else do
    table ← slice_from cache.file cache.string_table_offset
    done (extract_str table key_idx)

-- `get_path`
unfoldable pub get_path : LdCache → ℕ → Outcome (Option Text)
unfolding extract_str starts_with_slash
get_path cache idx = if ltb (length cache.file) (entry_offset cache idx + 12) then done none else do
  header ← slice_from cache.file cache.header_offset
  let val_idx = read_u32 cache.file (entry_offset cache idx + 8)
  let in_header = extract_str header val_idx
  if is_absolute_path in_header then done in_header else do
    table ← slice_from cache.file cache.string_table_offset
    done (extract_str table val_idx)

-- `check_flags` on x86_64.
unfoldable pub check_flags : LdCache → ℕ → Bool
check_flags cache idx =
    let flags = read_u32 cache.file (entry_offset cache idx) in
    if ltb (length cache.file) (entry_offset cache idx + 4)
    then false
    else if not (bit_and flags 255 == 3)
    then false
    else not (bit_and flags 768 == 0)

-- `lookup`
unfoldable pub lookup : LdCache → Text → Outcome (Option Text)
unfolding lookup_sorted get_name get_path check_flags
lookup cache lib_name =
    lookup_sorted (get_name cache) (check_flags cache) (get_path cache) cache.nlibs lib_name

-- "glibc-ld.so.cache1.1"
abbrev pub magic_new : List ℕ
magic_new =
    b'g' ∷ b'l' ∷ b'i' ∷ b'b' ∷ b'c' ∷ b'-' ∷ b'l' ∷ b'd' ∷ b'.' ∷ b's' ∷ b'o' ∷ b'.' ∷ b'c' ∷ b'a'
    ∷ b'c' ∷ b'h' ∷ b'e' ∷ b'1' ∷ b'.' ∷ b'1' ∷ []

unfoldable pub is_prefix : List ℕ → List ℕ → Bool
is_prefix [] bytes = true
is_prefix (x ∷ xs) [] = false
is_prefix (x ∷ xs) (y ∷ ys) = x == y && is_prefix xs ys

-- `windows(..).position(..)`
unfoldable pub find_magic : List ℕ → Option ℕ
unfolding is_prefix
find_magic [] = none
find_magic (c ∷ s) = elim (is_prefix magic_new (c ∷ s)) [
  | true ↦ some 0
  | false ↦ elim (find_magic s) [ none ↦ none | some i ↦ some (suc i) ]
]

-- One round of the loop that detects the size of the entries.
unfoldable pub size_fits : List ℕ → ℕ → ℕ → Bool
unfolding extract_str
size_fits header nlibs e_size =
    let val_idx = read_u32 header 56 in
    let string_table_start = 48 + nlibs * e_size in
    not (ltb (length header) 60)
    && ltb (string_table_start + val_idx) (length header)
    && is_absolute_path (extract_str (drop string_table_start header) val_idx)

unfoldable pub detect_size : List ℕ → ℕ → List ℕ → ℕ
unfolding size_fits
detect_size header nlibs [] = 24
detect_size header nlibs (e_size ∷ sizes) =
    if size_fits header nlibs e_size then e_size else detect_size header nlibs sizes

-- `LdCache::new` on the bytes of the file; the errors are `none`.
unfoldable pub new_cache : List ℕ → Option LdCache
unfolding find_magic detect_size
new_cache buffer = elim (find_magic buffer) [
  | none ↦ none
  | some start_offset ↦
      let header = drop start_offset buffer in
      let nlibs = read_u32 header 20 in
      let entry_size = detect_size header nlibs (24 ∷ 32 ∷ 64 ∷ []) in
      if ltb (length header) 48
      then none
      else some (record {
        file = buffer;
        header_offset = start_offset;
        nlibs = nlibs;
        entry_size = entry_size;
        string_table_offset = start_offset + 48 + nlibs * entry_size;
      })
]
