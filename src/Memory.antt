-- ===== src/Memory.antt =====
-- The memory routines of rtld/impl/src/memory.rs, over a memory that gives each address its byte.
-- Addresses do not wrap: every access of the routines is inside an object of the caller's.
pub mod Laws
use rust_dlopen.Common.{ℕ, zero, suc, ◌+◌, ◌-◌, ◌%◌, Bool, ◌==◌, leb, if◌then◌else◌}

abbrev pub Mem : Type 0
Mem = ℕ → ℕ

unfoldable pub write : ℕ → ℕ → Mem → Mem
write a v mem x = if x == a then v else mem x

-- The loop of `memcpy` from `index` on, with the rounds that are left.
unfoldable pub copy_up : ℕ → ℕ → ℕ → ℕ → Mem → Mem
unfolding write
copy_up dst src index zero mem = mem
copy_up dst src index (suc left) mem =
    copy_up dst src (index + 1) left (write (dst + index) (mem (src + index)) mem)

unfoldable pub memcpy : ℕ → ℕ → ℕ → Mem → Mem
unfolding copy_up
memcpy dst src len mem = copy_up dst src 0 len mem

-- The other loop of `memmove`, which counts `index` down.
unfoldable pub copy_down : ℕ → ℕ → ℕ → Mem → Mem
unfolding write
copy_down dst src zero mem = mem
copy_down dst src (suc index) mem =
    copy_down dst src index (write (dst + index) (mem (src + index)) mem)

unfoldable pub memmove : ℕ → ℕ → ℕ → Mem → Mem
unfolding memcpy copy_down
memmove dst src len mem = if leb dst src then memcpy dst src len mem else copy_down dst src len mem

unfoldable pub memset_from : ℕ → ℕ → ℕ → ℕ → Mem → Mem
unfolding write
memset_from dst value index zero mem = mem
memset_from dst value index (suc left) mem =
    memset_from dst value (index + 1) left (write (dst + index) (value % 256) mem)

unfoldable pub memset : ℕ → ℕ → ℕ → Mem → Mem
unfolding memset_from
memset dst value len mem = memset_from dst value 0 len mem

-- `lhs as i32 - rhs as i32`, as the two bytes.
unfoldable pub memcmp_from : ℕ → ℕ → ℕ → ℕ → Mem → ℕ × ℕ
memcmp_from left right index zero mem = (0, 0)
memcmp_from left right index (suc n) mem =
    let rest = memcmp_from left right (index + 1) n mem in
    if mem (left + index) == mem (right + index)
    then rest
    else (mem (left + index), mem (right + index))

unfoldable pub memcmp : ℕ → ℕ → ℕ → Mem → ℕ × ℕ
unfolding memcmp_from
memcmp left right len mem = memcmp_from left right 0 len mem

-- The loop of `strlen`, with fuel; the result is the address of the terminator.
unfoldable pub find_nul : ℕ → ℕ → Mem → ℕ
find_nul zero ptr mem = ptr
find_nul (suc fuel) ptr mem =
    let rest = find_nul fuel (ptr + 1) mem in if mem ptr == 0 then ptr else rest

unfoldable pub strlen : ℕ → ℕ → Mem → ℕ
unfolding find_nul
strlen fuel ptr mem = find_nul fuel ptr mem - ptr
