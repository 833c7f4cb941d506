-- ===== src/StaticTls.antt =====
-- The static TLS area of the replacement loader: `mod tls` of src/rtld.rs. Offsets from the thread
-- pointer are negative: `offset` keeps their absolute value. The copying of images into the area is
-- left out, and the resolver's own table of modules is the ELF loader's.
pub mod Laws
use Prim.Native.Nat.{◌^◌, bit_and}
use rust_dlopen.Common.{
  ℕ, zero, suc, ◌+◌, ◌-◌, ◌*◌, ◌/◌, ◌%◌, max, Bool, true, false, Option, none, some, List, [], ◌∷◌,
  ◌++◌, ◌==◌, ltb, leb, if◌then◌else◌,
}
use rust_dlopen.Common.Maybe.{◌>>=◌}

-- `STATIC_TLS_ARENA_SIZE`
abbrev pub arena_size : ℕ
arena_size = 1024 * 1024

-- `usize`'s first value out of range.
abbrev pub usize_end : ℕ
usize_end = 2 ^ 64

unfoldable pub checked_add : ℕ → ℕ → Option ℕ
checked_add a b = if ltb (a + b) usize_end then some (a + b) else none

-- The powers of two from `p` on, until one is not below `n`; `p` starts at 1, and 64 rounds reach
-- every value of a `usize`.
unfoldable pub next_power_from : ℕ → ℕ → ℕ → Option ℕ
next_power_from zero p n = none
next_power_from (suc fuel) p n =
    let rest = next_power_from fuel (p * 2) n in if leb n p then some p else rest

-- `checked_next_power_of_two` of a `usize`.
unfoldable pub checked_next_power_of_two : ℕ → Option ℕ
unfolding next_power_from
checked_next_power_of_two n = next_power_from 64 1 n

-- `align_up`: `value & !mask` clears the bits of the mask, which is to take off `value & mask`.
unfoldable pub align_up : ℕ → ℕ → Option ℕ
unfolding checked_add
align_up value align = do v ← checked_add value (align - 1); some (v - bit_and v (align - 1))

-- What `register_static_module` reads of the ELF loader's `TlsInfo`.
pub record TlsInfo : Type 0 where
  pub align : ℕ
  pub memsz : ℕ
  pub filesz : ℕ

-- `StaticTlsArea`, without the address of the thread pointer.
pub record StaticTlsArea : Type 0 where
  pub used : ℕ
  pub max_align : ℕ

-- `StaticTlsModule`
pub record StaticTlsModule : Type 0 where
  pub info : TlsInfo
  pub offset : ℕ

-- The area and the modules, `STATIC_TLS` and `STATIC_TLS_MODULES`.
pub record StaticTls : Type 0 where
  pub area : StaticTlsArea
  pub modules : List StaticTlsModule

-- The state that `ensure_static_tls_area` sets up.
abbrev pub fresh_area : StaticTls
fresh_area = record { area = record { used = 0; max_align = 1 }; modules = [] }

-- The place that `register_static_module` computes for a module: the new value of `used`, which is
-- the module's offset, and its alignment.
unfoldable pub place_module : StaticTlsArea → TlsInfo → Option (ℕ × ℕ)
unfolding checked_next_power_of_two align_up checked_add
place_module area tls_info = do
  align ← checked_next_power_of_two (max tls_info.align 1)
  unaligned ← checked_add area.used tls_info.memsz
  used ← align_up unaligned align
  if ltb arena_size used then none else some (used, align)

-- `register_static_module` in an area that is set up. `accepts` is whether the resolver takes the
-- module. The result is the offset, if it succeeds, and the state afterwards.
unfoldable pub register_static_module : Bool → TlsInfo → StaticTls → Option ℕ × StaticTls
unfolding place_module
register_static_module accepts tls_info s = elim (place_module s.area tls_info) [
  | none ↦ (none, s)
  | some (used, align) ↦
      let area : StaticTlsArea = record { used = used; max_align = max s.area.max_align align } in
      let module_ : StaticTlsModule = record { info = tls_info; offset = used } in
      if accepts
      then (some used, record { area = area; modules = s.modules ++ module_ ∷ [] })
      else (none, record { area = area; modules = s.modules })
]

-- `RtldTlsBackend`, the sizes.
pub record RtldTlsBackend : Type 0 where
  pub tcb_size : ℕ
  pub tcb_align : ℕ

abbrev pub or_zero : Option ℕ → ℕ
or_zero none = 0
or_zero (some n) = n

-- `static_used_info`
unfoldable pub static_used_info : Option StaticTls → ℕ × ℕ
static_used_info none = (0, 1)
static_used_info (some s) = (s.area.used, s.area.max_align)

-- `static_info`: the size and the alignment that are published for the threads to come.
unfoldable pub static_info : Option RtldTlsBackend → Option StaticTls → ℕ × ℕ
unfolding static_used_info align_up checked_add
static_info none s = static_used_info s
static_info (some backend) s =
    let (used, used_align) = static_used_info s in
    let align = max (max used_align backend.tcb_align) 1 in
    let size = align_up used align >>= (λ u. checked_add u backend.tcb_size) in
    (or_zero size, align)

-- `allocate_storage`: the thread pointer's distance from the start of the block, and the layout.
pub record Storage : Type 0 where
  pub static_size : ℕ
  pub total_size : ℕ
  pub align : ℕ

unfoldable pub storage_layout : RtldTlsBackend → Option StaticTls → Option Storage
unfolding static_used_info align_up checked_add checked_next_power_of_two
storage_layout backend s = do
  align ← checked_next_power_of_two (max (max (static_used_info s).1 backend.tcb_align) 8)
  static_size ← align_up (static_used_info s).0 align
  total_size ← checked_add static_size backend.tcb_size
  some (record { static_size = static_size; total_size = total_size; align = align })
