-- ===== src/Memory/Laws.antt =====
-- What the routines of rtld/impl/src/memory.rs leave in memory.
use rust_dlopen.Common.{
  ℕ, zero, suc, ◌+◌, ◌-◌, ◌%◌, ◌≡◌, ◌∙◌, ◌≤◌, ◌<◌, ◌⊎◌, inl, inr, refl, ◌==◌, ◌&&◌, ltb, ==_iff,
  leb, arith, Bool-cases, if◌then◌else◌,
}
use rust_dlopen.Memory.{
  Mem, write, copy_up, memcpy, copy_down, memmove, memset_from, memset, find_nul, strlen,
}

pub write-here : (a v : ℕ) (mem : Mem) → write a v mem a ≡ v
unfolding write
write-here a v mem = ground arith

pub write-there : (a v x : ℕ) (mem : Mem) → (x ≡ a → ⊥) → write a v mem x ≡ mem x
unfolding write
write-there a v x mem h = ground arith

-- An address that a copy of `len` bytes to `dst` does not touch.
abbrev pub Outside : ℕ → ℕ → ℕ → Type 0
Outside dst len x = (x < dst) ⊎ (dst + len ≤ x)

pub copy_up-Outside :
    (dst src index left x : ℕ) (mem : Mem)
    → Outside (dst + index) left x
    → copy_up dst src index left mem x ≡ mem x
unfolding copy_up
copy_up-Outside dst src index zero x mem h = refl
copy_up-Outside dst src index (suc left) x mem h =
    let e : copy_up dst src (index + 1) left (write (dst + index) (mem (src + index)) mem) x
        ≡ write (dst + index) (mem (src + index)) mem x =
      copy_up-Outside dst src (index + 1) left x _ (ground arith) in
    e ∙ write-there (dst + index) (mem (src + index)) x mem (ground arith)

pub copy_up-inside :
    (dst src index left i : ℕ) (mem : Mem)
    → dst ≤ src
    → index ≤ i
    → i < index + left
    → copy_up dst src index left mem (dst + i) ≡ mem (src + i)
unfolding copy_up
copy_up-inside dst src index zero i mem h p q = absurd (omega arith)
copy_up-inside dst src index (suc left) i mem h p q = elim (Bool-cases (i == index)) [
  | inl e ↦
      let here : i ≡ index = (==_iff i index).0 e in
      rw
        (
          here,
          copy_up-Outside dst src (index + 1) left (dst + index)
              (write (dst + index) (mem (src + index)) mem) (inl (omega arith)),
        )
        (write-here (dst + index) (mem (src + index)) mem)
  | inr e ↦
      let m' = write (dst + index) (mem (src + index)) mem in
      copy_up-inside dst src (index + 1) left i m' h (ground arith) (omega arith)
      ∙ write-there (dst + index) (mem (src + index)) (src + i) mem (ground arith)
]

copy_down-Outside :
    (dst src index x : ℕ) (mem : Mem) → Outside dst index x → copy_down dst src index mem x ≡ mem x
unfolding copy_down
copy_down-Outside dst src zero x mem h = refl
copy_down-Outside dst src (suc index) x mem h =
    copy_down-Outside dst src index x (write (dst + index) (mem (src + index)) mem) (ground arith)
    ∙ write-there (dst + index) (mem (src + index)) x mem (ground arith)

copy_down-inside :
    (dst src index i : ℕ) (mem : Mem)
    → src ≤ dst
    → i < index
    → copy_down dst src index mem (dst + i) ≡ mem (src + i)
unfolding copy_down
copy_down-inside dst src zero i mem h q = absurd (omega arith)
copy_down-inside dst src (suc index) i mem h q = elim (Bool-cases (i == index)) [
  | inl e ↦
      let here : i ≡ index = (==_iff i index).0 e in
      rw
        (
          here,
          copy_down-Outside dst src index (dst + index)
              (write (dst + index) (mem (src + index)) mem) (inr (omega arith)),
        )
        (write-here (dst + index) (mem (src + index)) mem)
  | inr e ↦
      let m' = write (dst + index) (mem (src + index)) mem in
      copy_down-inside dst src index i m' h (ground arith)
      ∙ write-there (dst + index) (mem (src + index)) (src + i) mem (ground arith)
]

copied :
    (dst src len : ℕ) (mem after : Mem)
    → ((i : ℕ) → i < len → after (dst + i) ≡ mem (src + i))
    → ((x : ℕ) → Outside dst len x → after x ≡ mem x)
    → (x : ℕ) → after x ≡ (if leb dst x && ltb x (dst + len) then mem (src + (x - dst)) else mem x)
copied dst src len mem after inside outside x = elim (Bool-cases (leb dst x && ltb x (dst + len))) [
  | inl t ↦
      let at : dst + (x - dst) ≡ x = ground (arith, t) in
      let e : after (dst + (x - dst)) ≡ mem (src + (x - dst)) =
        inside (x - dst) (ground (arith, t)) in
      rw t (rw at at e)
  | inr t ↦ let e = outside x (ground (arith, t)) in rw t e
]

-- After `memmove`, each byte of the destination is what was at its place in the source before the
-- call, however the two objects overlap, and no other byte has changed.
pub memmove_lem :
    (dst src len : ℕ) (mem : Mem) (x : ℕ)
    → memmove dst src len mem x
      ≡ (if leb dst x && ltb x (dst + len) then mem (src + (x - dst)) else mem x)
unfolding memmove memcpy
memmove_lem dst src len mem x = elim (Bool-cases (leb dst src)) [
  | inl e ↦ rw e (
      copied dst src len mem (copy_up dst src 0 len mem)
        (λ i h. copy_up-inside dst src 0 len i mem (ground (arith, e)) (omega arith) (omega arith))
        (λ y h. copy_up-Outside dst src 0 len y mem (ground arith)) x)
  | inr e ↦ rw e (
      copied dst src len mem (copy_down dst src len mem)
        (λ i h. copy_down-inside dst src len i mem (ground (arith, e)) h)
        (λ y h. copy_down-Outside dst src len y mem h) x)
]

memset_from-Outside :
    (dst value index left x : ℕ) (mem : Mem)
    → Outside (dst + index) left x
    → memset_from dst value index left mem x ≡ mem x
unfolding memset_from
memset_from-Outside dst value index zero x mem h = refl
memset_from-Outside dst value index (suc left) x mem h =
    memset_from-Outside dst value (index + 1) left x (write (dst + index) (value % 256) mem)
      (ground arith)
    ∙ write-there (dst + index) (value % 256) x mem (ground arith)

memset_from-inside :
    (dst value index left i : ℕ) (mem : Mem)
    → index ≤ i
    → i < index + left
    → memset_from dst value index left mem (dst + i) ≡ value % 256
unfolding memset_from
memset_from-inside dst value index zero i mem p q = absurd (omega arith)
memset_from-inside dst value index (suc left) i mem p q = elim (Bool-cases (i == index)) [
  | inl e ↦
      let here : i ≡ index = (==_iff i index).0 e in
      rw
        (
          here,
          memset_from-Outside dst value (index + 1) left (dst + index)
              (write (dst + index) (value % 256) mem) (inl (omega arith)),
        )
        (write-here (dst + index) (value % 256) mem)
  | inr e ↦
      memset_from-inside dst value (index + 1) left i (write (dst + index) (value % 256) mem)
        (ground arith) (omega arith)
]

-- After `memset`, each byte of the object is the low byte of the value, and no other byte has
-- changed.
pub memset_lem :
    (dst value len : ℕ) (mem : Mem) (x : ℕ)
    → memset dst value len mem x ≡ (if leb dst x && ltb x (dst + len) then value % 256 else mem x)
unfolding memset
memset_lem dst value len mem x = elim (Bool-cases (leb dst x && ltb x (dst + len))) [
  | inl t ↦
      let at : dst + (x - dst) ≡ x = ground (arith, t) in
      let e : memset_from dst value 0 len mem (dst + (x - dst)) ≡ value % 256 =
        memset_from-inside dst value 0 len (x - dst) mem (omega arith) (ground (arith, t)) in
      rw t (rw at at e)
  | inr t ↦ let e = memset_from-Outside dst value 0 len x mem (ground (arith, t)) in rw t e
]

shift_address : (ptr i : ℕ) → ptr + suc i ≡ ptr + 1 + i
shift_address ptr i = omega arith

later_nonzero :
    (n ptr : ℕ) (mem : Mem)
    → ((i : ℕ) → i < suc n → mem (ptr + i) ≡ 0 → ⊥)
    → (i : ℕ) → i < n
    → mem (ptr + 1 + i) ≡ 0
    → ⊥
later_nonzero n ptr mem h i p z = h (suc i) (omega arith) (rw (shift_address ptr i) z)

pub find_nul_lem :
    (n fuel ptr : ℕ) (mem : Mem)
    → ((i : ℕ) → i < n → mem (ptr + i) ≡ 0 → ⊥)
    → mem (ptr + n) ≡ 0
    → n < fuel
    → find_nul fuel ptr mem ≡ ptr + n
unfolding find_nul
find_nul_lem n zero ptr mem h e l = absurd (omega arith)
find_nul_lem zero (suc fuel) ptr mem h e l = ground arith
find_nul_lem (suc n) (suc fuel) ptr mem h e l =
    let first : mem (ptr + 0) ≡ 0 → ⊥ = h 0 (omega arith) in
    let start : ptr + 0 ≡ ptr = omega arith in
    let last : mem (ptr + 1 + n) ≡ 0 = rw (← shift_address ptr n) e in
    let rest = find_nul_lem n fuel (ptr + 1) mem (later_nonzero n ptr mem h) last (omega arith) in
    ground (arith, first, start, rest)

-- For a string whose first NUL is its byte number `n`, `strlen` is `n`, and `n + 1` rounds of its
-- loop are enough.
pub strlen_lem :
    (n fuel ptr : ℕ) (mem : Mem)
    → ((i : ℕ) → i < n → mem (ptr + i) ≡ 0 → ⊥)
    → mem (ptr + n) ≡ 0
    → n < fuel
    → strlen fuel ptr mem ≡ n
unfolding strlen
strlen_lem n fuel ptr mem h e l = rw (find_nul_lem n fuel ptr mem h e l) (omega arith)
