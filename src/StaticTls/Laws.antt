-- ===== src/StaticTls/Laws.antt =====
-- The layout of static TLS blocks that `register_static_module` of src/rtld.rs makes.
use Prim.Native.Nat.{◌^◌}
use native.Mathlib.Nat.{
  mul_assoc, mul_comm, mod-lt, div-add-mod', mul-mod_left, mod-one, pow-suc, one-le-pow,
  mod-eq_of_lt, add-mul-mod_self_left,
}
use Prim.Native.Nat.{bit_and}
use rust_dlopen.Common.Bits.{bit_and_step, bit_and-zero}
use rust_dlopen.Common.{min, sym, ap, ◌∙◌, refl}
use rust_dlopen.Common.{
  ℕ, zero, suc, ◌+◌, ◌-◌, ◌*◌, ◌/◌, ◌%◌, ◌≤◌, ◌<◌, max, ◌≡◌, ◌⊎◌, inl, inr, Bool, true, false, none,
  some, List, [], ◌∷◌, ◌++◌, arith, leb, Option-cases, Bool-cases,
}
use rust_dlopen.StaticTls.{
  arena_size, checked_add, next_power_from, checked_next_power_of_two, align_up, TlsInfo,
  StaticTlsArea, StaticTlsModule, StaticTls, place_module, register_static_module,
}

-- Masking with one bit less than a power of two is the remainder.
low_bits : (k v : ℕ) → bit_and v (2 ^ k - 1) ≡ v % 2 ^ k
low_bits zero v = bit_and-zero v ∙ sym (mod-one v)
low_bits (suc k) v =
    let double : 2 ^ suc k ≡ 2 * 2 ^ k = omega (arith, pow-suc 2 k) in
    let positive : 0 < 2 ^ k = one-le-pow k 2 (omega arith) in
    let half : (2 ^ suc k - 1) / 2 ≡ 2 ^ k - 1 = omega (arith, double, positive) in
    let odd : (2 ^ suc k - 1) % 2 ≡ 1 = omega (arith, double, positive) in
    let step = bit_and_step v (2 ^ suc k - 1) in
    rw step (rw (half, odd, low_bits k (v / 2), double) (doubled v (2 ^ k) positive))
  where
    doubled : (x p : ℕ) → 0 < p → x / 2 % p * 2 + min (x % 2) 1 ≡ x % (2 * p)
    doubled x p h =
        let q : ℕ = x / 2 / p in
        let r : ℕ = x / 2 % p in
        let split : q * p + r ≡ x / 2 = div-add-mod' (x / 2) p in
        let small : r < p = mod-lt (x / 2) h in
        let product : 2 * p * q ≡ 2 * (q * p) =
          mul_assoc 2 p q ∙ ap (λ (t : ℕ). 2 * t) (mul_comm p q) in
        let whole : r * 2 + x % 2 + 2 * p * q ≡ x = omega (arith, split, product) in
        let rest : (r * 2 + x % 2 + 2 * p * q) % (2 * p) ≡ (r * 2 + x % 2) % (2 * p) =
          add-mul-mod_self_left (r * 2 + x % 2) (2 * p) q in
        let inside : (r * 2 + x % 2) % (2 * p) ≡ r * 2 + x % 2 =
          mod-eq_of_lt (omega (arith, small)) in
        let total : x % (2 * p) ≡ r * 2 + x % 2 =
          ap (λ (t : ℕ). t % (2 * p)) (sym whole) ∙ rest ∙ inside in
        omega (arith, total)

-- A power of two, and its exponent.
abbrev pub IsPower : ℕ → Type 0
IsPower q = (k : ℕ) × (q ≡ 2 ^ k)

next_power_from_lem :
    (fuel p n q : ℕ)
    → next_power_from fuel p n ≡ some q
    → IsPower p
    → p < 2 * n
    → (n ≤ q) × IsPower q × (q < 2 * n)
unfolding next_power_from
next_power_from_lem zero p n q e h l = cc
next_power_from_lem (suc fuel) p n q e (k, h) l = elim (Bool-cases (leb n p)) [
  | inl t ↦ (ground (arith, t), (k, ground (arith, t, h)), ground (arith, t))
  | inr t ↦
      next_power_from_lem fuel (p * 2) n q (ground (arith, t)) (suc k, rw h (sym (pow-suc 2 k)))
        (ground (arith, t))
]

checked_next_power_of_two_lem :
    (n q : ℕ) → 0 < n → checked_next_power_of_two n ≡ some q → (n ≤ q) × IsPower q × (q < 2 * n)
unfolding checked_next_power_of_two
checked_next_power_of_two_lem n q h e = next_power_from_lem 64 1 n q e (0, refl) (omega arith)

round_down : (v a : ℕ) → 0 < a → ((v - v % a) % a ≡ 0) × (v < (v - v % a) + a)
round_down v a h =
    let e : v / a * a + v % a ≡ v = div-add-mod' v a in
    let whole : v - v % a ≡ v / a * a = omega (arith, e) in
    (rw whole (mul-mod_left (v / a) a), omega (arith, mod-lt v h, e))

align_up_lem :
    (value align r : ℕ)
    → IsPower align
    → align_up value align ≡ some r
    → (r % align ≡ 0) × (value ≤ r)
unfolding align_up checked_add
align_up_lem value align r (k, h) e =
    let positive : 0 < align = rw h (one-le-pow k 2 (omega arith)) in
    let masked : bit_and (value + (align - 1)) (align - 1) ≡ (value + (align - 1)) % align =
      rw h (low_bits k (value + (2 ^ k - 1))) in
    let (divides, near) = round_down (value + (align - 1)) align positive in
    (ground (arith, divides, masked), ground (arith, near, masked))

checked_add_lem : (a b c : ℕ) → checked_add a b ≡ some c → c ≡ a + b
unfolding checked_add
checked_add_lem a b c e = ground arith

-- The place of a new module: it is a multiple of the least power of two that is not below the
-- module's alignment (or 1 in place of 0), it leaves room for it below all the
-- modules placed before, and it is inside the area.
pub record IsPlaced (area : StaticTlsArea) (tls_info : TlsInfo) (used align : ℕ) : Type 0 where
  pub aligned : used % align ≡ 0
  pub power : IsPower align
  pub at_least : max tls_info.align 1 ≤ align
  pub least : align < 2 * max tls_info.align 1
  pub apart : area.used + tls_info.memsz ≤ used
  pub inside : used ≤ arena_size

place_module_lem :
    (area : StaticTlsArea) (tls_info : TlsInfo) (used align : ℕ)
    → place_module area tls_info ≡ some (used, align)
    → IsPlaced area tls_info used align
unfolding place_module
place_module_lem area tls_info used align e =
    elim (Option-cases (checked_next_power_of_two (max tls_info.align 1))) [
      | inl n ↦ absurd (ground (arith, n))
      | inr (a, ea) ↦ elim (Option-cases (checked_add area.used tls_info.memsz)) [
        | inl n ↦ absurd (ground (arith, ea, n))
        | inr (u, eu) ↦ elim (Option-cases (align_up u a)) [
          | inl n ↦ absurd (ground (arith, ea, eu, n))
          | inr (r, er) ↦
              let pow = checked_next_power_of_two_lem (max tls_info.align 1) a (omega arith) ea in
              let (atleast, (k, pk), below) = pow in
              let sum = checked_add_lem area.used tls_info.memsz u eu in
              let up = align_up_lem u a r (k, pk) er in
              record {
                aligned = ground (arith, ea, eu, er, up.0);
                power = (k, ground (arith, ea, eu, er, pk));
                at_least = ground (arith, ea, eu, er, atleast);
                least = ground (arith, ea, eu, er, below);
                apart = ground (arith, ea, eu, er, sum, up.1);
                inside = ground (arith, ea, eu, er);
              }
        ]
      ]
    ]

-- The blocks of the modules lie one below the other: each ends where the next may start.
abbrev pub AreApart : ℕ → List StaticTlsModule → ℕ → Type 0
AreApart above [] used = above ≤ used
AreApart above (m ∷ ms) used = (above + m.info.memsz ≤ m.offset) × AreApart m.offset ms used

AreApart-snoc :
    (above used next : ℕ) (ms : List StaticTlsModule) (m : StaticTlsModule)
    → AreApart above ms used
    → used + m.info.memsz ≤ m.offset
    → m.offset ≤ next
    → AreApart above (ms ++ m ∷ []) next
AreApart-snoc above used next [] m h p q = (omega arith, q)
AreApart-snoc above used next (x ∷ ms) m h p q =
    (h.0, AreApart-snoc x.offset used next ms m h.1 p q)

AreApart-more :
    (above used next : ℕ) (ms : List StaticTlsModule)
    → AreApart above ms used
    → used ≤ next
    → AreApart above ms next
AreApart-more above used next [] h q = omega arith
AreApart-more above used next (x ∷ ms) h q = (h.0, AreApart-more x.offset used next ms h.1 q)

pub record IsLaidOut (s : StaticTls) : Type 0 where
  pub apart : AreApart 0 s.modules s.area.used
  pub inside : s.area.used ≤ arena_size

register_placed :
    (accepts : Bool) (tls_info : TlsInfo) (s : StaticTls) (used align : ℕ)
    → IsLaidOut s
    → place_module s.area tls_info ≡ some (used, align)
    → IsLaidOut (register_static_module accepts tls_info s).1
unfolding register_static_module
register_placed true tls_info s used align h e =
    let p = place_module_lem s.area tls_info used align e in
    rw (register_static_module, e)
      (record {
        apart = AreApart-snoc 0 s.area.used used s.modules _ h.apart p.apart (omega arith);
        inside = p.inside;
      })
register_placed false tls_info s used align h e =
    let p = place_module_lem s.area tls_info used align e in
    let more : s.area.used ≤ used = omega (arith, p.apart) in
    rw (register_static_module, e)
      (record {
        apart = AreApart-more 0 s.area.used used s.modules h.apart more;
        inside = p.inside;
      })

-- Where the static TLS blocks are apart and inside the area, they stay so when a module is
-- registered, whether it is placed, refused by the resolver or too large. An offset that is
-- returned is a multiple of the least power of two that is not below the module's alignment (or 1
-- in place of 0), is in the area and leaves room for the module beyond all the space that was used
-- before; a call that returns none adds no module.
pub register_static_module_lem :
    (accepts : Bool) (tls_info : TlsInfo) (s : StaticTls)
    → IsLaidOut s
    → IsLaidOut (register_static_module accepts tls_info s).1
      × (((register_static_module accepts tls_info s).0 ≡ none)
            × ((register_static_module accepts tls_info s).1.modules ≡ s.modules)
          ⊎ (offset : ℕ) × (align : ℕ) × ((register_static_module accepts tls_info s).0
              ≡ some offset)
            × IsPlaced s.area tls_info offset align)
unfolding register_static_module
register_static_module_lem accepts tls_info s h =
    elim (Option-cases (place_module s.area tls_info)) [
      | inl e ↦ (
        rw (register_static_module, e) h,
        inl (rw (register_static_module, e), rw (register_static_module, e)),
      )
      | inr ((used, align), e) ↦ (
        register_placed accepts tls_info s used align h e,
        elim (Bool-cases accepts) [
          | inl t ↦ inr (
            used,
            align,
            rw (register_static_module, e, t),
            place_module_lem s.area tls_info used align e,
          )
          | inr t ↦ inl (rw (register_static_module, e, t), rw (register_static_module, e, t))
        ],
      )
    ]
