-- ===== src/Util/Str/Decimal.antt =====
-- `itoa` of src/util/string.cpp prints numbers in decimal.
use cpp_os.Base.{
  ℕ, zero, suc, ◌+◌, ◌-◌, ◌*◌, ◌/◌, ◌%◌, ◌^◌, ◌<◌, ◌≤◌, ◌≡◌, ◌∙◌, ap, ap₂, sym, ==→eq, Bool, true,
  false, List, [], ◌∷◌, ◌++◌, ◌==◌, length, arith, refl, Bool-cases, inl, inr,
}
use native.Mathlib.Omega.{pow_step}
use native.Mathlib.Nat.{pow-le-pow_right, one-le-pow, div-add-mod, mod-lt, div-lt_iff_lt-mul}
use cpp_os.Util.Math.{powu}
use cpp_os.Util.Math.Laws.{powu_lem}
use cpp_os.Util.Str.{itoc, itoa_loop, itoa}

-- The number that a list of decimal digits writes, behind the number `n`.
abbrev pub value : ℕ → List ℕ → ℕ
value n [] = n
value n (c ∷ s) = value (n * 10 + (c - 48)) s

value-append : (n : ℕ) (s : List ℕ) (c : ℕ) → value n (s ++ (c ∷ [])) ≡ value n s * 10 + (c - 48)
value-append n [] c = refl
value-append n (d ∷ s) c = value-append (n * 10 + (d - 48)) s c

-- A digit at the place of a power of ten.
place : (v i q r : ℕ) → (v * 10 + q) * 10 ^ i + r ≡ v * 10 ^ suc i + (10 ^ i * q + r)
place v i q r = ground (arith, ap (λ (t : ℕ). v * t) (pow_step 10 i))

place_zero : (v i r : ℕ) → (v * 10 + 0) * 10 ^ i + r ≡ v * 10 ^ suc i + r
place_zero v i r = ground (arith, place v i 0 r)

-- The powers of ten that fit in a word.
powu_ten : (i : ℕ) → i < 20 → powu 10 i ≡ 10 ^ i
powu_ten i h =
    powu_lem 10 i
    ∙ omega (arith, pow-le-pow_right {n = 10} (omega arith) {i = i} {j = 19} (omega arith))

itoc_digit : (q : ℕ) → q < 10 → itoc (q % 2 ^ 32) - 48 ≡ q
unfolding itoc
itoc_digit q h = ground arith

zero_quotient : (n p : ℕ) → 0 < p → n / p ≡ 0 → n < p
zero_quotient n p h z =
    let below = (div-lt_iff_lt-mul {k = p} {x = n} {y = 1} h).0 (omega (arith, z)) in
    omega (arith, below)

skip_round :
    (i num : ℕ)
    → (num / powu 10 i == 0) ≡ true
    → itoa_loop (suc i) num false [] ≡ itoa_loop i num false []
unfolding itoa_loop
skip_round i num e = rw (e) refl

nothing_yet :
    (i num : ℕ) (out : List ℕ)
    → out ≡ []
    → value 0 out * 10 ^ i + num ≡ value 0 out * 10 ^ suc i + num
nothing_yet i num [] e = omega arith
nothing_yet i num (c ∷ s) e = absurd (ground (arith, ap length e))

itoa_loop_lem :
    (i num : ℕ) (flag : Bool) (out : List ℕ)
    → i ≤ 20
    → num < 10 ^ i
    → (flag ≡ false → out ≡ [])
    → value 0 (itoa_loop i num flag out) ≡ value 0 out * 10 ^ i + num
unfolding itoa_loop
itoa_loop_lem zero num flag [] h lt f = omega arith
itoa_loop_lem zero num flag (c ∷ s) h lt f = ground arith
itoa_loop_lem (suc i) num flag out h lt f =
    let P = 10 ^ i in
    let p = powu_ten i (omega arith) in
    let some_p : 0 < P = one-le-pow i 10 (omega arith) in
    let q : num / powu 10 i ≡ num / P = ap (λ (t : ℕ). num / t) p in
    let parts = div-add-mod num P in
    let rest = mod-lt num {m = P} some_p in
    let left : num - powu 10 i * (num / powu 10 i) ≡ num % P =
      ap₂ (λ (a b : ℕ). num - a * b) p q ∙ omega (arith, parts) in
    elim (Bool-cases (num / powu 10 i == 0)) [
      | inl none_here ↦
          let small : num < P = zero_quotient num P some_p (sym q ∙ ==→eq _ 0 none_here) in
          elim (Bool-cases flag) [
            | inl on ↦
                rw (none_here, on)
                  (itoa_loop_lem i num true (out ++ (48 ∷ [])) (omega arith) small
                      (λ e. absurd (ground (arith, e)))
                    ∙ ap (λ (t : ℕ). t * P + num) (value-append 0 out 48)
                    ∙ place_zero (value 0 out) i num)
            | inr off ↦
                rw (none_here, off)
                  (itoa_loop_lem i num false out (omega arith) small (λ _. f off)
                    ∙ nothing_yet i num out (f off))
          ]
      | inr digit ↦
          let d : num / P < 10 =
            (div-lt_iff_lt-mul {k = P} {x = num} {y = 10} some_p).1
              (omega (arith, pow_step 10 i)) in
          let c : itoc (num / powu 10 i % 2 ^ 32) - 48 ≡ num / P =
            ap (λ (t : ℕ). itoc (t % 2 ^ 32) - 48) q ∙ itoc_digit (num / P) d in
          rw (digit) (
            itoa_loop_lem i (num - powu 10 i * (num / powu 10 i)) true
              (out ++ (itoc (num / powu 10 i % 2 ^ 32) ∷ [])) (omega arith)
              (omega (arith, left, rest)) (λ e. absurd (ground (arith, e)))
            ∙ ap₂ (λ (s t : ℕ). s * P + t)
                (value-append 0 out _ ∙ ap (λ (t : ℕ). value 0 out * 10 + t) c) left
            ∙ place (value 0 out) i (num / P) (num % P)
            ∙ ap (λ (t : ℕ). value 0 out * 10 ^ suc i + t) parts)
    ]

-- `itoa` writes the number in decimal: for a number below 7766279631452241920, which is what is
-- left of the power 20 of ten in 64 bits, the digits written have the number as their value.
pub value-itoa : (num : ℕ) → num < 7766279631452241920 → value 0 (itoa num) ≡ num
unfolding itoa
value-itoa num h =
    let small : (num / powu 10 20 == 0) ≡ true = ground (arith, powu_lem 10 20) in
    ap (value 0) (skip_round 20 num small)
    ∙ itoa_loop_lem 20 num false [] (omega arith) (omega arith) (λ _. refl)
    ∙ omega arith
