-- ===== src/Machine/Boot.antt =====
-- src/mb2.cpp: the search for a tag in the boot loader's table.
use cpp_os.Base.{
  ℕ, zero, suc, ◌+◌, ◌*◌, ◌/◌, ◌^◌, ◌<◌, ◌≡◌, ◌≢◌, refl, ap, ◌∙◌, inl, inr, Option, none, some,
  List, [], ◌∷◌, ◌==◌, if◌then◌else◌, add64, length, arith, Bool-cases, ne→==, false,
}
use cpp_os.Util.Misc.{align_up}
use cpp_os.Util.Misc.Align.{align_up_lem}

-- The loop of `get`; `mb2` reads a 32-bit word of the table, and a result is the index of a word or
-- null. `none` is fuel that is short.
unfoldable pub get_loop : ℕ → (ℕ → ℕ) → ℕ → ℕ → ℕ → Option (Option ℕ)
get_loop zero mb2 type i b_i = none
get_loop (suc fuel) mb2 type i b_i =
    let b = align_up (add64 b_i (mb2 (i + 1))) 8 in
    let rest = get_loop fuel mb2 type (b / 4) b in
    if mb2 i == type then some (some i) else if mb2 i == 0 then some none else rest

-- `void *mb2::get (void *mb2_table, u8 type)`
unfoldable pub get : ℕ → (ℕ → ℕ) → ℕ → Option (Option ℕ)
get fuel mb2 type = get_loop fuel mb2 type 2 8

-- A tag of the table: its type and its length in bytes, without the padding to 8.
pub record Tag : Type 0 where
  pub type : ℕ
  pub size : ℕ

-- The place behind a tag at place `k`; places count 8 bytes.
abbrev pub place_behind : ℕ → Tag → ℕ
place_behind k t = k + (t.size + 7) / 8

-- The tags lie in the table one behind the other from place `k` on, a tag of type 0 behind the last.
abbrev pub Layout : (ℕ → ℕ) → ℕ → List Tag → Type 0
Layout mb2 k [] = (mb2 (2 * k) ≡ 0) × (k < 2 ^ 60)
Layout mb2 k (t ∷ ts) =
    (mb2 (2 * k) ≡ t.type)
    × (t.type ≢ 0)
    × (mb2 (2 * k + 1) ≡ t.size)
    × (place_behind k t < 2 ^ 60)
    × Layout mb2 (place_behind k t) ts

-- The word of the first tag of a type.
abbrev pub first_tag : ℕ → List Tag → ℕ → Option ℕ
first_tag k [] type = none
first_tag k (t ∷ ts) type =
    if t.type == type then some (2 * k) else first_tag (place_behind k t) ts type

align_up_eight :
    (k n : ℕ) → k + (n + 7) / 8 < 2 ^ 60 → align_up (add64 (8 * k) n) 8 ≡ 8 * (k + (n + 7) / 8)
align_up_eight k n h =
    let (q, e, lo, hi) = align_up_lem 3 (8 * k + n) (omega arith) (omega arith) in
    let same : add64 (8 * k) n ≡ 8 * k + n = omega arith in
    ap (λ (t : ℕ). align_up t 8) same ∙ omega (arith, e, lo, hi)

get_loop-Layout :
    (ts : List Tag) (mb2 : ℕ → ℕ) (type k : ℕ)
    → type ≢ 0
    → Layout mb2 k ts
    → get_loop (suc (length ts)) mb2 type (2 * k) (8 * k) ≡ some (first_tag k ts type)
unfolding get_loop
get_loop-Layout [] mb2 type k ne (z, h) = ground (arith, z)
get_loop-Layout (t ∷ ts) mb2 type k ne (e, some_type, s, h, l) =
    elim (Bool-cases (t.type == type)) [
      | inl y ↦ ground (arith, e)
      | inr n ↦
          let other : (mb2 (2 * k) == type) ≡ false = ground (arith, e) in
          let used : (mb2 (2 * k) == 0) ≡ false = ground (arith, e) in
          let b = ap (λ (t : ℕ). align_up (add64 (8 * k) t) 8) s ∙ align_up_eight k t.size h in
          rw (other, used, n, b)
            (ap (λ (i : ℕ). get_loop (suc (length ts)) mb2 type i (8 * place_behind k t))
                (omega arith)
              ∙ get_loop-Layout ts mb2 type (place_behind k t) ne l)
    ]

-- A table whose tags lie one behind the other, each padded to 8 bytes and the last followed by a tag
-- of type 0, all below 2 ^ 63 bytes: `get` ends within as many rounds as there are tags and one more,
-- and it returns the first tag of the type asked for, other than 0, or null where there is none.
pub get-Layout :
    (ts : List Tag) (mb2 : ℕ → ℕ) (type : ℕ)
    → type ≢ 0
    → Layout mb2 1 ts
    → get (suc (length ts)) mb2 type ≡ some (first_tag 1 ts type)
unfolding get
get-Layout ts mb2 type ne l = get_loop-Layout ts mb2 type 1 ne l

-- `get` never ends at a tag of length 0 that is neither the one asked for nor the last.
pub get_loop_stuck :
    (fuel k : ℕ) (mb2 : ℕ → ℕ) (type : ℕ)
    → k < 2 ^ 60
    → mb2 (2 * k) ≢ type
    → mb2 (2 * k) ≢ 0
    → mb2 (2 * k + 1) ≡ 0
    → get_loop fuel mb2 type (2 * k) (8 * k) ≡ none
unfolding get_loop
get_loop_stuck zero k mb2 type h ne used z = refl
get_loop_stuck (suc fuel) k mb2 type h ne used z =
    let b = ap (λ (t : ℕ). align_up (add64 (8 * k) t) 8) z ∙ align_up_eight k 0 (omega arith) in
    let place : 8 * (k + (0 + 7) / 8) ≡ 8 * k = omega arith in
    let word : 8 * k / 4 ≡ 2 * k = omega arith in
    rw (ne→== _ _ ne, ne→== _ _ used, b, place, word) (get_loop_stuck fuel k mb2 type h ne used z)
