-- ===== src/Util/Str/Reverse.antt =====
-- `revstr` of src/util/string.cpp reverses a string.
use cpp_os.Base.{
  ℕ, zero, suc, ◌-◌, ◌/◌, ◌<◌, ◌≤◌, ◌≡◌, ◌∙◌, ap, false, List, [], ◌∷◌, ltb, ◌==◌, if◌then◌else◌,
  length, length-set, get_or, set, get_or-set_self, get_or-set_ne, arith, refl, Bool-cases, ==→eq,
  inl, inr,
}
use cpp_os.Util.Str.{swap_ends, swap_rounds, revstr}

length-swap_rounds : (len n : ℕ) (s : List ℕ) → length (swap_rounds len n s) ≡ length s
unfolding swap_rounds
length-swap_rounds len zero s = refl
length-swap_rounds len (suc n) s =
    let t = swap_rounds len n s in
    length-set (set t n (get_or t (len - n - 1) 0)) (len - n - 1) (get_or t n 0)
    ∙ length-set t n (get_or t (len - n - 1) 0)
    ∙ length-swap_rounds len n s

get_or_past : (s : List ℕ) (j : ℕ) → length s ≤ j → get_or s j 0 ≡ 0
get_or_past [] j h = refl
get_or_past (c ∷ s) zero h = absurd (omega arith)
get_or_past (c ∷ s) (suc j) h = get_or_past s j (omega arith)

-- A swap, byte by byte, in a string of `len` bytes.
get_or-swap_ends :
    (len i j : ℕ) (s : List ℕ)
    → length s ≡ len
    → i < len / 2
    → get_or (swap_ends len i s) j 0 ≡ (
        if j == i
        then get_or s (len - i - 1) 0
        else if j == len - i - 1
        then get_or s i 0
        else get_or s j 0)
get_or-swap_ends len i j s e h = elim (Bool-cases (j == len - i - 1)) [
  | inl far ↦
      let apart : (j == i) ≡ false = ground arith in
      rw (apart, far)
        (ap (λ (t : ℕ). get_or (swap_ends len i s) t 0) (==→eq _ _ far)
          ∙ get_or-set_self (set s i (get_or s (len - i - 1) 0)) (len - i - 1) (get_or s i 0) 0
              (omega (arith, length-set s i (get_or s (len - i - 1) 0))))
  | inr near ↦
      get_or-set_ne (set s i (get_or s (len - i - 1) 0)) (len - i - 1) j (get_or s i 0) 0
        (ground arith)
      ∙ elim (Bool-cases (j == i)) [
        | inl here ↦ rw (here) (
            ap (λ (t : ℕ). get_or (set s i (get_or s (len - i - 1) 0)) t 0) (==→eq _ _ here)
            ∙ get_or-set_self s i (get_or s (len - i - 1) 0) 0 (omega arith))
        | inr other ↦
            rw (other, near) (get_or-set_ne s i j (get_or s (len - i - 1) 0) 0 (ground arith))
      ]
]

-- After `n` rounds the first `n` and the last `n` bytes have changed places.
get_or-swap_rounds :
    (len n j : ℕ) (s : List ℕ)
    → length s ≡ len
    → n ≤ len / 2
    → get_or (swap_rounds len n s) j 0 ≡ (
        if ltb j n
        then get_or s (len - j - 1) 0
        else if ltb j (len - n)
        then get_or s j 0
        else if ltb j len
        then get_or s (len - j - 1) 0
        else 0)
unfolding swap_rounds
get_or-swap_rounds len zero j s e h = ground (arith, get_or_past s j)
get_or-swap_rounds len (suc n) j s e h =
    get_or-swap_ends len n j (swap_rounds len n s) (length-swap_rounds len n s ∙ e) (omega arith)
    ∙ ground (
      arith,
      get_or-swap_rounds len n j s e (omega arith),
      get_or-swap_rounds len n n s e (omega arith),
      get_or-swap_rounds len n (len - n - 1) s e (omega arith),
    )

-- `revstr` keeps the length, and the byte at each index of the result is the one at the mirrored
-- index of the string.
pub get_or-revstr :
    (s : List ℕ) (j : ℕ)
    → j < length s
    → (length (revstr s) ≡ length s) × (get_or (revstr s) j 0 ≡ get_or s (length s - j - 1) 0)
unfolding revstr
get_or-revstr s j h = (
  length-swap_rounds (length s) (length s / 2) s,
  get_or-swap_rounds (length s) (length s / 2) j s refl (omega arith) ∙ mirrored,
)
  where
    middle :
        length s / 2 ≤ j
        → j < length s - length s / 2
        → get_or s j 0 ≡ get_or s (length s - j - 1) 0
    middle lo hi = ap (λ (t : ℕ). get_or s t 0) (omega arith)

    mirrored :
        (if ltb j (length s / 2)
          then get_or s (length s - j - 1) 0
          else if ltb j (length s - length s / 2)
          then get_or s j 0
          else if ltb j (length s)
          then get_or s (length s - j - 1) 0
          else 0)
        ≡ get_or s (length s - j - 1) 0
    mirrored = ground (arith, middle)
