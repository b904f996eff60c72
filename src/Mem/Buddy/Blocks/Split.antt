-- ===== src/Mem/Buddy/Blocks/Split.antt =====
-- Splitting a block in `populate_order` of src/mem/pmem.cpp.
use cpp_os.Base.{
  ℕ, suc, ◌+◌, ◌-◌, ◌*◌, ◌/◌, ◌^◌, bit_xor, ◌<◌, ◌≤◌, ◌≡◌, refl, ap, sym, ◌∙◌, inl, inr, false,
  List, [], ◌∷◌, ◌++◌, ◌==◌, arith, IsIn, Bool-cases, ==→eq, subst,
}
use native.Mathlib.Nat.{one-le-pow, pow-suc}
use cpp_os.Mem.Buddy.{Pallocator, at, last_zone, is_empty, split_zone}
use cpp_os.Mem.Buddy.Blocks.{
  IsSound, holds, total, covers, block_size, count-append, total-at, IsIn-append_cases,
  IsIn-last_zone,
}
use cpp_os.Mem.Buddy.Blocks.Aligned.{xor_half}
use cpp_os.Mem.Buddy.Blocks.Taken.{taken, total-taken, IsIn-taken, taken_apart}

-- The two halves of a block hold what it holds.
pub holds_halves :
    (half z x : ℕ) → holds half z x + holds half (z + half) x ≡ holds (half + half) z x
holds_halves half z x = ground arith

module _ (p : Pallocator) (o : ℕ) (s : IsSound p) (le : suc o ≤ p.max_order)
    (some_zone : is_empty (p.lists (suc o)) ≡ false) where
  zone_lem :
      let z = last_zone (p.lists (suc o)) in
      let half = block_size p o in
      (p.zone_n z / 2 ≡ half)
      × (bit_xor z half ≡ z + half)
      × (0 < half)
      × (block_size p (suc o) ≡ half + half)
      × (0 < z)
      × ((q : ℕ) × (z ≡ q * (half + half)))
  zone_lem =
      let z = last_zone (p.lists (suc o)) in
      let k = o + p.fo_bits in
      let (positive, (q, aligned), stored) =
        s.sized (suc o) z le (IsIn-last_zone (p.lists (suc o)) some_zone) in
      let order : suc o + p.fo_bits ≡ suc k = omega arith in
      let twice : block_size p (suc o) ≡ block_size p o + block_size p o =
        ap (λ (n : ℕ). 2 ^ n) order ∙ omega (arith, pow-suc 2 k) in
      let placed : z ≡ q * 2 ^ suc k = aligned ∙ ap (λ (n : ℕ). q * 2 ^ n) order in
      (
        omega (arith, stored, twice),
        rw placed (xor_half q k),
        one-le-pow k 2 (omega arith),
        twice,
        positive,
        (q, aligned ∙ ap (λ (n : ℕ). q * n) twice),
      )

  halves : List ℕ
  halves = last_zone (p.lists (suc o)) ∷ (last_zone (p.lists (suc o)) + block_size p o) ∷ []

  split_zone-lists_eq :
      (split_zone p (suc o)).lists ≡ at (taken p (suc o)) o (taken p (suc o) o ++ halves)
  unfolding split_zone halves
  split_zone-lists_eq =
      let (half, buddy, positive, twice, _, _) = zone_lem in
      let below : suc o - 1 ≡ o = omega arith in rw (half, buddy, below) refl

  -- A split changes no count.
  pub split_zone-covers : (x : ℕ) → covers (split_zone p (suc o)) x ≡ covers p x
  unfolding split_zone halves
  split_zone-covers x =
      let z = last_zone (p.lists (suc o)) in
      let (half, buddy, positive, twice, _, _) = zone_lem in
      let all = suc p.max_order in
      ap (λ (f : ℕ → List ℕ). total p.fo_bits f all x) split_zone-lists_eq
      ∙ omega (
        arith,
        total-at p.fo_bits (taken p (suc o)) o (taken p (suc o) o ++ halves) all x (omega arith),
        count-append (block_size p o) (taken p (suc o) o) halves x,
        total-taken p (suc o) all x (omega arith) some_zone,
        holds_halves (block_size p o) z x,
        ap (λ (n : ℕ). holds n z x) twice,
      )

  -- A block that was free before keeps its size.
  kept_size :
      (b w : ℕ)
      → b ≤ p.max_order
      → IsIn w (taken p (suc o) b)
      → (split_zone p (suc o)).zone_n w ≡ block_size p b
  unfolding split_zone
  kept_size b w hb i =
      let z = last_zone (p.lists (suc o)) in
      let (half, buddy, positive, twice, _, _) = zone_lem in
      let away : holds (block_size p o + block_size p o) z w ≡ 0 =
        ap (λ (n : ℕ). holds n z w) (sym twice) ∙ taken_apart p (suc o) b w s le some_zone hb i in
      let (_, _, stored) = s.sized b w hb (IsIn-taken p (suc o) b w i) in
      let first : (w == z) ≡ false = ground (arith, away) in
      let second : (w == z + block_size p o) ≡ false = ground (arith, away) in
      rw (half, buddy, first, second) stored

  -- The two halves have the half size.
  new_size :
      (w : ℕ)
      → IsIn w halves
      → (0 < w)
        × ((q : ℕ) × (w ≡ q * block_size p o))
        × ((split_zone p (suc o)).zone_n w ≡ block_size p o)
  unfolding split_zone halves
  new_size w i =
      let z = last_zone (p.lists (suc o)) in
      let (half, buddy, some_bytes, twice, positive, (q, aligned)) = zone_lem in
      elim i [
        | inl e ↦ rw e (positive, (q * 2, ground (arith, aligned)), rw (half, buddy) (ground arith))
        | inr j ↦ elim j [
          | inl e ↦ rw e (
            omega (arith, positive),
            (q * 2 + 1, ground (arith, aligned)),
            rw (half, buddy) (ground arith),
          )
          | inr n ↦ absurd n
        ]
      ]

  split_zone-sized :
      (b w : ℕ)
      → b ≤ p.max_order
      → IsIn w ((split_zone p (suc o)).lists b)
      → (0 < w)
        × ((q : ℕ) × (w ≡ q * block_size p b))
        × ((split_zone p (suc o)).zone_n w ≡ block_size p b)
  split_zone-sized b w hb i =
      let P : ℕ → Type 0 = λ c.
        (0 < w)
        × ((q : ℕ) × (w ≡ q * block_size p c))
        × ((split_zone p (suc o)).zone_n w ≡ block_size p c) in
      let old : (c : ℕ) → c ≤ p.max_order → IsIn w (taken p (suc o) c) → P c = λ c hc j.
        (let (nonzero, aligned, _) = s.sized c w hc (IsIn-taken p (suc o) c w j) in
          (nonzero, aligned, kept_size c w hc j)) in
      let there = subst (λ (f : ℕ → List ℕ). IsIn w (f b)) split_zone-lists_eq i in
      elim (Bool-cases (b == o)) [
        | inr other ↦ old b hb (rw other at there)
        | inl same ↦ elim (IsIn-append_cases w (taken p (suc o) o) halves (rw same at there)) [
          | inl j ↦ subst P (sym (==→eq b o same)) (old o (omega arith) j)
          | inr j ↦ subst P (sym (==→eq b o same)) (new_size w j)
        ]
      ]

  pub split_zone-IsSound : IsSound (split_zone p (suc o))
  unfolding split_zone
  split_zone-IsSound = record {
    sized = split_zone-sized;
    apart = λ x. subst (λ n. n ≤ 1) (sym (split_zone-covers x)) (s.apart x);
  }
