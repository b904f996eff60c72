-- ===== src/Mem/Buddy/Blocks/Cleared.antt =====
-- What the first part of `pallocator::init` of src/mem/pmem.cpp sets: the bounds and the table of the metadata.
use native.Mathlib.Nat.{
  mul-le-mul_left, mul-le-mul_right, pow-le-pow_right, div-eq_of_lt-le, div-lt_iff_lt-mul,
}
use cpp_os.Base.{
  ℕ, ◌+◌, ◌-◌, ◌*◌, ◌/◌, ◌%◌, ◌^◌, max, ◌<◌, ◌≤◌, ◌≡◌, refl, ap, sym, ◌∙◌, inl, inr, true, false,
  ltb, if◌then◌else◌, sub64, add64, arith, Bool-cases, ltb→lt, ltb→ge, subst,
}
use cpp_os.Base.Bits.{split_at}
use cpp_os.Util.Misc.{align_up, align_down}
use cpp_os.Util.Misc.Align.{clear_low, align_down_lem, align_up_lem}
use cpp_os.Util.Math.Laws.{log2_two_pow}
use cpp_os.Mem.Zones.{page_size}
use cpp_os.Mem.Buddy.{Pallocator, get_meta}
use cpp_os.Mem.Buddy.Init.{set_up}
use cpp_os.Mem.Buddy.Blocks.Aligned.{pow_double}
use cpp_os.Mem.Buddy.Blocks.Whole.{IsInside}
use cpp_os.Mem.Buddy.Blocks.Fitted.{power_lt}

module _ (p : Pallocator) (start_addr end_addr first_order_size k : ℕ)
    (granule : max first_order_size page_size ≡ 2 ^ k) (small : k ≤ 30) where
  pub set_up-start :
      (u : ℕ) × ((set_up p start_addr end_addr first_order_size).start_addr ≡ u * 2 ^ k)
  unfolding set_up align_up
  set_up-start =
      rw granule (_, clear_low k (sub64 (add64 start_addr (2 ^ k)) 1) (omega arith) (omega arith))

  pub set_up-stop : (v : ℕ) × ((set_up p start_addr end_addr first_order_size).end_addr ≡ v * 2 ^ k)
  unfolding set_up
  set_up-stop = rw granule (_, align_down_lem k _ (omega arith) (omega arith))

  pub set_up-bits : (set_up p start_addr end_addr first_order_size).fo_bits ≡ k
  unfolding set_up
  set_up-bits = rw granule (log2_two_pow k (omega arith))

granules :
    (k u w : ℕ)
    → u * 2 ^ k < w * 2 ^ k
    → w * 2 ^ k < 2 ^ 64
    → (sub64 (w * 2 ^ k) (u * 2 ^ k) / 2 ^ k ≡ w - u)
      × ((w - u) * 2 ^ k + u * 2 ^ k ≡ w * 2 ^ k)
      × (u < w)
granules k u w more word =
    let less = mul_lt u w (2 ^ k) more in
    let (_, some_bytes) = pow_double k in
    let split : w * 2 ^ k ≡ (w - u) * 2 ^ k + u * 2 ^ k =
      ap (λ (n : ℕ). n * 2 ^ k) (omega (arith, less)) ∙ sum_times (w - u) u (2 ^ k) in
    let left : sub64 (w * 2 ^ k) (u * 2 ^ k) ≡ (w - u) * 2 ^ k = omega (arith, split, word) in
    (
      ap (λ (n : ℕ). n / 2 ^ k) left
          ∙ div-eq_of_lt-le (2 ^ k) (omega arith)
              (omega (arith, some_bytes, sum_times (w - u) 1 (2 ^ k))),
      sym split,
      less,
    )
  where
    sum_times : (a b c : ℕ) → (a + b) * c ≡ a * c + b * c
    sum_times a b c = ground arith

    mul_lt : (a b c : ℕ) → a * c < b * c → a < b
    mul_lt a b c h = elim (Bool-cases (ltb a b)) [
      | inl less ↦ ltb→lt _ _ less
      | inr ge ↦ absurd (omega (arith, h, mul-le-mul_right {m = b} {n = a} c (ltb→ge _ _ ge)))
    ]

-- The table of the metadata starts behind the last block, and it has a cleared entry for each granule.
cleared_enough :
    (k u w : ℕ)
    → 12 ≤ k
    → k ≤ 30
    → 2 ^ 63 < u * 2 ^ k
    → u * 2 ^ k < w * 2 ^ k
    → w * 2 ^ k < 2 ^ 64
    → let first = 2 ^ k in
      let end_meta = w * first in
      let table = align_up (8 * (sub64 end_meta (u * first) / first) % 2 ^ 64) page_size in
      let stop = align_down (sub64 end_meta table) first in
      (x : ℕ)
      → u * first ≤ x
      → x < stop
      → (stop ≤ end_meta) × ((x - u * first) / first < sub64 end_meta stop)
cleared_enough k u w lo hi start more word x a b =
    let first = 2 ^ k in
    let first = 2 ^ k in
    let end_meta = w * first in
    let (e, few, lower) = granules k u w more word in
    let n = w - u in
    let bound : n * 4096 ≤ n * first =
      mul-le-mul_left n (pow-le-pow_right {n = 2} (omega arith) {i = 12} {j = k} lo) in
    let asked : 8 * (sub64 end_meta (u * first) / first) % 2 ^ 64 ≡ 8 * n =
      omega (arith, e, bound, few, word) in
    let (_, _, up, near) =
      align_up_lem 12 (8 * n) (omega arith) (omega (arith, bound, few, word)) in
    let table = align_up (8 * n) page_size in
    let rounded : align_down (sub64 end_meta table) first ≡ sub64 end_meta table / first * first =
      align_down_lem k (sub64 end_meta table) (omega arith) (omega arith) in
    let less : align_down (sub64 end_meta table) first ≤ end_meta - table =
      omega (arith, rounded, split_at k (sub64 end_meta table), bound, few, near, start, word) in
    let (_, some_bytes) = pow_double k in
    let b' : x < align_down (sub64 end_meta table) first =
      subst (λ m. x < align_down (sub64 end_meta (align_up m page_size)) first) asked b in
    let index : (x - u * first) / first < n =
      (div-lt_iff_lt-mul some_bytes).1 (omega (arith, a, b', less, few)) in
    rw asked
      (omega (arith, less), omega (arith, index, less, up, near, lower, bound, few, start, word))

-- The granules of the range are not marked when the loop starts.
pub set_up-unmarked :
    (p : Pallocator) (start_addr end_addr first_order_size k : ℕ)
    → max first_order_size page_size ≡ 2 ^ k
    → k ≤ 30
    → end_addr < 2 ^ 64
    → let q = set_up p start_addr end_addr first_order_size in
      2 ^ 63 < q.start_addr
      → q.start_addr < align_down end_addr (max first_order_size page_size)
      → (x : ℕ) → IsInside q x
      → q.alloced (get_meta q x) ≡ false
unfolding set_up get_meta align_up
set_up-unmarked p start_addr end_addr first_order_size k granule small word lo room x inside =
    let sum = sub64 (add64 start_addr (2 ^ k)) 1 in
    let us : align_up start_addr (2 ^ k) ≡ sum / 2 ^ k * 2 ^ k =
      clear_low k sum (omega arith) (omega arith) in
    let ws = align_down_lem k end_addr (omega arith) word in
    let paged : 12 ≤ k = power_lt 11 k (omega (arith, granule)) in
    let below : align_down end_addr (max first_order_size page_size) < 2 ^ 64 =
      rw (granule, ws) (omega (arith, word, split_at k end_addr)) in
    let marked =
      cleared_index k (sum / 2 ^ k) (end_addr / 2 ^ k) (max first_order_size page_size)
        (align_up start_addr (max first_order_size page_size))
        (align_down end_addr (max first_order_size page_size)) x paged small granule
        (ap (align_up start_addr) granule ∙ us) (ap (align_down end_addr) granule ∙ ws) lo room
        below inside.0 inside.1 in
    ap
      (λ b.
        if b then false else p.alloced (get_meta (set_up p start_addr end_addr first_order_size) x))
      marked
  where
    cleared_index :
        (k u w first s end_meta x : ℕ)
        → 12 ≤ k
        → k ≤ 30
        → first ≡ 2 ^ k
        → s ≡ u * 2 ^ k
        → end_meta ≡ w * 2 ^ k
        → 2 ^ 63 < s
        → s < end_meta
        → end_meta < 2 ^ 64
        → let stop =
            align_down
              (sub64 end_meta (align_up (8 * (sub64 end_meta s / first) % 2 ^ 64) page_size))
              first in
          s ≤ x → x < stop → ltb ((x - s) / first) (sub64 end_meta stop) ≡ true
    cleared_index k u w first s end_meta x h hi e es ee =
        rw (e, es, ee)
          (λ start more word lo less.
            ground (arith, cleared_enough k u w h hi start more word x lo less))

pub set_up_same :
    (p : Pallocator) (start_addr end_addr first_order_size : ℕ)
    → let q = set_up p start_addr end_addr first_order_size in
      (q.lists ≡ p.lists)
      × (q.max_order ≡ p.max_order)
      × (q.first_order_size ≡ max first_order_size page_size)
unfolding set_up
set_up_same p start_addr end_addr first_order_size = (refl, refl, refl)
