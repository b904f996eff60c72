-- ===== src/Mem/Buddy/Blocks/Initial.antt =====
-- The memory of an allocator after `pallocator::init` of src/mem/pmem.cpp.
use cpp_os.Base.{
  ℕ, zero, suc, ◌+◌, ◌-◌, ◌*◌, ◌^◌, max, ◌<◌, ◌≤◌, ◌≡◌, refl, ap, sym, ◌∙◌, inl, inr, true, false,
  some, [], ltb, arith, Bool-cases, ltb→lt, ltb→ge, subst, IsIn,
}
use cpp_os.Util.Misc.{align_down}
use cpp_os.Mem.Zones.{page_size}
use cpp_os.Mem.Buddy.{Pallocator, get_meta}
use cpp_os.Mem.Buddy.Init.{set_up, init}
use cpp_os.Mem.Buddy.Blocks.{count, total}
use cpp_os.Mem.Buddy.Blocks.Aligned.{pow_double, mul_step_of_lt}
use cpp_os.Mem.Buddy.Blocks.Whole.{IsWhole, IsInside}
use cpp_os.Mem.Buddy.Blocks.Started.{IsCut, fill_loop-IsCut}
use cpp_os.Mem.Buddy.Blocks.Fitted.{power_lt}
use cpp_os.Mem.Buddy.Blocks.Cleared.{
  set_up-start, set_up-stop, set_up-bits, set_up-unmarked, set_up_same,
}

-- An allocator that is all cut, with no block marked.
cut-IsWhole :
    (p : Pallocator)
    → IsCut p p.end_addr
    → ((s : ℕ) × (p.start_addr ≡ s * 2 ^ p.fo_bits))
    → p.first_order_size ≡ 2 ^ p.fo_bits
    → 0 < p.start_addr
    → p.end_addr < p.start_addr + 2 ^ 31
    → p.end_addr + (p.end_addr - p.start_addr) < 2 ^ 64
    → ((x : ℕ) → IsInside p x → p.alloced (get_meta p x) ≡ false)
    → IsWhole p []
cut-IsWhole p w start granule nonnull near word unmarked = record {
  sound = record {
    sized = λ o z le i.
        let (positive, _, aligned, stored) = w.sized o z i in (positive, aligned, stored);
    apart = λ x. ground (arith, w.counted x);
  };
  laid = record {
    granule = granule;
    start = start;
    nonnull = nonnull;
    small = power_lt (p.max_order + p.fo_bits) 31 (omega (arith, near, w.fits));
    words = omega (arith, word, w.fits);
    top = λ r lo. no_larger r lo;
  };
  parts = λ x. omega (arith, w.counted x);
  handed = λ a o i. absurd i;
  marked = λ x inside marks. absurd (ground (arith, marks, unmarked x inside));
}
  where
    no_larger :
        (r : ℕ)
        → p.start_addr ≤ r * 2 ^ suc (p.max_order + p.fo_bits)
        → p.end_addr < r * 2 ^ suc (p.max_order + p.fo_bits) + 2 ^ suc (p.max_order + p.fo_bits)
    no_larger r lo =
        let size = 2 ^ suc (p.max_order + p.fo_bits) in
        let power : 2 ^ (suc p.max_order + p.fo_bits) ≡ size =
          ap (λ (n : ℕ). 2 ^ n) (omega arith) in
        let multiple : r * 2 ^ (suc p.max_order + p.fo_bits) ≡ r * size =
          ap (λ (n : ℕ). r * n) power in
        elim (Bool-cases (ltb p.end_addr (r * size + size))) [
          | inl none_fits ↦ ltb→lt _ _ none_fits
          | inr one_fits ↦
              let inside = ltb→ge _ _ one_fits in
              let (_, some_bytes) = pow_double (suc (p.max_order + p.fo_bits)) in
              absurd (
                omega (
                  arith,
                  w.top r (suc p.max_order) (omega (arith, lo, multiple))
                      (omega (arith, multiple, inside, some_bytes))
                      (omega (arith, multiple, power, inside)),
                ))
        ]

-- Before the loop, with no block on any list.
empty-IsCut :
    (q : Pallocator) (u v : ℕ)
    → q.start_addr ≡ u * 2 ^ q.fo_bits
    → q.end_addr ≡ v * 2 ^ q.fo_bits
    → ((o : ℕ) → q.lists o ≡ [])
    → q.max_order ≡ 0
    → q.start_addr < q.end_addr
    → IsCut q q.start_addr
empty-IsCut q u v us vs none_listed lowest some_room =
    let power : 2 ^ (q.max_order + q.fo_bits) ≡ 2 ^ q.fo_bits =
      ap (λ (n : ℕ). 2 ^ n) (omega (arith, lowest)) in
    record {
      place = (u, us);
      above = λ o lt. none_listed o;
      counted = λ x. ground (arith, none_counted (suc q.max_order) x);
      sized = λ o z i. absurd (subst (λ zs. IsIn z zs) (none_listed o) i);
      fits = omega (
        arith,
        us,
        vs,
        power,
        some_room,
        mul_step_of_lt u v (2 ^ q.fo_bits) (omega (arith, us, vs, some_room)),
      );
      top = λ r j lo hi inside. absurd (omega (arith, lo, hi));
    }
  where
    none_counted : (n x : ℕ) → total q.fo_bits q.lists n x ≡ 0
    none_counted zero x = refl
    none_counted (suc n) x =
        ap (λ zs. count (2 ^ (n + q.fo_bits)) zs x + total q.fo_bits q.lists n x) (none_listed n)
        ∙ ap (λ (m : ℕ). 0 + m) (none_counted n x)

-- `init` returns, for enough rounds, and the memory between the bounds that it sets is whole, all of
-- it free, in blocks of at most the highest order, above which no block fits. It starts from an allocator with empty
-- lists; the blocks of the first order are of a power of two of bytes, and the bounds lie in the upper
-- half of the addresses, less than 2 GiB apart, with room for a block.
pub init-IsWhole :
    (fuel : ℕ) (p : Pallocator) (start_addr end_addr first_order_size k : ℕ)
    → max first_order_size page_size ≡ 2 ^ k
    → k ≤ 30
    → end_addr < 2 ^ 64
    → ((o : ℕ) → p.lists o ≡ [])
    → p.max_order ≡ 0
    → let q = set_up p start_addr end_addr first_order_size in
      2 ^ 63 < q.start_addr
      → q.start_addr < align_down end_addr (max first_order_size page_size)
      → q.start_addr < q.end_addr
      → q.end_addr < q.start_addr + 2 ^ 31
      → q.end_addr + (q.end_addr - q.start_addr) < 2 ^ 64
      → q.end_addr < q.start_addr + fuel
      → (p' : Pallocator) × (init fuel p start_addr end_addr first_order_size ≡ some p')
        × IsWhole p' []
        × (p'.start_addr ≡ q.start_addr)
        × (p'.end_addr ≡ q.end_addr)
unfolding init get_meta
init-IsWhole fuel p start_addr end_addr first_order_size k granule small word none_listed lowest lo
      room some_room near no_wrap f =
    let q = set_up p start_addr end_addr first_order_size in
    let bits = set_up-bits p start_addr end_addr first_order_size k granule small in
    let (u, us) = set_up-start p start_addr end_addr first_order_size k granule small in
    let (v, vs) = set_up-stop p start_addr end_addr first_order_size k granule small in
    let (lists, highest, first) = set_up_same p start_addr end_addr first_order_size in
    let fits : ltb q.start_addr (align_down end_addr q.first_order_size) ≡ true =
      ap (λ m. ltb q.start_addr (align_down end_addr m)) first ∙ ground (arith, room) in
    let (p', done, cut, unmarked, start, stop, first', bits') =
      fill_loop-IsCut fuel q q.start_addr v
        (empty-IsCut q u v (rw bits us) (rw bits vs) (λ o. ap (λ l. l o) lists ∙ none_listed o)
          (highest ∙ lowest) some_room)
        (omega arith) (rw bits vs) lo (omega arith) (omega (arith, no_wrap)) near f in
    let whole =
      cut-IsWhole p' cut (u, start ∙ us ∙ ap (λ n. u * 2 ^ n) (sym (bits' ∙ bits)))
        (first' ∙ first ∙ granule ∙ ap (λ n. 2 ^ n) (sym (bits' ∙ bits))) (omega (arith, start, lo))
        (omega (arith, start, stop, near)) (omega (arith, start, stop, no_wrap))
        (λ x inside.
          rw (unmarked, start, first')
            (set_up-unmarked p start_addr end_addr first_order_size k granule small word lo room x
              (omega (arith, inside, start), omega (arith, inside, stop)))) in
    rw fits (p', done, whole, start, stop)
