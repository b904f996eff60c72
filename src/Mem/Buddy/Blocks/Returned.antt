-- ===== src/Mem/Buddy/Blocks/Returned.antt =====
-- `free` of src/mem/pmem.cpp on the whole memory of an allocator.
use native.Mathlib.Nat.{pow-le-pow_right}
use cpp_os.Base.{
  ℕ, ◌+◌, ◌-◌, ◌^◌, ◌<◌, ◌≤◌, ◌≡◌, ◌≢◌, refl, ap, sym, ◌∙◌, inl, inr, false, ◌||◌, List, ltb, leb,
  ◌==◌, arith, IsIn-append_last, Bool-cases, ==→ne, ==_refl, ne→==, subst,
}
use cpp_os.Util.Misc.{align_down}
use cpp_os.Mem.Buddy.{Pallocator, get_meta, get_order_size, merge_order, free}
use cpp_os.Mem.Buddy.Blocks.{covers, SameFrame}
use cpp_os.Mem.Buddy.Blocks.Aligned.{pow_double}
use cpp_os.Mem.Buddy.Blocks.Whole.{IsWhole, IsLive, live_count, live_counts}
use cpp_os.Mem.Buddy.Blocks.Free.{order_size, merge_order-IsWhole}
use cpp_os.Mem.Buddy.Blocks.Joined.{merge_order-SameFrame}
use cpp_os.Mem.Buddy.Blocks.Release.{
  remove_live, IsLive-remove_live, IsLive-remove_live_ne, live_count-remove_live, live_bounds,
  live_once, heads_meta, live-IsHead, same_meta, head_of, freed, freed-covers, freed-sized,
}

module _ {p : Pallocator} {live : List (ℕ × ℕ)} (w : IsWhole p live) (a o : ℕ)
    (i : IsLive a o live) where
  -- The other blocks that are handed out start elsewhere.
  others : (b c : ℕ) → IsLive b c (remove_live a live) → b ≢ a
  others b c j e =
      let (_, some_bytes) = pow_double (c + p.fo_bits) in
      let (_, some_bytes') = pow_double (o + p.fo_bits) in
      ground (
        arith,
        e,
        live_once w b,
        live_count-remove_live p.fo_bits a o live b i (live_once w a),
        live_counts p.fo_bits (remove_live a live) b c b j (omega arith) (omega arith),
      )

  freed-IsWhole : IsWhole (freed p a o) (remove_live a live)
  unfolding freed get_meta
  freed-IsWhole =
      let counted : (x : ℕ)
          → covers (freed p a o) x + live_count p.fo_bits (remove_live a live) x
            ≡ covers p x + live_count p.fo_bits live x =
        λ x. omega (
          arith,
          freed-covers w a o i x,
          live_count-remove_live p.fo_bits a o live x i (live_once w a),
        ) in
      record {
        sound = record {
          sized = freed-sized w a o i;
          apart = λ x. ground (arith, counted x, w.parts x);
        };
        laid = record {
          granule = w.laid.granule;
          start = w.laid.start;
          nonnull = w.laid.nonnull;
          small = w.laid.small;
          words = w.laid.words;
          top = w.laid.top;
        };
        parts = λ x. counted x ∙ w.parts x;
        handed = λ b c j.
            (let k = IsLive-remove_live a b c live j in
              let (le, aligned, marked, order) = w.handed b c k in
              let other : (get_meta p b == get_meta p a) ≡ false = ne→== _ _ (λ e.
                others b c j
                  (heads_meta w b c a o (live-IsHead w b c k) (live-IsHead w a o i) e)) in
              (le, aligned, rw other marked, order));
        marked = λ x inside marked. (elim (Bool-cases (get_meta p x == get_meta p a)) [
          | inl same ↦ cc (rw same at marked)
          | inr other ↦
              let (b, c, j, e) = w.marked x inside (rw other at marked) in
              let ne : b ≢ a = λ same. ==→ne _ _ other (sym e ∙ ap (get_meta p) same) in
              (b, c, IsLive-remove_live_ne a b c live ne j, e)
        ]);
      }

  -- What an address in the first granule of the block leads to.
  pub located :
      (mem : ℕ)
      → a ≤ mem
      → mem < a + 2 ^ p.fo_bits
      → ((ltb mem p.start_addr || leb p.end_addr mem) ≡ false)
        × (get_meta p mem ≡ get_meta p a)
        × (align_down mem (get_order_size p o) ≡ a)
  located mem lo hi =
      let (le, _, _, _) = w.handed a o i in
      let (start, stop) = live_bounds w a o i in
      let (size, _) = order_size w.laid o le in
      let within =
        pow-le-pow_right {n = 2} (omega arith) {i = p.fo_bits} {j = o + p.fo_bits} (omega arith) in
      (
        ground (arith, lo, hi, start, stop, within),
        same_meta w a o mem (live-IsHead w a o i) lo hi,
        ap (align_down mem) size ∙ head_of w a o mem i lo (omega (arith, hi, within)),
      )

  free_eq :
      (mem : ℕ)
      → a ≤ mem
      → mem < a + 2 ^ p.fo_bits
      → free p mem ≡ merge_order (p.max_order + 1 - o) (freed p a o) a o
  unfolding free freed
  free_eq mem lo hi =
      let (_, _, marked, order) = w.handed a o i in
      let (inside, same, head) = located mem lo hi in rw (inside, same, marked, order, head) refl

-- `free` of an address in the first granule of a block that is handed out takes the block off those
-- that are handed out, and the memory is whole with the others: the block's addresses are free, and
-- all else is as it was. Merging the block with its buddies joins free blocks only and stops below the
-- highest order. The bounds and the orders stay.
pub free-IsWhole :
    (p : Pallocator) (live : List (ℕ × ℕ)) (a o mem : ℕ)
    → IsWhole p live
    → IsLive a o live
    → a ≤ mem
    → mem < a + 2 ^ p.fo_bits
    → IsWhole (free p mem) (remove_live a live) × SameFrame p (free p mem)
unfolding freed
free-IsWhole p live a o mem w i lo hi =
    let (le, _, _, _) = w.handed a o i in
    subst (λ q. IsWhole q (remove_live a live) × SameFrame p q) (sym (free_eq w a o i mem lo hi))
      (
        merge_order-IsWhole (p.max_order + 1 - o) (freed p a o) (remove_live a live) a o
            (freed-IsWhole w a o i) le (rw (==_refl o) (IsIn-append_last a (p.lists o)))
            (omega arith),
        merge_order-SameFrame (p.max_order + 1 - o) (freed p a o) a o,
      )
