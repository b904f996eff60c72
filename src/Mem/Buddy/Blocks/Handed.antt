-- ===== src/Mem/Buddy/Blocks/Handed.antt =====
-- `oalloc` of src/mem/pmem.cpp on the whole memory of an allocator.
use cpp_os.Base.{
  ℕ, suc, ◌+◌, ◌≤◌, ◌≡◌, ◌≢◌, ◌↔◌, refl, sym, ◌∙◌, inl, inr, true, false, List, ◌∷◌, ltb, ◌==◌,
  if◌then◌else◌, arith, IsIn, Bool-cases, ==→eq, ==_refl, ne→==, subst, ltb→ge,
}
use cpp_os.Mem.Buddy.{Pallocator, get_meta, last_zone, is_empty, oalloc}
use cpp_os.Mem.Buddy.Populate.{HasZone}
use cpp_os.Mem.Buddy.Blocks.{
  IsSound, SameFrame, holds, covers, block_size, count-le-total, IsIn-last_zone,
}
use cpp_os.Mem.Buddy.Blocks.Aligned.{pow_double}
use cpp_os.Mem.Buddy.Blocks.Taken.{total-taken}
use cpp_os.Mem.Buddy.Blocks.Alloc.{
  prepared, prepared-Kept, popped, popped-IsSound, handed_out, handed_out-IsSound, oalloc_cases,
  taken-total, taken_some, oalloc-IsSound,
}
use cpp_os.Mem.Buddy.Blocks.Whole.{IsWhole, IsLive, live_counts, free_counts}
use cpp_os.Mem.Buddy.Blocks.Free.{free_bounds, relisted, relisted-IsWhole}
use cpp_os.Mem.Buddy.Blocks.Release.{IsHead, live-IsHead, heads_meta}

-- Blocks that were split are still whole.
same-IsWhole :
    (p q : Pallocator) (live : List (ℕ × ℕ))
    → IsWhole p live
    → IsSound q
    → SameFrame p q
    → q.alloced ≡ p.alloced
    → q.order ≡ p.order
    → ((x : ℕ) → covers q x ≡ covers p x)
    → IsWhole q live
same-IsWhole p q live w s (start, stop, first, bits, most) used orders counted =
    let e : q ≡ relisted p q.lists q.zone_n q.free_space = λ i. record {
      lists = q.lists;
      zone_n = q.zone_n;
      alloced = used i;
      order = orders i;
      start_addr = start i;
      end_addr = stop i;
      first_order_size = first i;
      free_space = q.free_space;
      fo_bits = bits i;
      max_order = most i;
    } in
    subst (λ r. IsWhole r live) (sym e)
      (relisted-IsWhole p live q.lists q.zone_n q.free_space w (subst (λ r. IsSound r) e s)
        (subst (λ r. (x : ℕ) → covers r x ≡ covers p x) e counted))

-- The block at the end of a list is handed out.
module _ {p : Pallocator} {live : List (ℕ × ℕ)} (w : IsWhole p live) (o : ℕ) (le : o ≤ p.max_order)
    (some_zone : is_empty (p.lists o) ≡ false) where
  out_free : IsIn (last_zone (p.lists o)) (p.lists o)
  out_free = IsIn-last_zone (p.lists o) some_zone

  out-IsHead : IsHead p (last_zone (p.lists o)) o
  out-IsHead =
      let (_, aligned, _) = w.sound.sized o (last_zone (p.lists o)) le out_free in
      (aligned, (free_bounds w (last_zone (p.lists o)) o le out_free).0)

  not_live : (b c : ℕ) → IsLive b c live → b ≢ last_zone (p.lists o)
  not_live b c i e = ground (
    arith,
    e,
    w.parts b,
    live_counts p.fo_bits live b c b i (omega arith)
        (omega (arith, (pow_double (c + p.fo_bits)).1)),
    free_counts p o (last_zone (p.lists o)) b le out_free (omega (arith, e))
        (omega (arith, e, (pow_double (o + p.fo_bits)).1)),
    count-le-total p.fo_bits p.lists o (suc p.max_order) b (omega arith),
  )

  handed_out-IsWhole :
      let out = last_zone (p.lists o) in IsWhole (handed_out p o out) ((out, o) ∷ live)
  unfolding handed_out get_meta
  handed_out-IsWhole =
      let out = last_zone (p.lists o) in
      let counted : (x : ℕ)
          → covers (handed_out p o out) x + holds (block_size p o) out x ≡ covers p x =
        λ x. total-taken p o (suc p.max_order) x (omega arith) some_zone in
      record {
        sound = handed_out-IsSound p o out w.sound le;
        laid = record {
          granule = w.laid.granule;
          start = w.laid.start;
          nonnull = w.laid.nonnull;
          small = w.laid.small;
          words = w.laid.words;
          top = w.laid.top;
        };
        parts = λ x. omega (arith, counted x) ∙ w.parts x;
        handed = λ b c i. (elim i [
          | inl (b_out, c_o) ↦
              let own = ==_refl (get_meta p out) in
              rw (b_out, c_o) (le, out-IsHead.0, rw own refl, rw own refl)
          | inr j ↦
              let (hc, aligned, marked, order) = w.handed b c j in
              let other : (get_meta p b == get_meta p out) ≡ false =
                ne→== _ _ (λ e.
                  not_live b c j (heads_meta w b c out o (live-IsHead w b c j) out-IsHead e)) in
              (hc, aligned, rw other marked, rw other order)
        ]);
        marked = λ x inside marked. (elim (Bool-cases (get_meta p x == get_meta p out)) [
          | inl same ↦ (out, o, inl (refl, refl), sym (==→eq _ _ same))
          | inr other ↦
              let (b, c, j, e) = w.marked x inside (rw other at marked) in (b, c, inr j, e)
        ]);
      }

-- What `oalloc` hands out is added to the blocks that are handed out.
abbrev pub with_live : ℕ → ℕ → List (ℕ × ℕ) → List (ℕ × ℕ)
with_live out order live = if out == 0 then live else (out, order) ∷ live

oalloc_above : (p : Pallocator) (order : ℕ) → ltb p.max_order order ≡ true → oalloc p order ≡ (0, p)
unfolding oalloc
oalloc_above p order above = rw above refl

-- `oalloc` succeeds exactly where some list of the order or above holds a block. The block that it
-- returns is added to those that are handed out, and the memory is whole: each address between the
-- bounds lies in exactly one block, which is free or handed out. The bounds and the orders stay.
pub oalloc-IsWhole :
    (p : Pallocator) (live : List (ℕ × ℕ)) (order : ℕ)
    → IsWhole p live
    → let (out, p') = oalloc p order in
      ((out ≢ 0) ↔ HasZone p order) × IsWhole p' (with_live out order live) × SameFrame p p'
unfolding handed_out
oalloc-IsWhole p live order w = elim (Bool-cases (ltb p.max_order order)) [
  | inl above ↦ subst P (sym (oalloc_above p order above)) (
    ((λ ne. absurd (ne refl)), λ z. absurd (ground (arith, above, z.1, z.2))),
    w,
    (refl, refl, refl, refl, refl),
  )
  | inr within ↦
      let le = ltb→ge _ _ within in
      let (_, found, _, _) = oalloc-IsSound p order w.sound le in
      let p₁ = prepared p order in
      let (s, _, _, counted, frame, used, orders) = prepared-Kept p order w.sound le in
      let w₁ = same-IsWhole p p₁ live w s frame used orders counted in
      let le₁ : order ≤ p₁.max_order = omega (arith, frame.4) in
      let out = last_zone (p₁.lists order) in
      let done : Q (oalloc p order) = elim (oalloc_cases p order le) [
        | inl (zero_out, e) ↦ subst Q (sym e) (
          same-IsWhole p₁ (popped p₁ order) live w₁ (popped-IsSound p₁ order s le₁)
              (refl, refl, refl, refl, refl) refl refl
              (λ x. ground (arith, zero_out, taken-total p₁ order s le₁ x)),
          frame,
        )
        | inr (ne, e) ↦
            let some_zone = (taken_some p₁ order s le₁).0 ne in
            let other = ne→== _ _ ne in
            subst Q (sym e) (rw other (handed_out-IsWhole w₁ order le₁ some_zone), frame)
      ] in
      (found, done.0, done.1)
]
  where
    P : ℕ × Pallocator → Type 0
    P r = ((r.0 ≢ 0) ↔ HasZone p order) × IsWhole r.1 (with_live r.0 order live) × SameFrame p r.1

    Q : ℕ × Pallocator → Type 0
    Q r = IsWhole r.1 (with_live r.0 order live) × SameFrame p r.1
