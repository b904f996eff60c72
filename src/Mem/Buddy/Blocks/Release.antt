-- ===== src/Mem/Buddy/Blocks/Release.antt =====
-- A block that is handed out and given back to src/mem/pmem.cpp.
use native.Mathlib.Nat.{div-eq_of_lt-le}
use cpp_os.Base.{
  ℕ, suc, ◌+◌, ◌-◌, ◌*◌, ◌^◌, ◌<◌, ◌≤◌, ◌≡◌, ◌≢◌, ap, sym, ◌∙◌, inl, inr, false, List, [], ◌∷◌,
  ◌++◌, ◌==◌, if◌then◌else◌, arith, IsIn, Bool-cases, ==→eq, ==→ne, ==_refl, ne→==, subst,
}
use cpp_os.Base.Bits.{two_pow_add}
use cpp_os.Util.Misc.{align_down}
use cpp_os.Util.Misc.Align.{align_down_lem}
use cpp_os.Mem.Buddy.{Pallocator, at, get_meta, get_order_size}
use cpp_os.Mem.Buddy.Blocks.{
  holds, covers, block_size, count-append, count-le-total, total-at, count_positive,
  IsIn-append_cases,
}
use cpp_os.Mem.Buddy.Blocks.Aligned.{pow_double}
use cpp_os.Mem.Buddy.Blocks.Whole.{IsWhole, IsInside, IsLive, live_count, live_counts, get_meta_eq}
use cpp_os.Mem.Buddy.Blocks.Free.{order_size}

-- A block is aligned to its size and lies behind the start.
abbrev pub IsHead : Pallocator → ℕ → ℕ → Type 0
IsHead p a o = ((q : ℕ) × (a ≡ q * block_size p o)) × (p.start_addr ≤ a)

-- The list without the block.
abbrev pub remove_live : ℕ → List (ℕ × ℕ) → List (ℕ × ℕ)
remove_live a [] = []
remove_live a ((b, c) ∷ live) = if b == a then live else (b, c) ∷ remove_live a live

pub IsLive-remove_live :
    (a b c : ℕ) (live : List (ℕ × ℕ)) → IsLive b c (remove_live a live) → IsLive b c live
IsLive-remove_live a b c [] i = i
IsLive-remove_live a b c ((d, e) ∷ live) i = elim (Bool-cases (d == a)) [
  | inl same ↦ inr (rw same at i)
  | inr other ↦ elim (rw other at i) [
    | inl h ↦ inl h
    | inr j ↦ inr (IsLive-remove_live a b c live j)
  ]
]

pub IsLive-remove_live_ne :
    (a b c : ℕ) (live : List (ℕ × ℕ)) → b ≢ a → IsLive b c live → IsLive b c (remove_live a live)
IsLive-remove_live_ne a b c [] ne i = i
IsLive-remove_live_ne a b c ((d, e) ∷ live) ne i = elim (Bool-cases (d == a)) [
  | inl same ↦ rw same (elim i [ inl h ↦ absurd (ne (h.0 ∙ ==→eq d a same)) | inr j ↦ j ])
  | inr other ↦
      rw other (elim i [ inl h ↦ inl h | inr j ↦ inr (IsLive-remove_live_ne a b c live ne j) ])
]

-- Where no block counts twice, the one at `a` has the order `o`.
pub live_count-remove_live :
    (k : ℕ) (a o : ℕ) (live : List (ℕ × ℕ)) (x : ℕ)
    → IsLive a o live
    → live_count k live a ≤ 1
    → live_count k (remove_live a live) x + holds (2 ^ (o + k)) a x ≡ live_count k live x
live_count-remove_live k a o [] x i h = absurd i
live_count-remove_live k a o ((b, c) ∷ live) x i h = elim (Bool-cases (b == a)) [
  | inl same ↦ rw same (elim i [
    | inl e ↦ omega (
      arith,
      ap (λ (n : ℕ). holds (2 ^ (c + k)) n x) (==→eq b a same),
      ap (λ (n : ℕ). holds (2 ^ (n + k)) a x) e.1,
    )
    | inr j ↦ absurd (
        ground (
          arith,
          ==→eq b a same,
          (pow_double (c + k)).1,
          live_counts k live a o a j (omega arith) (omega (arith, (pow_double (o + k)).1)),
        ))
  ])
  | inr other ↦ rw other (elim i [
    | inl e ↦ absurd (==→ne _ _ other (sym e.0))
    | inr j ↦ omega (arith, live_count-remove_live k a o live x j (omega (arith, h)))
  ])
]

module _ {p : Pallocator} {live : List (ℕ × ℕ)} (w : IsWhole p live) where
  pub live_bounds :
      (a o : ℕ) → IsLive a o live → (p.start_addr ≤ a) × (a + block_size p o ≤ p.end_addr)
  live_bounds a o i =
      let (_, some_bytes) = pow_double (o + p.fo_bits) in
      let last = a + block_size p o - 1 in
      let inside : (x : ℕ) → a ≤ x → x < a + block_size p o → IsInside p x =
        λ x lo hi. ground (arith, w.parts x, live_counts p.fo_bits live a o x i lo hi) in
      (
        (inside a (omega arith) (omega arith)).0,
        omega (arith, (inside last (omega arith) (omega arith)).1),
      )

  pub live_once : (x : ℕ) → live_count p.fo_bits live x ≤ 1
  live_once x = ground (arith, w.parts x)

  pub live-IsHead : (a o : ℕ) → IsLive a o live → IsHead p a o
  live-IsHead a o i = let (_, aligned, _, _) = w.handed a o i in (aligned, (live_bounds a o i).0)

  -- Addresses in the first granule of a block have its metadata.
  granule_meta :
      (a o x : ℕ)
      → IsHead p a o
      → a ≤ x
      → x < a + 2 ^ p.fo_bits
      → let s = w.laid.start.0 in
        (q : ℕ) × (a ≡ q * 2 ^ p.fo_bits)
        × (s ≤ q)
        × (get_meta p x ≡ q - s)
        × (get_meta p a ≡ q - s)
  granule_meta a o x ((q, aligned), start_le) lo hi =
      let (s, start) = w.laid.start in
      let unit : a ≡ q * 2 ^ o * 2 ^ p.fo_bits =
        aligned ∙ ground (arith, two_pow_add o p.fo_bits) in
      let (_, some_bytes) = pow_double p.fo_bits in
      let at_head =
        get_meta_eq p (q * 2 ^ o) s a w.laid.granule start (omega (arith, unit, start_le)) in
      let inside =
        get_meta_eq p (q * 2 ^ o) s x w.laid.granule start (omega (arith, unit, start_le)) in
      (
        q * 2 ^ o,
        unit,
        (inside (omega (arith, unit)) (omega (arith, unit))).1,
        (inside (omega (arith, unit)) (omega (arith, unit))).0,
        (at_head (omega (arith, unit)) (omega (arith, unit))).0,
      )

  -- Blocks with the same metadata are the same.
  pub heads_meta : (a o b c : ℕ) → IsHead p a o → IsHead p b c → get_meta p a ≡ get_meta p b → a ≡ b
  heads_meta a o b c i j same =
      let (_, some_bytes) = pow_double p.fo_bits in
      let (q, x, le, e, _) = granule_meta a o a i (omega arith) (omega arith) in
      let (r, y, le', e', _) = granule_meta b c b j (omega arith) (omega arith) in
      let same_q : q ≡ r = omega (arith, le, le', e, e', same) in
      x ∙ ap (λ (n : ℕ). n * 2 ^ p.fo_bits) same_q ∙ sym y

  pub same_meta :
      (a o x : ℕ) → IsHead p a o → a ≤ x → x < a + 2 ^ p.fo_bits → get_meta p x ≡ get_meta p a
  same_meta a o x i lo hi = let (_, _, _, e, e') = granule_meta a o x i lo hi in e ∙ sym e'

  -- Aligning an address of a block to its size gives the start.
  pub head_of :
      (a o x : ℕ)
      → IsLive a o live
      → a ≤ x
      → x < a + block_size p o
      → align_down x (block_size p o) ≡ a
  head_of a o x i lo hi =
      let (le, (q, aligned), _, _) = w.handed a o i in
      let (_, below) = live_bounds a o i in
      let size = block_size p o in
      let upper : x < (q + 1) * size = ground (arith, aligned) in
      let lower : q * size ≤ x = omega (arith, aligned) in
      align_down_lem (o + p.fo_bits) x (omega (arith, w.laid.small))
        (omega (arith, below, w.laid.words))
      ∙ ap (λ (n : ℕ). n * size) (div-eq_of_lt-le size lower upper)
      ∙ sym aligned

-- The allocator with the block back on its list, before anything is merged.
unfoldable pub freed : Pallocator → ℕ → ℕ → Pallocator
freed p a o = record p {
  alloced = at p.alloced (get_meta p a) false;
  zone_n = at p.zone_n a (get_order_size p o);
  lists = at p.lists o (p.lists o ++ (a ∷ []));
}

module _ {p : Pallocator} {live : List (ℕ × ℕ)} (w : IsWhole p live) (a o : ℕ)
    (i : IsLive a o live) where
  pub not_free : (c z : ℕ) → c ≤ p.max_order → IsIn z (p.lists c) → z ≢ a
  not_free c z le j e = ground (
    arith,
    e,
    w.parts z,
    live_counts p.fo_bits live a o z i (omega (arith, e))
        (omega (arith, e, (pow_double (o + p.fo_bits)).1)),
    count_positive (block_size p c) (p.lists c) z (pow_double (c + p.fo_bits)).1 j,
    count-le-total p.fo_bits p.lists c (suc p.max_order) z (omega arith),
  )

  pub freed-covers : (x : ℕ) → covers (freed p a o) x ≡ covers p x + holds (block_size p o) a x
  unfolding freed
  freed-covers x =
      let (le, _, _, _) = w.handed a o i in
      omega (
        arith,
        total-at p.fo_bits p.lists o (p.lists o ++ (a ∷ [])) (suc p.max_order) x
            (omega (arith, le)),
        count-append (block_size p o) (p.lists o) (a ∷ []) x,
      )

  pub freed-sized :
      (c z : ℕ)
      → c ≤ p.max_order
      → IsIn z ((freed p a o).lists c)
      → (0 < z) × ((q : ℕ) × (z ≡ q * block_size p c)) × ((freed p a o).zone_n z ≡ block_size p c)
  unfolding freed
  freed-sized c z hc j =
      let (le, aligned, _, _) = w.handed a o i in
      let (size, _) = order_size w.laid o le in
      let P : ℕ → ℕ → Type 0 = λ v d.
        (0 < v)
        × ((q : ℕ) × (v ≡ q * block_size p d))
        × ((freed p a o).zone_n v ≡ block_size p d) in
      let old : (d : ℕ) → d ≤ p.max_order → IsIn z (p.lists d) → P z d = λ d hd k.
        (let (positive, placed, stored) = w.sound.sized d z hd k in
          let other : (z == a) ≡ false = ne→== _ _ (not_free d z hd k) in
          (positive, placed, rw other stored)) in
      let new : P a o =
        (omega (arith, w.laid.nonnull, live_bounds w a o i), aligned, rw (==_refl a) size) in
      elim (Bool-cases (c == o)) [
        | inr other ↦ old c hc (rw other at j)
        | inl same ↦
            subst (λ d. P z d) (sym (==→eq c o same))
              (elim (IsIn-append_cases z (p.lists o) (a ∷ []) (rw same at j)) [
                | inl k ↦ old o le k
                | inr k ↦ elim k [ inl e ↦ subst (λ v. P v o) (sym e) new | inr n ↦ absurd n ]
              ])
      ]
