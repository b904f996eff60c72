-- ===== src/Mem/Pages/Entry.antt =====
-- The entries of a page table: the counter in the first one, and what `page_set` writes.
use cpp_os.Base.{
  ℕ, ◌+◌, ◌-◌, ◌*◌, ◌/◌, ◌%◌, ◌^◌, ◌<◌, ◌≡◌, ap, ap₂, sym, ◌∙◌, bit_and, bit_or, true, ◌==◌, add64,
  arith, inl, inr, Bool-cases, not64, ==→ne,
}
use cpp_os.Base.Bits.{
  and_append, or_append, and_low, and_zero, or_zero, zero_or, split_at, or_fields, and_le_right,
  or_le, or_ones,
}
use cpp_os.Util.Misc.{get_bits}
use cpp_os.Util.Misc.Fields.{get_bits_lem}
use cpp_os.Mem.Pages.{
  page_counter_get, page_counter_add, page_set_entry, page_data_pos, page_addr_pos, page_flags_pos,
  is_present,
}

-- A word in five parts: 9 bits, the low 3 of the counter, 40 bits, the high 7 of the counter, 5 bits.
abbrev pub join : ℕ → ℕ → ℕ → ℕ → ℕ → ℕ
join a b c d e = (((e * 2 ^ 7 + d) * 2 ^ 40 + c) * 2 ^ 3 + b) * 2 ^ 9 + a

abbrev pub Fits : ℕ → ℕ → ℕ → ℕ → ℕ → Type 0
Fits a b c d e = (a < 2 ^ 9) × (b < 2 ^ 3) × (c < 2 ^ 40) × (d < 2 ^ 7) × (e < 2 ^ 5)

-- Two words are taken part by part.
and_join :
    (a b c d e a' b' c' d' e' : ℕ)
    → Fits a b c d e
    → Fits a' b' c' d' e'
    → bit_and (join a b c d e) (join a' b' c' d' e')
      ≡ join (bit_and a a') (bit_and b b') (bit_and c c') (bit_and d d') (bit_and e e')
and_join a b c d e a' b' c' d' e' (fa, fb, fc, fd, fe) (fa', fb', fc', fd', fe') =
    and_append 9 (((e * 2 ^ 7 + d) * 2 ^ 40 + c) * 2 ^ 3 + b)
      (((e' * 2 ^ 7 + d') * 2 ^ 40 + c') * 2 ^ 3 + b') a a' fa fa'
    ∙ ap (λ (t : ℕ). t * 2 ^ 9 + bit_and a a')
        (and_append 3 ((e * 2 ^ 7 + d) * 2 ^ 40 + c) ((e' * 2 ^ 7 + d') * 2 ^ 40 + c') b b' fb fb'
          ∙ ap (λ (t : ℕ). t * 2 ^ 3 + bit_and b b')
              (and_append 40 (e * 2 ^ 7 + d) (e' * 2 ^ 7 + d') c c' fc fc'
                ∙ ap (λ (t : ℕ). t * 2 ^ 40 + bit_and c c') (and_append 7 e e' d d' fd fd')))

or_join :
    (a b c d e a' b' c' d' e' : ℕ)
    → Fits a b c d e
    → Fits a' b' c' d' e'
    → bit_or (join a b c d e) (join a' b' c' d' e')
      ≡ join (bit_or a a') (bit_or b b') (bit_or c c') (bit_or d d') (bit_or e e')
or_join a b c d e a' b' c' d' e' (fa, fb, fc, fd, fe) (fa', fb', fc', fd', fe') =
    or_append 9 (((e * 2 ^ 7 + d) * 2 ^ 40 + c) * 2 ^ 3 + b)
      (((e' * 2 ^ 7 + d') * 2 ^ 40 + c') * 2 ^ 3 + b') a a' fa fa'
    ∙ ap (λ (t : ℕ). t * 2 ^ 9 + bit_or a a')
        (or_append 3 ((e * 2 ^ 7 + d) * 2 ^ 40 + c) ((e' * 2 ^ 7 + d') * 2 ^ 40 + c') b b' fb fb'
          ∙ ap (λ (t : ℕ). t * 2 ^ 3 + bit_or b b')
              (or_append 40 (e * 2 ^ 7 + d) (e' * 2 ^ 7 + d') c c' fc fc'
                ∙ ap (λ (t : ℕ). t * 2 ^ 40 + bit_or c c') (or_append 7 e e' d d' fd fd')))

counter_join : (a b c d e : ℕ) → Fits a b c d e → page_counter_get (join a b c d e) ≡ d * 8 + b
unfolding page_counter_get
counter_join a b c d e (fa, fb, fc, fd, fe) =
    let high : get_bits (join a b c d e) 52 58 ≡ d =
      get_bits_lem (join a b c d e) 52 58 (omega arith) (omega arith) ∙ omega arith in
    let low : get_bits (join a b c d e) 9 11 ≡ b =
      get_bits_lem (join a b c d e) 9 11 (omega arith) (omega arith) ∙ omega arith in
    ap₂ (λ (x y : ℕ). bit_or (x * 2 ^ 3) y) high low ∙ or_fields 3 d b fb

-- The parts of a word.
abbrev pub part_a : ℕ → ℕ
part_a x = x % 2 ^ 9

abbrev pub part_b : ℕ → ℕ
part_b x = x / 2 ^ 9 % 2 ^ 3

abbrev pub part_c : ℕ → ℕ
part_c x = x / 2 ^ 12 % 2 ^ 40

abbrev pub part_d : ℕ → ℕ
part_d x = x / 2 ^ 52 % 2 ^ 7

abbrev pub part_e : ℕ → ℕ
part_e x = x / 2 ^ 59

parts :
    (x : ℕ)
    → x < 2 ^ 64
    → (x ≡ join (part_a x) (part_b x) (part_c x) (part_d x) (part_e x))
      × Fits (part_a x) (part_b x) (part_c x) (part_d x) (part_e x)
parts x h = (omega arith, (omega arith, omega arith, omega arith, omega arith, omega arith))

-- The mask PAGE_DATA_POS keeps all but the counter.
data_join :
    (a b c d e : ℕ) → Fits a b c d e → bit_and (join a b c d e) page_data_pos ≡ join a 0 c 0 e
data_join a b c d e f =
    and_join a b c d e (2 ^ 9 - 1) 0 (2 ^ 40 - 1) 0 (2 ^ 5 - 1) f
      (omega arith, omega arith, omega arith, omega arith, omega arith)
    ∙ omega (arith, f, and_low 9 a, and_zero b, and_low 40 c, and_zero d, and_low 5 e)

-- What `page_counter_add` writes.
added_join :
    (a b c d e n : ℕ)
    → Fits a b c d e
    → n < 2 ^ 64
    → let k = add64 (d * 8 + b) n % 2 ^ 10 in
      page_counter_add (join a b c d e) n ≡ join a (k % 8) c (k / 8) e
unfolding page_counter_add
added_join a b c d e n f h =
    ap₂
      (λ (x y : ℕ).
        bit_or (bit_or (x * 2 ^ 52) (y * 2 ^ 9)) (bit_and (join a b c d e) page_data_pos))
      (ap (λ (k : ℕ). get_bits (add64 k n) 3 9) got
        ∙ get_bits_lem t 3 9 (omega arith) (omega arith))
      (ap (λ (k : ℕ). get_bits (add64 k n) 0 2) got
        ∙ get_bits_lem t 0 2 (omega arith) (omega arith))
    ∙ ap₂ (λ (x y : ℕ). bit_or x y) counter (data_join a b c d e f)
    ∙ or_join 0 (t % 8) 0 (t / 8 % 128) 0 a 0 c 0 e
        (omega arith, omega arith, omega arith, omega arith, omega arith)
        (f.0, omega arith, f.2, omega arith, f.4)
    ∙ omega (arith, zero_or a, or_zero (t % 8), zero_or c, or_zero (t / 8 % 128), zero_or e)
  where
    t : ℕ
    t = add64 (d * 8 + b) n

    got : page_counter_get (join a b c d e) ≡ d * 8 + b
    got = counter_join a b c d e f

    counter :
        bit_or (t / 2 ^ 3 % 2 ^ 7 * 2 ^ 52) (t / 2 ^ 0 % 2 ^ 3 * 2 ^ 9)
        ≡ join 0 (t % 8) 0 (t / 8 % 128) 0
    counter =
        let one : t / 2 ^ 0 % 2 ^ 3 ≡ t % 8 = omega arith in
        ap (λ (y : ℕ). bit_or (t / 2 ^ 3 % 2 ^ 7 * 2 ^ 52) (y * 2 ^ 9)) one
        ∙ or_fields 52 (t / 2 ^ 3 % 2 ^ 7) (t % 8 * 2 ^ 9) (omega arith)
        ∙ omega arith

-- The counter of a page table. Adding a word to the counter in an entry adds it modulo 1024, so that
-- adding 2 ^ 64 - 1 takes 1 off, and every bit of the entry outside the counter's ten stays.
pub page_counter_get-page_counter_add :
    (c n : ℕ)
    → c < 2 ^ 64
    → n < 2 ^ 64
    → (page_counter_get (page_counter_add c n) ≡ (page_counter_get c + n) % 1024)
      × (bit_and (page_counter_add c n) page_data_pos ≡ bit_and c page_data_pos)
page_counter_get-page_counter_add c n h w =
    let (whole, f) = parts c h in
    let t = add64 (part_d c * 8 + part_b c) n % 2 ^ 10 in
    let f' : Fits (part_a c) (t % 8) (part_c c) (t / 8) (part_e c) =
      (f.0, omega arith, f.2, omega arith, f.4) in
    let sum : page_counter_add c n ≡ join (part_a c) (t % 8) (part_c c) (t / 8) (part_e c) =
      ap (λ (y : ℕ). page_counter_add y n) whole ∙ added_join _ _ _ _ _ n f w in
    (
      ap page_counter_get sum
          ∙ counter_join _ _ _ _ _ f'
          ∙ omega (arith, ap page_counter_get whole ∙ counter_join _ _ _ _ _ f),
      ap (λ (y : ℕ). bit_and y page_data_pos) sum
          ∙ data_join _ _ _ _ _ f'
          ∙ sym (ap (λ (y : ℕ). bit_and y page_data_pos) whole ∙ data_join _ _ _ _ _ f),
    )

-- A mask takes each part.
mask_join :
    (x a b c d e : ℕ)
    → x < 2 ^ 64
    → Fits a b c d e
    → bit_and x (join a b c d e)
      ≡ join
          (bit_and (part_a x) a)
          (bit_and (part_b x) b)
          (bit_and (part_c x) c)
          (bit_and (part_d x) d)
          (bit_and (part_e x) e)
mask_join x a b c d e h f =
    let (whole, fx) = parts x h in
    ap (λ (y : ℕ). bit_and y (join a b c d e)) whole ∙ and_join _ _ _ _ _ a b c d e fx f

-- The three masks, and the entry's first bit.
addr_join : (x : ℕ) → x < 2 ^ 64 → bit_and x page_addr_pos ≡ join 0 0 (part_c x % 2 ^ 36) 0 0
addr_join x h =
    mask_join x 0 0 (2 ^ 36 - 1) 0 0 h
      (omega arith, omega arith, omega arith, omega arith, omega arith)
    ∙ omega (
      arith,
      and_zero (part_a x),
      and_zero (part_b x),
      and_low 36 (part_c x),
      and_zero (part_d x),
      and_zero (part_e x),
    )

flags_join :
    (x : ℕ)
    → x < 2 ^ 64
    → bit_and x page_flags_pos ≡ join (bit_and (part_a x) 0x1fe) 0 0 0 (bit_and (part_e x) 16)
flags_join x h =
    mask_join x 0x1fe 0 0 0 16 h (omega arith, omega arith, omega arith, omega arith, omega arith)
    ∙ omega (arith, and_zero (part_b x), and_zero (part_c x), and_zero (part_d x))

counter_bits_join :
    (x : ℕ) → x < 2 ^ 64 → bit_and x (not64 page_data_pos) ≡ join 0 (part_b x) 0 (part_d x) 0
counter_bits_join x h =
    mask_join x 0 7 0 127 0 h (omega arith, omega arith, omega arith, omega arith, omega arith)
    ∙ omega (
      arith,
      and_zero (part_a x),
      and_low 3 (part_b x),
      and_zero (part_c x),
      and_low 7 (part_d x),
      and_zero (part_e x),
    )

-- The address and the flags of an entry, with any counter.
written :
    (n flags b d : ℕ)
    → n < 2 ^ 64
    → flags < 2 ^ 64
    → b < 2 ^ 3
    → d < 2 ^ 7
    → bit_or
        (bit_or (bit_or (bit_and n page_addr_pos) (bit_and flags page_flags_pos)) (join 0 b 0 d 0))
        1
      ≡ join
          (bit_or (bit_and (part_a flags) 0x1fe) 1)
          b
          (part_c n % 2 ^ 36)
          d
          (bit_and (part_e flags) 16)
written n flags b d hn hf hb hd =
    ap₂ (λ (x y : ℕ). bit_or (bit_or (bit_or x y) (join 0 b 0 d 0)) 1) (addr_join n hn)
      (flags_join flags hf)
    ∙ ap (λ (x : ℕ). bit_or (bit_or x (join 0 b 0 d 0)) 1)
        (or_join 0 0 x 0 0 a 0 0 0 e
            (omega arith, omega arith, omega arith, omega arith, omega arith)
            (fa, omega arith, omega arith, omega arith, fe)
          ∙ omega (arith, zero_or a, or_zero x, zero_or e))
    ∙ ap (λ (x : ℕ). bit_or x 1)
        (or_join a 0 x 0 e 0 b 0 d 0 (fa, omega arith, omega arith, omega arith, fe)
            (omega arith, hb, omega arith, hd, omega arith)
          ∙ omega (arith, or_zero a, zero_or b, or_zero x, zero_or d, or_zero e))
    ∙ or_join a b x d e 1 0 0 0 0 (fa, hb, omega arith, hd, fe)
        (omega arith, omega arith, omega arith, omega arith, omega arith)
    ∙ omega (arith, or_zero b, or_zero x, or_zero d, or_zero e)
  where
    a : ℕ
    a = bit_and (part_a flags) 0x1fe

    x : ℕ
    x = part_c n % 2 ^ 36

    e : ℕ
    e = bit_and (part_e flags) 16

    fa : a < 2 ^ 9
    fa = omega (arith, and_le_right (part_a flags) 0x1fe)

    fe : e < 2 ^ 5
    fe = omega (arith, and_le_right (part_e flags) 16)

-- What is read back of an entry with those parts.
read_back :
    (a b x d e : ℕ)
    → a < 511
    → b < 2 ^ 3
    → x < 2 ^ 36
    → d < 2 ^ 7
    → e < 2 ^ 5
    → let w = join (bit_or a 1) b x d e in
      (bit_and w page_addr_pos ≡ join 0 0 x 0 0)
      × (is_present w ≡ true)
      × (page_counter_get w ≡ d * 8 + b)
read_back a b x d e ha hb hx hd he = (
  addr_join w (omega (arith, low)) ∙ omega (arith, low),
  ground (arith, odd, and_low 1 w),
  counter_join (bit_or a 1) b x d e (low, hb, omega arith, hd, he),
)
  where
    w : ℕ
    w = join (bit_or a 1) b x d e

    low : bit_or a 1 < 2 ^ 9
    low = omega (arith, or_le a 1)

    odd : bit_or a 1 % 2 ≡ 1
    odd = omega (
      arith,
      ap (λ (y : ℕ). bit_or y 1) (split_at 1 a).0,
      or_append 1 (a / 2) 0 (a % 2) 1 (omega arith) (omega arith),
      or_ones 1 (a % 2) (omega arith),
    )

-- An entry written by `page_set` holds the page it was given and is present, and in the first entry
-- of a table the counter stays: the address bits of the entry are those of the page, whatever the
-- flags, for words of 64 bits.
pub page_set_entry_lem :
    (old i n flags : ℕ)
    → old < 2 ^ 64
    → n < 2 ^ 64
    → flags < 2 ^ 64
    → let e = page_set_entry old i n flags in
      (bit_and e page_addr_pos ≡ bit_and n page_addr_pos)
      × (is_present e ≡ true)
      × (i ≡ 0 → page_counter_get e ≡ page_counter_get old)
unfolding page_set_entry
page_set_entry_lem old i n flags ho hn hf = elim (Bool-cases (i == 0)) [
  | inl first ↦
      let (p, q, r) =
        read_back a (part_b old) x (part_d old) e fa (omega arith) (omega arith) (omega arith) fe in
      let whole = with_counter (part_b old) (part_d old) (omega arith) (omega arith) in
      let eq =
        ap
          (λ (c : ℕ).
            bit_or (bit_or (bit_or (bit_and n page_addr_pos) (bit_and flags page_flags_pos)) c) 1)
          (counter_bits_join old ho)
        ∙ whole in
      rw (first, eq)
        (
          p ∙ sym (addr_join n hn),
          q,
          λ _.
              r
              ∙ sym
                  (ap page_counter_get (parts old ho).0 ∙ counter_join _ _ _ _ _ (parts old ho).1),
        )
  | inr later ↦
      let (p, q, r) = read_back a 0 x 0 e fa (omega arith) (omega arith) (omega arith) fe in
      let eq =
        ap (λ (c : ℕ). bit_or c 1) (sym (or_zero _))
        ∙ with_counter 0 0 (omega arith) (omega arith) in
      rw (later, eq) (p ∙ sym (addr_join n hn), q, λ z. absurd (==→ne i 0 later z))
]
  where
    a : ℕ
    a = bit_and (part_a flags) 0x1fe

    x : ℕ
    x = part_c n % 2 ^ 36

    e : ℕ
    e = bit_and (part_e flags) 16

    fa : a < 511
    fa = omega (arith, and_le_right (part_a flags) 0x1fe)

    fe : e < 2 ^ 5
    fe = omega (arith, and_le_right (part_e flags) 16)

    with_counter :
        (b d : ℕ)
        → b < 2 ^ 3
        → d < 2 ^ 7
        → bit_or
            (bit_or
              (bit_or (bit_and n page_addr_pos) (bit_and flags page_flags_pos))
              (join 0 b 0 d 0))
            1
          ≡ join (bit_or a 1) b x d e
    with_counter b d hb hd = written n flags b d hn hf hb hd
