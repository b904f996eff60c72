-- ===== src/Mem/Pages/Walk/Ends.antt =====
-- The walks end, and where unmapping frees a table.
use cpp_os.Base.{
  ℕ, zero, suc, ◌+◌, ◌/◌, bit_and, ◌<◌, ◌≤◌, ◌≡◌, ◌≢◌, refl, ap, Bool, true, false, Option, none,
  some, leb, ◌==◌, if◌then◌else◌, arith, Bool-cases, inl, inr, ne→==, leb→gt,
}
use cpp_os.Util.Misc.{get_bits, align_up}
use cpp_os.Util.Misc.Fields.{get_bits_lem}
use mathlib.Core.Option
use cpp_os.Mem.Zones.{page_size}
use cpp_os.Mem.Pages.{
  page_addr_pos, Pages, read, page_unset, page_counter_get, page_entries, is_present,
}
use cpp_os.Mem.Pages.Walk.{
  Walk, entry_of, lower_table, map_loop, unmap_page, unmap_loop, free_rest, free_table, pass_over,
  descend, proceed, with_result, unmap_internal, map_internal, undo,
}

abbrev pub Ends : {A : Type 0} → Option A → Type 0
Ends {A} o = (r : A) × (o ≡ some r)

some-Ends : {A : Type 0} (r : A) → Ends (some r)
some-Ends r = (r, refl)

descend-Ends :
    (o : Option (ℕ × Pages)) (w : Walk) (k : ℕ → Pages → Option (Bool × Walk))
    → ((t : ℕ) (m : Pages) → Ends (k t m))
    → Ends (descend o w k)
unfolding descend
descend-Ends none w k h = some-Ends (false, w)
descend-Ends (some (t, m)) w k h = h t m

proceed-Ends :
    (o : Option (Bool × Walk)) (k : Walk → Option (Bool × Walk))
    → Ends o
    → ((w : Walk) → Ends (k w))
    → Ends (proceed o k)
unfolding proceed
proceed-Ends none k (r, e) h = absurd (ground (arith, e))
proceed-Ends (some (false, w)) k e h = some-Ends (false, w)
proceed-Ends (some (true, w)) k e h = h w

with_result-Ends :
    (o : Option (Bool × Walk)) (k : Bool → Walk → Option (Bool × Walk))
    → Ends o
    → ((b : Bool) (w : Walk) → Ends (k b w))
    → Ends (with_result o k)
unfolding with_result
with_result-Ends none k (r, e) h = absurd (ground (arith, e))
with_result-Ends (some (b, w)) k e h = h b w

if-Ends :
    {A : Type 0} (b : Bool) (x y : Option A)
    → (b ≡ true → Ends x)
    → (b ≡ false → Ends y)
    → Ends (if b then x else y)
if-Ends true x y h k = h refl
if-Ends false x y h k = k refl

inside : (w : Walk) → entry_of w.virt_addr < page_entries
inside w = omega (arith, get_bits_lem w.virt_addr 39 47 (omega arith) (omega arith))

module _ (phys_addr start_page_n flags : ℕ) where
  map_loop-Ends :
      (level fuel : ℕ) (w : Walk) (table i : ℕ)
      → i ≤ page_entries
      → page_entries < fuel + i
      → Ends (map_loop phys_addr start_page_n flags level fuel w table i)
  unfolding map_loop
  map_loop-Ends level zero w table i lo h = absurd (omega arith)
  map_loop-Ends zero (suc fuel) w table i lo h = elim (Bool-cases (w.page_n == 0)) [
    | inl done ↦ rw done (some-Ends _)
    | inr more ↦ elim (Bool-cases (leb page_entries i)) [
      | inl past ↦ rw (more, past) (some-Ends _)
      | inr on ↦
          rw (more, on)
            (map_loop-Ends zero fuel _ table (i + 1) (omega (arith, leb→gt page_entries i on))
              (omega arith))
    ]
  ]
  map_loop-Ends (suc level) (suc fuel) w table i lo h = elim (Bool-cases (w.page_n == 0)) [
    | inl done ↦ rw done (some-Ends _)
    | inr more ↦ elim (Bool-cases (leb page_entries i)) [
      | inl past ↦ rw (more, past) (some-Ends _)
      | inr on ↦
          rw (more, on)
            (descend-Ends (lower_table w.pages table i) w _ λ t m.
              proceed-Ends _ _
                (map_loop-Ends level (suc page_entries) _ t (entry_of w.virt_addr)
                  (omega (arith, inside w)) (omega (arith, inside w)))
                λ w'.
                  map_loop-Ends (suc level) fuel w' table (i + 1)
                    (omega (arith, leb→gt page_entries i on)) (omega arith))
    ]
  ]

unmap_loop-Ends :
    (level fuel : ℕ) (w : Walk) (table i : ℕ)
    → i ≤ page_entries
    → page_entries < fuel + i
    → Ends (unmap_loop level fuel w table i)
unfolding unmap_loop
unmap_loop-Ends level zero w table i lo h = absurd (omega arith)
unmap_loop-Ends zero (suc fuel) w table i lo h = elim (Bool-cases (w.page_n == 0)) [
  | inl done ↦ rw done (some-Ends _)
  | inr more ↦ elim (Bool-cases (leb page_entries i)) [
    | inl past ↦ rw (more, past) (some-Ends _)
    | inr on ↦
        rw (more, on)
          (if-Ends (page_counter_get (read (unmap_page w table i).pages table i) == 0) _ _
            (λ _. some-Ends _)
            (λ _.
              unmap_loop-Ends zero fuel (unmap_page w table i) table (i + 1)
                (omega (arith, leb→gt page_entries i on)) (omega arith)))
  ]
]
unmap_loop-Ends (suc level) (suc fuel) w table i lo h = elim (Bool-cases (w.page_n == 0)) [
  | inl done ↦ rw done (some-Ends _)
  | inr more ↦ elim (Bool-cases (leb page_entries i)) [
    | inl past ↦ rw (more, past) (some-Ends _)
    | inr on ↦
        let next : (w' : Walk) → Ends (unmap_loop (suc level) fuel w' table (i + 1)) = λ w'.
          unmap_loop-Ends (suc level) fuel w' table (i + 1)
            (omega (arith, leb→gt page_entries i on)) (omega arith) in
        rw (more, on)
          (if-Ends (is_present (read w.pages table i)) _ _
            (λ _.
              with_result-Ends _ _
                (unmap_loop-Ends level (suc page_entries) _ _ (entry_of w.virt_addr)
                  (omega (arith, inside w)) (omega (arith, inside w)))
                λ b w'.
                  let w₂ = (if b then free_table w' table i else w') in
                  if-Ends (page_counter_get (read w₂.pages table i) == 0) _ _ (λ _. some-Ends _)
                    (λ _. next w₂))
            (λ _.
              if-Ends (page_counter_get (read w.pages table i) == 0) _ _ (λ _. some-Ends _)
                (λ _. next (pass_over w (suc level)))))
  ]
]

map-Ends : {A B : Type 0} (f : A → B) (o : Option A) → Ends o → Ends (Option.map f o)
map-Ends f none (r, e) = absurd (ground (arith, e))
map-Ends f (some a) e = some-Ends (f a)

pub unmap_internal-Ends :
    (m : Pages) (table virt_addr n : ℕ) → Ends (unmap_internal m table virt_addr n)
unfolding unmap_internal
unmap_internal-Ends m table virt_addr n =
    let w : Walk = record {
      pages = m;
      virt_addr = bit_and virt_addr page_addr_pos;
      page_n = align_up n page_size / page_size;
    } in
    map-Ends (λ (r : Bool × Walk). r.1.pages) _
      (unmap_loop-Ends 3 513 _ table (entry_of w.virt_addr) (omega (arith, inside w))
        (omega (arith, inside w)))

undo-Ends : (table : ℕ) (o : Option (Bool × Walk)) → Ends o → Ends (undo table o)
unfolding undo
undo-Ends table none (r, e) = absurd (ground (arith, e))
undo-Ends table (some (true, w)) e = some-Ends _
undo-Ends table (some (false, w)) e =
    map-Ends (λ (m : Pages). (false, m)) _ (unmap_internal-Ends w.pages table w.virt_addr w.page_n)

-- Mapping and unmapping always return, for every memory and every range: a loop at a level makes at
-- most 513 rounds, one for each entry of the table and one at its end, and a call goes down at most
-- four levels.
pub map_internal-Ends :
    (m : Pages) (table phys_addr virt_addr n flags : ℕ)
    → Ends (map_internal m table phys_addr virt_addr n flags)
      × Ends (unmap_internal m table virt_addr n)
unfolding map_internal
map_internal-Ends m table phys_addr virt_addr n flags =
    let w : Walk = record {
      pages = m;
      virt_addr = bit_and virt_addr page_addr_pos;
      page_n = align_up n page_size / page_size;
    } in
    (
      undo-Ends table _ (
          map_loop-Ends phys_addr _ flags 3 513 _ table (entry_of w.virt_addr)
            (omega (arith, inside w)) (omega (arith, inside w))),
      unmap_internal-Ends m table virt_addr n,
    )

cleared_entry : (w : Walk) (table i : ℕ) → i ≢ 0 → read (unmap_page w table i).pages table i ≡ 0
unfolding unmap_page page_unset
cleared_entry w table i h = ground (arith, h)

-- Unmapping one page frees the table that holds it: at the lowest level, from any entry but the first
-- on, the walk unmaps that one page, passes over the rest of the table as if it were unmapped, and
-- answers that the table is to be freed, whatever other pages are mapped in it and whatever its counter
-- says. (The counter is looked for in the entry that was just cleared, and not in the first one.)
pub unmap_loop_frees :
    (fuel : ℕ) (w : Walk) (table i : ℕ)
    → i ≢ 0
    → i < page_entries
    → w.page_n ≢ 0
    → unmap_loop 0 (suc fuel) w table i ≡ some (true, free_rest (unmap_page w table i) i)
unfolding unmap_loop page_counter_get get_bits
unmap_loop_frees fuel w table i first inside_ some_left =
    let cleared : (page_counter_get (read (unmap_page w table i).pages table i) == 0) ≡ true =
      ap (λ (e : ℕ). page_counter_get e == 0) (cleared_entry w table i first) in
    let on : leb page_entries i ≡ false = ground arith in rw (ne→== _ _ some_left, on, cleared) refl
