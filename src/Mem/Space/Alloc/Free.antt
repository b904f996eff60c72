-- ===== src/Mem/Space/Alloc/Free.antt =====
-- What freeing memory and deleting an address space leave.
use cpp_os.Base.{
  ℕ, suc, ◌+◌, ◌≡◌, ◌≢◌, refl, ap, ==_refl, true, false, Bool, ◌||◌, some, List, [], ◌∷◌, ◌++◌,
  ◌==◌, ne→==, ◌∙◌, length, get_elem?, Bool-cases, inl, inr, add64,
}
use mathlib.Core.Option
use cpp_os.Util.Misc.{align_down}
use cpp_os.Mem.Zones.{
  valloc, map as map_type, reserve as reserve_type, kernel, page_size, AllocType,
}
use cpp_os.Mem.Pages.{Pages}
use cpp_os.Mem.Pages.Walk.Ends.{unmap_internal-Ends}
use cpp_os.Mem.Collect.{PhysAllocation}
use cpp_os.Mem.Space.{
  Entry, Space, nodes_of, is_at, same_type, sync_loop, sync_tlb, unreserve, remove_entry,
}
use cpp_os.Util.LinkedList.Access.{Cursor, is_right}
use cpp_os.Mem.Space.Alloc.{
  in_order, free_blocks, free_loop, free_mem, drop_zone, drop_zones, delete_space,
}

found_first :
    (a : Entry) (es : List Entry)
    → a.zone.type ≡ reserve_type
    → remove_entry reserve_type a.zone.virt_addr (a ∷ es) ≡ es
unfolding remove_entry
found_first a es t =
    let here : is_at reserve_type a.zone.virt_addr a ≡ true =
      rw (==_refl a.zone.virt_addr) (ap (λ (u : AllocType). same_type u reserve_type) t) in
    rw here refl

-- No zone starts at the address.
abbrev pub NoneAt : ℕ → List Entry → Type 0
NoneAt v [] = Unit {0}
NoneAt v (e ∷ es) = (e.zone.virt_addr ≢ v) × NoneAt v es

sync_loop-none : (v : ℕ) (es : List Entry) → NoneAt v es → sync_loop v es ≡ []
unfolding sync_loop
sync_loop-none v [] h = refl
sync_loop-none v (e ∷ es) h =
    let other : (e.zone.virt_addr == v) ≡ false = ne→== _ _ h.0 in
    elim (Bool-cases (same_type e.zone.type valloc || same_type e.zone.type map_type)) [
      | inl y ↦ rw (y, other) (sync_loop-none v es h.1)
      | inr n ↦ rw (n) (sync_loop-none v es h.1)
    ]

-- Then `sync_tlb` does nothing.
sync_tlb-none :
    (sp : Space) (v : ℕ)
    → align_down v page_size ≡ v
    → NoneAt v sp.virt_allocs
    → ((sync_tlb sp v).virt_allocs ≡ sp.virt_allocs) × ((sync_tlb sp v).synced ≡ sp.synced)
unfolding sync_tlb
sync_tlb-none sp v page h = elim (Bool-cases sp.current) [
  | inl y ↦
      rw (y, page) (refl, ap (λ (l : List ℕ). l ++ sp.synced) (sync_loop-none v sp.virt_allocs h))
  | inr n ↦ rw n (refl, refl)
]

NoneAt-append :
    (v : ℕ) (before after : List Entry)
    → NoneAt v before
    → NoneAt v after
    → NoneAt v (before ++ after)
NoneAt-append v [] after h k = k
NoneAt-append v (e ∷ es) after h k = (h.0, NoneAt-append v es after h.1 k)

module _ {ℓ} {S : Type ℓ} (alloc : S → ℕ → ℕ × S) (free : S → ℕ → S) where
  -- The blocks given back, in order.
  abbrev pub free_all : S → List PhysAllocation → S
  free_all s [] = s
  free_all s (b ∷ bs) = free_all (free s b.addr) bs

  free_blocks-Ends :
      (m : Pages) (pml4 : ℕ) (s : S) (virt : ℕ) (bs : List PhysAllocation)
      → (m' : Pages) × (free_blocks alloc free m pml4 s virt bs ≡ some (m', free_all s bs))
  unfolding free_blocks
  free_blocks-Ends m pml4 s virt [] = (m, refl)
  free_blocks-Ends m pml4 s virt (b ∷ bs) =
      let (m', ends) = unmap_internal-Ends m pml4 virt b.len in
      let (m'', e) = free_blocks-Ends m' pml4 (free s b.addr) (add64 virt b.len) bs in
      rw (ends, free_blocks) (m'', e)

  free_loop-passes :
      (v pml4 : ℕ) (m : Pages) (s : S) (skip : Bool) (es : List Entry)
      → NoneAt v es
      → free_loop alloc free v pml4 m s skip es ≡ some (es, m, s)
  unfolding free_loop
  free_loop-passes v pml4 m s skip [] h = refl
  free_loop-passes v pml4 m s skip (e ∷ es) h =
      let other : (e.zone.virt_addr == v) ≡ false = ne→== _ _ h.0 in
      let rest = free_loop-passes v pml4 m s false es h.1 in
      elim (Bool-cases skip) [
        | inl y ↦ rw (y, rest, free_loop) refl
        | inr n ↦ rw (n, other, rest, free_loop) refl
      ]

  free_loop-found :
      (v pml4 : ℕ) (m : Pages) (s : S) (before after : List Entry) (e : Entry)
      → NoneAt v before
      → NoneAt v after
      → is_at valloc v e ≡ true
      → (m' : Pages) × (free_loop alloc free v pml4 m s false (before ++ (e ∷ after))
          ≡ some (before ++ after, m', free_all s (in_order e.allocations [])))
  unfolding free_loop
  free_loop-found v pml4 m s [] after e h k at =
      let (m', done) = free_blocks-Ends m pml4 s v (in_order e.allocations []) in
      rw
        (
          at,
          done,
          free_loop-passes v pml4 m' (free_all s (in_order e.allocations [])) true after k,
          free_loop,
        )
        (m', refl)
  free_loop-found v pml4 m s (c ∷ cs) after e h k at =
      let other : (c.zone.virt_addr == v) ≡ false = ne→== _ _ h.0 in
      let (m', done) = free_loop-found v pml4 m s cs after e h.1 k at in
      rw (other, done, free_loop) (m', refl)

  -- `free` of the start of a zone that `alloc` made, where the cursor of the list is unset or stands at its
  -- index: it returns, the zone is off the list, the other zones stay, and each of its blocks is given back,
  -- in order. The processor is told to forget no page, also in the running process's address space, since
  -- `sync_tlb` looks for the zone that has just been taken off. No other zone starts at the address, which
  -- is a page's.
  pub free_mem-frees :
      (c : Cursor) (sp : Space) (s : S) (mem : ℕ) (before after : List Entry) (e : Entry)
      → is_right (nodes_of sp.virt_allocs) c ≡ true
      → align_down mem page_size ≡ mem
      → sp.virt_allocs ≡ before ++ (e ∷ after)
      → NoneAt mem before
      → NoneAt mem after
      → is_at valloc mem e ≡ true
      → (sp' : Space) × (free_mem alloc free c sp s mem
          ≡ some (sp', free_all s (in_order e.allocations [])))
        × (sp'.virt_allocs ≡ before ++ after)
        × (sp'.synced ≡ sp.synced)
  unfolding free_mem
  free_mem-frees c sp s mem before after e right page zones h k at =
      let (m', done) = free_loop-found mem sp.pml4_table sp.pages s before after e h k at in
      let sp' = record sp { virt_allocs = before ++ after; pages = m' } in
      let (same, quiet) = sync_tlb-none sp' mem page (NoneAt-append mem before after h k) in
      rw (right, page, zones, done) (_, refl, same, quiet)

  drop_reserved :
      (sp : Space) (s : S) (a : Entry) (rest : List Entry)
      → sp.virt_allocs ≡ a ∷ rest
      → a.zone.type ≡ reserve_type
      → align_down a.zone.virt_addr page_size ≡ a.zone.virt_addr
      → drop_zone alloc free sp s a ≡ some (record sp { virt_allocs = rest }, s)
  unfolding drop_zone unreserve
  drop_reserved sp s a rest zones ta page =
      let left : remove_entry reserve_type (align_down a.zone.virt_addr page_size) sp.virt_allocs
          ≡ rest =
        rw (page, zones) (found_first a rest ta) in
      rw ta (ap (λ (es : List Entry). some (record sp { virt_allocs = es }, s)) left)

  drop_kernel :
      (sp : Space) (s : S) (k : Entry)
      → k.zone.type ≡ kernel
      → drop_zone alloc free sp s k ≡ some (sp, s)
  unfolding drop_zone
  drop_kernel sp s k tk = rw tk refl

  drop_step :
      (fuel i : ℕ) (sp sp' : Space) (s s' : S) (e : Entry)
      → get_elem? sp.virt_allocs i ≡ some e
      → drop_zone alloc free sp s e ≡ some (sp', s')
      → drop_zones alloc free (suc fuel) i sp s ≡ drop_zones alloc free fuel (i + 1) sp' s'
  unfolding drop_zones
  drop_step fuel i sp sp' s s' e at dropped = rw (at, dropped, drop_zones) refl

  -- Deleting an address space passes over a zone: of a reserved zone, another zone and the kernel's
  -- the first is given up, and the second is still on the list when the destructor returns, with its
  -- blocks and pages. The reserved zone starts at a page.
  pub delete_space_skips :
      (sp : Space) (s : S) (a b k : Entry)
      → sp.virt_allocs ≡ a ∷ b ∷ k ∷ []
      → a.zone.type ≡ reserve_type
      → k.zone.type ≡ kernel
      → align_down a.zone.virt_addr page_size ≡ a.zone.virt_addr
      → delete_space alloc free sp s
        ≡ some (record sp { virt_allocs = b ∷ k ∷ [] }, free s sp.pml4_table)
  unfolding delete_space drop_zones
  delete_space_skips sp s a b k zones ta tk page =
      let left = record sp { virt_allocs = b ∷ k ∷ [] } in
      let first = drop_reserved sp s a (b ∷ k ∷ []) zones ta page in
      let last = drop_kernel left s k tk in
      let ends : drop_zones alloc free 4 0 sp s ≡ some (left, s) =
        drop_step 3 0 sp left s s a (ap (λ (es : List Entry). get_elem? es 0) zones) first
        ∙ drop_step 2 1 left left s s k refl last in
      let rounds : suc (length sp.virt_allocs) ≡ 4 =
        ap (λ (es : List Entry). suc (length es)) zones in
      let f : Space × S → Space × S = λ r. (r.0, free r.1 sp.pml4_table) in
      ap (λ (n : ℕ). Option.map f (drop_zones alloc free n 0 sp s)) rounds ∙ ap (Option.map f) ends
