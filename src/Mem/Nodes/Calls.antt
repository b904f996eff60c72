-- ===== src/Mem/Nodes/Calls.antt =====
-- Which allocator a call of src/mem/mem.cpp reaches.
use cpp_os.Base.{ℕ, ◌≡◌, ◌≢◌, refl, ap, true, false, List, [], ◌∷◌, ◌++◌, ◌==◌, arith}
use cpp_os.Mem.Nodes.{Operations, first_that, owns, node_alloc, node_free}

module _ {ℓ} {P : Type ℓ} (o : Operations P) where
  -- Every allocator of the list refuses; the list holds them afterwards.
  abbrev pub Refused : List P → ℕ → List P → Type ℓ
  Refused [] n [] = Unit {ℓ}
  Refused [] n (q ∷ qs) = Unit {ℓ} × (false ≡ true)
  Refused (p ∷ ps) n [] = Unit {ℓ} × (false ≡ true)
  Refused (p ∷ ps) n (q ∷ qs) = (o.alloc p n ≡ (0, q)) × Refused ps n qs

  -- `mem::alloc` asks the allocators in order and stops at the first that has memory: where the
  -- allocators of `before` refuse and `p` returns `out`, the result is `out`, and the allocators
  -- behind `p` are not touched.
  pub node_alloc-first :
      (before before' : List P) (p p' : P) (behind : List P) (n out : ℕ)
      → Refused before n before'
      → o.alloc p n ≡ (out, p')
      → out ≢ 0
      → node_alloc o (before ++ (p ∷ behind)) n ≡ (out, before' ++ (p' ∷ behind))
  unfolding node_alloc first_that
  node_alloc-first [] [] p p' behind n out r e ne =
      let nz : (out == 0) ≡ false = ground (arith, ne) in rw (e, nz) refl
  node_alloc-first [] (q ∷ qs) p p' behind n out r e ne = absurd (ground (arith, r.1))
  node_alloc-first (b ∷ bs) [] p p' behind n out r e ne = absurd (ground (arith, r.1))
  node_alloc-first (b ∷ bs) (q ∷ qs) p p' behind n out r e ne =
      let rest = node_alloc-first bs qs p p' behind n out r.1 e ne in
      rw (r.0) (ap (λ (x : ℕ × List P). (x.0, q ∷ x.1)) rest)

  -- No allocator of the list owns the address.
  abbrev pub Foreign : List P → ℕ → Type 0
  Foreign [] m = Unit {0}
  Foreign (p ∷ ps) m = (owns o p m ≡ false) × Foreign ps m

  -- `mem::free` gives an address to the first allocator whose range has it and touches no other;
  -- an address that is in no range changes nothing.
  pub node_free-owner :
      (before : List P) (p : P) (behind : List P) (m : ℕ)
      → Foreign before m
      → (owns o p m ≡ true
          → node_free o (before ++ (p ∷ behind)) m ≡ before ++ (o.free p m ∷ behind))
        × (node_free o before m ≡ before)
  unfolding node_free
  node_free-owner [] p behind m f = (λ e. rw (e) refl, refl)
  node_free-owner (b ∷ bs) p behind m f =
      let rest = node_free-owner bs p behind m f.1 in
      rw (f.0) (λ e. ap (λ (t : List P). b ∷ t) (rest.0 e), ap (λ (t : List P). b ∷ t) rest.1)
