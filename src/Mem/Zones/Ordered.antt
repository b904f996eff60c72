-- ===== src/Mem/Zones/Ordered.antt =====
-- The zones stay in order and apart.
use cpp_os.Base.{
  ℕ, zero, suc, ◌+◌, ◌%◌, ◌^◌, ◌<◌, ◌≤◌, ◌≡◌, ◌⊎◌, inl, inr, refl, ap, ◌∙◌, true, Option, none,
  some, List, [], ◌∷◌, arith, Option-cases,
}
use cpp_os.Mem.Zones.{Zone, zone_position, zone_end, behind, max_mem}

-- A zone ends below `2 ^ 64`, or it is the kernel's, whose end wraps to `MAX_MEM`.
abbrev pub IsZone : Zone → Type 0
IsZone z =
    (z.virt_addr < 2 ^ 64)
    × ((z.virt_addr + z.len < 2 ^ 64) ⊎ ((z.virt_addr + z.len) % 2 ^ 64 ≡ max_mem))

-- Each zone ends before the next one begins.
abbrev pub Ordered : List Zone → Type 0
Ordered [] = Unit {0}
Ordered (z ∷ []) = IsZone z
Ordered (z ∷ w ∷ r) = IsZone z × (z.virt_addr + z.len ≤ w.virt_addr) × Ordered (w ∷ r)

abbrev pub insert_at : ℕ → Zone → List Zone → List Zone
insert_at i a [] = a ∷ []
insert_at zero a (z ∷ zs) = a ∷ z ∷ zs
insert_at (suc i) a (z ∷ zs) = z ∷ insert_at i a zs

Ordered-∷ :
    (a l : Zone) (zs : List Zone) (i : ℕ)
    → Ordered (l ∷ zs)
    → ((i ≡ 0) ⊎ (zs ≡ []) → l.virt_addr + l.len ≤ a.virt_addr)
    → Ordered (insert_at i a zs)
    → Ordered (l ∷ insert_at i a zs)
Ordered-∷ a l [] i o front p = (o, front (inr refl), p)
Ordered-∷ a l (c ∷ cs) zero o front p = (o.0, front (inl refl), p)
Ordered-∷ a l (c ∷ []) (suc k) o front p = (o.0, o.1, p)
Ordered-∷ a l (c ∷ d ∷ ds) (suc k) o front p = (o.0, o.1, p)

-- What the two tests of `zone_position` say of a zone that goes in front of `c`.
before :
    (last : Option Zone) (a c : Zone) (cs : List Zone)
    → zone_position last (c ∷ cs) a ≡ some 0
    → (behind last a.virt_addr ≡ true) × (zone_end a < c.virt_addr)
unfolding zone_position
before last a c cs e = elim (Option-cases (zone_position (some c) cs a)) [
  | inl n ↦ ground (arith, n, e)
  | inr (j, s) ↦ ground (arith, s, e)
]

-- The index found behind the first zone.
pub after :
    (last : Option Zone) (a c : Zone) (cs : List Zone) (k : ℕ)
    → zone_position last (c ∷ cs) a ≡ some (suc k)
    → zone_position (some c) cs a ≡ some k
unfolding zone_position
after last a c cs k e = elim (Option-cases (zone_position (some c) cs a)) [
  | inl n ↦ absurd (ground (arith, n, e))
  | inr (j, s) ↦ (let same : j ≡ k = ground (arith, s, e) in s ∙ ap some same)
]

module _ (a : Zone) (fits : a.virt_addr + a.len < 2 ^ 64) (some_len : 0 < a.len) where
  alone :
      (l : Zone) (i : ℕ)
      → IsZone l
      → zone_position (some l) [] a ≡ some i
      → l.virt_addr + l.len ≤ a.virt_addr
  unfolding zone_position
  alone l i o e = ground (arith, e, o)

  placed :
      (l : Zone) (zs : List Zone) (i : ℕ)
      → Ordered (l ∷ zs)
      → zone_position (some l) zs a ≡ some i
      → ((i ≡ 0) ⊎ (zs ≡ []) → l.virt_addr + l.len ≤ a.virt_addr) × Ordered (insert_at i a zs)
  placed l [] i o e = let b = alone l i o e in ((λ h. b), (omega arith, inl fits))
  placed l (c ∷ cs) zero o e =
      let (t, u) = before (some l) a c cs e in
      ((λ h. ground (arith, t, o.0, o.1)), ((omega arith, inl fits), ground (arith, u), o.2))
  placed l (c ∷ cs) (suc k) o e =
      let (front, p) = placed c cs k o.2 (after (some l) a c cs k e) in
      ((λ h. absurd (ground (arith, h))), Ordered-∷ a c cs k o.2 front p)

  -- The index that `insert_virt_zone` finds for a zone that is not empty and does not wrap is where it
  -- belongs: with the zone at that index the zones are in order and apart, each below the next, where they were
  -- so before. `insert` at that index puts it elsewhere.
  pub zone_position-Ordered :
      (zs : List Zone) (i : ℕ)
      → Ordered zs
      → zone_position none zs a ≡ some i
      → Ordered (insert_at i a zs)
  zone_position-Ordered [] i o e = (omega arith, inl fits)
  zone_position-Ordered (c ∷ cs) zero o e =
      let (t, u) = before none a c cs e in ((omega arith, inl fits), ground (arith, u), o)
  zone_position-Ordered (c ∷ cs) (suc k) o e =
      let (front, p) = placed c cs k o (after none a c cs k e) in Ordered-∷ a c cs k o front p
