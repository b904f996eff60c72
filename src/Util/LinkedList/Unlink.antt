-- ===== src/Util/LinkedList/Unlink.antt =====
-- `remove_p` takes a node out wherever it stands.
use cpp_os.Base.{
  ℕ, ◌-◌, ◌≡◌, refl, ◌∙◌, sym, subst, false, List, [], ◌∷◌, ◌++◌, arith, ◌==◌, length-append,
  if◌then◌else◌,
}
use mathlib.Core.List.{append-nil}
use cpp_os.Util.LinkedList.{Nodes, LinkedList, set_next, set_prev, remove_p, null}
use cpp_os.Util.LinkedList.Chain.{
  last, Holds, has-last, last-append_cons, LinkFrom-frame, LinkFrom-join, LinkFrom-split,
  Distinct-append, Distinct-join,
}

-- The list after the count and the cursor are updated.
abbrev dropped : LinkedList → ℕ → LinkedList
dropped l zone = record l {
  len = l.len - 1;
  current = if l.current == zone then null else l.current;
}

module _ (m : Nodes) (l : LinkedList) where
  remove_first :
      (z y : ℕ) (s : List ℕ)
      → Holds m l (z ∷ y ∷ s)
      → remove_p m l z ≡ (m, record (dropped l z) { start = y })
  unfolding remove_p
  remove_first z y s (n, st, e, c, d, fits) = ground (arith, c.0)

  remove_last :
      (x : ℕ) (r : List ℕ) (z : ℕ)
      → Holds m l (x ∷ r ++ (z ∷ []))
      → remove_p m l z ≡ (m, record (dropped l z) { end = last x r })
  unfolding remove_p
  remove_last x r z (n, st, e, c, d, fits) =
      let (front, after, before, tail) = LinkFrom-split m x r z [] c in
      let (dx, dz, apart) = Distinct-append (x ∷ r) (z ∷ []) d in
      ground (arith, length-append r (z ∷ []), last-append_cons x r z [], apart x, before)

  relinked : (x : ℕ) (r : List ℕ) (y : ℕ) → Nodes
  relinked x r y = set_prev (set_next m (last x r) y) y (last x r)

  remove_middle :
      (x : ℕ) (r : List ℕ) (z y : ℕ) (s : List ℕ)
      → Holds m l (x ∷ r ++ (z ∷ y ∷ s))
      → remove_p m l z ≡ (relinked x r y, dropped l z)
  unfolding remove_p relinked
  remove_middle x r z y s (n, st, e, c, d, fits) =
      let (front, after, before, tail) = LinkFrom-split m x r z (y ∷ s) c in
      let (dx, dz, apart) = Distinct-append (x ∷ r) (z ∷ y ∷ s) d in
      let not_first : (z == l.start) ≡ false = ground (arith, apart x) in
      let not_last : (z == l.end) ≡ false =
        ground (arith, last-append_cons x r z (y ∷ s), has-last y s) in
      let not_empty : (l.len == 0) ≡ false = ground (arith, length-append r (z ∷ y ∷ s)) in
      let not_single : (l.len - 1 == 0) ≡ false = ground (arith, length-append r (z ∷ y ∷ s)) in
      let not_before : (z == last x r) ≡ false = ground (arith, apart (last x r), has-last x r) in
      rw (not_empty, not_single, not_first, not_last, before, tail.0, not_before)

remove_only : (m : Nodes) (l : LinkedList) (z : ℕ) → Holds m l (z ∷ []) → (remove_p m l z).1.len ≡ 0
unfolding remove_p
remove_only m l z h = ground arith

moved :
    (m : Nodes) (l : LinkedList) (z : ℕ) {p : Nodes × LinkedList} (xs : List ℕ)
    → remove_p m l z ≡ p
    → Holds p.0 p.1 xs
    → Holds (remove_p m l z).0 (remove_p m l z).1 xs
moved m l z xs e h = subst (λ (p : Nodes × LinkedList). Holds p.0 p.1 xs) (sym e) h

-- `remove_p` of a node of the list takes out that node and no other, and keeps the order: where the
-- list holds `xs`, `z` and `ys`, it holds `xs` and `ys` afterwards.
pub remove_p-Holds :
    (m : Nodes) (l : LinkedList) (xs : List ℕ) (z : ℕ) (ys : List ℕ)
    → Holds m l (xs ++ (z ∷ ys))
    → let (m', l') = remove_p m l z in Holds m' l' (xs ++ ys)
unfolding relinked
remove_p-Holds m l [] z [] h = remove_only m l z h
remove_p-Holds m l [] z (y ∷ s) (n, st, e, c, d, fits) =
    moved m l z (y ∷ s) (remove_first m l z y s (n, st, e, c, d, fits))
      (omega arith, refl, e, c.2, d.1, omega arith)
remove_p-Holds m l (x ∷ r) z [] (n, st, e, c, d, fits) =
    let (front, after, before, tail) = LinkFrom-split m x r z [] c in
    let (dx, dz, apart) = Distinct-append (x ∷ r) (z ∷ []) d in
    let size = length-append r (z ∷ []) in
    subst (λ (ys : List ℕ). Holds (remove_p m l z).0 (remove_p m l z).1 (x ∷ ys))
      (sym (append-nil r))
      (moved m l z (x ∷ r) (remove_last m l x r z (n, st, e, c, d, fits))
        (omega (arith, size), st, refl, front, dx, omega (arith, size)))
remove_p-Holds m l (x ∷ r) z (y ∷ s) (n, st, e, c, d, fits) =
    let (front, after, before, tail) = LinkFrom-split m x r z (y ∷ s) c in
    let (dx, dz, apart) = Distinct-append (x ∷ r) (z ∷ y ∷ s) d in
    let m' = relinked m l x r y in
    moved m l z (x ∷ r ++ (y ∷ s)) (remove_middle m l x r z y s (n, st, e, c, d, fits)) (
      omega (arith, length-append r (z ∷ y ∷ s), length-append r (y ∷ s)),
      st,
      e ∙ last-append_cons x r z (y ∷ s) ∙ sym (last-append_cons x r y s),
      LinkFrom-join m' x r y s
          (LinkFrom-frame m m' x r dx (λ a i ne. ground arith) (λ a i. ground (arith, apart a))
            front)
          (ground arith) (ground arith)
          (LinkFrom-frame m m' y s dz.1 (λ a i ne. ground (arith, apart (last x r), has-last x r))
            (λ a i. ground arith) tail.2),
      Distinct-join (x ∷ r) (y ∷ s) dx dz.1 (λ a i. ground (arith, apart a)),
      omega (arith, length-append r (z ∷ y ∷ s), length-append r (y ∷ s)),
    )
