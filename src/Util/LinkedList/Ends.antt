-- ===== src/Util/LinkedList/Ends.antt =====
-- `append`, `prepend`, `pop` and `pop_start` on the sequence of nodes.
use cpp_os.Base.{
  ℕ, suc, ◌^◌, ◌<◌, ◌≡◌, refl, ◌∙◌, sym, ap, subst, false, List, [], ◌∷◌, ◌++◌, arith, ◌==◌, length,
  length-append, add64, ◌-◌,
}
use cpp_os.Util.LinkedList.{Nodes, LinkedList, set_next, set_prev, append, prepend, pop, pop_start}
use cpp_os.Util.LinkedList.Chain.{
  has, Holds, last-append_cons, LinkFrom-frame, LinkFrom-join, LinkFrom-split, Distinct-append,
  Distinct-join,
}

-- `append` puts the node behind the others: where the list holds the nodes `xs` and the node is none
-- of them, it holds them and then the node.
pub append-Holds :
    (m : Nodes) (l : LinkedList) (xs : List ℕ) (z : ℕ)
    → Holds m l xs
    → has z xs ≡ false
    → suc (length xs) < 2 ^ 63
    → let (m', l') = append m l z in Holds m' l' (xs ++ (z ∷ []))
unfolding append
append-Holds m l [] z h out fits = ground arith
append-Holds m l (x ∷ r) z (n, s, e, c, d, fits) out more = rw test (
  omega (arith, length-append r (z ∷ [])),
  s,
  sym (last-append_cons x r z []),
  LinkFrom-join m' x r z []
      (LinkFrom-frame m m' x r d (λ a i ne. ground arith) (λ a i. ground arith) c) (ground arith)
      (ground arith) tt,
  Distinct-join (x ∷ r) (z ∷ []) d (refl, tt) (λ a i. ground arith),
  omega (arith, length-append r (z ∷ [])),
)
  where
    m' : Nodes
    m' = set_prev (set_next m l.end z) z l.end

    test : (add64 l.len 1 == 1) ≡ false
    test = ground arith

-- `prepend` puts the node in front of the others: where the list holds the nodes `xs` and the node
-- is none of them, it holds the node and then them.
pub prepend-Holds :
    (m : Nodes) (l : LinkedList) (xs : List ℕ) (z : ℕ)
    → Holds m l xs
    → has z xs ≡ false
    → suc (length xs) < 2 ^ 63
    → let (m', l') = prepend m l z in Holds m' l' (z ∷ xs)
unfolding prepend
prepend-Holds m l [] z h out fits = ground arith
prepend-Holds m l (x ∷ r) z (n, s, e, c, d, fits) out more =
    subst (λ (p : Nodes × LinkedList). Holds p.0 p.1 (z ∷ x ∷ r)) (sym runs)
      (
        omega arith,
        refl,
        e,
        (
          ground arith,
          ground arith,
          LinkFrom-frame m m' x r d (λ a i ne. ground arith) (λ a i. ground arith) c,
        ),
        (out, d),
        more,
      )
  where
    m' : Nodes
    m' = set_next (set_prev m l.start z) z l.start

    l' : LinkedList
    l' = record l { len = add64 l.len 1; current_i = add64 l.current_i 1; start = z }

    runs : prepend m l z ≡ (m', l')
    runs = ground arith

-- `pop_start` takes the first node off: where the list holds `x` and then `xs`, it returns `x` and
-- the list holds `xs`.
pub pop_start-Holds :
    (m : Nodes) (l : LinkedList) (x : ℕ) (xs : List ℕ)
    → Holds m l (x ∷ xs)
    → let (out, l') = pop_start m l in (out ≡ x) × Holds m l' xs
unfolding pop_start
pop_start-Holds m l x [] (n, s, e, c, d, fits) = ground arith
pop_start-Holds m l x (y ∷ r) (n, s, e, c, d, fits) =
    let full : (l.len == 0) ≡ false = ground arith in
    let more : (l.len - 1 == 0) ≡ false = ground arith in
    rw (full, more) (s, (omega arith, ap m.next s ∙ c.0, e, c.2, d.1, omega arith))

-- `pop` takes the last node off: where the list holds `xs` and then `z`, it returns `z` and the list
-- holds `xs`.
pub pop-Holds :
    (m : Nodes) (l : LinkedList) (xs : List ℕ) (z : ℕ)
    → Holds m l (xs ++ (z ∷ []))
    → let (out, l') = pop m l in (out ≡ z) × Holds m l' xs
unfolding pop
pop-Holds m l [] z (n, s, e, c, d, fits) = ground arith
pop-Holds m l (x ∷ r) z (n, s, e, c, d, fits) =
    let size = length-append r (z ∷ []) in
    let full : (l.len == 0) ≡ false = ground (arith, size) in
    let more : (l.len - 1 == 0) ≡ false = ground (arith, size) in
    let at_end = e ∙ last-append_cons x r z [] in
    let (front, after, before, tail) = LinkFrom-split m x r z [] c in
    let (dx, dz, apart) = Distinct-append (x ∷ r) (z ∷ []) d in
    rw (full, more)
      (at_end, (omega (arith, size), s, ap m.prev at_end ∙ before, front, dx, omega (arith, size)))
