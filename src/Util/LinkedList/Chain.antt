-- ===== src/Util/LinkedList/Chain.antt =====
-- The sequence of nodes that a linked list stands for.
use cpp_os.Base.{
  ℕ, suc, ◌≡◌, ◌≢◌, refl, Bool, true, false, ◌||◌, List, [], ◌∷◌, ◌++◌, arith, ◌==◌, length,
  Bool-cases, inl, inr, ◌^◌, ◌<◌,
}
use cpp_os.Util.LinkedList.{Nodes, LinkedList}

abbrev pub has : ℕ → List ℕ → Bool
has a [] = false
has a (x ∷ xs) = (a == x) || has a xs

-- The addresses are all different.
abbrev pub Distinct : List ℕ → Type 0
Distinct [] = Unit {0}
Distinct (x ∷ xs) = (has x xs ≡ false) × Distinct xs

abbrev pub last : ℕ → List ℕ → ℕ
last x [] = x
last x (y ∷ r) = last y r

-- From `x` on, neighbours point at one another. The outer pointers of the ends are free.
abbrev pub LinkFrom : Nodes → ℕ → List ℕ → Type 0
LinkFrom m x [] = Unit {0}
LinkFrom m x (y ∷ r) = (m.next x ≡ y) × (m.prev y ≡ x) × LinkFrom m y r

-- The list `l` holds the nodes `xs` in order.
abbrev pub Holds : Nodes → LinkedList → List ℕ → Type 0
Holds m l [] = l.len ≡ 0
Holds m l (x ∷ r) =
    (l.len ≡ suc (length r))
    × (l.start ≡ x)
    × (l.end ≡ last x r)
    × LinkFrom m x r
    × Distinct (x ∷ r)
    × (suc (length r) < 2 ^ 63)

pub has-append : (a : ℕ) (xs ys : List ℕ) → has a (xs ++ ys) ≡ (has a xs || has a ys)
has-append a [] ys = refl
has-append a (x ∷ xs) ys = ground (arith, has-append a xs ys)

pub has-last : (x : ℕ) (r : List ℕ) → has (last x r) (x ∷ r) ≡ true
has-last x [] = ground arith
has-last x (y ∷ r) = ground (arith, has-last y r)

pub last-append : (x : ℕ) (r : List ℕ) (z : ℕ) → last x (r ++ (z ∷ [])) ≡ z
last-append x [] z = refl
last-append x (y ∷ r) z = last-append y r z

-- The inner pointers alone decide: `next` of all but the last, `prev` of all but the first.
pub LinkFrom-frame :
    (m m' : Nodes) (x : ℕ) (r : List ℕ)
    → Distinct (x ∷ r)
    → ((a : ℕ) → has a (x ∷ r) ≡ true → a ≢ last x r → m'.next a ≡ m.next a)
    → ((a : ℕ) → has a r ≡ true → m'.prev a ≡ m.prev a)
    → LinkFrom m x r
    → LinkFrom m' x r
LinkFrom-frame m m' x [] d n p c = c
LinkFrom-frame m m' x (y ∷ r) d n p c = (
  ground (arith, n x, has-last y r),
  ground (arith, p y),
  LinkFrom-frame m m' y r d.1 (λ a i ne. n a (ground arith) ne) (λ a i. p a (ground arith)) c.2,
)

pub LinkFrom-join :
    (m : Nodes) (x : ℕ) (r : List ℕ) (y : ℕ) (s : List ℕ)
    → LinkFrom m x r
    → m.next (last x r) ≡ y
    → m.prev y ≡ last x r
    → LinkFrom m y s
    → LinkFrom m x (r ++ (y ∷ s))
LinkFrom-join m x [] y s c n p t = (n, p, t)
LinkFrom-join m x (z ∷ r) y s c n p t = (c.0, c.1, LinkFrom-join m z r y s c.2 n p t)

pub LinkFrom-split :
    (m : Nodes) (x : ℕ) (r : List ℕ) (y : ℕ) (s : List ℕ)
    → LinkFrom m x (r ++ (y ∷ s))
    → LinkFrom m x r × (m.next (last x r) ≡ y) × (m.prev y ≡ last x r) × LinkFrom m y s
LinkFrom-split m x [] y s c = (tt, c.0, c.1, c.2)
LinkFrom-split m x (z ∷ r) y s c =
    let (f, n, p, t) = LinkFrom-split m z r y s c.2 in ((c.0, c.1, f), n, p, t)

pub Distinct-append :
    (xs ys : List ℕ)
    → Distinct (xs ++ ys)
    → Distinct xs × Distinct ys × ((a : ℕ) → has a xs ≡ true → has a ys ≡ false)
Distinct-append [] ys d = (tt, d, λ a i. cc)
Distinct-append (x ∷ xs) ys d =
    let (dx, dy, apart) = Distinct-append xs ys d.1 in
    (
      (ground (arith, has-append x xs ys), dx),
      dy,
      λ a i. elim (Bool-cases (a == x)) [
        | inl e ↦ ground (arith, has-append x xs ys)
        | inr ne ↦ apart a (ground arith)
      ],
    )

pub Distinct-join :
    (xs ys : List ℕ)
    → Distinct xs
    → Distinct ys
    → ((a : ℕ) → has a xs ≡ true → has a ys ≡ false)
    → Distinct (xs ++ ys)
Distinct-join [] ys dx dy apart = dy
Distinct-join (x ∷ xs) ys dx dy apart = (
  ground (arith, has-append x xs ys, apart x),
  Distinct-join xs ys dx.1 dy (λ a i. apart a (ground arith)),
)

pub last-append_cons : (x : ℕ) (r : List ℕ) (y : ℕ) (s : List ℕ) → last x (r ++ (y ∷ s)) ≡ last y s
last-append_cons x [] y s = refl
last-append_cons x (z ∷ r) y s = last-append_cons z r y s
