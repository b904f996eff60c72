-- ===== src/Util/LinkedList2/Deque.antt =====
-- The list of items as a sequence with two ends.
use cpp_os.Base.{
  ℕ, zero, suc, ◌^◌, ◌<◌, ◌≡◌, ◌≢◌, refl, sym, ap, ap₂, subst, ◌∙◌, Bool, true, false, some, List,
  [], ◌∷◌, ◌++◌, ◌==◌, if◌then◌else◌, length, arith, Bool-cases, inl, inr, ==→ne,
}
use cpp_os.Util.LinkedList.{Nodes, LinkedList, null, pop, pop_start, update}
use cpp_os.Util.LinkedList.Chain.{has, Holds}
use cpp_os.Util.LinkedList.Ends.{append-Holds, prepend-Holds, pop-Holds, pop_start-Holds}
use cpp_os.Util.LinkedList2.{
  LinkedList2, get_len, prepend2, append2, taken, pop_start2, pop2, destroy,
}

-- An entry: the node and the item it holds.
abbrev pub addresses : List (ℕ × ℕ) → List ℕ
addresses [] = []
addresses ((n, x) ∷ es) = n ∷ addresses es

-- The entries are what the nodes hold, and none of the nodes is null.
abbrev pub Carries : (ℕ → ℕ) → List (ℕ × ℕ) → Type 0
Carries it [] = Unit {0}
Carries it ((n, x) ∷ es) = (it n ≡ x) × (n ≢ null) × Carries it es

-- The list stands for a sequence of entries.
abbrev pub Stands : LinkedList2 → List (ℕ × ℕ) → Type 0
Stands l es = Holds l.nodes l.list (addresses es) × Carries l.item es

-- The operations at the two ends; one that adds is given the node that the heap returns.
pub data Op : Type 0 where
  push_front push_back : ℕ → ℕ → Op
  take_front take_back : Op

-- What an operation answers: whether there was memory, or an item, null where there was none.
pub data Answer : Type 0 where
  added : Bool → Answer
  item : ℕ → Answer

-- The code, and the same operation on the sequence.
abbrev pub apply : LinkedList2 → Op → Answer × LinkedList2
apply l (push_front n x) = let (ok, l') = prepend2 l n x in (added ok, l')
apply l (push_back n x) = let (ok, l') = append2 l n x in (added ok, l')
apply l take_front = let (x, l') = pop_start2 l in (item x, l')
apply l take_back = let (x, l') = pop2 l in (item x, l')

abbrev pub but_last : List (ℕ × ℕ) → List (ℕ × ℕ)
but_last [] = []
but_last (e ∷ []) = []
but_last (e ∷ f ∷ es) = e ∷ but_last (f ∷ es)

abbrev pub last_item : List (ℕ × ℕ) → ℕ
last_item [] = null
last_item ((n, x) ∷ []) = x
last_item (e ∷ f ∷ es) = last_item (f ∷ es)

abbrev pub first_item : List (ℕ × ℕ) → ℕ
first_item [] = null
first_item ((n, x) ∷ es) = x

abbrev pub but_first : List (ℕ × ℕ) → List (ℕ × ℕ)
but_first [] = []
but_first (e ∷ es) = es

abbrev pub spec : List (ℕ × ℕ) → Op → Answer × List (ℕ × ℕ)
spec es (push_front n x) = if n == null then (added false, es) else (added true, (n, x) ∷ es)
spec es (push_back n x) = if n == null then (added false, es) else (added true, es ++ ((n, x) ∷ []))
spec es take_front = (item (first_item es), but_first es)
spec es take_back = (item (last_item es), but_last es)

-- The heap returns null, or a node that is not in the list.
abbrev pub IsFresh : List (ℕ × ℕ) → Op → Type 0
IsFresh es (push_front n x) =
    (n ≢ null → has n (addresses es) ≡ false) × (suc (length (addresses es)) < 2 ^ 63)
IsFresh es (push_back n x) =
    (n ≢ null → has n (addresses es) ≡ false) × (suc (length (addresses es)) < 2 ^ 63)
IsFresh es take_front = Unit {0}
IsFresh es take_back = Unit {0}

Carries-update :
    (it : ℕ → ℕ) (es : List (ℕ × ℕ)) (n x : ℕ)
    → has n (addresses es) ≡ false
    → Carries it es
    → Carries (update it n x) es
Carries-update it [] n x out c = tt
Carries-update it ((k, y) ∷ es) n x out (e, ne, c) =
    (ground arith, ne, Carries-update it es n x (ground arith) c)

Carries-append :
    (it : ℕ → ℕ) (es : List (ℕ × ℕ)) (n x : ℕ)
    → Carries it es
    → it n ≡ x
    → n ≢ null
    → Carries it (es ++ ((n, x) ∷ []))
Carries-append it [] n x c e ne = (e, ne, tt)
Carries-append it ((k, y) ∷ es) n x (a, b, c) e ne = (a, b, Carries-append it es n x c e ne)

addresses-append :
    (es : List (ℕ × ℕ)) (n x : ℕ) → addresses (es ++ ((n, x) ∷ [])) ≡ addresses es ++ (n ∷ [])
addresses-append [] n x = refl
addresses-append ((k, y) ∷ es) n x = ap (λ (l : List ℕ). k ∷ l) (addresses-append es n x)

-- The last entry's node, behind the others.
last_node : (ℕ × ℕ) → List (ℕ × ℕ) → ℕ
last_node (n, x) [] = n
last_node e (f ∷ es) = last_node f es

split_last :
    (e : ℕ × ℕ) (es : List (ℕ × ℕ)) (it : ℕ → ℕ)
    → Carries it (e ∷ es)
    → (addresses (e ∷ es) ≡ addresses (but_last (e ∷ es)) ++ (last_node e es ∷ []))
      × (it (last_node e es) ≡ last_item (e ∷ es))
      × (last_node e es ≢ null)
      × Carries it (but_last (e ∷ es))
unfolding last_node
split_last (n, x) [] it (a, b, c) = (refl, a, b, tt)
split_last (n, x) (f ∷ es) it (a, b, c) =
    let (p, q, r, s) = split_last f es it c in (ap (λ (l : List ℕ). n ∷ l) p, q, r, (a, b, s))

pop_empty :
    (m : Nodes) (l : LinkedList) → l.len ≡ 0 → (pop m l ≡ (null, l)) × (pop_start m l ≡ (null, l))
unfolding pop pop_start
pop_empty m l e = ground arith

taken-null : (l : LinkedList2) (l' : LinkedList) → taken l null l' ≡ (null, record l { list = l' })
unfolding taken
taken-null l l' = refl

-- What `taken` answers for a node with an item.
taken-item :
    (l : LinkedList2) (node x : ℕ) (l' : LinkedList)
    → node ≢ null
    → l.item node ≡ x
    → taken l node l' ≡ (x, record l { list = l' })
unfolding taken
taken-item l node x l' ne e = ground arith

-- Every operation at an end answers as it does on the sequence, and the list then stands for the
-- sequence that it leads to, where the heap gives null or a node that is not in the list, and the list
-- is shorter than 2 ^ 63 nodes.
pub apply-Stands :
    (l : LinkedList2) (es : List (ℕ × ℕ)) (op : Op)
    → Stands l es
    → IsFresh es op
    → ((apply l op).0 ≡ (spec es op).0) × Stands (apply l op).1 (spec es op).1
unfolding prepend2 append2 pop_start2 pop2
apply-Stands l es (push_front n x) (h, c) (out, fits) = elim (Bool-cases (n == null)) [
  | inl z ↦ rw z (refl, (h, c))
  | inr nz ↦
      let free = out (==→ne n null nz) in
      rw nz (
        refl,
        (
          prepend-Holds l.nodes l.list (addresses es) n h free fits,
          (ground arith, ==→ne n null nz, Carries-update l.item es n x free c),
        ),
      )
]
apply-Stands l es (push_back n x) (h, c) (out, fits) = elim (Bool-cases (n == null)) [
  | inl z ↦ rw z (refl, (h, c))
  | inr nz ↦
      let free = out (==→ne n null nz) in
      rw nz (
        refl,
        (
          rw (addresses-append es n x) (append-Holds l.nodes l.list (addresses es) n h free fits),
          Carries-append _ es n x (Carries-update l.item es n x free c) (ground arith)
              (==→ne n null nz),
        ),
      )
]
apply-Stands l [] take_front (h, c) f =
    let e = pop_empty l.nodes l.list h in rw (e.1, taken-null l l.list) (refl, (h, tt))
apply-Stands l ((n, x) ∷ es) take_front (h, (a, b, c)) f =
    let (o, h') = pop_start-Holds l.nodes l.list n (addresses es) h in
    rw (taken-item l _ x _ (λ z. b (sym o ∙ z)) (ap l.item o ∙ a)) (refl, (h', c))
apply-Stands l [] take_back (h, c) f =
    let e = pop_empty l.nodes l.list h in rw (e.0, taken-null l l.list) (refl, (h, tt))
apply-Stands l (e ∷ es) take_back (h, c) f =
    let (p, q, r, s) = split_last e es l.item c in
    let (o, h') =
      pop-Holds l.nodes l.list (addresses (but_last (e ∷ es))) (last_node e es)
        (subst (λ (xs : List ℕ). Holds l.nodes l.list xs) p h) in
    rw (taken-item l _ (last_item (e ∷ es)) _ (λ z. r (sym o ∙ z)) (ap l.item o ∙ q))
      (refl, (h', s))

-- The answers of a sequence of operations.
abbrev pub run : LinkedList2 → List Op → List Answer × LinkedList2
run l [] = ([], l)
run l (op ∷ ops) = let (a, l') = apply l op in let (bs, l'') = run l' ops in (a ∷ bs, l'')

abbrev pub run_spec : List (ℕ × ℕ) → List Op → List Answer × List (ℕ × ℕ)
run_spec es [] = ([], es)
run_spec es (op ∷ ops) =
    let (a, es') = spec es op in let (bs, es'') = run_spec es' ops in (a ∷ bs, es'')

abbrev pub AllFresh : List (ℕ × ℕ) → List Op → Type 0
AllFresh es [] = Unit {0}
AllFresh es (op ∷ ops) = IsFresh es op × AllFresh (spec es op).1 ops

-- Refinement of a queue with two ends: any sequence of additions and removals at either end gives
-- the answers that the same operations give on a sequence of items, the ones without memory and those
-- on an empty list included, and the list then stands for the sequence that is left. At each step the
-- heap gives null or a node that is not in the list, and the list stays shorter than 2 ^ 63 nodes.
pub run-Stands :
    (l : LinkedList2) (es : List (ℕ × ℕ)) (ops : List Op)
    → Stands l es
    → AllFresh es ops
    → ((run l ops).0 ≡ (run_spec es ops).0) × Stands (run l ops).1 (run_spec es ops).1
run-Stands l es [] s f = (refl, s)
run-Stands l es (op ∷ ops) s (f, fs) =
    let (a, s') = apply-Stands l es op s f in
    let (bs, s'') = run-Stands (apply l op).1 (spec es op).1 ops s' fs in
    (ap₂ (λ (x : Answer) (xs : List Answer). x ∷ xs) a bs, s'')

Stands-get_len :
    (l : LinkedList2) (es : List (ℕ × ℕ)) → Stands l es → get_len l ≡ length (addresses es)
unfolding get_len
Stands-get_len l [] (h, c) = h
Stands-get_len l ((n, x) ∷ es) (h, c) = h.0

length-but_last :
    (e : ℕ × ℕ) (es : List (ℕ × ℕ)) → length (addresses (but_last (e ∷ es))) ≡ length (addresses es)
length-but_last e [] = refl
length-but_last e (f ∷ es) = ap suc (length-but_last f es)

-- The destructor ends after one round for each node and one more, with the list empty.
pub destroy-Stands :
    (fuel : ℕ) (l : LinkedList2) (es : List (ℕ × ℕ))
    → Stands l es
    → length (addresses es) < fuel
    → (l' : LinkedList2) × (destroy fuel l ≡ some l') × (get_len l' ≡ 0)
unfolding destroy
destroy-Stands zero l es s h = absurd (omega arith)
destroy-Stands (suc fuel) l [] s h = let z = Stands-get_len l [] s in (l, rw z refl, z)
destroy-Stands (suc fuel) l (e ∷ es) s h =
    let more : (get_len l == 0) ≡ false = ground (arith, Stands-get_len l (e ∷ es) s) in
    let (_, s') = apply-Stands l (e ∷ es) take_back s tt in
    rw more (
      destroy-Stands fuel (pop2 l).1 (but_last (e ∷ es)) s'
        (omega (arith, length-but_last e es, h)))
