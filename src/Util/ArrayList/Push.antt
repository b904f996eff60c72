-- ===== src/Util/ArrayList/Push.antt =====
-- `push` and `insert` of the growing array.
use cpp_os.Base.{
  ℕ, suc, ◌+◌, ◌-◌, ◌*◌, ◌≤◌, ◌<◌, ◌≡◌, ◌≢◌, refl, sym, ap, ◌∙◌, Bool, true, false, Option, some,
  List, [], ◌∷◌, ◌++◌, ltb, length, set, take, replicate, arith, Bool-cases, inl, inr,
  length-append, length-replicate, length-set, length-take, take-set, take-take, take-append,
  ltb→lt, get_or, get_or-set_ne,
}
use cpp_os.Util.ArrayList.{ArrayList, null, insert, push, store_at, write, shift_up, resize}

-- The entries in use fit the capacity, which is the buffer's.
abbrev pub IsValid : ArrayList → Type 0
IsValid a = (a.len ≤ a.capacity) × (a.capacity ≡ length a.list)

-- The sequence that the array stands for.
abbrev pub contents : ArrayList → List ℕ
contents a = take a.len a.list

pub length-resize : (buf : List ℕ) (n : ℕ) → length (resize buf n) ≡ n
unfolding resize
length-resize buf n = length-take n _ (
    omega (
      arith,
      length-append buf (replicate (n - length buf) null),
      length-replicate (n - length buf) null,
    ))

pub take-resize :
    (k n : ℕ) (buf : List ℕ) → k ≤ length buf → k ≤ n → take k (resize buf n) ≡ take k buf
unfolding resize
take-resize k n buf h le = take-take k n _ le ∙ take-append k buf _ h

-- What a successful call leaves: the new entry behind the old ones.
pub record Pushed (a : ArrayList) (x : ℕ) (r : Option (Bool × ArrayList)) : Type 0 where
  pub after : ArrayList
  pub returns : r ≡ some (true, after)
  pub valid : IsValid after
  pub appended : contents after ≡ contents a ++ (x ∷ [])

stored :
    (a : ArrayList) (buf : List ℕ) (capacity x : ℕ)
    → capacity ≡ length buf
    → a.len < capacity
    → take a.len buf ≡ contents a
    → Pushed a x (store_at a buf capacity a.len x)
unfolding store_at write
stored a buf capacity x e lt same =
    let inside : ltb a.len (length buf) ≡ true = ground arith in
    let plus : a.len + 1 ≡ suc a.len = omega arith in
    record {
      after = record a { len = a.len + 1; capacity = capacity; list = set buf a.len x };
      returns = rw inside;
      valid = omega (arith, length-set buf a.len x);
      appended =
          ap (λ (n : ℕ). take n (set buf a.len x)) plus
          ∙ take-set buf a.len x (omega arith)
          ∙ ap (λ (l : List ℕ). l ++ (x ∷ [])) same;
    }

-- `push` on a valid array with room for an entry at all, where `krealloc` does not fail, puts the
-- entry behind the others and keeps the array valid; it writes inside the buffer.
pub push-Pushed : (a : ArrayList) (x : ℕ) → IsValid a → 0 < a.capacity → Pushed a x (push true a x)
unfolding push insert shift_up
push-Pushed a x (le, e) room =
    let not_past : ltb a.len a.len ≡ false = ground arith in
    elim (Bool-cases (ltb a.len a.capacity)) [
      | inl fits ↦ rw (not_past, fits) (stored a a.list a.capacity x e (ltb→lt _ _ fits) refl)
      | inr full ↦
          let zero_rounds : a.len - a.len ≡ 0 = omega arith in
          rw (not_past, full, zero_rounds)
            (stored a (resize a.list (a.capacity * 2)) (a.capacity * 2) x
              (sym (length-resize a.list (a.capacity * 2))) (omega arith)
              (take-resize a.len (a.capacity * 2) a.list (omega arith) (omega arith)))
    ]

-- Where the buffer is full and `krealloc` fails, `push` returns false and changes nothing.
pub push_refused : (a : ArrayList) (x : ℕ) → a.len ≡ a.capacity → push false a x ≡ some (false, a)
unfolding push insert
push_refused a x e = ground arith

-- `insert` in front of an entry, while the buffer has room, moves nothing up: the entry at the
-- index is overwritten, those behind it stay where they are, and the length still grows.
pub insert_overwrites :
    (a : ArrayList) (x i j : ℕ)
    → IsValid a
    → i < a.len
    → i ≢ j
    → (a' : ArrayList) × (insert true a x i ≡ some (true, a'))
      × (a'.len ≡ a.len + 1)
      × (get_or a'.list j 0 ≡ get_or a.list j 0)
unfolding insert store_at write
insert_overwrites a x i j (le, e) lt ne =
    let inside : ltb i (length a.list) ≡ true = ground arith in
    let fits : ltb i a.capacity ≡ true = ground arith in
    let known : ltb a.len i ≡ false = ground arith in
    (
      record a { len = a.len + 1; list = set a.list i x },
      rw (known, fits, inside),
      refl,
      get_or-set_ne a.list i j x 0 ne,
    )
