-- ===== src/Util/ArrayList/Remove.antt =====
-- `remove` of the growing array.
use cpp_os.Base.{
  ℕ, zero, suc, ◌+◌, ◌-◌, ◌/◌, ◌<◌, ◌≡◌, refl, ◌∙◌, true, false, Option, some, List, ltb, leb,
  if◌then◌else◌, length, set, arith, Bool-cases, inl, inr, ◌==◌, ◌&&◌, length-set, get_or,
  get_or-set_self, get_or-set_ne, get_elem?-get_or, get_or-take, get_or-append,
}
use cpp_os.Util.ArrayList.{ArrayList, remove, shrink, write, shift_down, resize, ◌>>=◌}
use cpp_os.Util.ArrayList.Push.{IsValid, length-resize}

-- The entries from `i` on have moved down by one, `n` of them; the others are as they were.
record Shifted (n i : ℕ) (buf : List ℕ) (r : Option (List ℕ)) : Type 0 where
  after : List ℕ
  returns : r ≡ some after
  size : length after ≡ length buf
  entry :
      (j : ℕ)
      → get_or after j 0
        ≡ (if leb i j && ltb j (i + n) then get_or buf (j + 1) 0 else get_or buf j 0)

shift_down-Shifted :
    (n i : ℕ) (buf : List ℕ) → i + n < length buf → Shifted n i buf (shift_down n i buf)
unfolding shift_down
shift_down-Shifted zero i buf h = record {
  after = buf;
  returns = refl;
  size = refl;
  entry = λ j. ground arith;
}
shift_down-Shifted (suc n) i buf h =
    let x = get_or buf (i + 1) 0 in
    let buf' = set buf i x in
    let rest = shift_down-Shifted n (i + 1) buf' (omega (arith, length-set buf i x)) in
    record {
      after = rest.after;
      returns = rw (get_elem?-get_or buf (i + 1) 0 (omega arith)) (wrote x rest.returns);
      size = rest.size ∙ length-set buf i x;
      entry = λ j. elim (Bool-cases (i == j)) [
        | inl e ↦ ground (arith, rest.entry j, get_or-set_self buf i x 0)
        | inr ne ↦
            ground (arith, rest.entry j, get_or-set_ne buf i j x 0, get_or-set_ne buf i (j + 1) x 0)
      ];
    }
  where
    wrote :
        (x : ℕ) {b : List ℕ}
        → shift_down n (i + 1) (set buf i x) ≡ some b
        → (write buf i x >>= λ buf'. shift_down n (i + 1) buf') ≡ some b
    wrote x e = let inside : ltb i (length buf) ≡ true = ground arith in unfold write in rw inside e

shrink-IsValid : (a : ArrayList) → IsValid a → IsValid (shrink a)
unfolding shrink
shrink-IsValid a (le, e) = ground (arith, length-resize a.list (a.capacity / 2))

get_or-resize :
    (buf : List ℕ) (n i : ℕ) → i < n → i < length buf → get_or (resize buf n) i 0 ≡ get_or buf i 0
unfolding resize
get_or-resize buf n i h inside = get_or-take n _ i 0 h ∙ get_or-append buf _ i 0 inside

shrink-entries :
    (a : ArrayList) (j : ℕ)
    → IsValid a
    → j < a.len
    → (get_or (shrink a).list j 0 ≡ get_or a.list j 0)
unfolding shrink
shrink-entries a j (le, e) lt = ground (arith, get_or-resize a.list (a.capacity / 2) j)

len-shrink : (a : ArrayList) → (shrink a).len ≡ a.len
unfolding shrink
len-shrink a = ground arith

-- What `remove` leaves of a valid array.
pub record Removed (a : ArrayList) (i : ℕ) (r : Option (ℕ × ArrayList)) : Type 0 where
  pub after : ArrayList
  pub returns : r ≡ some (get_or a.list i 0, after)
  pub valid : IsValid after
  pub counted : after.len ≡ a.len - 1
  pub entry :
      (j : ℕ)
      → j + 1 < a.len
      → get_or after.list j 0 ≡ (if leb i j then get_or a.list (j + 1) 0 else get_or a.list j 0)

-- `remove` of an index below the length returns that entry, moves those behind it down by one,
-- keeps those before it and the array valid, and takes one from the length. It reads and
-- writes inside the buffer only.
pub remove-Removed : (a : ArrayList) (i : ℕ) → IsValid a → i < a.len → Removed a i (remove a i)
unfolding remove
remove-Removed a i (le, e) lt =
    let s = shift_down-Shifted (a.len - 1 - i) i a.list (omega arith) in
    let a' = record a { len = a.len - 1; list = s.after } in
    let v : IsValid a' = omega (arith, s.size) in
    let inside : leb a.len i ≡ false = ground arith in
    record {
      after = shrink a';
      returns = rw (inside, get_elem?-get_or a.list i 0 (omega arith), s.returns);
      valid = shrink-IsValid a' v;
      counted = len-shrink a';
      entry = λ j h. ground (arith, shrink-entries a' j v (omega arith), s.entry j);
    }
