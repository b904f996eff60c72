-- ===== src/Util/ArrayList/Churn.antt =====
-- Pushing and popping one entry, again and again.
use native.Mathlib.Nat.{pow-suc}
use cpp_os.Base.{
  ℕ, zero, suc, ◌*◌, ◌/◌, ◌^◌, ◌<◌, ◌≡◌, refl, ap, true, Option, none, some, List, length, set,
  arith, length-set, get_or, get_elem?-get_or, le→leb,
}
use native.Mathlib.Decide.{dec_lt}
use cpp_os.Util.ArrayList.{
  ArrayList, insert, push, pop, remove, store_at, shrink, write, shift_up, shift_down, resize,
  ◌>>=◌,
}
use cpp_os.Util.ArrayList.Push.{IsValid, length-resize}

-- `k` times a push and a pop, and a last push.
unfoldable pub churn : ℕ → ArrayList → ℕ → Option ArrayList
churn zero a x = push true a x >>= λ (ok, b). some b
churn (suc k) a x = push true a x >>= λ (ok, b). pop b >>= λ (out, c). churn k c x

push_no_room : (a : ArrayList) (x : ℕ) → a.len ≡ 0 → a.capacity ≡ 0 → push true a x ≡ none
unfolding push insert store_at write shift_up
push_no_room a x e c = ground (arith, length-resize a.list (a.capacity * 2))

-- After a push to an empty array and a pop the capacity is half of what it was.
halved : ArrayList → ℕ → ArrayList
halved a x = record {
  len = 0;
  capacity = a.capacity / 2;
  list = resize (set a.list 0 x) (a.capacity / 2);
}

push_empty :
    (a : ArrayList) (x : ℕ)
    → a.capacity ≡ length a.list
    → a.len ≡ 0
    → 0 < a.capacity
    → push true a x ≡ some (true, record a { len = 1; list = set a.list 0 x })
unfolding push insert store_at write
push_empty a x e none_in room = ground (arith, ap (λ (n : ℕ). set a.list n x) none_in)

pop_one :
    (capacity : ℕ) (list : List ℕ)
    → 0 < length list
    → pop (record { len = 1; capacity = capacity; list = list })
      ≡ some (
        get_or list 0 0,
        record { len = 0; capacity = capacity / 2; list = resize list (capacity / 2) },
      )
unfolding pop remove shrink shift_down
pop_one capacity list h = rw (get_elem?-get_or list 0 0 h, le→leb 0 (capacity / 4) (omega arith))

halved-IsValid : (a : ArrayList) (x : ℕ) → IsValid (halved a x)
unfolding halved
halved-IsValid a x = omega (arith, length-resize (set a.list 0 x) (a.capacity / 2))

-- Each push to an empty array with a pop after it halves the capacity. Once it is 0 it stays 0,
-- since `krealloc` is asked for twice nothing, and the next push writes past the buffer: from an
-- empty valid array with a capacity below `2 ^ k`, `k` such rounds and one more push fault.
pub churn_faults :
    (k : ℕ) (a : ArrayList) (x : ℕ)
    → IsValid a
    → a.len ≡ 0
    → a.capacity < 2 ^ k
    → churn k a x ≡ none
unfolding churn halved
churn_faults zero a x (le, c) e h = rw (push_no_room a x e (omega arith))
churn_faults (suc k) a x (le, c) e h = elim (dec_lt 0 a.capacity) [
  | yes room ↦
      rw
        (
          push_empty a x c e room,
          pop_one a.capacity (set a.list 0 x) (omega (arith, length-set a.list 0 x)),
        )
        (churn_faults k (halved a x) x (halved-IsValid a x) (unfold halved in refl)
          (unfold halved in omega (arith, pow-suc 2 k)))
  | no none_left ↦ rw (push_no_room a x e (omega arith))
]
