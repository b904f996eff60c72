-- ===== src/Util/ArrayList.antt =====
-- include/util/array_list.hpp: the growing array of pointers. `list` is the buffer that was
-- allocated, one entry for each pointer. A read or write past it is a fault, the `none` of a
-- result. The buffer is not null: the constructors assert that.
pub mod Push
pub mod Remove
pub mod Churn
pub mod Delete
use cpp_os.Base.{
  ℕ, zero, suc, ◌+◌, ◌-◌, ◌*◌, ◌/◌, Bool, true, false, Option, none, some, List, ◌∷◌, ◌++◌, ltb,
  leb, if◌then◌else◌, sub64, length, get_elem?, set, take, replicate,
}

pub record ArrayList : Type 0 where
  pub len : ℕ
  pub capacity : ℕ
  pub list : List ℕ

abbrev pub null : ℕ
null = 0

-- `ARRAY_LIST_INTIAL_CAPACITY`
abbrev pub initial_capacity : ℕ
initial_capacity = 8

-- `array_list ()` and `array_list (bool free_members)`
unfoldable pub new_array_list : ArrayList
new_array_list = record {
  len = 0;
  capacity = initial_capacity;
  list = replicate initial_capacity null;
}

infixl 5 ◌>>=◌
abbrev pub ◌>>=◌ : {A B : Type 0} → Option A → (A → Option B) → Option B
none >>= f = none
some a >>= f = f a

-- `list[i] = in`
unfoldable pub write : List ℕ → ℕ → ℕ → Option (List ℕ)
write buf i x = if ltb i (length buf) then some (set buf i x) else none

-- `krealloc` keeps what fits and adds entries that hold anything, here null.
unfoldable pub resize : List ℕ → ℕ → List ℕ
resize buf n = take n (buf ++ replicate (n - length buf) null)

-- `for (usize j = len; j > i; j --) list[j] = list[j - 1];` with `n` rounds left.
unfoldable pub shift_up : ℕ → ℕ → List ℕ → Option (List ℕ)
shift_up zero i buf = some buf
shift_up (suc n) i buf = do
  x ← get_elem? buf (i + n)
  buf' ← write buf (i + suc n) x
  shift_up n i buf'

-- The part of `insert` after the buffer is as large as it will be.
unfoldable pub store_at : ArrayList → List ℕ → ℕ → ℕ → ℕ → Option (Bool × ArrayList)
store_at a buf capacity i x = do
  buf' ← write buf i x
  some (true, record a { len = a.len + 1; capacity = capacity; list = buf' })

-- `bool insert (T *in, usize i)`; `granted` says that `krealloc` does not return null.
unfoldable pub insert : Bool → ArrayList → ℕ → ℕ → Option (Bool × ArrayList)
insert granted a x i =
    if ltb a.len i
    then some (false, a)
    else if ltb i a.capacity
    then store_at a a.list a.capacity i x
    else if granted
    then (do
      buf ← shift_up (a.len - i) i (resize a.list (a.capacity * 2))
      store_at a buf (a.capacity * 2) i x)
    else some (false, a)

-- `bool push (T *in)`
unfoldable pub push : Bool → ArrayList → ℕ → Option (Bool × ArrayList)
push granted a x = insert granted a x a.len

-- `for (; i < len; i ++) list[i] = list[i + 1];` with `n` rounds left.
unfoldable pub shift_down : ℕ → ℕ → List ℕ → Option (List ℕ)
shift_down zero i buf = some buf
shift_down (suc n) i buf = do
  x ← get_elem? buf (i + 1)
  buf' ← write buf i x
  shift_down n (i + 1) buf'

-- The end of `remove`: the buffer is halved when at most a quarter of it is used.
unfoldable pub shrink : ArrayList → ArrayList
shrink a =
    if leb a.len (a.capacity / 4)
    then record a { capacity = a.capacity / 2; list = resize a.list (a.capacity / 2) }
    else a

-- `T *remove (usize i)`
unfoldable pub remove : ArrayList → ℕ → Option (ℕ × ArrayList)
remove a i = if leb a.len i then some (null, a) else (do
  out ← get_elem? a.list i
  buf ← shift_down (a.len - 1 - i) i a.list
  some (out, shrink (record a { len = a.len - 1; list = buf })))

-- `T *pop ()`
unfoldable pub pop : ArrayList → Option (ℕ × ArrayList)
pop a = remove a (sub64 a.len 1)

-- `T *operator[] (usize i)`
unfoldable pub get : ArrayList → ℕ → Option ℕ
get a i = if leb a.len i then some null else get_elem? a.list i

-- `bool set (usize i, T *in)`
unfoldable pub set_elem : ArrayList → ℕ → ℕ → Option (Bool × ArrayList)
set_elem a i x =
    if leb a.len i
    then some (false, a)
    else (do buf ← write a.list i x; some (true, record a { list = buf }))
