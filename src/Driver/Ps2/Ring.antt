-- ===== src/Driver/Ps2/Ring.antt =====
-- The ring of scan codes of src/driver/ps2.cpp: bounds, termination and what is read.
use cpp_os.Base.{
  ◌∙◌, ap, ap₂, sym, ℕ, zero, suc, ◌+◌, ◌-◌, ◌%◌, ◌<◌, ◌≤◌, ◌≡◌, ◌≢◌, true, false, Option, none,
  some, List, [], ◌∷◌, ◌++◌, ◌==◌, if◌then◌else◌, length, get_or, arith, refl, length-set,
  length-append, get_or-set_self, Bool-cases, ◌⊎◌, inl, inr,
}
use cpp_os.Driver.Ps2.{Kbd, ps2_int_handler, kbd_read, take_code, advance_read, wrap_i, scan_toc}

abbrev pub IsRing : Kbd → Type 0
IsRing k = (length k.scancode_buf ≡ 32) × (k.scan_i < 32) × (k.read_i < 32)

pub wrap_i_lem : (i : ℕ) → i ≤ 32 → wrap_i i ≡ i % 32
unfolding wrap_i
wrap_i_lem i h = ground arith

-- The keyboard's handler stores the code at `scan_i` and moves `scan_i` on by one, around the end;
-- where it catches up with `read_i` it moves that one on as well. Both indices stay inside the
-- buffer of 32 codes.
pub ps2_int_handler-IsRing :
    (k : Kbd) (code : ℕ)
    → IsRing k
    → let k' = ps2_int_handler k code in
      IsRing k'
      × (get_or k'.scancode_buf k.scan_i 0 ≡ code)
      × (k'.scan_i ≡ (k.scan_i + 1) % 32)
      × (k'.read_i ≡ (if k.scan_i == k.read_i then (k.read_i + 1) % 32 else k.read_i))
unfolding ps2_int_handler
ps2_int_handler-IsRing k code h =
    let w = wrap_i_lem ((k.scan_i + 1) % 256) (omega (arith, h.1)) in
    let v =
      wrap_i_lem (if k.scan_i == k.read_i then (k.read_i + 1) % 256 else k.read_i)
        (ground (arith, h.2)) in
    (
      (length-set k.scancode_buf k.scan_i code ∙ h.0, omega (arith, w), omega (arith, v)),
      get_or-set_self k.scancode_buf k.scan_i code 0 (omega (arith, h.0, h.1)),
      omega (arith, w, h.1),
      ground (arith, v, h.2),
    )

-- The rounds that `kbd_read` has left.
abbrev left : Kbd → ℕ
left k = (k.scan_i + 31 - k.read_i) % 32

-- What a round keeps and adds.
abbrev Took : Kbd → List ℕ → List ℕ × Kbd → Type 0
Took k out r =
    (r.1.scancode_buf ≡ k.scancode_buf)
    × (r.1.scan_i ≡ k.scan_i)
    × (r.1.read_i ≡ k.read_i)
    × (length r.0 ≤ length out + 1)

take_code-Took : (k : Kbd) (out : List ℕ) → Took k out (take_code k out)
unfolding take_code
take_code-Took k out = elim (Bool-cases k.fresh) [
  | inr f ↦ rw (f) (refl, refl, refl, omega arith)
  | inl f ↦ elim (Bool-cases (scan_toc k.status (get_or k.scancode_buf k.read_i 0) == 0)) [
    | inl z ↦ rw (f, z) (refl, refl, refl, omega arith)
    | inr z ↦
        rw (f, z)
          (
            refl,
            refl,
            refl,
            omega (
              arith,
              length-append out (scan_toc k.status (get_or k.scancode_buf k.read_i 0) ∷ []),
            ),
          )
  ]
]

-- The result of a read of at most `n` characters: some, with both indices in bounds, and either the
-- buffer is full or the newest code has been reached.
abbrev pub ReadDone : ℕ → Option (List ℕ × Kbd) → Type 0
ReadDone n none = false ≡ true
ReadDone n (some (out, k)) =
    (length out ≤ n) × IsRing k × ((length out ≡ n) ⊎ ((k.read_i + 1) % 32 ≡ k.scan_i))

kbd_read_rounds :
    (fuel : ℕ) (k : Kbd) (n : ℕ) (out : List ℕ)
    → IsRing k
    → length out ≤ n
    → left k < fuel
    → ReadDone n (kbd_read fuel k n out)
unfolding kbd_read
kbd_read_rounds zero k n out h le f = absurd (omega arith)
kbd_read_rounds (suc fuel) k n out h le f = elim (Bool-cases (length out == n)) [
  | inl full ↦ rw (full) (le, h, inl (ground arith))
  | inr room ↦
      let t = take_code-Took k out in
      let r = take_code k out in
      let kept : IsRing r.1 = (ap length t.0 ∙ h.0, omega (arith, t, h), omega (arith, t, h)) in
      let fits : length r.0 ≤ n = ground (arith, t.3) in
      let w = wrap_i_lem (r.1.read_i + 1) (omega (arith, t.2, h)) in
      elim (Bool-cases (wrap_i (r.1.read_i + 1) == r.1.scan_i)) [
        | inl last ↦ rw (room, last) (fits, kept, inr (ground (arith, w)))
        | inr more ↦
            rw (room, more)
              (kbd_read_rounds fuel (advance_read r.1) n r.0 (kept.0, kept.1, ground (arith, kept))
                fits (ground (arith, w, t, h)))
      ]
]

-- `kbd_read` ends within 32 rounds: with both indices in bounds, it returns at most the `n`
-- characters that were asked for, keeps the indices in bounds, and stops short of `n` only where
-- it has reached the newest code.
pub kbd_read-ReadDone : (k : Kbd) (n : ℕ) → IsRing k → ReadDone n (kbd_read 32 k n [])
kbd_read-ReadDone k n h = kbd_read_rounds 32 k n [] h (omega arith) (omega arith)

unchanged :
    (k : Kbd) (code : ℕ)
    → ((ps2_int_handler k code).status ≡ k.status) × ((ps2_int_handler k code).fresh ≡ k.fresh)
unfolding ps2_int_handler
unchanged k code = (refl, refl)

-- A round that has nothing new to take.
kbd_read_skip :
    (fuel : ℕ) (k : Kbd) (n : ℕ) (out : List ℕ)
    → (length out == n) ≡ false
    → k.fresh ≡ false
    → (wrap_i (k.read_i + 1) == k.scan_i) ≡ false
    → kbd_read (suc fuel) k n out ≡ kbd_read fuel (advance_read k) n out
unfolding kbd_read take_code
kbd_read_skip fuel k n out room stale more = rw (stale, room, more) refl

-- The round that takes the newest code.
kbd_read_newest :
    (fuel : ℕ) (k : Kbd) (n : ℕ) (out : List ℕ)
    → (length out == n) ≡ false
    → k.fresh ≡ true
    → (scan_toc k.status (get_or k.scancode_buf k.read_i 0) == 0) ≡ false
    → (wrap_i (k.read_i + 1) == k.scan_i) ≡ true
    → kbd_read (suc fuel) k n out
      ≡ some (
        out ++ (scan_toc k.status (get_or k.scancode_buf k.read_i 0) ∷ []),
        record k { fresh = false },
      )
unfolding kbd_read take_code
kbd_read_newest fuel k n out room new printable last = rw (new, room, printable, last) refl

-- One code behind the one that was taken already.
read_one :
    (k : Kbd) (n : ℕ)
    → k.read_i < 32
    → k.fresh ≡ false
    → k.scan_i ≡ (k.read_i + 2) % 32
    → scan_toc k.status (get_or k.scancode_buf ((k.read_i + 1) % 32) 0) ≢ 0
    → 0 < n
    → kbd_read 32 k n []
      ≡ some (
        scan_toc k.status (get_or k.scancode_buf ((k.read_i + 1) % 32) 0) ∷ [],
        record k { read_i = (k.read_i + 1) % 32; fresh = false },
      )
read_one k n h stale behind ne lo =
    let k₂ = record k { read_i = (k.read_i + 1) % 32; fresh = true } in
    let there : (if k.read_i + 1 == 32 then 0 else k.read_i + 1) ≡ (k.read_i + 1) % 32 =
      ground arith in
    let w = wrap_i_lem (k.read_i + 1) (omega arith) in
    let w₂ = wrap_i_lem ((k.read_i + 1) % 32 + 1) (omega arith) in
    kbd_read_skip 31 k n [] (ground arith) stale (ground (arith, w))
    ∙ ap (λ (r : ℕ). kbd_read 31 (record k { read_i = r; fresh = true }) n []) there
    ∙ kbd_read_newest 30 k₂ n [] (ground arith) refl (ground arith) (ground (arith, w₂))

-- A code that comes after everything was read is the next one read: with `read_i` on the newest
-- code and that code taken, a key with a character, then a read of at least one character, gives
-- that character alone, and `read_i` is on the new code, which counts as taken.
pub kbd_read-ps2_int_handler :
    (k : Kbd) (code n : ℕ)
    → IsRing k
    → k.fresh ≡ false
    → (k.read_i + 1) % 32 ≡ k.scan_i
    → scan_toc k.status code ≢ 0
    → 0 < n
    → kbd_read 32 (ps2_int_handler k code) n []
      ≡ some (
        scan_toc k.status code ∷ [],
        record (ps2_int_handler k code) { read_i = k.scan_i; fresh = false },
      )
kbd_read-ps2_int_handler k code n h stale newest ne lo =
    let k₁ = ps2_int_handler k code in
    let at = ps2_int_handler-IsRing k code h in
    let same = unchanged k code in
    let read : k₁.read_i ≡ k.read_i = ground (arith, at.3, h.2) in
    let there : (k₁.read_i + 1) % 32 ≡ k.scan_i = ap (λ (r : ℕ). (r + 1) % 32) read ∙ newest in
    let char : scan_toc k₁.status (get_or k₁.scancode_buf ((k₁.read_i + 1) % 32) 0)
        ≡ scan_toc k.status code =
      ap₂ scan_toc same.0 (ap (λ (i : ℕ). get_or k₁.scancode_buf i 0) there ∙ at.1) in
    read_one k₁ n at.0.2 (same.1 ∙ stale) (ground (arith, at.2, read)) (λ e. ne (sym char ∙ e)) lo
    ∙ ap₂ (λ (c i : ℕ). some (c ∷ [], record k₁ { read_i = i; fresh = false })) char there
