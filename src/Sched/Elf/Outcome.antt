-- ===== src/Sched/Elf/Outcome.antt =====
-- What the loading of a program leads to.
use cpp_os.Base.{
  ℕ, zero, suc, ◌+◌, ◌*◌, ◌^◌, ◌<◌, ◌≤◌, ◌≡◌, ◌≢◌, refl, ap, ◌∙◌, inl, inr, ◌⊎◌, Bool, true, false,
  ◌||◌, List, [], ◌∷◌, ◌++◌, ltb, ◌==◌, if◌then◌else◌, add64, arith, Bool-cases, subst, sym, ==→eq,
  ==→ne, ltb→ge, ne→==,
}
use cpp_os.Sched.Elf.{
  Header, PHeader, Answers, Event, create_process, delete_process, allocz, copy_bytes, map_at,
  new_thread, is_invalid, table_outside, segment_flags, copy_segment, load_loop, first_thread,
  load_elf, elf_p_load, p_header_size,
}

-- How often a process is deleted.
abbrev pub deletions : List Event → ℕ
deletions [] = 0
deletions (delete_process ∷ es) = suc (deletions es)
deletions (create_process u ∷ es) = deletions es
deletions (allocz n ∷ es) = deletions es
deletions (copy_bytes d s n ∷ es) = deletions es
deletions (map_at p v n f ∷ es) = deletions es
deletions (new_thread t ∷ es) = deletions es

deletions-append : (es fs : List Event) → deletions (es ++ fs) ≡ deletions es + deletions fs
deletions-append [] fs = omega arith
deletions-append (delete_process ∷ es) fs = ap suc (deletions-append es fs) ∙ omega arith
deletions-append (create_process u ∷ es) fs = deletions-append es fs
deletions-append (allocz n ∷ es) fs = deletions-append es fs
deletions-append (copy_bytes d s n ∷ es) fs = deletions-append es fs
deletions-append (map_at p v n f ∷ es) fs = deletions-append es fs
deletions-append (new_thread t ∷ es) fs = deletions-append es fs

-- The last call, and no other, deletes the process.
abbrev pub IsUndone : List Event → Type 0
IsUndone calls =
    (front : List Event) × (calls ≡ front ++ (delete_process ∷ [])) × (deletions front ≡ 0)

module _ (a : Answers) (p_hdrs : ℕ → PHeader) (prgrm len uid : ℕ) where
  -- What loading one segment takes.
  abbrev pub segment_calls : ℕ → List Event
  segment_calls i =
      let p = p_hdrs i in
      allocz p.p_memsz
      ∷ copy_segment p (a.mem i) prgrm
      ∷ map_at (a.mem i) p.p_vaddr p.p_memsz (segment_flags p uid)
      ∷ []

  abbrev pub segment : ℕ → List Event
  segment i = if (p_hdrs i).type == elf_p_load then segment_calls i else []

  abbrev pub segments : ℕ → ℕ → List Event
  segments zero i = []
  segments (suc n) i = segment i ++ segments n (i + 1)

  -- The segment of a header can be loaded: its bytes lie in the file by the code's sum, there is
  -- memory for it and it can be mapped.
  abbrev pub IsLoadable : ℕ → Type 0
  IsLoadable i =
      let p = p_hdrs i in
      (p.type ≡ elf_p_load)
      → (add64 p.p_offset p.p_filesz ≤ len) × (a.mem i ≢ 0) × (a.mapped i ≡ true)

  abbrev pub AllLoadable : ℕ → ℕ → Type 0
  AllLoadable n i = (j : ℕ) → i ≤ j → j < i + n → IsLoadable j

  -- All are loaded, each of which can be loaded, and nothing is deleted; or the last call, and the
  -- only one of its kind, deletes the process.
  abbrev pub LoopDone : ℕ → ℕ → Bool × List Event → Type 0
  LoopDone n i (ok, calls) =
      ((ok ≡ true) × (calls ≡ segments n i) × (deletions calls ≡ 0) × AllLoadable n i)
      ⊎ ((ok ≡ false) × IsUndone calls)

  AllLoadable-suc : (n i : ℕ) → IsLoadable i → AllLoadable n (i + 1) → AllLoadable (suc n) i
  AllLoadable-suc n i here all j lo hi = elim (Bool-cases (j == i)) [
    | inl e ↦ subst IsLoadable (sym (==→eq j i e)) here
    | inr ne ↦ all j (ground arith) (omega arith)
  ]

  load_loop-LoopDone : (n i : ℕ) → LoopDone n i (load_loop a p_hdrs prgrm len uid n i)
  unfolding load_loop copy_segment
  load_loop-LoopDone zero i = inl (refl, refl, refl, λ j lo hi. absurd (omega arith))
  load_loop-LoopDone (suc n) i = elim (Bool-cases ((p_hdrs i).type == elf_p_load)) [
    | inr other ↦ rw other (elim (load_loop-LoopDone n (i + 1)) [
      | inl (ok, e, d, all) ↦ inl (
        ok,
        e,
        d,
        AllLoadable-suc n i (λ l. absurd (==→ne (p_hdrs i).type elf_p_load other l)) all,
      )
      | inr bad ↦ inr bad
    ])
    | inl load ↦ elim (Bool-cases (ltb len (add64 (p_hdrs i).p_offset (p_hdrs i).p_filesz))) [
      | inl long ↦ rw (load, long) (inr (refl, ([], refl, refl)))
      | inr fits ↦ elim (Bool-cases (a.mem i == 0)) [
        | inl none_left ↦
            rw (load, fits, none_left) (inr (refl, (allocz (p_hdrs i).p_memsz ∷ [], refl, refl)))
        | inr got ↦ elim (Bool-cases (a.mapped i)) [
          | inr refused ↦ rw (load, fits, got, refused) (inr (refl, (segment_calls i, refl, refl)))
          | inl mapped ↦
              rw (load, fits, got, mapped)
                (elim (load_loop-LoopDone n (i + 1)) [
                  | inl (ok, e, d, all) ↦ inl (
                    ok,
                    ap (λ (es : List Event). segment_calls i ++ es) e,
                    d,
                    AllLoadable-suc n i (λ _. (ltb→ge _ _ fits, ==→ne (a.mem i) 0 got, mapped)) all,
                  )
                  | inr (bad, (front, e, d)) ↦ inr (
                    bad,
                    (
                      segment_calls i ++ front,
                      ap (λ (es : List Event). segment_calls i ++ es) e,
                      d,
                    ),
                  )
                ])
        ]
      ]
    ]
  ]

  deletions-thread :
      (h : Header) (calls : List Event)
      → deletions calls ≡ 0
      → deletions (create_process uid ∷ calls ++ (new_thread h.entry ∷ [])) ≡ 0
  deletions-thread h calls e = omega (arith, e, deletions-append calls (new_thread h.entry ∷ []))

  append_two : (es : List Event) (e f : Event) → es ++ (e ∷ f ∷ []) ≡ (es ++ (e ∷ [])) ++ (f ∷ [])
  append_two [] e f = refl
  append_two (x ∷ es) e f = ap (λ (l : List Event). x ∷ l) (append_two es e f)

  -- What follows the loop.
  started :
      (h : Header) (r : Bool × List Event)
      → LoopDone h.p_hdr_n 0 r
      → a.process ≢ 0
      → let (out, calls) = first_thread a p_hdrs prgrm len uid h r in
        ((out ≡ a.process)
          × (out ≢ 0)
          × (calls ≡ create_process uid ∷ segments h.p_hdr_n 0 ++ (new_thread h.entry ∷ []))
          × AllLoadable h.p_hdr_n 0)
        ⊎ ((out ≡ 0) × IsUndone calls)
  unfolding first_thread
  started h (false, calls) (inl (ok, e, d, all)) p = absurd (ground (arith, ok))
  started h (false, calls) (inr (no_, (front, e, d))) p =
      inr (refl, (create_process uid ∷ front, ap (λ (l : List Event). create_process uid ∷ l) e, d))
  started h (true, calls) (inr (bad, u)) p = absurd (ground (arith, bad))
  started h (true, calls) (inl (ok, e, d, all)) p = elim (Bool-cases (a.thread == 0)) [
    | inl none_left ↦ rw none_left (
        inr (
          refl,
          (
            create_process uid ∷ calls ++ (new_thread h.entry ∷ []),
            ap (λ (l : List Event). create_process uid ∷ l)
                (append_two calls (new_thread h.entry) delete_process),
            deletions-thread h calls d,
          ),
        ))
    | inr got ↦ rw got (
        inl (
          refl,
          p,
          ap (λ (l : List Event). create_process uid ∷ l ++ (new_thread h.entry ∷ [])) e,
          all,
        ))
  ]

  -- Every outcome of the loading of a program. With a header whose fields do not match, or a table
  -- that the test of its place refuses, nothing is called, and without memory for the process nothing
  -- but its creation; the result is null. Otherwise either the result is the process, and the calls
  -- are its creation, then for each loadable program header in order the memory, the copy and the
  -- mapping, and the first thread, where the bytes of every such header lie in the file by the code's
  -- sum; or the result is null, and the last call, and no other, deletes the process.
  pub load_elf-outcome :
      (h : Header)
      → let (out, calls) = load_elf a p_hdrs prgrm len uid h in
        ((out ≡ 0) × ((is_invalid h || table_outside h prgrm len) ≡ true) × (calls ≡ []))
        ⊎ ((out ≡ 0) × (a.process ≡ 0) × (calls ≡ create_process uid ∷ []))
        ⊎ ((out ≡ a.process)
            × (out ≢ 0)
            × (calls ≡ create_process uid ∷ segments h.p_hdr_n 0 ++ (new_thread h.entry ∷ []))
            × AllLoadable h.p_hdr_n 0)
        ⊎ ((out ≡ 0) × IsUndone calls)
  unfolding load_elf first_thread
  load_elf-outcome h = elim (Bool-cases (is_invalid h)) [
    | inl bad ↦ rw bad (inl (refl, refl, refl))
    | inr valid ↦ elim (Bool-cases (table_outside h prgrm len)) [
      | inl bad ↦ rw (valid, bad) (inl (refl, refl, refl))
      | inr inside ↦ elim (Bool-cases (a.process == 0)) [
        | inl none_left ↦
            rw (valid, inside, none_left) (inr (inl (refl, ==→eq a.process 0 none_left, refl)))
        | inr got ↦
            rw (valid, inside, got)
              (inr (
                inr (
                  started h (load_loop a p_hdrs prgrm len uid h.p_hdr_n 0)
                    (load_loop-LoopDone h.p_hdr_n 0) (==→ne a.process 0 got))))
      ]
    ]
  ]

-- What the tests let through. A program of one loadable header is loaded and run although its table
-- of headers lies behind the end of the file, as long as it ends below the file's end as an address,
-- and although its segment has more bytes in the file than in memory: all those bytes are copied into
-- the smaller block. The other fields are right, and every call of another part succeeds.
pub load_elf-unchecked :
    (a : Answers) (p_hdrs : ℕ → PHeader) (prgrm len uid : ℕ) (h : Header)
    → is_invalid h ≡ false
    → h.p_hdr_n ≡ 1
    → h.p_hdr_entry_size ≡ p_header_size
    → len ≤ h.p_hdr
    → h.p_hdr + p_header_size ≤ prgrm + len
    → prgrm + len < 2 ^ 64
    → (p_hdrs 0).type ≡ elf_p_load
    → (p_hdrs 0).p_offset + (p_hdrs 0).p_filesz ≤ len
    → (p_hdrs 0).p_memsz < (p_hdrs 0).p_filesz
    → (a.process ≢ 0) × (a.thread ≢ 0) × (a.mem 0 ≢ 0) × (a.mapped 0 ≡ true)
    → load_elf a p_hdrs prgrm len uid h ≡ (
      a.process,
      create_process uid ∷ segment_calls a p_hdrs prgrm len uid 0 ++ (new_thread h.entry ∷ []),
    )
unfolding load_elf load_loop first_thread table_outside
load_elf-unchecked a p_hdrs prgrm len uid h valid one size behind below no_wrap load fits more
      (process, thread, mem, mapped) =
    let inside : ltb (add64 prgrm len) (add64 h.p_hdr (h.p_hdr_n * h.p_hdr_entry_size)) ≡ false =
      rw (one, size) (ground arith) in
    let is_load : ((p_hdrs 0).type == elf_p_load) ≡ true = ground (arith, load) in
    let within : ltb len (add64 (p_hdrs 0).p_offset (p_hdrs 0).p_filesz) ≡ false = ground arith in
    rw
      (
        valid,
        inside,
        ne→== _ _ process,
        one,
        is_load,
        within,
        ne→== _ _ mem,
        mapped,
        ne→== _ _ thread,
      )
      refl
