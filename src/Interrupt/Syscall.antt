-- ===== src/Interrupt/Syscall.antt =====
-- System calls: the user library's libcpp/src/syscall.cpp and libcpp/src/arch/x64/syscall.asm, and the
-- kernel's src/syscall/syscall.cpp, src/kdata.cpp and src/arch/x64/syscall/syscall.asm. Numbers are words of 64 bits.
use cpp_os.Base.{
  ℕ, ◌+◌, ◌-◌, ◌*◌, ◌/◌, ◌%◌, ◌^◌, bit_or, ◌<◌, ◌≤◌, ◌≡◌, refl, inl, inr, Bool, true, false, Option,
  none, some, List, [], ◌∷◌, ◌++◌, ltb, ◌==◌, if◌then◌else◌, get_elem?, arith, Bool-cases,
}

-- One `wrmsr (msr, value)`, and the numbers of the registers.
pub record MsrWrite : Type 0 where
  pub msr : ℕ
  pub value : ℕ

abbrev wrmsr : ℕ → ℕ → MsrWrite
wrmsr msr value = record { msr = msr; value = value }

-- `void call::init (void)`; `efer` is what the register is read as, and `entry` the address of `syscall_entry`.
unfoldable pub call_init : ℕ → ℕ → List MsrWrite
call_init efer entry =
    wrmsr 0xc0000080 (bit_or efer 1)
    ∷ wrmsr 0xc0000082 entry
    ∷ wrmsr 0xc0000084 0x200
    ∷ wrmsr 0xc0000081 0x0013000800000000
    ∷ []

-- `void kdata::init (void)`, with the address of the data.
unfoldable pub kdata_init : ℕ → List MsrWrite
kdata_init addr = wrmsr 0xc0000101 addr ∷ wrmsr 0xc0000102 addr ∷ []

-- The kernel's functions that a call reaches.
pub data Service : Type 0 where
  hi sys_thread_new sys_thread_block sys_exit sys_create_semaphore : Service
  sys_delete_semaphore sys_semaphore_lock sys_semaphore_try_lock : Service
  sys_semaphore_unlock sys_realloc : Service

-- `syscalls`, up to the last entry that is set; `none` is the null pointer.
abbrev pub syscalls : List (Option Service)
syscalls =
    some hi
    ∷ none
    ∷ some sys_thread_new
    ∷ some sys_thread_block
    ∷ some sys_exit
    ∷ some sys_create_semaphore
    ∷ some sys_delete_semaphore
    ∷ some sys_semaphore_lock
    ∷ some sys_semaphore_try_lock
    ∷ some sys_semaphore_unlock
    ∷ some sys_realloc
    ∷ []

-- The registers that a call uses.
pub record CallRegs : Type 0 where
  pub rsi : ℕ
  pub rdx : ℕ
  pub rbx : ℕ
  pub r8 : ℕ
  pub r9 : ℕ
  pub rdi : ℕ
  pub rax : ℕ
  pub r12 : ℕ
  pub r13 : ℕ
  pub r14 : ℕ
  pub r15 : ℕ

-- Whether `__SYS_EARGS` is among the options.
abbrev pub has_eargs : ℕ → Bool
has_eargs num = num / 2 ^ 32 % 2 == 1

-- `syscall` of the library at its system call instruction: `args` gives the arguments 1 to 10, or
-- what stands in their places, and `old` the registers that it does not set.
unfoldable pub syscall : CallRegs → ℕ → (ℕ → ℕ) → CallRegs
syscall old num args =
    let regs = record old {
      rsi = num;
      rdx = args 1;
      rbx = args 2;
      r8 = args 3;
      r9 = args 4;
      rdi = args 5;
    } in
    if has_eargs num
    then record regs { r15 = args 6; r14 = args 7; r13 = args 8; r12 = args 9; rax = args 10 }
    else record regs { rax = args 6 }

-- What `syscall_entry` does: it returns -1, calls a function with the options and ten arguments, or
-- calls the null pointer.
pub data Entered : Type 0 where
  invalid_syscall null_called : Entered
  called : Service → ℕ → List ℕ → Entered

unfoldable pub syscall_entry : CallRegs → Entered
syscall_entry r =
    let n = r.rsi % 2 ^ 32 in
    let args = r.rdx ∷ r.rbx ∷ r.r8 ∷ r.r9 ∷ r.rdi ∷ r.rax ∷ r.r12 ∷ r.r13 ∷ r.r14 ∷ r.r15 ∷ [] in
    if ltb 10 n then invalid_syscall else elim (get_elem? syscalls n) [
      | none ↦ invalid_syscall
      | some service ↦ elim service [ none ↦ null_called | some f ↦ called f (r.rsi / 2 ^ 32) args ]
    ]

-- The library's functions.
pub data LibCall : Type 0 where
  thread_new exit create_semaphore delete_semaphore : ℕ → LibCall
  semaphore_lock semaphore_try_lock semaphore_unlock : ℕ → LibCall
  thread_block : ℕ → ℕ → LibCall

-- `__SYS_THREAD_NEW` and so on, as each function passes it.
abbrev pub number_of : LibCall → ℕ
number_of (thread_new func) = 2
number_of (thread_block reason nsec) = 3
number_of (exit code) = 4
number_of (create_semaphore n) = 5
number_of (delete_semaphore id) = 6
number_of (semaphore_lock id) = 7
number_of (semaphore_try_lock id) = 8
number_of (semaphore_unlock id) = 9

abbrev pub passed_args : LibCall → List ℕ
passed_args (thread_new func) = func ∷ []
passed_args (thread_block reason nsec) = reason ∷ nsec ∷ []
passed_args (exit code) = code ∷ []
passed_args (create_semaphore n) = n ∷ []
passed_args (delete_semaphore id) = id ∷ []
passed_args (semaphore_lock id) = id ∷ []
passed_args (semaphore_try_lock id) = id ∷ []
passed_args (semaphore_unlock id) = id ∷ []

-- A call of the library's function; `junk` is what stands in the places of the arguments that it does not pass.
abbrev placed : List ℕ → (ℕ → ℕ) → ℕ → ℕ
placed [] junk i = junk i
placed (a ∷ others) junk i = if i == 1 then a else placed others junk (i - 1)

unfoldable pub lib_call : CallRegs → (ℕ → ℕ) → LibCall → CallRegs
lib_call old junk c = syscall old (number_of c) (placed (passed_args c) junk)

-- The function of the kernel with the name of the library's.
abbrev pub service_of : LibCall → Service
service_of (thread_new func) = sys_thread_new
service_of (thread_block reason nsec) = sys_thread_block
service_of (exit code) = sys_exit
service_of (create_semaphore n) = sys_create_semaphore
service_of (delete_semaphore id) = sys_delete_semaphore
service_of (semaphore_lock id) = sys_semaphore_lock
service_of (semaphore_try_lock id) = sys_semaphore_try_lock
service_of (semaphore_unlock id) = sys_semaphore_unlock

-- Each function of the user library reaches the function of the kernel that it is named after, with
-- no options and its arguments in their places.
pub syscall_entry-lib_call :
    (old : CallRegs) (junk : ℕ → ℕ) (c : LibCall)
    → (rest : List ℕ) × (syscall_entry (lib_call old junk c)
        ≡ called (service_of c) 0 (passed_args c ++ rest))
unfolding syscall_entry lib_call syscall
syscall_entry-lib_call old junk (thread_new func) = (_, refl)
syscall_entry-lib_call old junk (thread_block reason nsec) = (_, refl)
syscall_entry-lib_call old junk (exit code) = (_, refl)
syscall_entry-lib_call old junk (create_semaphore n) = (_, refl)
syscall_entry-lib_call old junk (delete_semaphore id) = (_, refl)
syscall_entry-lib_call old junk (semaphore_lock id) = (_, refl)
syscall_entry-lib_call old junk (semaphore_try_lock id) = (_, refl)
syscall_entry-lib_call old junk (semaphore_unlock id) = (_, refl)

-- Arguments that a call passes by `syscall`. Without extended arguments the kernel's function gets the first six in
-- order; with them it gets the sixth to the tenth in the reverse order. The number 1, with any
-- options, makes the kernel call the null pointer, and the numbers above 10 are refused.
pub syscall_entry-syscall :
    (old : CallRegs) (n options : ℕ) (args : ℕ → ℕ)
    → n < 2 ^ 32
    → let entered = syscall_entry (syscall old (options * 2 ^ 32 + n) args) in
      let first = λ (rest : List ℕ). args 1 ∷ args 2 ∷ args 3 ∷ args 4 ∷ args 5 ∷ rest in
      (n ≡ 1 → entered ≡ null_called)
      × (10 < n → entered ≡ invalid_syscall)
      × ((f : Service)
          → n ≤ 10
          → get_elem? syscalls n ≡ some (some f)
          → (options % 2 ≡ 0
              → (rest : List ℕ) × (entered ≡ called f options (first (args 6 ∷ rest))))
            × (options % 2 ≡ 1
                → entered
                  ≡ called f options (first (args 10 ∷ args 9 ∷ args 8 ∷ args 7 ∷ args 6 ∷ []))))
unfolding syscall_entry syscall
syscall_entry-syscall old n options args h =
    let low : (options * 2 ^ 32 + n) % 2 ^ 32 ≡ n = omega arith in
    let high : (options * 2 ^ 32 + n) / 2 ^ 32 ≡ options = omega arith in
    let even : options % 2 ≡ 0 → has_eargs (options * 2 ^ 32 + n) ≡ false =
      λ e. ground (arith, e, high) in
    let odd : options % 2 ≡ 1 → has_eargs (options * 2 ^ 32 + n) ≡ true =
      λ e. ground (arith, e, high) in
    (
      (λ e. elim (Bool-cases (has_eargs (options * 2 ^ 32 + n))) [
        | inl extended ↦ rw (extended, low, e) refl
        | inr short ↦ rw (short, low, e) refl
      ]),
      (λ above.
          let out : ltb 10 n ≡ true = ground (arith, above) in
          elim (Bool-cases (has_eargs (options * 2 ^ 32 + n))) [
            | inl extended ↦ rw (extended, low, out) refl
            | inr short ↦ rw (short, low, out) refl
          ]),
      (λ f le entry.
          let within : ltb 10 n ≡ false = ground (arith, le) in
          (
            (λ e. (
              old.r12 ∷ old.r13 ∷ old.r14 ∷ old.r15 ∷ [],
              rw (even e, low, within, entry, even e, high) refl,
            )),
            (λ e. rw (odd e, low, within, entry, odd e, high) refl),
          )),
    )
