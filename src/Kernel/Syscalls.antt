-- ===== src/Kernel/Syscalls.antt =====
-- CourseWorks/infos/kernel/syscall.cpp: the table of system calls. An `int` is a number below 2 ^ 32,
-- and negative from 2 ^ 31 on.
pub mod Calls
pub mod Files
pub mod Dispatch
mod Tests
use inf3_os.Base.{
  ◌-◌, ℕ, zero, suc, ◌^◌, Bool, true, false, ◌||◌, List, [], ◌∷◌, ◌++◌, Option, none, some, Outcome,
  ok, panic, ◌>>=◌, leb, ltb, ◌==◌, if◌then◌else◌, length, get_elem?,
}
use inf3_os.Util.Text.{size_mod}
use inf3_os.Fs.Vfs.{Nodes, node_to_open}
use inf3_os.Kernel.Objects.{ObjectManager, register_object, get_object_secure}

abbrev pub max_syscalls : ℕ
max_syscalls = 256

abbrev pub int_end : ℕ
int_end = 2 ^ 31

-- The functions of the table; `none` is the null pointer.
abbrev pub Table : Type 0 → Type 0
Table Fn = ℕ → Option Fn

abbrev pub out_of_range : ℕ → Bool
out_of_range nr = leb int_end nr || leb max_syscalls nr

module _ {Fn : Type 0} where
  -- `SyscallManager::SyscallManager`.
  abbrev pub empty_table : Table Fn
  empty_table nr = none

  unfoldable pub register_syscall : Table Fn → ℕ → Fn → Table Fn
  register_syscall table nr fn =
      if out_of_range nr then table else (λ other. if other == nr then some fn else table other)

  -- The function that `InvokeSyscall` calls; `none` where it returns -1.
  unfoldable pub invoked : Table Fn → ℕ → Option Fn
  invoked table nr = if out_of_range nr then none else table nr

  -- Calls of `RegisterSyscall` with the numbers from `nr` on.
  unfoldable pub register_from : ℕ → List Fn → Table Fn → Table Fn
  register_from nr [] table = table
  register_from nr (fn ∷ fns) table = register_from (suc nr) fns (register_syscall table nr fn)

-- `RegisterDefaultSyscalls`.
pub data DefaultSyscall : Type 0 where
  sys_nop sys_yield sys_exit : DefaultSyscall
  sys_open sys_close sys_read sys_write : DefaultSyscall
  sys_opendir sys_readdir sys_closedir : DefaultSyscall
  sys_exec sys_wait_proc sys_create_thread sys_stop_thread sys_join_thread : DefaultSyscall
  sys_usleep sys_get_tod : DefaultSyscall

abbrev pub default_syscalls : List DefaultSyscall
default_syscalls =
    sys_nop ∷ sys_yield ∷ sys_exit ∷ sys_open ∷ sys_close ∷ sys_read ∷ sys_write ∷ sys_opendir
    ∷ sys_readdir ∷ sys_closedir ∷ sys_exec ∷ sys_wait_proc ∷ sys_create_thread ∷ sys_stop_thread
    ∷ sys_join_thread ∷ sys_usleep ∷ sys_get_tod ∷ []

abbrev pub default_table : Table DefaultSyscall
default_table = register_from 0 default_syscalls empty_table
