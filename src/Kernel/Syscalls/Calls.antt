-- ===== src/Kernel/Syscalls/Calls.antt =====
-- CourseWorks/infos/kernel/syscall.cpp: the calls on files and directories. Their classes are
-- parameters: the types, `PFSNode::open` and `opendir`, and the virtual functions of `File` and
-- `Directory`. An open file or directory stands at a place in a list, which is its address.
use inf3_os.Base.{
  ◌^◌, ℕ, zero, suc, ◌-◌, List, [], ◌∷◌, ◌++◌, Option, none, some, Outcome, ok, panic, ◌>>=◌, ◌==◌,
  if◌then◌else◌, length, get_elem?,
}
use inf3_os.Util.Text.{size_mod, strncpy}
use inf3_os.Fs.Vfs.{Nodes, node_to_open}
use inf3_os.Kernel.Objects.{ObjectManager, register_object, get_object_secure}

-- What a handle leads to: the calls cast its address without a test.
pub data Handled (F D : Type 0) : Type 0 where
  file_object : F → Handled F D
  directory_object : D → Handled F D

pub record FileClass (F : Type 0) : Type 0 where
  pub read : F → ℕ → Outcome (List ℕ × F)
  pub write : F → List ℕ → Outcome (ℕ × F)
  pub close : F → Outcome F

-- `read_entry` gives a name and a size where it returns true.
pub record DirectoryClass (D : Type 0) : Type 0 where
  pub read_entry : D → Outcome (Option (List ℕ × ℕ) × D)
  pub close : D → Outcome D

pub record CallState (F D : Type 0) : Type 0 where
  pub nodes : Nodes
  pub manager : ObjectManager
  pub objects : List (Handled F D)

-- What a call returns: the bytes that are read, of which it returns the number; a number; or the
-- name in the user's buffer and the size, where it returns 1.
pub data Answer : Type 0 where
  got_bytes : List ℕ → Answer
  returned : ℕ → Answer
  got_entry : List ℕ → ℕ → Answer

-- `KernelObject::Error`, a handle, and -1 as an `unsigned int`.
abbrev pub error : ℕ
error = size_mod - 1

abbrev pub minus_one : ℕ
minus_one = 2 ^ 32 - 1

abbrev pub set {ℓ} : {A : Type ℓ} → List A → ℕ → A → List A
set [] i y = []
set (x ∷ xs) zero y = y ∷ xs
set (x ∷ xs) (suc i) y = x ∷ set xs i y

module _ {F D : Type 0} where
  -- A new object, and its handle.
  unfoldable pub add_object : ℕ → Handled F D → CallState F D → Outcome (ℕ × CallState F D)
  add_object thread obj s = do
    (handle, manager) ← register_object s.manager thread (length s.objects)
    ok (handle, record s { manager = manager; objects = s.objects ++ obj ∷ [] })

  -- `VirtualFilesystem::open` or `opendir` after the lookup, and the rest of the call.
  unfoldable pub open_found :
      (ℕ → Option (Handled F D)) → ℕ → Option ℕ → CallState F D → Outcome (ℕ × CallState F D)
  open_found open_pn thread none s = ok (error, s)
  open_found open_pn thread (some pn) s = elim (open_pn pn) [
    | none ↦ ok (error, s)
    | some obj ↦ add_object thread obj s
  ]

  -- `sys_open` or `sys_opendir` of a thread, with what `PFSNode::open` or `opendir` gives.
  unfoldable pub sys_open :
      (ℕ → List ℕ → Option ℕ)
      → (ℕ → Option (Handled F D))
      → ℕ
      → List ℕ
      → CallState F D
      → Outcome (ℕ × CallState F D)
  sys_open pfs_child open_pn thread path s = do
    (pn, nodes) ← node_to_open pfs_child path s.nodes
    open_found open_pn thread pn (record s { nodes = nodes })

  -- An action on the object at an address.
  unfoldable pub act_at :
      (Handled F D → Outcome (Answer × Handled F D))
      → ℕ
      → CallState F D
      → Outcome (Answer × CallState F D)
  act_at act address s = elim (get_elem? s.objects address) [
    | none ↦ panic
    | some obj ↦ do
      (answer, after) ← act obj
      ok (answer, record s { objects = set s.objects address after })
  ]

  -- The start that the calls on handles share, with what they return at NULL.
  unfoldable pub on_object :
      (ℕ → ℕ)
      → Answer
      → (Handled F D → Outcome (Answer × Handled F D))
      → ℕ
      → ℕ
      → CallState F D
      → Outcome (Answer × CallState F D)
  on_object process_of refusal act thread handle s =
      elim (get_object_secure process_of s.manager thread handle) [
        | none ↦ ok (refusal, s)
        | some address ↦ act_at act address s
      ]

-- What the calls do to a `File`; on a directory they call what is no such function.
module _ {F D : Type 0} (files : FileClass F) where
  abbrev pub read_object : ℕ → Handled F D → Outcome (Answer × Handled F D)
  read_object size (file_object f) = do
    (bytes, after) ← files.read f size
    ok (got_bytes bytes, file_object after)
  read_object size (directory_object d) = panic

  abbrev pub write_object : List ℕ → Handled F D → Outcome (Answer × Handled F D)
  write_object bytes (file_object f) = do
    (count, after) ← files.write f bytes
    ok (returned count, file_object after)
  write_object bytes (directory_object d) = panic

  abbrev pub close_object : Handled F D → Outcome (Answer × Handled F D)
  close_object (file_object f) = do after ← files.close f; ok (returned 0, file_object after)
  close_object (directory_object d) = panic

-- The user's buffer with the entry, of whose name at most 63 characters are copied.
unfoldable pub give_entry : List ℕ → Option (List ℕ × ℕ) → Outcome Answer
give_entry buffer none = ok (returned 0)
give_entry buffer (some (name, size)) = do
  copied ← strncpy buffer (name ++ 0 ∷ []) 63
  ok (got_entry copied size)

-- What they do to a `Directory`.
module _ {F D : Type 0} (directories : DirectoryClass D) where
  abbrev pub readdir_object : List ℕ → Handled F D → Outcome (Answer × Handled F D)
  readdir_object buffer (file_object f) = panic
  readdir_object buffer (directory_object d) = do
    (entry, after) ← directories.read_entry d
    answer ← give_entry buffer entry
    ok (answer, directory_object after)

  abbrev pub closedir_object : Handled F D → Outcome (Answer × Handled F D)
  closedir_object (file_object f) = panic
  closedir_object (directory_object d) = do
    after ← directories.close d
    ok (returned 0, directory_object after)

-- A call on a handle, with its arguments.
pub data Call : Type 0 where
  sys_read : ℕ → Call
  sys_write : List ℕ → Call
  sys_close : Call
  sys_readdir : List ℕ → Call
  sys_closedir : Call

-- What the calls return at NULL.
abbrev pub refusal : Call → Answer
refusal (sys_read size) = returned minus_one
refusal (sys_write bytes) = returned minus_one
refusal sys_close = returned minus_one
refusal (sys_readdir buffer) = returned 0
refusal sys_closedir = returned minus_one

module _ {F D : Type 0} (files : FileClass F) (directories : DirectoryClass D) where
  abbrev pub action : Call → Handled F D → Outcome (Answer × Handled F D)
  action (sys_read size) = read_object files size
  action (sys_write bytes) = write_object files bytes
  action sys_close = close_object files
  action (sys_readdir buffer) = readdir_object directories buffer
  action sys_closedir = closedir_object directories

  -- The calls on one handle, each of a thread: what they return.
  unfoldable pub calls_on : (ℕ → ℕ) → ℕ → List (ℕ × Call) → CallState F D → Outcome (List Answer)
  calls_on process_of handle [] s = ok []
  calls_on process_of handle ((thread, call) ∷ calls) s = do
    (answer, after) ← on_object process_of (refusal call) (action call) thread handle s
    answers ← calls_on process_of handle calls after
    ok (answer ∷ answers)

  -- The same on the object itself, where a thread of another process is refused.
  unfoldable pub own_call : (ℕ → ℕ) → ℕ → ℕ → Call → Handled F D → Outcome (Answer × Handled F D)
  own_call process_of owner thread call obj =
      let mine = action call obj in
      if process_of owner == process_of thread then mine else ok (refusal call, obj)

  unfoldable pub own_calls : (ℕ → ℕ) → ℕ → List (ℕ × Call) → Handled F D → Outcome (List Answer)
  own_calls process_of owner [] obj = ok []
  own_calls process_of owner ((thread, call) ∷ calls) obj = do
    (answer, after) ← own_call process_of owner thread call obj
    answers ← own_calls process_of owner calls after
    ok (answer ∷ answers)
