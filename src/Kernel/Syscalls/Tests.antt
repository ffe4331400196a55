-- ===== src/Kernel/Syscalls/Tests.antt =====
-- Instances of the theorems on system calls.
use inf3_os.Base.{ℕ, ◌/◌, List, [], ◌∷◌, Option, none, some, Outcome, ok}
use inf3_os.Fs.Vfs.{root_node, lookup_node, node_to_open}
use inf3_os.Kernel.Objects.{new}
use inf3_os.Kernel.Syscalls.Calls.{Handled, file_object, FileClass, DirectoryClass, CallState}

program : Unit {0}
unfolding node_to_open lookup_node
program = tt

-- A file is the list of the bytes that are left, of which a read takes one. There are no directories.
abbrev next_byte : List ℕ → ℕ → Outcome (List ℕ × List ℕ)
next_byte [] size = ok ([], [])
next_byte (byte ∷ file) size = ok (byte ∷ [], file)

abbrev byte_files : FileClass (List ℕ)
byte_files = record {
  read = next_byte;
  write = λ file bytes. ok (0, file);
  close = λ file. ok file;
}

abbrev no_directories : DirectoryClass ℕ
no_directories = record { read_entry = λ d. ok (none, d); close = λ d. ok d }

abbrev one_file : ℕ → Option (Handled (List ℕ) ℕ)
one_file pn = some (file_object (5 ∷ 6 ∷ []))

abbrev no_children : ℕ → List ℕ → Option ℕ
no_children pn name = none

abbrev two_each : ℕ → ℕ
two_each thread = thread / 2

abbrev start : CallState (List ℕ) ℕ
start = record { nodes = root_node 7; manager = new; objects = [] }
