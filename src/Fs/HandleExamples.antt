-- ===== src/Fs/HandleExamples.antt =====
-- Three handles at one inode, of which the first is released (pkg/fs/client/vfs/handle.go).
use paddle_flow.Prelude.{
  List, [], arith, false, if◌then◌else◌, none, some, true, ◌&&◌, ◌==◌, ◌∷◌, ◌≡◌,
}
use paddle_flow.Fs.Handle.{Table, find_handle, new_handle, release_handle}
use paddle_flow.Fs.Handle.Refinement.{IsValid, new_handle-find_handle, release_handle-find_handle}
use paddle_flow.Fs.Handle.Runs.{Operation, open_handle, release, run, run-IsValid}

abbrev no_handles : Table
no_handles = record { next_fh = 1; handle_map = λ i. [] }

no_handles-IsValid : IsValid no_handles
no_handles-IsValid = record { distinct = λ i. tt; given_out = λ i h j. absurd j }

abbrev operations : List Operation
operations =
    open_handle 7 true false ∷ open_handle 7 false true ∷ open_handle 7 true true ∷ release 7 1 ∷ []

run-IsValid_example : IsValid (run no_handles operations)
run-IsValid_example = run-IsValid no_handles operations no_handles-IsValid (omega arith)

operations-IsValid : IsValid (run no_handles operations)
operations-IsValid = run-IsValid no_handles operations no_handles-IsValid (omega arith)

release_handle-find_handle_example :
    find_handle (release_handle (run no_handles operations) 7 2) 7 3
    ≡ (if (7 == 7) && (3 == 2) then none else find_handle (run no_handles operations) 7 3)
release_handle-find_handle_example =
    release_handle-find_handle (run no_handles operations) operations-IsValid 7 2 7 3

new_handle-find_handle_example : find_handle (new_handle no_handles 7 true false).1 7 1 ≡ (
    if (7 == 7) && (1 == (new_handle no_handles 7 true false).0.fh)
    then some (new_handle no_handles 7 true false).0
    else find_handle no_handles 7 1)
new_handle-find_handle_example =
    new_handle-find_handle no_handles no_handles-IsValid 7 true false 7 1
