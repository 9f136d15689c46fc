-- ===== src/Tests/ClientRuns.antt =====
-- The test programs on a driver that was just loaded, and a client of the demo server that takes its response in
-- pieces.
use project_linux.Base.{
  ℕ, ◌-◌, ◌≤◌, ◌≡◌, refl, Bool-cases, inl, inr, true, false, ◌++◌, length, take, replicate, leb,
  if◌then◌else◌, length-append, length-take, length-replicate, arith,
}
use project_linux.Text.{Str, codes}
use project_linux.Driver.{Copy, my_open, my_read, bytes}
use project_linux.Driver.Calls.{fresh, loaded}
use project_linux.Driver.TestApp.{msg, exited, test_app, test_app-Passes}
use project_linux.Driver.Blocking.{ReaderAt, WriterAt, Threads}
use project_linux.Driver.Blocking
use project_linux.Tests.DriverRuns.{loaded-AllBounded}

-- Memory in which a text stands, with zeros behind it.
abbrev memory_at : Str → ℕ → Copy
memory_at text' n = record {
  source = if leb n (length text') then take n text' else text' ++ replicate (n - length text') 0;
  complete = true;
}

memory_at_exact : (text' : Str) (n : ℕ) → length (memory_at text' n).source ≡ n
memory_at_exact text' n = elim (Bool-cases (leb n (length text'))) [
  | inl h ↦ rw h (length-take n text' (ground (arith, h)))
  | inr h ↦
      let long : length text' ≤ n = ground (arith, h) in
      rw h (
        omega (
          arith,
          length-append text' (replicate {A = ℕ} (n - length text') 0),
          length-replicate {A = ℕ} (n - length text') 0,
          long,
        ))
]

msg_there : (memory_at msg (length msg)).source ≡ msg
unfolding codes
msg_there = refl

test_app-Passes_example :
    ((test_app (memory_at msg) loaded.devs).0 ≡ exited 0)
    × ((test_app (memory_at msg) loaded.devs).1 0 ≡ fresh)
    × (my_read ((test_app (memory_at msg) loaded.devs).1 3) false false false 5 0
        ≡ bytes (codes "Hello"))
unfolding codes
test_app-Passes_example =
    test_app-Passes (memory_at msg) loaded.devs 3 5 false false (memory_at_exact msg) (λ k. refl)
      msg_there loaded-AllBounded refl (omega arith) refl

-- The reader has opened its device, the writer too.
abbrev both_open : Threads
both_open = record {
  devs = (my_open 1 (my_open 0 loaded.devs).1).1;
  reader = ReaderAt.reading;
  writer = WriterAt.writing;
}
