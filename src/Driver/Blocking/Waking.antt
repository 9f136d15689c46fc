-- ===== src/Driver/Blocking/Waking.antt =====
-- The reader is woken by the writer, in every order of the steps.
use project_linux.Base.{ℕ, suc, ◌+◌, ◌≡◌, ◌⊎◌, true, false, Option, none, some, length}
use project_linux.Driver.{Devices, bytes, Copy, my_read}
use project_linux.Driver.Bounds.{AllBounded}
use project_linux.Driver.Blocking.{line, ReaderAt, WriterAt, Threads, Step}

-- The devices before the write: a reader of the first one waits.
abbrev Pending : Devices → Type 0
Pending devs = AllBounded devs × ((devs 0).data_ready ≡ false)

abbrev Delivered : Devices → Type 0
Delivered devs = my_read (devs 0) false false false 255 0 ≡ bytes line

-- What holds where the reader and the writer are.
abbrev ReaderOk : ReaderAt → Devices → Type 0
ReaderOk ReaderAt.starting devs = (devs 0).access ≡ false
ReaderOk ReaderAt.reading devs = Unit
ReaderOk (ReaderAt.has_read buf) devs = buf ≡ some line
ReaderOk (ReaderAt.ended buf) devs = buf ≡ some line

abbrev WriterOk : WriterAt → Devices → Type 0
WriterOk WriterAt.starting devs = ((devs 1).access ≡ false) × Pending devs
WriterOk WriterAt.writing devs = Pending devs
WriterOk WriterAt.has_written devs = Delivered devs
WriterOk WriterAt.ended devs = Delivered devs

abbrev reader_steps : ReaderAt → ℕ
reader_steps ReaderAt.starting = 0
reader_steps ReaderAt.reading = 1
reader_steps (ReaderAt.has_read buf) = 2
reader_steps (ReaderAt.ended buf) = 3

abbrev writer_steps : WriterAt → ℕ
writer_steps WriterAt.starting = 0
writer_steps WriterAt.writing = 1
writer_steps WriterAt.has_written = 2
writer_steps WriterAt.ended = 3

-- A state after `n` steps.
abbrev After : ℕ → Threads → Type 0
After n s =
    ReaderOk s.reader s.devs
    × WriterOk s.writer s.devs
    × (n ≡ reader_steps s.reader + writer_steps s.writer)

-- The state that a step leads to, if there is one.
abbrev Leads : ℕ → Option Threads → Type 0
Leads n none = Unit
Leads n (some t) = After (suc n) t

module _ (user : ℕ → Copy) (exact : (n : ℕ) → length (user n).source ≡ n)
    (readable : (n : ℕ) → (user n).complete ≡ true)
    (memory : (user (length line)).source ≡ line) where
  -- Both threads have ended, and the reader has read the line; or a thread can take a step.
  abbrev pub GoesOn : Threads → Type 0
  GoesOn s =
      ((s.reader ≡ ReaderAt.ended (some line)) × (s.writer ≡ WriterAt.ended))
      ⊎ ((t : Threads) × Step user s t)
