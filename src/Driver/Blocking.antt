-- ===== src/Driver/Blocking.antt =====
-- Two clients of the driver at once: the threads of 04_char_driver/test_blocking.c. Each call of the driver is one step,
-- and the steps of the threads come in any order; the writer's `sleep` orders nothing. What is printed is left out.
pub mod Waking
use project_linux.Base.{ℕ, suc, ◌≡◌, Bool, true, false, Option, none, some, List, length}
use project_linux.Text.{Str, codes}
use project_linux.Driver.{
  Device, Devices, Returned, Read, waits, refused, bytes, Copy, my_open, my_release, my_write,
  my_read,
}
use project_linux.Driver.TestApp.{result}

abbrev pub line : Str
line = codes "wake up from writer thread"

-- How far `reader` is; what it has read is missing where the read has failed, or the open.
pub data ReaderAt : Type 0 where
  starting : ReaderAt
  reading : ReaderAt
  has_read : Option (List ℕ) → ReaderAt
  ended : Option (List ℕ) → ReaderAt

pub data WriterAt : Type 0 where
  starting writing has_written ended : WriterAt

pub record Threads : Type 0 where
  pub devs : Devices
  pub reader : ReaderAt
  pub writer : WriterAt

abbrev pub reader_opened : Option ℕ → ReaderAt
reader_opened none = ReaderAt.ended none
reader_opened (some n) = ReaderAt.reading

-- The reader's next call; none where it waits, or has ended.
abbrev pub reader_has : Read → Option ReaderAt
reader_has waits = none
reader_has (refused e) = some (has_read none)
reader_has (bytes buf) = some (has_read (some buf))

abbrev pub stays : Devices → WriterAt → Option ReaderAt → Option Threads
stays devs w none = none
stays devs w (some r) = some (record { devs = devs; reader = r; writer = w })

unfoldable pub reader_step : ReaderAt → WriterAt → Devices → Option Threads
unfolding my_open my_read my_release
reader_step starting w devs =
    let (r, devs') = my_open 0 devs in
    some (record { devs = devs'; reader = reader_opened (result r); writer = w })
reader_step reading w devs = stays devs w (reader_has (my_read (devs 0) false false false 255 0))
reader_step (has_read buf) w devs =
    some (record { devs = (my_release 0 devs).1; reader = ReaderAt.ended buf; writer = w })
reader_step (ended buf) w devs = none

abbrev pub writer_opened : Option ℕ → WriterAt
writer_opened none = WriterAt.ended
writer_opened (some n) = WriterAt.writing

-- The writer's next call; `user` is the memory where the line stands.
unfoldable pub writer_step : (ℕ → Copy) → ReaderAt → WriterAt → Devices → Option Threads
unfolding my_open my_write my_release codes
writer_step user r starting devs =
    let (ret, devs') = my_open 1 devs in
    some (record { devs = devs'; reader = r; writer = writer_opened (result ret) })
writer_step user r writing devs =
    some
      (record { devs = (my_write user 1 (length line) 0 devs).1; reader = r; writer = has_written })
writer_step user r has_written devs =
    some (record { devs = (my_release 1 devs).1; reader = r; writer = WriterAt.ended })
writer_step user r ended devs = none

pub data Step (user : ℕ → Copy) : Threads → Threads → Type 0 where
  reader_moves : {s t : Threads} → reader_step s.reader s.writer s.devs ≡ some t → Step user s t
  writer_moves :
      {s t : Threads} → writer_step user s.reader s.writer s.devs ≡ some t → Step user s t

-- After that many steps.
pub data Runs (user : ℕ → Copy) (devs : Devices) : ℕ → Threads → Type 0 where
  here :
      Runs user devs 0
        (record { devs = devs; reader = ReaderAt.starting; writer = WriterAt.starting })
  next : {n : ℕ} {s t : Threads} → Runs user devs n s → Step user s t → Runs user devs (suc n) t
