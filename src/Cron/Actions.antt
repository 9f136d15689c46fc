-- ===== src/Cron/Actions.antt =====
-- `action_cron_list`, `action_cron_add` and `action_cron_delete` of gui_app/app.py.
use project_linux.Base.{
  ℕ, ◌-◌, Bool, true, false, ◌||◌, Option, none, some, List, [], ◌∷◌, ◌++◌, length, get_elem?,
  remove_at, if◌then◌else◌,
}
use project_linux.Base.Int.{ℤ, pos, pos_part, ltb_ℤ}
use project_linux.Text.{Str, codes, is_nonempty, strip, Unicode}
use project_linux.Value.{
  Json, null, num, text, type_error, value_error, attribute_error, index_error, Result, ok, raise,
  get, value_or, str, as_text, int_of,
}
use project_linux.Value.Exec.{Exec, pure, throw, lift, ◌>>=◌}
use project_linux.Table.{table}
use project_linux.Host.{Host, App}
use project_linux.Command.{CmdResult, Reply, reply, as_reply, word, run_cmd, reason}
use project_linux.Cron.Field.{valid_cron_field}
use project_linux.Cron.Crontab.{ReadResult, lines, error, read_crontab_lines, write_crontab_lines}

-- `valid_cron_field(minute, 0, 59) and valid_cron_field(hour, 0, 23)`
unfoldable pub valid_times : Unicode → (Json → Str) → Str → Str → Result Bool
valid_times U repr minute hour = elim (valid_cron_field U repr (text minute) (some 0) (some 59)) [
  | ok true ↦ valid_cron_field U repr (text hour) (some 0) (some 23)
  | other ↦ other
]

-- f"{minute} {hour} * * * {command}"
unfoldable pub job_line : Str → Str → Str → Str
unfolding codes
job_line minute hour command = minute ++ (codes " " ++ (hour ++ (codes " * * * " ++ command)))

-- `except (TypeError, ValueError)`; `none` is its branch.
unfoldable pub index_result : Result ℤ → Result (Option ℤ)
index_result (ok n) = ok (some n)
index_result (raise type_error) = ok none
index_result (raise value_error) = ok none
index_result (raise e) = raise e

-- `int(data.get("index") or 0)`
unfoldable pub parse_index : Unicode → Json → Result (Option ℤ)
unfolding index_result
parse_index U data' = index_result (elim (get data' (codes "index") null) [
  | ok v ↦ int_of U (value_or v (num (pos 0)))
  | raise e ↦ raise e
])

abbrev pub read_failed : CmdResult → Reply
read_failed err = reply false (codes "Khong doc duoc crontab hien tai:\n" ++ reason err)

abbrev pub write_failed : CmdResult → Reply
write_failed written = reply false (codes "Khong ghi duoc crontab:\n" ++ reason written)

abbrev pub bad_index : Reply
bad_index = reply false (codes "STT khong hop le.")

module _ (H : Host) where
  unfoldable pub action_cron_list : Exec (App H) Reply
  action_cron_list = do
    r ← run_cmd H (word "crontab" ∷ word "-l" ∷ []) H.root 120 none
    pure (as_reply r)

  -- The code from `lines.append(new_job)` on.
  unfoldable pub add_job : Str → ReadResult → Exec (App H) Reply
  add_job new_job (error err) = pure (read_failed err)
  add_job new_job (lines ls) = do
    let ls' = ls ++ (new_job ∷ [])
    written ← write_crontab_lines H ls'
    pure (
        if written.is_ok
        then reply true (
            codes "Da them cron job:\n"
            ++ (new_job ++ (codes "\n\nCrontab hien tai:\n" ++ table ls')))
        else write_failed written)

  unfoldable pub action_cron_add : Json → Exec (App H) Reply
  action_cron_add data' = do
    m ← lift (get data' (codes "minute") (text (codes "*")))
    h ← lift (get data' (codes "hour") (text (codes "*")))
    c ← lift (get data' (codes "command") (text []))
    c' ← lift (as_text attribute_error c)
    let minute = strip (str H.repr m)
    let hour = strip (str H.repr h)
    let command = strip c'
    if is_nonempty command
        then (do
          valid ← lift (valid_times H.unicode H.repr minute hour)
          if valid
              then (do result ← read_crontab_lines H; add_job (job_line minute hour command) result)
              else pure (reply false (codes "Minute/hour khong hop le.")))
        else pure (reply false (codes "Lenh cron dang trong."))

  -- The code behind `removed = lines.pop(index - 1)`.
  unfoldable pub write_rest : Str → List Str → Exec (App H) Reply
  write_rest removed ls = do
    written ← write_crontab_lines H ls
    pure (
        if written.is_ok
        then reply true
            (codes "Da xoa: " ++ (removed ++ (codes "\n\nCrontab hien tai:\n" ++ table ls)))
        else write_failed written)

  -- `lines.pop(i)` raises where `i` is out of range.
  unfoldable pub remove_job : ℕ → List Str → Exec (App H) Reply
  unfolding write_rest
  remove_job i ls = elim (get_elem? ls i) [
    | none ↦ throw index_error
    | some removed ↦ write_rest removed (remove_at i ls)
  ]

  unfoldable pub delete_job : ℤ → ReadResult → Exec (App H) Reply
  unfolding remove_job
  delete_job index (error err) = pure (read_failed err)
  delete_job index (lines ls) =
      if ltb_ℤ index (pos 1) || ltb_ℤ (pos (length ls)) index
      then pure bad_index
      else remove_job (pos_part index - 1) ls

  unfoldable pub delete_at : Option ℤ → Exec (App H) Reply
  delete_at none = pure bad_index
  delete_at (some index) = do result ← read_crontab_lines H; delete_job index result

  unfoldable pub action_cron_delete : Json → Exec (App H) Reply
  unfolding delete_at
  action_cron_delete data' = do index ← lift (parse_index H.unicode data'); delete_at index
