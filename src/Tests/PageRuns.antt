-- ===== src/Tests/PageRuns.antt =====
-- Clicks and requests of the page.
use mathlib.Core.List.Memᴰ
use project_linux.Base.{List, ◌≡◌, refl, true, Bool, some, [], ◌∷◌, ◌++◌, Memᴰ}
use project_linux.Base.Int.{pos}
use project_linux.Text.{Str, codes, text_eq, is_nonempty}
use project_linux.Value.{Fields, raise, value_error, Json, end, ok}
use project_linux.Command.{Reply, run_cmd}
use project_linux.Handler.{content_length_of, do_post}
use project_linux.Page.{buttons, Input, Button, plain}
use project_linux.Text.Decimal.{int}
use project_linux.Text.Lines.{universal_newlines}
use project_linux.Text.{strip}
use project_linux.Ansi.{clean_output}
use project_linux.Value.{int_of_text}
use project_linux.Actions.{NamedAction, entry, actions, file_actions, cron_actions}
use project_linux.Cron.Actions.{action_cron_list, job_line}
use project_linux.Cron.Adding.{added, with_job}
use project_linux.Handler.{Http}
use project_linux.Page.Script.{value_of, payload, request_json}
use project_linux.Page.Tabs.{first_tabs, open_tab}
use project_linux.Page.Tabs.One.{Clicked, here, click, ShowsOne, Clicked-ShowsOne}
use project_linux.Page.View.{View, first_view, broken, press, arrive}
use project_linux.Page.View.Busy.{Used, pressed, arrived, OneAwaited, Used-OneAwaited}
use project_linux.Page.View.Busy
use project_linux.Page.View.Shows.{arrival_of, with_reply, unanswered, press-Shows}
use project_linux.Page.Adding.{add_button, add_fields, add_entry, add_entry_there, press_add-jobs}
use project_linux.Cron.Jobs.{jobs}
use project_linux.Tests.FieldRuns.{raised, start, bad_minute_raises}
use project_linux.Page.View.Unanswered.{with_error, press-Unanswered}
use project_linux.Tests.Machine.{ascii-IsUnicode}
use project_linux.Tests.CrontabHost.{host, program, command_of}
use project_linux.Tests.CronRuns.{
  before, minute, hour, command, given, valid, backup-IsJob, command_chars, accepts_both,
}
use project_linux.Tests.PageHost.{
  encode_request, decode_request-encode_request, no_files, decode, decode-encode, filled, http,
}
use project_linux.Tests.RequestHost.{post}

two_clicks : Clicked (open_tab (codes "pkg") (open_tab (codes "cron") first_tabs))
unfolding first_tabs open_tab codes
two_clicks =
    click (codes "pkg") (Memᴰ.tail (Memᴰ.tail (Memᴰ.tail (Memᴰ.head refl))))
      (click (codes "cron") (Memᴰ.tail (Memᴰ.head refl)) here)

Clicked-ShowsOne_example : ShowsOne (open_tab (codes "pkg") (open_tab (codes "cron") first_tabs))
Clicked-ShowsOne_example = Clicked-ShowsOne two_clicks

-- The text of an error that the script throws.
abbrev thrown : Str
thrown = codes "TypeError"

abbrev agree : Str → Bool
agree question = true

abbrev waiting : View
waiting = press thrown agree filled add_button first_view

abbrev new_request : Json
new_request = request_json add_button (add_fields minute hour command)

awaits_one : waiting.awaited ≡ new_request ∷ []
unfolding press payload value_of text_eq codes
awaits_one = refl

-- The server cannot be reached.
lost : Used thrown (arrive thrown (broken (codes "TypeError: Failed to fetch")) [] waiting)
lost =
    arrived [] [] new_request (broken (codes "TypeError: Failed to fetch")) awaits_one
      (pressed agree filled add_button Busy.here)

Used-OneAwaited_example :
    OneAwaited (arrive thrown (broken (codes "TypeError: Failed to fetch")) [] waiting)
Used-OneAwaited_example = Used-OneAwaited lost

add_size : content_length_of host.unicode (some (codes "99")) ≡ ok (pos 99)
unfolding int_of_text int codes
add_size = refl

-- The list of the jobs is asked for.
abbrev list_button : Button
list_button = plain "cron.list"

abbrev list_http : Http host
list_http = record http {
  read = λ size w. (ok (codes "add"), w);
  loads = λ body. ok (request_json list_button end);
}

abbrev list_entry : NamedAction host
list_entry = entry "cron.list" (λ d. action_cron_list host)

list_there : Memᴰ list_entry (actions host no_files)
unfolding actions file_actions cron_actions
list_there = Memᴰ.append_right (file_actions host no_files) (Memᴰ.head refl)

abbrev listed : Reply
listed = record { is_ok = true; code = some (pos 0); output = codes "0 1 * * * backup\n" }

list_works : (action_cron_list host before).0 ≡ ok listed
unfolding action_cron_list program codes universal_newlines clean_output run_cmd command_of
list_works = refl

press-Shows_example :
    ((press thrown agree [] list_button first_view).awaited ≡ request_json list_button end ∷ [])
    × (arrive thrown
          (arrival_of decode thrown
            (do_post host list_http no_files (post "99") (unanswered before)).1.sent)
          []
          (press thrown agree [] list_button first_view)
        ≡ with_reply list_button listed first_view)
unfolding payload codes is_nonempty
press-Shows_example =
    press-Shows host list_http no_files decode thrown thrown agree [] list_button end first_view
      (post "99") before (pos 99) (codes "add") before.world list_entry listed refl refl refl refl
      list_there refl refl add_size refl refl list_works (λ cs c. refl) (decode-encode listed)

press_add-jobs_example :
    Memᴰ add_button buttons
    × (jobs
          (program.crontab (do_post host http no_files (post "99") (unanswered before)).1.app.world)
        ≡ jobs (program.crontab before.world)
          ++ (job_line (strip minute) (strip hour) (strip command) ∷ []))
    × (arrive thrown
          (arrival_of decode thrown
            (do_post host http no_files (post "99") (unanswered before)).1.sent)
          []
          waiting
        ≡ with_reply add_button
            (added
              (job_line (strip minute) (strip hour) (strip command))
              (with_job host ascii-IsUnicode program minute hour command before))
            first_view)
unfolding value_of text_eq codes program press payload encode_request
press_add-jobs_example =
    press_add-jobs host ascii-IsUnicode program http no_files decode thrown thrown agree filled
      encode_request minute hour command first_view (post "99") before (pos 99) before.world refl
      refl refl refl refl refl given valid backup-IsJob command_chars accepts_both refl add_size
      refl decode_request-encode_request (λ cs c. refl) decode-encode

-- The minute has a superscript digit.
abbrev odd_page : List Input
odd_page =
    record { id = codes "cron-minute"; value = raised }
    ∷ record { id = codes "cron-hour"; value = codes "*" }
    ∷ record { id = codes "cron-command"; value = codes "echo" }
    ∷ []

abbrev odd_fields : Fields
odd_fields = add_fields raised (codes "*") (codes "echo")

abbrev odd_http : Http host
odd_http = record http {
  read = λ size w. (ok (codes "add"), w);
  loads = λ body. ok (request_json add_button odd_fields);
}

odd_payload : payload odd_page add_button ≡ some odd_fields
unfolding payload value_of text_eq codes is_nonempty
odd_payload = refl

press-Unanswered_example :
    ((do_post host odd_http no_files (post "99") (unanswered start)).0 ≡ raise value_error)
    × (arrive thrown
          (arrival_of decode
            (codes "TypeError: Failed to fetch")
            (do_post host odd_http no_files (post "99") (unanswered start)).1.sent)
          []
          (press thrown agree odd_page add_button first_view)
        ≡ with_error add_button (codes "TypeError: Failed to fetch") first_view)
unfolding codes is_nonempty
press-Unanswered_example =
    press-Unanswered host odd_http no_files decode thrown (codes "TypeError: Failed to fetch") agree
      odd_page add_button odd_fields first_view (post "99") start (pos 99) (codes "add") start.world
      (add_entry host no_files) value_error refl odd_payload refl refl
      (add_entry_there host no_files) refl refl add_size refl refl bad_minute_raises
