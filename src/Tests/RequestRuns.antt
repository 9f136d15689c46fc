-- ===== src/Tests/RequestRuns.antt =====
-- Requests to the server, and what a button of the page comes to.
use project_linux.Text.Decimal.{int}
use project_linux.Base.{◌⊎◌, ◌≡◌, refl, true, some, [], Memᴰ}
use project_linux.Base.Int.{pos}
use project_linux.Text.{is_nonempty, text_eq, codes}
use project_linux.Value.{
  as_text, int_of_text, text, end, field, Exception, ok, raise, get, value_or,
}
use project_linux.Files.{path_arg, action_file_delete}
use project_linux.FilePath.{path_of, is_absolute, is_under, ◌/◌}
use project_linux.Actions.{get_action, actions}
use project_linux.Handler.{send_json, content_length_of, do_post}
use project_linux.Handler.Answers.{Answered}
use project_linux.Handler.Outcome.{do_post-Outcome}
use project_linux.Handler.Dispatching.{after_read}
use project_linux.Page.{inputs, buttons}
use project_linux.Page.Script.{run}
use project_linux.Page.Served.{SendsFields, RunsNamed, run-Sends, button-Runs}
use project_linux.Tests.FileHost.{host, files, project}
use project_linux.Tests.RequestHost.{
  delete_button, sent_by_button, http, post, idle, parse, body_of,
}

size_six : content_length_of host.unicode (some (codes "6")) ≡ ok (pos 6)
unfolding int_of_text int codes
size_six = refl

button_parsed : parse (codes "button") ≡ ok sent_by_button
unfolding parse text_eq codes
button_parsed = refl

-- The file is not there, and the server says so.
post_returns : (do_post host http files (post "6") idle).0 ≡ ok tt
unfolding do_post text_eq codes int_of_text int parse body_of get get_action actions
    action_file_delete path_arg value_or as_text path_of is_absolute is_under ◌/◌ send_json
post_returns = refl

do_post-Outcome_example :
    (((do_post host http files (post "6") idle).0 ≡ ok tt)
      × Answered host http [] (do_post host http files (post "6") idle).1.sent)
    ⊎ ((x : Exception) × ((do_post host http files (post "6") idle).0 ≡ raise x)
        × ((do_post host http files (post "6") idle).1.sent ≡ []))
do_post-Outcome_example = do_post-Outcome host http (λ cs c. refl) files (post "6") idle refl

button_there : Memᴰ delete_button buttons
unfolding buttons
button_there = Memᴰ.tail (Memᴰ.tail (Memᴰ.head refl))

run-Sends_example : SendsFields inputs delete_button (run (λ question. true) inputs delete_button)
unfolding is_nonempty codes
run-Sends_example = run-Sends inputs delete_button (λ question. true) refl button_there refl

button-Runs_example :
    RunsNamed host files http delete_button
      (field (codes "path") (text (codes "tmp/demo.txt")) end)
      (after_read host http files idle project)
      (do_post host http files (post "6") idle)
unfolding codes body_of
button-Runs_example =
    button-Runs host files http delete_button
      (field (codes "path") (text (codes "tmp/demo.txt")) end) (post "6") idle (pos 6)
      (codes "button") project button_there refl size_six refl button_parsed
