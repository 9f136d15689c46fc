-- ===== src/Actions.antt =====
-- `ACTIONS` of gui_app/app.py: the table from the names of the actions to their functions.
pub mod Table
use project_linux.Base.{ℕ, Bool, Option, none, some, List, [], ◌∷◌, ◌++◌, String, if◌then◌else◌}
use project_linux.Text.{Str, codes, text_eq}
use project_linux.Value.{
  Json, text, num, null, bool, float, type_error, Result, ok, raise, get, str,
}
use project_linux.Value.Exec.{Exec, pure, lift, ◌>>=◌}
use project_linux.FilePath.{FilePath}
use project_linux.Host.{Host, App}
use project_linux.Command.{Reply, as_reply, word, run_cmd, run_sudo_cmd}
use project_linux.Cron.Actions.{action_cron_list, action_cron_add, action_cron_delete}
use project_linux.Nodes.{action_driver_nodes}
use project_linux.Socket.{action_socket_start, action_socket_stop}
use project_linux.Quote.{sh_quote}
use project_linux.Files.{
  joined, action_file_create_dir, action_file_create_file, action_file_delete, action_file_copy,
  action_file_move,
}
use project_linux.Files.System.{FileSystem}
use project_linux.Files.Search.{action_file_find_name, action_file_find_content}

abbrev pub Action : Host → Type 0
Action H = Json → Exec (App H) Reply

pub record NamedAction (H : Host) : Type 0 where
  pub name : Str
  pub function : Action H

abbrev pub entry : {H : Host} → String → Action H → NamedAction H
entry name f = record { name = codes name; function = f }

abbrev pub default_timeout : ℕ
default_timeout = 120

-- The script of "pkg.list".
abbrev pub list_script : Str → Str
list_script pattern = codes "dpkg -l | grep -i -- " ++ (sh_quote pattern ++ codes " || true")

module _ (H : Host) where
  -- `run_cmd(args, cwd, timeout)`, the keywords that are left out at their defaults.
  abbrev pub command_in : FilePath → ℕ → List Json → Exec (App H) Reply
  command_in cwd timeout args = do r ← run_cmd H args cwd timeout none; pure (as_reply r)

  abbrev pub command : List Json → Exec (App H) Reply
  command args = command_in H.root default_timeout args

  abbrev pub sudo_in : FilePath → Json → List Json → Exec (App H) Reply
  sudo_in cwd data' args = do r ← run_sudo_cmd H data' args cwd default_timeout; pure (as_reply r)

  abbrev pub sudo : Json → List Json → Exec (App H) Reply
  sudo data' args = sudo_in H.root data' args

  -- `data.get(key, "")`
  abbrev pub argument : Json → String → Exec (App H) Json
  argument data' key = lift (get data' (codes key) (text []))

  -- `ROOT / name`
  abbrev pub folder_of : String → FilePath
  folder_of name = joined H.root (codes name ∷ [])

  abbrev pub system_prog : FilePath
  system_prog = folder_of "02_system_prog"

  abbrev pub kernel_module : FilePath
  kernel_module = folder_of "03_kernel_module"

  abbrev pub char_driver : FilePath
  char_driver = folder_of "04_char_driver"

  unfoldable pub cron_actions : List (NamedAction H)
  cron_actions =
      entry "cron.list" (λ data'. action_cron_list H)
      ∷ entry "cron.add" (action_cron_add H)
      ∷ entry "cron.delete" (action_cron_delete H)
      ∷ []

  unfoldable pub time_actions : List (NamedAction H)
  time_actions =
      entry "time.status" (λ data'. command (word "timedatectl" ∷ []))
      ∷ entry "time.hwclock" (λ data'. sudo data' (word "hwclock" ∷ word "--verbose" ∷ []))
      ∷ entry "time.set_timezone" (λ data'. do
        timezone ← argument data' "timezone"
        sudo data' (word "timedatectl" ∷ word "set-timezone" ∷ timezone ∷ []))
      ∷ entry "time.ntp_on"
          (λ data'. sudo data' (word "timedatectl" ∷ word "set-ntp" ∷ word "true" ∷ []))
      ∷ entry "time.ntp_off"
          (λ data'. sudo data' (word "timedatectl" ∷ word "set-ntp" ∷ word "false" ∷ []))
      ∷ entry "time.set_manual" (λ data'. do
        time ← argument data' "time"
        sudo data' (word "timedatectl" ∷ word "set-time" ∷ time ∷ []))
      ∷ []

  unfoldable pub pkg_actions : List (NamedAction H)
  pkg_actions =
      entry "pkg.search" (λ data'. do
        query ← argument data' "query"
        command (word "apt-cache" ∷ word "search" ∷ query ∷ []))
      ∷ entry "pkg.show" (λ data'. do
        pkg ← argument data' "package"
        command (word "apt-cache" ∷ word "show" ∷ pkg ∷ []))
      ∷ entry "pkg.list" (λ data'. do
        pattern' ← argument data' "pattern"
        let script = list_script (str H.repr pattern')
        command (word "bash" ∷ word "-lc" ∷ text script ∷ []))
      ∷ entry "pkg.install" (λ data'. do
        pkg ← argument data' "package"
        command_in H.root 600
            (word "sudo" ∷ word "apt-get" ∷ word "install" ∷ word "-y" ∷ pkg ∷ []))
      ∷ entry "pkg.remove" (λ data'. do
        pkg ← argument data' "package"
        command_in H.root 600
            (word "sudo" ∷ word "apt-get" ∷ word "remove" ∷ word "--purge" ∷ word "-y" ∷ pkg ∷ []))
      ∷ []

  unfoldable pub system_actions : List (NamedAction H)
  system_actions =
      entry "system.build" (λ data'. command_in system_prog 300 (word "make" ∷ []))
      ∷ entry "system.process"
          (λ data'. command_in system_prog default_timeout (word "./bin/process_mgmt" ∷ []))
      ∷ entry "system.file"
          (λ data'. command_in system_prog default_timeout (word "./bin/file_ops" ∷ []))
      ∷ entry "system.socket_start" (λ data'. action_socket_start H)
      ∷ entry "system.socket_stop" (λ data'. action_socket_stop H)
      ∷ entry "system.network"
          (λ data'. command_in system_prog default_timeout (word "./bin/network_info" ∷ []))
      ∷ []

  unfoldable pub kernel_actions : List (NamedAction H)
  kernel_actions =
      entry "kernel.build" (λ data'. command_in kernel_module 300 (word "make" ∷ []))
      ∷ entry "kernel.load" (λ data'.
        command_in kernel_module default_timeout
          (word "sudo" ∷ word "insmod" ∷ word "hello_module.ko" ∷ []))
      ∷ entry "kernel.proc" (λ data'. command (word "cat" ∷ word "/proc/hello_info" ∷ []))
      ∷ entry "kernel.dmesg" (λ data'.
        command_in H.root 20
          (word "sudo" ∷ word "dmesg" ∷ word "--ctime" ∷ word "--level=info,err,warn" ∷ []))
      ∷ entry "kernel.unload"
          (λ data'. command (word "sudo" ∷ word "rmmod" ∷ word "hello_module" ∷ []))
      ∷ []

  unfoldable pub driver_actions : List (NamedAction H)
  driver_actions =
      entry "driver.build" (λ data'. command_in char_driver 300 (word "make" ∷ []))
      ∷ entry "driver.load"
          (λ data'. sudo_in char_driver data' (word "insmod" ∷ word "mychardev.ko" ∷ []))
      ∷ entry "driver.nodes" (action_driver_nodes H)
      ∷ entry "driver.test_app"
          (λ data'. command_in char_driver default_timeout (word "./test_app" ∷ []))
      ∷ entry "driver.test_blocking"
          (λ data'. command_in char_driver 20 (word "./test_blocking" ∷ []))
      ∷ entry "driver.unload" (λ data'. sudo data' (word "rmmod" ∷ word "mychardev" ∷ []))
      ∷ []

module _ (H : Host) (F : FileSystem H) where
  unfoldable pub file_actions : List (NamedAction H)
  file_actions =
      entry "file.create_dir" (action_file_create_dir H F)
      ∷ entry "file.create_file" (action_file_create_file H F)
      ∷ entry "file.delete" (action_file_delete H F)
      ∷ entry "file.copy" (action_file_copy H F)
      ∷ entry "file.move" (action_file_move H F)
      ∷ entry "file.find_name" (action_file_find_name H F)
      ∷ entry "file.find_content" (action_file_find_content H F)
      ∷ []

  unfoldable pub actions : List (NamedAction H)
  unfolding file_actions cron_actions time_actions pkg_actions system_actions kernel_actions
      driver_actions
  actions =
      file_actions
      ++ (cron_actions H
          ++ (time_actions H
              ++ (pkg_actions H ++ (system_actions H ++ (kernel_actions H ++ driver_actions H)))))

module _ {H : Host} where
  unfoldable pub find_action : Str → List (NamedAction H) → Option (Action H)
  unfolding text_eq
  find_action name [] = none
  find_action name (e ∷ es) = if text_eq e.name name then some e.function else find_action name es

  -- `ACTIONS.get(action)`: a list and a dict cannot be hashed, and all keys are texts.
  unfoldable pub get_action : Json → List (NamedAction H) → Result (Option (Action H))
  unfolding find_action
  get_action (text name) es = ok (find_action name es)
  get_action null es = ok none
  get_action (bool b) es = ok none
  get_action (num n) es = ok none
  get_action (float x) es = ok none
  get_action _ es = raise type_error
