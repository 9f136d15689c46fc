-- ===== src/Tests/CommandRuns.antt =====
-- Runs of commands: the device nodes, and `run_cmd` and `run_sudo_cmd` on a machine without them.
use project_linux.Text.Decimal.{number_from}
use project_linux.Base.{◌≡◌, refl, true, false, some, none, [], ◌∷◌, All}
use project_linux.Text.{codes, text_eq}
use project_linux.Value.{as_text, truthy, get, Json, text, object, field, end}
use project_linux.Host.{App}
use project_linux.FilePath.{to_text, path_of}
use project_linux.Command.{word, run_cmd, run_sudo_cmd}
use project_linux.Command.Sudo.{run_call, sudo_call, run_sudo_cmd_lem}
use project_linux.Nodes.{grant, ensure, nodes, action_driver_nodes}
use project_linux.Nodes.Present.{IsPresent, succeeded, action_driver_nodes-IsPresent}
use project_linux.Tests.Machine.{home}
use project_linux.Tests.CrontabHost as Crontabs
use project_linux.Tests.DeviceHost as Devices

-- Only the first node is there.
abbrev half : App Devices.host
half = record {
  world = λ p. elim (text_eq p (codes "/dev/mychardev0")) [
    | true ↦ some (record { is_chr = true; major = 42; minor = 0 })
    | false ↦ none
  ];
  socket_demo_process = none;
}

abbrev password : Json
password = object (field (codes "sudo_password") (text (codes "secret")) end)

half_there :
    Devices.devices.entry (path_of (codes "/dev/mychardev0")) half.world
    ≡ some (record { is_chr = true; major = 42; minor = 0 })
unfolding Devices.devices codes text_eq path_of to_text
half_there = refl

nodes_reply : succeeded (action_driver_nodes Devices.host password half).0 ≡ true
unfolding Devices.run Devices.command_of Devices.stat action_driver_nodes codes text_eq run_sudo_cmd
    run_cmd ensure to_text path_of get truthy as_text number_from grant
nodes_reply = refl

action_driver_nodes-IsPresent_example :
    All
      (IsPresent Devices.host Devices.devices password
        (action_driver_nodes Devices.host password half).1)
      nodes
action_driver_nodes-IsPresent_example =
    action_driver_nodes-IsPresent Devices.host Devices.devices password half nodes_reply

abbrev empty : App Crontabs.host
empty = record { world = none; socket_demo_process = none }

run_sudo_cmd_lem_example :
    run_sudo_cmd Crontabs.host password (word "ls" ∷ []) home 120 empty
    ≡ run_call Crontabs.host 120 (sudo_call password (word "ls" ∷ []) home 120) empty
run_sudo_cmd_lem_example = run_sudo_cmd_lem Crontabs.host password (word "ls" ∷ []) home 120 empty
