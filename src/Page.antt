-- ===== src/Page.antt =====
-- The page that `do_GET` sends, INDEX_HTML of gui_app/app.py: its inputs and its buttons.
pub mod Script
pub mod Pairs
pub mod Served
pub mod Tabs
pub mod View
pub mod Adding
use project_linux.Base.{
  ℕ, Bool, true, false, Option, none, some, List, [], ◌∷◌, ◌++◌, String, ◌==◌, if◌then◌else◌,
}
use project_linux.Text.{Str, codes, text_eq, is_nonempty}
use project_linux.Value.{Json, text, object, Fields, end, field}

-- An element with an id and a value, which the user edits.
pub record Input : Type 0 where
  pub id : Str
  pub value : Str

-- The attributes data-action, data-fields and data-confirm; the last two may be missing.
pub record Button : Type 0 where
  pub action : Str
  pub fields : Option Str
  pub confirm : Option Str

abbrev pub input : String → String → Input
input id value = record { id = codes id; value = codes value }

abbrev pub plain : String → Button
plain action = record { action = codes action; fields = none; confirm = none }

abbrev pub button : String → String → Button
button action fields = record {
  action = codes action;
  fields = some (codes fields);
  confirm = none;
}

-- The button asks before it sends.
abbrev pub asking : String → Button → Button
asking question b = record b { confirm = some (codes question) }

unfoldable pub files_inputs : List Input
files_inputs =
    input "file-path" "tmp/demo.txt"
    ∷ input "copy-src" "README.md"
    ∷ input "copy-dst" "tmp/README.copy.md"
    ∷ input "find-base" "."
    ∷ input "find-pattern" "*.c"
    ∷ input "grep-base" "."
    ∷ input "grep-keyword" "MODULE_LICENSE"
    ∷ []

unfoldable pub files_buttons : List Button
files_buttons =
    button "file.create_file" "path:file-path"
    ∷ button "file.create_dir" "path:file-path"
    ∷ asking "Xoa path nay?" (button "file.delete" "path:file-path")
    ∷ button "file.copy" "src:copy-src,dst:copy-dst"
    ∷ asking "Move file/thu muc nay?" (button "file.move" "src:copy-src,dst:copy-dst")
    ∷ button "file.find_name" "base:find-base,pattern:find-pattern"
    ∷ button "file.find_content" "base:grep-base,keyword:grep-keyword"
    ∷ []

unfoldable pub cron_inputs : List Input
cron_inputs =
    input "cron-minute" "*"
    ∷ input "cron-hour" "*"
    ∷ input "cron-command" "echo hello >> /tmp/sysproject.log"
    ∷ input "cron-index" "1"
    ∷ []

unfoldable pub cron_buttons : List Button
cron_buttons =
    plain "cron.list"
    ∷ asking "Them cron job nay?"
        (button "cron.add" "minute:cron-minute,hour:cron-hour,command:cron-command")
    ∷ asking "Xoa cron job theo STT?" (button "cron.delete" "index:cron-index")
    ∷ []

unfoldable pub time_inputs : List Input
time_inputs =
    input "sudo-password" ""
    ∷ input "timezone" "Asia/Ho_Chi_Minh"
    ∷ input "manual-time" "2026-06-14 12:00:00"
    ∷ []

unfoldable pub time_buttons : List Button
time_buttons =
    plain "time.status"
    ∷ button "time.hwclock" "sudo_password:sudo-password"
    ∷ asking "Can sudo. Tiep tuc?"
        (button "time.set_timezone" "timezone:timezone,sudo_password:sudo-password")
    ∷ asking "Bat NTP sync?" (button "time.ntp_on" "sudo_password:sudo-password")
    ∷ asking "Tat NTP sync?" (button "time.ntp_off" "sudo_password:sudo-password")
    ∷ asking "Can sudo va co the anh huong he thong. Tiep tuc?"
        (button "time.set_manual" "time:manual-time,sudo_password:sudo-password")
    ∷ []

unfoldable pub pkg_inputs : List Input
pkg_inputs =
    input "pkg-query" "gcc"
    ∷ input "pkg-name" "build-essential"
    ∷ input "pkg-install-name" "build-essential"
    ∷ input "pkg-pattern" "gcc"
    ∷ []

unfoldable pub pkg_buttons : List Button
pkg_buttons =
    button "pkg.search" "query:pkg-query"
    ∷ button "pkg.show" "package:pkg-name"
    ∷ asking "Cai package bang sudo apt-get?" (button "pkg.install" "package:pkg-install-name")
    ∷ asking "Go package bang sudo apt-get remove --purge?"
        (button "pkg.remove" "package:pkg-install-name")
    ∷ button "pkg.list" "pattern:pkg-pattern"
    ∷ []

unfoldable pub system_buttons : List Button
system_buttons =
    plain "system.build"
    ∷ plain "system.process"
    ∷ plain "system.file"
    ∷ plain "system.network"
    ∷ plain "system.socket_start"
    ∷ plain "system.socket_stop"
    ∷ []

unfoldable pub kernel_buttons : List Button
kernel_buttons =
    plain "kernel.build"
    ∷ asking "Load kernel module bang sudo insmod?" (plain "kernel.load")
    ∷ plain "kernel.proc"
    ∷ plain "kernel.dmesg"
    ∷ asking "Unload hello_module?" (plain "kernel.unload")
    ∷ []

unfoldable pub driver_inputs : List Input
driver_inputs = input "driver-sudo-password" "" ∷ []

unfoldable pub driver_buttons : List Button
driver_buttons =
    plain "driver.build"
    ∷ asking "Load mychardev bang sudo insmod?"
        (button "driver.load" "sudo_password:driver-sudo-password")
    ∷ asking "Tao /dev/mychardev0 va /dev/mychardev1?"
        (button "driver.nodes" "sudo_password:driver-sudo-password")
    ∷ plain "driver.test_app"
    ∷ plain "driver.test_blocking"
    ∷ asking "Unload mychardev?" (button "driver.unload" "sudo_password:driver-sudo-password")
    ∷ []

unfoldable pub inputs : List Input
unfolding files_inputs cron_inputs time_inputs pkg_inputs driver_inputs
inputs = files_inputs ++ (cron_inputs ++ (time_inputs ++ (pkg_inputs ++ driver_inputs)))

unfoldable pub buttons : List Button
unfolding files_buttons cron_buttons time_buttons pkg_buttons system_buttons kernel_buttons
    driver_buttons
buttons =
    files_buttons
    ++ (cron_buttons
        ++ (time_buttons
            ++ (pkg_buttons ++ (system_buttons ++ (kernel_buttons ++ driver_buttons)))))
