-- ===== src/Nodes.antt =====
-- `action_driver_nodes` of gui_app/app.py: the two device nodes of the character driver.
pub mod Devices
pub mod Present
use project_linux.Base.{
  ℕ, true, false, ◌||◌, not, Option, none, some, List, [], ◌∷◌, ◌++◌, ◌==◌, if◌then◌else◌,
}
use project_linux.Text.{Str, codes, join}
use project_linux.Text.Decimal.{decimal}
use project_linux.Value.{Json, text, Exception, file_not_found}
use project_linux.Value.Exec.{Exec, pure, try_except, ◌>>=◌}
use project_linux.FilePath.{FilePath, path_of, show}
use project_linux.Host.{Host, App, Stat, system}
use project_linux.Command.{CmdResult, Reply, reply, word, run_sudo_cmd, reason}

-- A path and the minor number that it is to have.
pub record Node : Type 0 where
  pub path : FilePath
  pub minor : ℕ

abbrev pub nodes : List Node
nodes =
    record { path = path_of (codes "/dev/mychardev0"); minor = 0 }
    ∷ record { path = path_of (codes "/dev/mychardev1"); minor = 1 }
    ∷ []

-- What one round of the loop leads to: the next round with its message, or the end.
pub data Round : Type 0 where
  message : Str → Round
  give_up : Reply → Round

-- The checks of a node that is there.
unfoldable pub check_stat : Node → Stat → Round
unfolding decimal codes
check_stat node st =
    if not st.is_chr
    then give_up
        (reply false (show node.path ++ codes " da ton tai nhung khong phai character device."))
    else if not (st.major == 42) || not (st.minor == node.minor)
    then give_up (
        reply false (
          show node.path
          ++ (codes " co major/minor khong dung: "
              ++ (decimal st.major ++ (codes "," ++ (decimal st.minor ++ codes "."))))))
    else message (
        show node.path
        ++ (codes " da ton tai dung major=42, minor=" ++ (decimal node.minor ++ codes ".")))

abbrev pub created_round : Node → CmdResult → Round
created_round node created =
    if created.is_ok
    then message (
        codes "Da tao "
        ++ (show node.path ++ (codes " (major=42, minor=" ++ (decimal node.minor ++ codes ")."))))
    else give_up (
        reply false
          (codes "Khong tao duoc " ++ (show node.path ++ (codes ":\n" ++ reason created))))

module _ (H : Host) (data' : Json) where
  -- mknod -m 666 PATH c 42 MINOR
  unfoldable pub create : Node → Exec (App H) Round
  create node = do
    created ←
        run_sudo_cmd H data'
          (word "mknod"
            ∷ word "-m"
            ∷ word "666"
            ∷ text (show node.path)
            ∷ word "c"
            ∷ word "42"
            ∷ text (decimal node.minor)
            ∷ [])
          H.root 120
    pure (created_round node created)

  -- `except FileNotFoundError`
  abbrev pub missing : Exception → Option (Exec (App H) (Option Stat))
  missing (file_not_found m) = some (pure none)
  missing _ = none

  abbrev pub look : Node → Exec (App H) (Option Stat)
  look node = try_except (do st ← system H (H.stat node.path); pure (some st)) missing

  abbrev pub settle : Node → Option Stat → Exec (App H) Round
  settle node none = create node
  settle node (some st) = pure (check_stat node st)

  unfoldable pub ensure : Node → Exec (App H) Round
  unfolding create check_stat
  ensure node = do found ← look node; settle node found

  -- The rights, when every node is there.
  unfoldable pub grant : List Str → Exec (App H) Reply
  grant messages = do
    permissions ←
        run_sudo_cmd H data'
          (word "chmod" ∷ word "666" ∷ word "/dev/mychardev0" ∷ word "/dev/mychardev1" ∷ []) H.root
          120
    pure (
        if permissions.is_ok
        then reply true (
            join (codes "\n")
              (messages ++ (codes "Da cap quyen rw-rw-rw- cho ca hai device node." ∷ [])))
        else reply false
            (codes "Da co device node nhung khong cap duoc quyen 666:\n" ++ reason permissions))

  unfoldable pub loop : List Node → List Str → Exec (App H) Reply
  loop [] messages = grant messages
  loop (node ∷ rest) messages = do
    round ← ensure node
    elim round [ give_up r ↦ pure r | message m ↦ loop rest (messages ++ (m ∷ [])) ]

  unfoldable pub action_driver_nodes : Exec (App H) Reply
  unfolding loop
  action_driver_nodes = loop nodes []
