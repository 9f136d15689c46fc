-- ===== src/Tests/FileRuns.antt =====
-- Runs of the file manager on a small project.
use project_linux.Base.{◌≡◌, refl, true, false, none, some, ◌++◌, String}
use project_linux.Text.{codes, text_eq}
use project_linux.Value.{get, value_or, as_text, Json, text, object, end, field, ok}
use project_linux.FilePath.{
  last_part, name, ◌/◌, ◌/◌, ◌/◌, ◌/◌, ◌/◌, ◌/◌, ◌/◌, ◌/◌, ◌/◌, ◌/◌, to_text, ◌/◌, ◌/◌, path_of,
  is_absolute, is_under, is_plain, parent, show,
}
use project_linux.Host.{App}
use project_linux.Command.{Reply, reply}
use project_linux.Files.{path_arg, action_file_create_file, action_file_delete, action_file_move}
use project_linux.Files.Tree.{moved, removed, folder, is_there, made, target}
use project_linux.Files.Deleting.{Deleted, action_file_delete-Deleted}
use project_linux.Files.Creating.{action_file_create_file_on_folder}
use project_linux.Files.Copying.{moved_to, Transferred, action_file_move-Transferred}
use project_linux.Tests.FileHost.{host, files, has_tree, place, project}

abbrev here : App host
here = record { world = project; socket_demo_process = none }

abbrev path_data : String → Json
path_data p = object (field (codes "path") (text (codes p)) end)

abbrev two_paths : String → String → Json
two_paths p q =
    object (field (codes "src") (text (codes p)) (field (codes "dst") (text (codes q)) end))

abbrev deleted : Reply
deleted = reply true (codes "Da xoa: /home/user/SysProject/notes")

delete_run : (action_file_delete host files (path_data "notes") here).0 ≡ ok deleted
unfolding action_file_delete path_arg get as_text value_or codes path_of is_absolute is_under ◌/◌
    to_text
delete_run = refl

action_file_delete-Deleted_example :
    Deleted host files has_tree
      (path_data "notes")
      here
      deleted
      (action_file_delete host files (path_data "notes") here).1
action_file_delete-Deleted_example =
    action_file_delete-Deleted host files has_tree (path_data "notes") here deleted delete_run

-- The folder is gone with what was in it, and the text beside it is there.
delete_left :
    ((action_file_delete host files (path_data "notes") here).1.world
        (place "/home/user/SysProject/notes/a.txt")
      ≡ none)
    × (is_there (
          (action_file_delete host files (path_data "notes") here).1.world
            (place "/home/user/SysProject/b.md"))
        ≡ true)
unfolding action_file_delete path_arg get as_text value_or codes path_of is_absolute is_under ◌/◌
    removed
delete_left = (refl, refl)

notes_found :
    (path_arg host files (path_data "notes") (codes "path") here).0
    ≡ ok (place "/home/user/SysProject/notes")
unfolding path_arg get as_text value_or codes path_of is_absolute ◌/◌
notes_found = refl

notes_folder : project (place "/home/user/SysProject/notes") ≡ some folder
unfolding is_under path_of
notes_folder = refl

action_file_create_file_on_folder_example :
    ((action_file_create_file host files (path_data "notes") here).0
      ≡ ok (reply true (codes "Da tao file: " ++ show (place "/home/user/SysProject/notes"))))
    × ((action_file_create_file host files (path_data "notes") here).1.world
          (place "/home/user/SysProject/notes")
        ≡ some folder)
unfolding has_tree is_under
action_file_create_file_on_folder_example =
    action_file_create_file_on_folder host files has_tree (path_data "notes") here
      (place "/home/user/SysProject/notes") notes_found notes_folder refl refl

abbrev copied_notes : Reply
copied_notes =
    reply true (codes "Da copy /home/user/SysProject/notes -> /home/user/SysProject/kept/notes")

-- A move of a text into a folder.
text_found :
    (path_arg host files (two_paths "b.md" "notes") (codes "src") here).0
    ≡ ok (place "/home/user/SysProject/b.md")
unfolding path_arg get as_text value_or codes path_of is_absolute ◌/◌
text_found = refl

folder_found :
    (path_arg host files
      (two_paths "b.md" "notes")
      (codes "dst")
      (path_arg host files (two_paths "b.md" "notes") (codes "src") here).1).0
    ≡ ok (place "/home/user/SysProject/notes")
unfolding path_arg get as_text value_or codes path_of is_absolute ◌/◌
folder_found = refl

text_apart :
    is_under (place "/home/user/SysProject/b.md") (
      target
        (place "/home/user/SysProject/b.md")
        (place "/home/user/SysProject/notes")
        (made (parent (place "/home/user/SysProject/notes")) project))
    ≡ false
unfolding is_under path_of target made
text_apart = refl

abbrev moved_text : Reply
moved_text = reply true (codes "Da move /home/user/SysProject/b.md -> /home/user/SysProject/notes")

move_run : (action_file_move host files (two_paths "b.md" "notes") here).0 ≡ ok moved_text
unfolding action_file_move path_arg get as_text value_or codes path_of is_absolute is_under ◌/◌
    to_text
move_run = refl

action_file_move-Transferred_example :
    Transferred host files has_tree
      (two_paths "b.md" "notes")
      here
      (place "/home/user/SysProject/b.md")
      (place "/home/user/SysProject/notes")
      text_found
      folder_found
      (moved_to (place "/home/user/SysProject/b.md") (place "/home/user/SysProject/notes"))
      moved_text
      (action_file_move host files (two_paths "b.md" "notes") here).1
unfolding has_tree is_plain path_of text_eq codes
action_file_move-Transferred_example =
    action_file_move-Transferred host files has_tree (two_paths "b.md" "notes") here
      (place "/home/user/SysProject/b.md") (place "/home/user/SysProject/notes") text_found
      folder_found moved_text refl refl text_apart move_run

move_left :
    is_there (
      (action_file_move host files (two_paths "b.md" "notes") here).1.world
        (place "/home/user/SysProject/notes/b.md"))
    ≡ true
unfolding action_file_move path_arg get as_text value_or codes path_of is_absolute is_under ◌/◌
    moved made name last_part
move_left = refl
