-- ===== src/Lib.antt =====
-- The web control panel of the project, gui_app/app.py: a local HTTP server whose actions run the
-- system's commands and answer with {"ok", "output"}, some with an exit code too. And the character
-- driver of the project, 04_char_driver/mychardev.c, which the panel loads, and the demo server that
-- it starts.
--
-- The parts and their files:
--   * Text, Value, FilePath: Python's str, the values of a JSON body and pathlib.Path, as far as the
--     program uses them. A str is the list of its code points. `isdigit`, `int` and `lower` take what
--     Python reads from the Unicode character database from the parameter `Text.Unicode`.
--   * Host: everything that the program calls and does not implement (subprocess, os, signal, stat,
--     time), as one interface over an abstract world, and the program's state `App`: that world and
--     the global `socket_demo_process`. An action is a function from the state to a result and the
--     next state; what was done before an exception stays done (Value/Exec).
--   * Ansi: ANSI_ESCAPE and `clean_output`.
--   * Command: `run_cmd` and `run_sudo_cmd`. All other parts run their commands through them, but for
--     `write_crontab_lines`, which calls `subprocess.run` itself.
--   * Cron: `valid_cron_field` (Cron/Field), `read_crontab_lines` and `write_crontab_lines`
--     (Cron/Crontab), `action_cron_list`, `action_cron_add` and `action_cron_delete` (Cron/Actions).
--     Cron/Program says what is assumed of the program `crontab`; Cron/Jobs is the view of a crontab
--     as a list of jobs that the actions implement.
--   * Socket: `action_socket_start` and `action_socket_stop`, with `socket_demo_lock` as atomic
--     steps. Socket/Processes says what is assumed of processes; Socket/Steps is the interleaving of
--     the server's threads.
--   * Nodes: `action_driver_nodes`; Nodes/Devices says what is assumed of `stat`, `mknod`, `chmod`.
--   * Startup: `main`, from the search for a free port to its `finally`; the server of http.server is
--     the interface `Network`, and Startup/Ending says what is assumed of it. Its threads are daemons:
--     they take steps while it serves, and go on to while `main` closes it (Startup/Late).
--   * Files: `safe_path` and the actions of the file manager. Files/System is the interface of the
--     calls on the file system, Files/Tree the tree of files on which each call has its meaning;
--     Files/Rows and Files/Search are the two searches, with `fnmatch` in Files/Glob.
--   * Actions: the table ACTIONS, with its one-line entries written out.
--   * Handler: `send_json`, and as `do_get` and `do_post` the methods do_GET and do_POST. Its state is
--     the application and the calls by which the request was answered so far; `Http` is what it calls
--     of http.server and json. Handler/Reading is the client's side: how such calls read as a response.
--   * Page: the inputs and the buttons of INDEX_HTML; Page/Script is what a button sends; Page/View
--     is the rest of `run`, which shows the reply, with the responses that are awaited as part of its
--     state; Page/Tabs is the side bar. Page/Adding puts page, handler, action and crontab together.
--     `JSON.parse` and `json.dumps` are parameters, and so is what the user answers to `confirm`.
--   * Driver: the file operations of 04_char_driver/mychardev.c on the five devices. A read that
--     would block is the outcome `waits`, to be tried again. Driver/Calls is the order of calls.
--     Driver/Loading is `my_init` and `my_exit` over the interface `Kernel`, with what the kernel
--     documents of its calls in `Registry`; Driver/Race is `my_read` in two steps. Driver/TestApp and
--     Driver/Blocking are its clients test_app.c and test_blocking.c.
--   * SocketDemo: 02_system_prog/src/socket_demo.c, the server that the panel starts and stops: its
--     answer to a client over the interface `Connection`, and in SocketDemo/Loop the loop of its `main`
--     with the signals that stop it.
--   * Table, Quote: `table` and `sh_quote`. Quote/Reading says what a shell makes of quotation marks.
--   * Tests: small machines that satisfy the assumptions, and runs on them.
--
-- Bounds. `str(n)` is written with fuel n + 1, which is more than the number of digits; `int` has
-- Python's limit of 4300 digits. Integers are unbounded, as in Python. The search for a port has
-- fuel for the ports up to PORT + 20, one more than the tries that can follow; `send_all` has fuel
-- for the bytes and for the signals that interrupt it; the other loops are structural.
--
-- Of the file system: paths are followed as they are written, without links; of a move only where no
-- path has a part "..", and rmtree is said to do something on a folder only, unlink on what is none;
-- missing folders above a destination are part of what an action makes; what os.walk and
-- Path.rglob yield is read at once, before the loop over it begins. The bodies of requests are what
-- json.loads makes of them.
--
-- Not modelled: what `main` and `log_message` print; of the page in INDEX_HTML the styles and the
-- clock, which only draw; the shell menus in 01_shell_manager; 03_kernel_module and the other C
-- programs of 02_system_prog, which make system calls one after the other and print; what the modelled
-- C programs print. Within one action nothing else runs in the model; Cron/Race interleaves the reading
-- and the writing of two requests, Socket/Steps the starts and stops, Driver/Race a read with a write,
-- and Driver/Blocking the calls of two clients.
pub mod Base
pub mod Text
pub mod Value
pub mod FilePath
pub mod Ansi
pub mod Host
pub mod Command
pub mod Table
pub mod Quote
pub mod Cron
pub mod Socket
pub mod SocketDemo
pub mod Nodes
pub mod Startup
pub mod Files
pub mod Actions
pub mod Handler
pub mod Page
pub mod Driver
pub mod Tests
