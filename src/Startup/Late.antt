-- ===== src/Startup/Late.antt =====
-- The demo server can outlive `main` of gui_app/app.py: the threads of the panel's server are daemons, and nothing waits
-- for one that waits at `socket_demo_lock` while the final stop has it.
use project_linux.Host.{Host}
use project_linux.Socket.Processes.{Processes}
