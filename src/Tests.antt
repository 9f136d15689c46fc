-- ===== src/Tests.antt =====
-- Concrete machines for gui_app/app.py, and runs and theorems at concrete data.
mod Machine
mod CrontabHost
mod ServerHost
mod DeviceHost
mod WordShell
mod CronRuns
mod CronErrors
mod FieldRuns
mod SocketRuns
mod CommandRuns
mod TextRuns
mod StartupRuns
mod FileHost
mod FileRuns
mod SearchRuns
mod RequestHost
mod RequestRuns
mod PageHost
mod PageRuns
mod DriverRuns
mod LoadingRuns
mod ClientRuns
mod DemoRuns
