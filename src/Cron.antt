-- ===== src/Cron.antt =====
-- The cron scheduler of gui_app/app.py: the check of a time field, the reading and writing of the
-- user's crontab, and the three actions.
pub mod Field
pub mod Crontab
pub mod Actions
pub mod Program
pub mod Jobs
pub mod Reading
pub mod Adding
pub mod Deleting
pub mod Failing
pub mod Undoing
pub mod Injection
pub mod Raising
pub mod Race
