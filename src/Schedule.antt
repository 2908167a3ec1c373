-- ===== src/Schedule.antt =====
-- prompt-schedule.js: five-field cron schedules in UTC.
pub mod Calendar
pub mod Cron
pub mod Field
pub mod Values
pub mod Listed
pub mod Next
pub mod Reached
