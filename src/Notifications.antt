-- ===== src/Notifications.antt =====
-- apps/api/src/modules/notification: the notifications of a user inside the application.
pub mod Pagination
pub mod InApp
