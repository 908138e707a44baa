-- ===== src/Accounts.antt =====
-- Users and groups: 08-users-and-groups/getpwnam.c and 09-process-credentials/initgroups.c.
pub mod Getpwnam
pub mod InitGroups
mod Tests
