-- ===== src/Sidebar.antt =====
-- apps/web/src/features/sidebar: the list of conversations.
pub mod Grouping
