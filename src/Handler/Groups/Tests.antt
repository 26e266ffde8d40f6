-- ===== src/Handler/Groups/Tests.antt =====
-- Leaving a group and removing a member, in a group of two.
