-- ===== src/Permissions/Policy/Tests.antt =====
-- The theorems on the default policy at one permission and at an unknown text.
