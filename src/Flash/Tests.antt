-- ===== src/Flash/Tests.antt =====
-- The rounds of the erase loops at an example flash.
