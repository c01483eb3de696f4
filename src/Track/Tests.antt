-- ===== src/Track/Tests.antt =====
-- One key and one column of each kind.
