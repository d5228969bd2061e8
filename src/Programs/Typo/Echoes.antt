-- ===== src/Programs/Typo/Echoes.antt =====
-- What a round of typo puts out for a line.
