-- ===== src/Tests/Hex.antt =====
-- Two bytes as digits.
