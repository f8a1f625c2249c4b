-- ===== src/Log/Folders/Tests.antt =====
-- A race for the folder of a new address.
