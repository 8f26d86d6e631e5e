-- ===== src/Trap/Handling/Exceptions.antt =====
-- A synchronous trap from below machine mode: it is served or delivered, and never fatal.
