-- ===== src/Service/Increment/Timeout.antt =====
-- The timeout of an increment (internal/service/operations.go).
