-- ===== src/RpcResult/Tests.antt =====
-- The result strings at one code.
