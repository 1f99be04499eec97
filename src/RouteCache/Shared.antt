-- ===== src/RouteCache/Shared.antt =====
-- `Shared` through every step of the lookups of ClientImpl.cpp.
use rocketmq_client_cpp.Prelude.Text.{Text}
