-- ===== src/Latency.antt =====
-- The ring of tail latencies of app/pktgen-port-cfg.h and app/pktgen.c.
pub mod State
pub mod Ring
pub mod Tests
