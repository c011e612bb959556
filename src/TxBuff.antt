-- ===== src/TxBuff.antt =====
-- app/pktgen-txbuff.h: the buffer that collects packets for one burst.
pub mod State
pub mod Flush
pub mod Fill
mod Tests
