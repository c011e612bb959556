-- ===== src/TxBuff/State.antt =====
-- struct eth_tx_buffer of app/pktgen-txbuff.h and its functions.
use pktgen_dpdk.Base.{
  ℕ, zero, suc, ◌+◌, ◌-◌, Option, none, some, List, [], ◌∷◌, ◌++◌, ltb, ◌==◌, if◌then◌else◌, u16,
  length,
}

-- The driver behind rte_eth_tx_burst, which is not part of the program: a burst on a port and a queue
-- takes some of the packets, from the first on, and returns how many.
pub record Driver (Nic Pkt : Type 0) : Type 0 where
  pub tx_burst : Nic → (pid qid : ℕ) → List Pkt → Nic × ℕ

-- `pkts` holds the pointers of the array; those from `length` on are stale.
pub record EthTxBuffer (Pkt : Type 0) : Type 0 where
  pub size : ℕ
  pub length : ℕ
  pub pid : ℕ
  pub qid : ℕ
  pub pkts : ℕ → Pkt

-- The `n` packets from index `i` on.
abbrev pub slots : {Pkt : Type 0} → (ℕ → Pkt) → (i n : ℕ) → List Pkt
slots pkts i zero = []
slots pkts i (suc n) = pkts i ∷ slots pkts (i + 1) n

-- The result of a call: the driver, the return value, and the packets that the driver took, in order.
-- Without fuel it is `none`.
abbrev pub Sent : (Nic Pkt : Type 0) → Type 0
Sent Nic Pkt = Option (Nic × ℕ × List Pkt)

abbrev pub after_sent : {Nic Pkt : Type 0} → List Pkt → Sent Nic Pkt → Sent Nic Pkt
after_sent taken none = none
after_sent taken (some (nic, tot, log)) = some (nic, tot, taken ++ log)

-- The loop of tx_buffer_flush, at index `i`. The counters are 16 bits wide.
unfoldable pub flush_loop :
    {Nic Pkt : Type 0}
    → Driver Nic Pkt
    → (pid qid : ℕ) → (ℕ → Pkt)
    → (fuel : ℕ) → Nic
    → (i to_send tot_sent : ℕ) → Sent Nic Pkt
flush_loop d pid qid pkts zero nic i to_send tot_sent = none
flush_loop d pid qid pkts (suc fuel) nic i to_send tot_sent =
    let (nic', sent) = d.tx_burst nic pid qid (slots pkts i to_send) in
    let to_send' = u16 (to_send + 65536 - sent) in
    let tot_sent' = u16 (tot_sent + sent) in
    let rest = flush_loop d pid qid pkts fuel nic' (i + sent) to_send' tot_sent' in
    if ltb 0 to_send'
    then after_sent (slots pkts i sent) rest
    else some (nic', tot_sent', slots pkts i sent)

-- `buffer->pkts[buffer->length++] = tx_pkt`
abbrev pub push : {Pkt : Type 0} → EthTxBuffer Pkt → Pkt → EthTxBuffer Pkt
push buffer tx_pkt = record buffer {
  pkts = λ j. if j == buffer.length then tx_pkt else buffer.pkts j;
  length = u16 (buffer.length + 1);
}

module _ {Nic Pkt : Type 0} (d : Driver Nic Pkt) (fuel : ℕ) where
  unfoldable pub tx_buffer_flush : Nic → EthTxBuffer Pkt → EthTxBuffer Pkt × Sent Nic Pkt
  tx_buffer_flush nic buffer = if buffer.length == 0 then (buffer, some (nic, 0, [])) else (
    record buffer { length = 0 },
    flush_loop d buffer.pid buffer.qid buffer.pkts fuel nic 0 buffer.length 0,
  )

  unfoldable pub tx_buffer : Nic → EthTxBuffer Pkt → Pkt → EthTxBuffer Pkt × Sent Nic Pkt
  tx_buffer nic buffer tx_pkt =
      let buffer' = push buffer tx_pkt in
      if ltb buffer'.length buffer'.size
      then (buffer', some (nic, 0, []))
      else tx_buffer_flush nic buffer'

  -- The loop of tx_buffer_bulk over the packets of the vector, with what was sent before.
  abbrev pub bulk_loop : EthTxBuffer Pkt × Sent Nic Pkt → List Pkt → EthTxBuffer Pkt × Sent Nic Pkt
  bulk_loop (buffer, st) [] = (buffer, st)
  bulk_loop (buffer, none) (p ∷ ps) = (buffer, none)
  bulk_loop (buffer, some (nic, sent, log)) (p ∷ ps) =
      let r = tx_buffer nic buffer p in bulk_loop (r.0, after_sent log r.1) ps

  -- The return value is the number of packets in the vector.
  unfoldable pub tx_buffer_bulk :
      Nic → EthTxBuffer Pkt → List Pkt → (EthTxBuffer Pkt × Sent Nic Pkt) × ℕ
  tx_buffer_bulk nic buffer tx_pkts =
      (bulk_loop (buffer, some (nic, 0, [])) tx_pkts, u16 (length tx_pkts))

-- tx_buffer_init, for a buffer that is not NULL.
unfoldable pub tx_buffer_init :
    {Pkt : Type 0} → EthTxBuffer Pkt → (size pid qid : ℕ) → EthTxBuffer Pkt
tx_buffer_init buffer size pid qid = record buffer { size = size; pid = pid; qid = qid }
