-- ===== src/TxBuff/Flush.antt =====
-- tx_buffer_flush of app/pktgen-txbuff.h hands every packet to the driver, in order.
use pktgen_dpdk.Base.{
  ℕ, zero, suc, ◌+◌, ◌-◌, ◌*◌, ◌≤◌, ◌<◌, ◌≡◌, ◌⊎◌, inl, inr, refl, arith, none, some, List, ◌∷◌,
  ◌++◌, ap, ap₂, sym, ◌∙◌, ltb, lt→ltb, when, unless, u16, length, ◌==◌, Bool-cases, true,
}
use pktgen_dpdk.TxBuff.State.{
  Driver, slots, Sent, after_sent, flush_loop, tx_buffer_flush, EthTxBuffer,
}

-- What is relied on of rte_eth_tx_burst: it takes no more packets than it is given, and it takes none
-- at most `limit` times in a row. `stalls` bounds how often it takes none from now on.
pub record IsFair {Nic Pkt : Type 0} (d : Driver Nic Pkt) (limit : ℕ) (stalls : Nic → ℕ)
    : Type 0 where
  pub takes_le :
      (nic : Nic) (pid qid : ℕ) (pkts : List Pkt) → (d.tx_burst nic pid qid pkts).1 ≤ length pkts
  pub stalled :
      (nic : Nic) (pid qid : ℕ) (pkts : List Pkt)
      → 0 < length pkts
      → (d.tx_burst nic pid qid pkts).1 ≡ 0
      → stalls (d.tx_burst nic pid qid pkts).0 < stalls nic
  pub stalls_le : (nic : Nic) → stalls nic ≤ limit

module _ {Pkt : Type 0} where
  pub length-slots : (pkts : ℕ → Pkt) (i n : ℕ) → length (slots pkts i n) ≡ n
  length-slots pkts i zero = refl
  length-slots pkts i (suc n) = ap suc (length-slots pkts (i + 1) n)

  pub slots_add :
      (pkts : ℕ → Pkt) (i a b : ℕ) → slots pkts i (a + b) ≡ slots pkts i a ++ slots pkts (i + a) b
  slots_add pkts i zero b = ap₂ (slots pkts) (omega arith) (omega arith)
  slots_add pkts i (suc a) b =
      let e : suc a + b ≡ suc (a + b) = omega arith in
      let e' : i + 1 + a ≡ i + suc a = omega arith in
      ap (slots pkts i) e
      ∙ ap (λ l. pkts i ∷ l)
          (slots_add pkts (i + 1) a b ∙ ap (λ k. slots pkts (i + 1) a ++ slots pkts k b) e')

module _ {Nic Pkt : Type 0} where
  -- The result of a flush: it returns `tot`, and the driver took the packets `log`.
  abbrev pub Took : ℕ → List Pkt → Sent Nic Pkt → Type 0
  Took tot log none = 1 ≤ 0
  Took tot log (some (nic, tot', log')) = (tot' ≡ tot) × (log' ≡ log)

  Took-eq :
      {tot tot' : ℕ} {log log' : List Pkt} (s : Sent Nic Pkt)
      → tot ≡ tot'
      → log ≡ log'
      → Took tot log s
      → Took tot' log' s
  Took-eq none e f t = t
  Took-eq (some (nic, n, l)) e f t = (t.0 ∙ e, t.1 ∙ f)

  Took-after :
      (tot : ℕ) (log : List Pkt) (taken : List Pkt) (s : Sent Nic Pkt)
      → Took tot log s
      → Took tot (taken ++ log) (after_sent taken s)
  Took-after tot log taken none t = t
  Took-after tot log taken (some (nic, n, l)) t = (t.0, ap (λ k. taken ++ k) t.1)

le_cases : (a b : ℕ) → a ≤ b → (a ≡ b) ⊎ (a < b)
le_cases a b h = grind arith

zero_of : (n : ℕ) → (n == 0) ≡ true → n ≡ 0
zero_of n e = ground (arith, e)

-- A burst leaves less to do: packets or stalls.
less_to_do :
    (limit stalls stalls' sent left fuel : ℕ)
    → stalls' ≤ limit
    → (sent ≡ 0 → stalls' < stalls)
    → (sent + left) * suc limit + stalls ≤ suc fuel
    → left * suc limit + stalls' ≤ fuel
less_to_do limit stalls stalls' zero left fuel h s f = omega (arith, s refl, f)
less_to_do limit stalls stalls' (suc sent) left fuel h s f = grind arith

module _ {Nic Pkt : Type 0} (d : Driver Nic Pkt) (limit : ℕ) (stalls : Nic → ℕ)
    (fair : IsFair d limit stalls) (pid qid : ℕ) (pkts : ℕ → Pkt) where
  flush_loop_lem :
      (fuel : ℕ) (nic : Nic) (i to_send tot : ℕ)
      → 0 < to_send
      → to_send + tot < 65536
      → to_send * suc limit + stalls nic ≤ fuel
      → Took
          (tot + to_send)
          (slots pkts i to_send)
          (flush_loop d pid qid pkts fuel nic i to_send tot)
  unfolding flush_loop
  flush_loop_lem zero nic i to_send tot p b f = absurd (grind arith)
  flush_loop_lem (suc fuel) nic i to_send tot p b f =
      let r = d.tx_burst nic pid qid (slots pkts i to_send) in
      let size = length-slots pkts i to_send in
      let le : r.1 ≤ to_send =
        omega (arith, fair.takes_le nic pid qid (slots pkts i to_send), size) in
      elim (le_cases r.1 to_send le) [
        | inl e ↦
            let none_left : u16 (to_send + 65536 - r.1) ≡ 0 = omega (arith, e, b) in
            unless (Took (tot + to_send) (slots pkts i to_send))
              (ltb 0 (u16 (to_send + 65536 - r.1))) _ _ (ap (ltb 0) none_left)
              (omega (arith, e, b), ap (slots pkts i) e)
        | inr l ↦
            let left : u16 (to_send + 65536 - r.1) ≡ to_send - r.1 = omega (arith, l, b) in
            let sum : r.1 + (to_send - r.1) ≡ to_send = omega (arith, l) in
            let total : u16 (tot + r.1) ≡ tot + r.1 = omega (arith, le, b) in
            let rest =
              flush_loop_lem fuel r.0 (i + r.1) (to_send - r.1) (tot + r.1) (omega (arith, l))
                (omega (arith, l, b))
                (less_to_do limit (stalls nic) (stalls r.0) r.1 (to_send - r.1) fuel
                  (fair.stalls_le r.0)
                  (fair.stalled nic pid qid (slots pkts i to_send) (omega (arith, size, p)))
                  (rw sum f)) in
            when (Took (tot + to_send) (slots pkts i to_send)) (ltb 0 (u16 (to_send + 65536 - r.1)))
              _ _ (ap (ltb 0) left ∙ lt→ltb 0 (to_send - r.1) (omega (arith, l)))
              (Took-eq
                (after_sent (slots pkts i r.1) (
                  flush_loop d pid qid pkts fuel r.0 (i + r.1) (u16 (to_send + 65536 - r.1))
                    (u16 (tot + r.1))))
                (omega (arith, sum))
                (sym (slots_add pkts i r.1 (to_send - r.1)) ∙ ap (slots pkts i) sum)
                (Took-after (tot + r.1 + (to_send - r.1)) (slots pkts (i + r.1) (to_send - r.1))
                  (slots pkts i r.1) _ (rw (left, total) rest)))
      ]

module _ {Nic Pkt : Type 0} (d : Driver Nic Pkt) (limit : ℕ) (stalls : Nic → ℕ)
    (fair : IsFair d limit stalls) (fuel : ℕ) where
  -- tx_buffer_flush hands the packets of the buffer to the driver, each once and in order, returns
  -- how many they were, and leaves the buffer empty, if its fuel covers the stalls of the driver.
  pub tx_buffer_flush_lem :
      (nic : Nic) (buffer : EthTxBuffer Pkt)
      → buffer.length < 65536
      → buffer.length * suc limit + limit ≤ fuel
      → let (buffer', s) = tx_buffer_flush d fuel nic buffer in
        (buffer' ≡ record buffer { length = 0 })
        × Took buffer.length (slots buffer.pkts 0 buffer.length) s
  unfolding tx_buffer_flush
  tx_buffer_flush_lem nic buffer h f =
      let P : EthTxBuffer Pkt × Sent Nic Pkt → Type 0 = λ r.
        (r.0 ≡ record buffer { length = 0 })
        × Took buffer.length (slots buffer.pkts 0 buffer.length) r.1 in
      elim (Bool-cases (buffer.length == 0)) [
        | inl e ↦
            let z = zero_of buffer.length e in
            when P (buffer.length == 0) _ _ e (
              ap {B = EthTxBuffer Pkt} (λ n. record buffer { length = n }) z,
              (sym z, sym (ap (slots buffer.pkts 0) z)),
            )
        | inr e ↦ unless P (buffer.length == 0) _ _ e (
          refl,
          Took-eq (flush_loop d buffer.pid buffer.qid buffer.pkts fuel nic 0 buffer.length 0)
              (omega arith) refl
              (flush_loop_lem d limit stalls fair buffer.pid buffer.qid buffer.pkts fuel nic 0
                buffer.length 0 (ground (arith, e)) (omega (arith, h))
                (omega (arith, f, fair.stalls_le nic))),
        )
      ]
