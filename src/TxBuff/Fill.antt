-- ===== src/TxBuff/Fill.antt =====
-- tx_buffer and tx_buffer_bulk of app/pktgen-txbuff.h: no packet is lost, and their order is kept.
use pktgen_dpdk.Base.{
  ℕ, zero, suc, ◌+◌, ◌*◌, ◌≤◌, ◌<◌, ◌≡◌, inl, inr, refl, arith, none, some, List, [], ◌∷◌, ◌++◌,
  append-nil, append_assoc, ap, ap₂, sym, subst, ◌∙◌, Bool-cases, ltb, ◌==◌, u16, when, unless,
  ne→==, eq→==,
}
use pktgen_dpdk.TxBuff.State.{
  Driver, EthTxBuffer, slots, Sent, after_sent, tx_buffer_flush, push, tx_buffer, bulk_loop,
  tx_buffer_bulk,
}
use pktgen_dpdk.TxBuff.Flush.{IsFair, slots_add, Took, tx_buffer_flush_lem}

-- The packets that wait in the buffer.
abbrev pub pending : {Pkt : Type 0} → EthTxBuffer Pkt → List Pkt
pending buffer = slots buffer.pkts 0 buffer.length

-- The next packet has a place.
pub record IsReady {Pkt : Type 0} (buffer : EthTxBuffer Pkt) : Type 0 where
  pub room : buffer.length < buffer.size
  pub size_lt : buffer.size < 65536

-- The packets that the driver took, with those that wait, are `all`.
abbrev pub Holds : {Nic Pkt : Type 0} → List Pkt → EthTxBuffer Pkt × Sent Nic Pkt → Type 0
Holds all (buffer, none) = 1 ≤ 0
Holds all (buffer, some (nic, sent, log)) = log ++ pending buffer ≡ all

slots_ext :
    {Pkt : Type 0} (f g : ℕ → Pkt) (i n : ℕ)
    → ((k : ℕ) → k < i + n → f k ≡ g k)
    → slots f i n ≡ slots g i n
slots_ext f g i zero h = refl
slots_ext f g i (suc n) h =
    ap₂ ◌∷◌ (h i (omega arith)) (slots_ext f g (i + 1) n (λ k l. h k (omega (arith, l))))

pending-push :
    {Pkt : Type 0} (buffer : EthTxBuffer Pkt) (p : Pkt)
    → buffer.length < 65535
    → pending (push buffer p) ≡ pending buffer ++ (p ∷ [])
pending-push {Pkt} buffer p h =
    let n = buffer.length in
    let put : ℕ → Pkt = (push buffer p).pkts in
    let size : u16 (n + 1) ≡ n + 1 = omega (arith, h) in
    ap (slots put 0) size
    ∙ slots_add put 0 n 1
    ∙ ap₂ ◌++◌
        (slots_ext put buffer.pkts 0 n (λ k l.
          unless (λ q. q ≡ buffer.pkts k) (k == n) _ _ (ne→== k n (λ e. omega (arith, e, l))) refl))
        (ap (λ k. k ∷ []) (when (λ q. q ≡ p) (0 + n == n) _ _ (eq→== (0 + n) n (omega arith)) refl))

module _ {Nic Pkt : Type 0} (d : Driver Nic Pkt) (limit : ℕ) (stalls : Nic → ℕ)
    (fair : IsFair d limit stalls) (fuel : ℕ) where
  Good : ℕ → List Pkt → EthTxBuffer Pkt × Sent Nic Pkt → Type 0
  Good size all r = IsReady r.0 × (r.0.size ≡ size) × Holds all r

  good_of :
      (buffer b : EthTxBuffer Pkt) (s : Sent Nic Pkt) (n : ℕ)
      → 0 < buffer.size
      → buffer.size < 65536
      → b ≡ record buffer { length = 0 }
      → Took n (pending buffer) s
      → Good buffer.size (pending buffer) (b, s)
  unfolding Good
  good_of buffer b none n p h e t = absurd (omega (arith, t))
  good_of buffer b (some (nic, m, log)) n p h e t =
      let size : b.size ≡ buffer.size = ap (λ b. b.size) e in
      (
        record {
          room = omega (arith, ap (λ b. b.length) e, size, p);
          size_lt = omega (arith, size, h);
        },
        size,
        ap (λ b. log ++ pending b) e ∙ append-nil log ∙ t.1,
      )

  flushed :
      (nic : Nic) (buffer : EthTxBuffer Pkt)
      → 0 < buffer.size
      → buffer.size < 65536
      → buffer.length ≤ buffer.size
      → buffer.size * suc limit + limit ≤ fuel
      → Good buffer.size (pending buffer) (tx_buffer_flush d fuel nic buffer)
  flushed nic buffer p h l f =
      let t =
        tx_buffer_flush_lem d limit stalls fair fuel nic buffer (omega (arith, l, h))
          (grind (arith, l, f)) in
      good_of buffer _ _ buffer.length p h t.0 t.1

  one :
      (nic : Nic) (buffer : EthTxBuffer Pkt) (p : Pkt)
      → IsReady buffer
      → buffer.size * suc limit + limit ≤ fuel
      → Good buffer.size (pending buffer ++ (p ∷ [])) (tx_buffer d fuel nic buffer p)
  unfolding tx_buffer Good
  one nic buffer p r f =
      let P = Good buffer.size (pending buffer ++ (p ∷ [])) in
      let pushed = pending-push buffer p (omega (arith, r.room, r.size_lt)) in
      elim (Bool-cases (ltb (u16 (buffer.length + 1)) buffer.size)) [
        | inl e ↦
            when P (ltb (u16 (buffer.length + 1)) buffer.size) _ _ e
              (record { room = ground (arith, e); size_lt = r.size_lt }, refl, pushed)
        | inr e ↦ unless P (ltb (u16 (buffer.length + 1)) buffer.size) _ _ e (
            subst (λ l. Good buffer.size l (tx_buffer_flush d fuel nic (push buffer p))) pushed
              (flushed nic (push buffer p) (omega (arith, r.room)) r.size_lt
                (omega (arith, r.room, r.size_lt)) f))
      ]

  after_one :
      (size : ℕ) (all more log : List Pkt) (b : EthTxBuffer Pkt) (s : Sent Nic Pkt)
      → log ++ more ≡ all
      → Good size more (b, s)
      → Good size all (b, after_sent log s)
  unfolding Good
  after_one size all more log b none e g = absurd (omega (arith, g.2))
  after_one size all more log b (some (nic, m, log')) e g =
      (g.0, g.1, append_assoc log log' (pending b) ∙ ap (λ l. log ++ l) g.2 ∙ e)

  bulk_good :
      (ps : List Pkt) (size : ℕ) (all : List Pkt) (buffer : EthTxBuffer Pkt) (s : Sent Nic Pkt)
      → size * suc limit + limit ≤ fuel
      → Good size all (buffer, s)
      → Good size (all ++ ps) (bulk_loop d fuel (buffer, s) ps)
  unfolding Good
  bulk_good [] size all buffer s f g = subst (λ l. Good size l (buffer, s)) (sym (append-nil all)) g
  bulk_good (p ∷ ps) size all buffer none f g = absurd (omega (arith, g.2))
  bulk_good (p ∷ ps) size all buffer (some (nic, m, log)) f g =
      let fuel_ok : buffer.size * suc limit + limit ≤ fuel = rw g.1 f in
      let r = tx_buffer d fuel nic buffer p in
      let kept =
        subst (λ n. Good n (pending buffer ++ (p ∷ [])) r) g.1 (one nic buffer p g.0 fuel_ok) in
      let next =
        after_one size (all ++ (p ∷ [])) (pending buffer ++ (p ∷ [])) log r.0 r.1
          (sym (append_assoc log (pending buffer) (p ∷ [])) ∙ ap (λ l. l ++ (p ∷ [])) g.2) kept in
      subst (λ l. Good size l (bulk_loop d fuel (r.0, after_sent log r.1) ps))
        (append_assoc all (p ∷ []) ps)
        (bulk_good ps size (all ++ (p ∷ [])) r.0 (after_sent log r.1) f next)

  -- tx_buffer_bulk on a buffer of fewer than 65536 places, one of them free, returns, if its fuel covers
  -- a full buffer and the stalls of the driver, which are at most `limit` in a row: the packets
  -- that the driver took, with those that wait in the buffer, are those that waited before and then
  -- those of the vector, each once and in order, and the buffer has a place for the next one.
  pub tx_buffer_bulk_lem :
      (nic : Nic) (buffer : EthTxBuffer Pkt) (ps : List Pkt)
      → IsReady buffer
      → buffer.size * suc limit + limit ≤ fuel
      → let (r, n) = tx_buffer_bulk d fuel nic buffer ps in
        IsReady r.0 × (r.0.size ≡ buffer.size) × Holds (pending buffer ++ ps) r
  unfolding tx_buffer_bulk Good
  tx_buffer_bulk_lem nic buffer ps r f =
      bulk_good ps buffer.size (pending buffer) buffer (some (nic, 0, [])) f (r, refl, refl)
