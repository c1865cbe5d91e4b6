-- ===== src/Golden/NoStall.antt =====
-- sim/run_golden.py: the event loop and the bounds of its two drains.
use mathlib.Core.Path.{subst}
use axi_dma_engine.Base.{
  ℕ, zero, suc, ◌+◌, ◌≡◌, ◌≤◌, inl, inr, refl, sym, Bool, true, false, List, [], ◌∷◌, length,
  length-append, arith, Option, none, some, Result, Action, ok, err, ◌>>=◌, ◌>>◌, pure, Bool-cases,
  if◌then◌else◌,
}
use axi_dma_engine.Fifo
use axi_dma_engine.Fifo.{Fifo}
use axi_dma_engine.Descriptor
use axi_dma_engine.Descriptor.{Descriptor}
use axi_dma_engine.AxiMaster
use axi_dma_engine.AxiMaster.{AxiMaster}
use axi_dma_engine.AxiMaster.Safety.{backlog}
use axi_dma_engine.SramController
use axi_dma_engine.SramController.{SramController}
use axi_dma_engine.RingManager
use axi_dma_engine.Golden.{
  System, on_ring, on_axi, on_sram_ctrl, on_dm_axi, on_dm_sram, drain_steps, drain_axi_dm,
  drain_sram_dm, dir_bit, desc_to_instr_pair, move, serve, event_loop,
}
use axi_dma_engine.Golden.Calm.{calm}
use axi_dma_engine.Golden.Drains.{drain_axi_dm-Ends, drain_sram_dm-Ends}
use axi_dma_engine.Golden.Stalls.{
  Good, >>=-Good, Ends-Good, idle-backlog, idle-waiting, part-Good, Few, fetch-Good, complete-Good,
}

-- at most `n` handles and instructions for the AXI master, `k` instructions for the SRAM controller
abbrev pub AtMost : ℕ → ℕ → System → Type 0
AtMost n k s = (backlog s.ring.golden ≤ n) × (length s.dm_sram.buffer ≤ k)

queue_axi-Good :
    (i n k : ℕ) (s : System) → AtMost n k s → Good (AtMost (n + 1) k) (on_dm_axi (Fifo.enqueue i) s)
unfolding Fifo.enqueue
queue_axi-Good i n k s h = ground (arith, h, length-append s.ring.golden.dm_in.buffer (i ∷ []))

queue_sram-Good :
    (i n k : ℕ) (s : System)
    → AtMost n k s
    → Good (AtMost n (k + 1)) (on_dm_sram (Fifo.enqueue i) s)
unfolding Fifo.enqueue
queue_sram-Good i n k s h = ground (arith, h, length-append s.dm_sram.buffer (i ∷ []))

axi-Good :
    (n k : ℕ) (s : System)
    → n ≤ drain_steps
    → AtMost n k s
    → Good (AtMost 0 k) (on_axi (drain_axi_dm drain_steps) s)
axi-Good n k s small h =
    part-Good (λ g. record s { ring = record (s.ring) { golden = g } })
      (λ g. AxiMaster.idle g ≡ true) (AtMost 0 k) (drain_axi_dm drain_steps s.ring.golden)
      (Ends-Good AxiMaster.idle (drain_axi_dm drain_steps s.ring.golden)
        (drain_axi_dm-Ends drain_steps s.ring.golden (omega (arith, h.0, small))))
      (λ g q. (idle-backlog g q, h.1))

sram-Good :
    (n k : ℕ) (s : System)
    → k ≤ drain_steps
    → AtMost n k s
    → Good (AtMost n 0) (on_sram_ctrl (drain_sram_dm drain_steps) s)
sram-Good n k s small h =
    let c : SramController = record {
      sram = s.sram.mem;
      dm_in = s.dm_sram;
      mid = s.ring.golden.mid;
    } in
    part-Good
      (λ c. record {
        ring = record (s.ring) { golden = record (s.ring.golden) { mid = c.mid } };
        sram = record (s.sram) { mem = c.sram };
        dm_sram = c.dm_in;
      })
      (λ c. SramController.idle c ≡ true) (AtMost n 0) (drain_sram_dm drain_steps c)
      (Ends-Good SramController.idle (drain_sram_dm drain_steps c)
        (drain_sram_dm-Ends drain_steps c (omega (arith, h.1, small))))
      (λ c q. (h.0, idle-waiting c q))

-- the two drains in either order
drains : Bool → Action System (Unit {0})
drains d =
    if d
    then on_axi (drain_axi_dm drain_steps) >> on_sram_ctrl (drain_sram_dm drain_steps)
    else on_sram_ctrl (drain_sram_dm drain_steps) >> on_axi (drain_axi_dm drain_steps)

drains-Good : (d : Bool) (s : System) → AtMost 2 1 s → Good (AtMost 0 0) (drains d s)
unfolding drains
drains-Good true s h =
    >>=-Good (AtMost 0 1) (AtMost 0 0) (on_axi (drain_axi_dm drain_steps) s)
      (λ _. on_sram_ctrl (drain_sram_dm drain_steps)) (axi-Good 2 1 s (omega arith) h)
      (λ _ t q. sram-Good 0 1 t (omega arith) q)
drains-Good false s h =
    >>=-Good (AtMost 2 0) (AtMost 0 0) (on_sram_ctrl (drain_sram_dm drain_steps) s)
      (λ _. on_axi (drain_axi_dm drain_steps)) (sram-Good 2 1 s (omega arith) h)
      (λ _ t q. axi-Good 2 0 t (omega arith) q)

move-Good : (d : Descriptor) (s : System) → AtMost 1 0 s → Good (AtMost 0 0) (move d s)
unfolding move drains
move-Good d s h =
    let i = desc_to_instr_pair d in
    >>=-Good (AtMost 2 0) (AtMost 0 0) (on_dm_axi (Fifo.enqueue i.0) s)
      (λ _. on_dm_sram (Fifo.enqueue i.1) >> drains (dir_bit d)) (queue_axi-Good i.0 1 0 s h)
      (λ _ t q.
        >>=-Good (AtMost 2 1) (AtMost 0 0) (on_dm_sram (Fifo.enqueue i.1) t)
          (λ _. drains (dir_bit d)) (queue_sram-Good i.1 2 0 t q)
          (λ _ u p. drains-Good (dir_bit d) u p))

serve-some-Good :
    (d : Descriptor) (s : System) → AtMost 1 0 s → Good (AtMost 0 0) (serve (some d) s)
unfolding serve
serve-some-Good d s h =
    >>=-Good (AtMost 0 0) (AtMost 0 0) (move d s)
      (λ _. on_ring RingManager.complete >> pure (some (Descriptor.pack d))) (move-Good d s h)
      (λ _ t q.
        >>=-Good (AtMost 0 0) (AtMost 0 0) (on_ring RingManager.complete t)
          (λ _. pure (some (Descriptor.pack d)))
          (part-Good (λ r. record t { ring = r }) (Few 0) (AtMost 0 0) (RingManager.complete t.ring)
            (complete-Good 0 t.ring q.0) (λ r p. (p, q.1)))
          (λ _ u p. p))

-- what a round does behind the fetch, with `n` rounds left
abbrev go_on : ℕ → Option ℕ → Action System (List ℕ)
go_on n none = pure []
go_on n (some packed) = event_loop n >>= λ rest. pure (packed ∷ rest)

abbrev after_fetch : ℕ → Option Descriptor → Action System (List ℕ)
after_fetch n o = serve o >>= go_on n

go_on-Good :
    (n : ℕ) (o : Option ℕ) (s : System)
    → ((t : System) → AtMost 0 0 t → Good (AtMost 1 0) (event_loop n t))
    → AtMost 0 0 s
    → Good (AtMost 1 0) (go_on n o s)
go_on-Good n none s ih h = (omega (arith, h.0), h.1)
go_on-Good n (some packed) s ih h =
    >>=-Good (AtMost 1 0) (AtMost 1 0) (event_loop n s) (λ rest. pure (packed ∷ rest)) (ih s h)
      (λ rest t q. q)

after_fetch-Good :
    (n : ℕ) (o : Option Descriptor) (s : System)
    → ((t : System) → AtMost 0 0 t → Good (AtMost 1 0) (event_loop n t))
    → AtMost 1 0 s
    → Good (AtMost 1 0) (after_fetch n o s)
unfolding serve
after_fetch-Good n none s ih h = h
after_fetch-Good n (some d) s ih h =
    >>=-Good (AtMost 0 0) (AtMost 1 0) (serve (some d) s) (go_on n) (serve-some-Good d s h)
      (λ o t q. go_on-Good n o t ih q)

abbrev round : ℕ → Action System (List ℕ)
round n =
    on_ring (RingManager.fetch_next_descriptor RingManager.default_max_steps) >>= after_fetch n

event_loop-round :
    (n : ℕ) (s : System) → RingManager.is_empty s.ring ≡ false → event_loop (suc n) s ≡ round n s
unfolding event_loop
event_loop-round n s e = ground (arith, e)

pub event_loop-Good : (n : ℕ) (s : System) → AtMost 0 0 s → Good (AtMost 1 0) (event_loop n s)
unfolding event_loop
event_loop-Good zero s h = refl
event_loop-Good (suc n) s h = elim (Bool-cases (RingManager.is_empty s.ring)) [
  | inl y ↦
      let e : event_loop (suc n) s ≡ (ok [], s) = ground (arith, y) in
      subst (Good (AtMost 1 0)) (sym e) (omega (arith, h.0), h.1)
  | inr y ↦
      let fetch = RingManager.fetch_next_descriptor RingManager.default_max_steps in
      subst (Good (AtMost 1 0)) (sym (event_loop-round n s y)) (
        >>=-Good (AtMost 1 0) (AtMost 1 0) (on_ring fetch s) (after_fetch n)
          (part-Good (λ r. record s { ring = r }) (Few 1) (AtMost 1 0) (fetch s.ring)
            (fetch-Good RingManager.default_max_steps s.ring h.0) (λ r q. (q, h.1)))
          (λ o t q. after_fetch-Good n o t (λ u p. event_loop-Good n u p) q))
]

pub Good-calm :
    {S A : Type 0} (P : S → Type 0) (out : Result A × S) → Good P out → calm out.0 ≡ true
Good-calm P (ok a, s) h = refl
Good-calm P (err e, s) h = h

-- From any state with no handle and no instruction waiting, whatever the memories, the registers
-- and the descriptors are, the event loop ends by returning or by an error other than that a drain
-- has run out of its steps: the RuntimeErrors of `_drain_axi_dm` and `_drain_sram_dm` are never
-- raised.
event_loop-calm : (n : ℕ) (s : System) → AtMost 0 0 s → calm (event_loop n s).0 ≡ true
event_loop-calm n s h = Good-calm (AtMost 1 0) (event_loop n s) (event_loop-Good n s h)
