-- ===== src/Fifo.antt =====
-- source/fifo_queue.py: a FIFO of bounded length. Its `id` only goes into messages and is left out.
pub mod Order
use axi_dma_engine.Base.{
  ℕ, suc, ◌+◌, ◌-◌, ◌≡◌, Bool, List, [], ◌∷◌, ◌++◌, length, ◌==◌, if◌then◌else◌, Result, ok, err,
  Action, pure, raise, gets, modify, raise_if, ◌>>=◌, ◌>>◌, fifo_length, fifo_overflow,
  fifo_underflow,
}

pub record Fifo : Type 0 where
  pub queue_length : ℕ
  pub buffer : List ℕ

-- `FIFOQueue(id, queue_length)`
unfoldable pub new : ℕ → Result Fifo
new n = if n == 0 then err fifo_length else ok (record { queue_length = n; buffer = [] })

unfoldable pub is_empty : Fifo → Bool
is_empty q = length q.buffer == 0

unfoldable pub is_full : Fifo → Bool
is_full q = length q.buffer == q.queue_length

unfoldable pub enqueue : ℕ → Action Fifo (Unit {0})
unfolding is_full
enqueue v = do
  raise_if (← gets is_full) fifo_overflow
  modify (λ q. record q { buffer = q.buffer ++ v ∷ [] })

unfoldable pub dequeue : Action Fifo ℕ
dequeue q = elim q.buffer [
  | [] ↦ (err fifo_underflow, q)
  | v ∷ vs ↦ (ok v, record q { buffer = vs })
]

-- `self.buffer[0]`, or 0
unfoldable peek : Fifo → ℕ
peek q = elim q.buffer [ [] ↦ 0 | v ∷ vs ↦ v ]

unfoldable clear : Fifo → Fifo
clear q = record q { buffer = [] }

unfoldable pub len : Fifo → ℕ
len q = length q.buffer
