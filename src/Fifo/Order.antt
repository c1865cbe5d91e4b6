-- ===== src/Fifo/Order.antt =====
-- source/fifo_queue.py: the order and the bound of the queue.
use axi_dma_engine.Base.{
  ℕ, suc, ◌+◌, ◌≤◌, ◌<◌, ◌≡◌, refl, List, [], ◌∷◌, ◌++◌, length, ok, err, Action, pure, ◌>>=◌, ◌>>◌,
  fifo_overflow, arith, length-append, suc,
}
use mathlib.Core.List.{append_assoc, append-nil}
use axi_dma_engine.Fifo.{Fifo, enqueue, dequeue}

-- `len(buffer) <= queue_length`, and the length is positive, as `__init__` demands.
pub record IsValid (q : Fifo) : Type 0 where
  pub positive : 1 ≤ q.queue_length
  pub fits : length q.buffer ≤ q.queue_length

pub enqueue_room :
    (v : ℕ) (q : Fifo)
    → length q.buffer < q.queue_length
    → enqueue v q ≡ (ok tt, record q { buffer = q.buffer ++ v ∷ [] })
unfolding enqueue
enqueue_room v q h = ground arith

pub enqueue_full :
    (v : ℕ) (q : Fifo) → length q.buffer ≡ q.queue_length → enqueue v q ≡ (err fifo_overflow, q)
unfolding enqueue
enqueue_full v q h = ground arith

pub dequeue_front :
    (v : ℕ) (vs : List ℕ) (n : ℕ)
    → dequeue (record { queue_length = n; buffer = v ∷ vs })
      ≡ (ok v, record { queue_length = n; buffer = vs })
unfolding dequeue
dequeue_front v vs n = refl

pub enqueue-IsValid : (v : ℕ) (q : Fifo) → IsValid q → IsValid (enqueue v q).1
unfolding enqueue
enqueue-IsValid v q h = ground (arith, length-append q.buffer (v ∷ []))

pub dequeue-IsValid : (q : Fifo) → IsValid q → IsValid (dequeue q).1
unfolding dequeue
dequeue-IsValid q h = ground arith

-- `for v in vs: fifo.enqueue(v)`
enqueue_all : List ℕ → Action Fifo (Unit {0})
enqueue_all [] = pure tt
enqueue_all (v ∷ vs) = do enqueue v; enqueue_all vs

-- `[fifo.dequeue() for _ in range(n)]`
dequeue_all : ℕ → Action Fifo (List ℕ)
dequeue_all ℕ.zero = pure []
dequeue_all (suc n) = do v ← dequeue; vs ← dequeue_all n; pure (v ∷ vs)

enqueue_all_room :
    (vs : List ℕ) (q : Fifo)
    → length q.buffer + length vs ≤ q.queue_length
    → enqueue_all vs q ≡ (ok tt, record q { buffer = q.buffer ++ vs })
unfolding enqueue_all
enqueue_all_room [] q h = rw (append-nil)
enqueue_all_room (v ∷ vs) q h =
    let q' : Fifo = record q { buffer = q.buffer ++ v ∷ [] } in
    let room : length q'.buffer + length vs ≤ q.queue_length =
      omega (arith, length-append q.buffer (v ∷ [])) in
    ground (
      arith,
      enqueue_room v q (omega arith),
      enqueue_all_room vs q' room,
      append_assoc q.buffer (v ∷ []) vs,
    )

dequeue_all_front :
    (vs ws : List ℕ) (n : ℕ)
    → dequeue_all (length vs) (record { queue_length = n; buffer = vs ++ ws })
      ≡ (ok vs, record { queue_length = n; buffer = ws })
unfolding dequeue_all
dequeue_all_front [] ws n = refl
dequeue_all_front (v ∷ vs) ws n =
    ground (arith, dequeue_front v (vs ++ ws) n, dequeue_all_front vs ws n)
