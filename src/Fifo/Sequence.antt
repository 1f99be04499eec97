-- ===== src/Fifo/Sequence.antt =====
-- What comes to a queue, what the listener is called with, and the order of the two, in a run of
-- ConsumeFifoMessageService.cpp.
use rocketmq_client_cpp.Prelude.{◌≡◌, refl, List, [], ◌∷◌, ◌++◌, map, keep, inl, inr, ◌⊎◌}
use rocketmq_client_cpp.Types.{Message, accept}
use rocketmq_client_cpp.Fifo.{FifoConsumer}
use rocketmq_client_cpp.Fifo.Machine.{
  Activity, running, awaiting_ack, acking_later, awaiting_forward, forwarding_later,
  consuming_later, Machine, Step, arrives, dispatches, performs, Reach, here, later,
}
use rocketmq_client_cpp.Fifo.Kept.{key}

-- The messages that a queue took in: those of each batch that pass its filter.
abbrev pub arrived_by : {c : FifoConsumer} {w v : Machine} → Step c w v → List Message
arrived_by {w} (arrives ms) = map key (keep (accept w.queue.filter_expression) ms)
arrived_by (dispatches e) = []
arrived_by (performs s before after a answer held e) = []

abbrev pub consumed_of : Activity → List Message
consumed_of (running m) = key m ∷ []
consumed_of (awaiting_ack m) = []
consumed_of (acking_later m) = []
consumed_of (awaiting_forward m) = []
consumed_of (forwarding_later m) = []
consumed_of (consuming_later m) = []

-- The messages that the listener is called with.
abbrev pub consumed_by : {c : FifoConsumer} {w v : Machine} → Step c w v → List Message
consumed_by (arrives ms) = []
consumed_by (dispatches e) = []
consumed_by (performs s before after a answer held e) = consumed_of a

abbrev pub arrived : {c : FifoConsumer} {w v : Machine} → Reach c w v → List Message
arrived here = []
arrived (later r step) = arrived r ++ arrived_by step

abbrev pub consumed : {c : FifoConsumer} {w v : Machine} → Reach c w v → List Message
consumed here = []
consumed (later r step) = consumed r ++ consumed_by step

-- The first list goes through the second from front to back: it may stay at a message and leave some out, and never
-- goes back.
abbrev pub InOrder : List Message → List Message → Type 0
InOrder [] l = Unit {0}
InOrder (c ∷ cs) [] = ⊥
InOrder (c ∷ cs) (m ∷ l) = ((c ≡ m) × InOrder cs (m ∷ l)) ⊎ InOrder (c ∷ cs) l

pub InOrder-extend : (cs l more : List Message) → InOrder cs l → InOrder cs (l ++ more)
InOrder-extend [] l more o = tt
InOrder-extend (c ∷ cs) [] more o = absurd o
InOrder-extend (c ∷ cs) (m ∷ l) more (inl (e, o)) = inl (e, InOrder-extend cs (m ∷ l) more o)
InOrder-extend (c ∷ cs) (m ∷ l) more (inr o) = inr (InOrder-extend (c ∷ cs) l more o)

-- The last message once more.
pub InOrder-last :
    (cs pre : List Message) (m : Message)
    → InOrder cs (pre ++ m ∷ [])
    → InOrder (cs ++ m ∷ []) (pre ++ m ∷ [])
InOrder-last [] [] m o = inl (refl, tt)
InOrder-last [] (p ∷ pre) m o = inr (InOrder-last [] pre m tt)
InOrder-last (c ∷ cs) [] m (inl (e, o)) = inl (e, InOrder-last cs [] m o)
InOrder-last (c ∷ cs) [] m (inr o) = absurd o
InOrder-last (c ∷ cs) (p ∷ pre) m (inl (e, o)) = inl (e, InOrder-last cs (p ∷ pre) m o)
InOrder-last (c ∷ cs) (p ∷ pre) m (inr o) = inr (InOrder-last (c ∷ cs) pre m o)
