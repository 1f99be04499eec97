-- ===== src/Lifecycle/Closing.antt =====
-- What a consume service has open and closes, for ConsumeMessageService.cpp.
use rocketmq_client_cpp.Prelude.{
  ℕ, ◌+◌, ◌≤◌, ◌≡◌, refl, List, [], ◌∷◌, ◌++◌, arith, subst, ap, sym, ◌∙◌, ◌⊎◌, All, inl, inr,
}
use rocketmq_client_cpp.Types.{State, created, starting, started, stopping, stopped}
use rocketmq_client_cpp.Lifecycle.{
  Service, Call, start_base, start_pool, start_thread, start_mark, shutdown_wait, shutdown_mark,
  shutdown_base, shutdown_pool, shutdown_join, shutdown_observer, returned, advance,
  compare_exchange, System, Step, goes_on, shut_down, Reach, here, later, one_start,
}

-- How many calls are at each step.
record Tally : Type 0 where
  base : ℕ
  pool : ℕ
  thread : ℕ
  mark : ℕ
  closing : ℕ
  pool_closing : ℕ
  joining : ℕ
  stopping_observer : ℕ

abbrev add : Call → Tally → Tally
add start_base t = record t { base = t.base + 1 }
add start_pool t = record t { pool = t.pool + 1 }
add start_thread t = record t { thread = t.thread + 1 }
add start_mark t = record t { mark = t.mark + 1 }
add shutdown_wait t = t
add shutdown_mark t = t
add shutdown_base t = record t { closing = t.closing + 1 }
add shutdown_pool t = record t { pool_closing = t.pool_closing + 1 }
add shutdown_join t = record t { joining = t.joining + 1 }
add shutdown_observer t = record t { stopping_observer = t.stopping_observer + 1 }
add returned t = t

abbrev tally : List Call → Tally
tally [] = record {
  base = 0;
  pool = 0;
  thread = 0;
  mark = 0;
  closing = 0;
  pool_closing = 0;
  joining = 0;
  stopping_observer = 0;
}
tally (c ∷ cs) = add c (tally cs)

-- The calls that start: none, but for one in the states before `started`.
abbrev NoStart : Tally → Type 0
NoStart t = (t.base ≡ 0) × ((t.pool ≡ 0) × ((t.thread ≡ 0) × (t.mark ≡ 0)))

abbrev NoClose : Service → Tally → Type 0
NoClose s t =
    (t.closing ≡ 0)
    × ((t.pool_closing ≡ 0)
        × ((t.joining ≡ 0)
            × ((t.stopping_observer ≡ 0)
                × ((s.pool_shut_down ≡ 0) × ((s.joined ≡ 0) × (s.observer_stopped ≡ 0))))))

abbrev IsOpen : Service → Type 0
IsOpen s = (s.pool_started ≡ 1) × (s.dispatch_threads ≡ 1)

abbrev InState : State → Service → Tally → Type 0
InState created s t =
    (t.base ≡ 1)
    × ((t.pool + t.thread + t.mark ≡ 0)
        × ((s.pool_started ≡ 0) × ((s.dispatch_threads ≡ 0) × NoClose s t)))
InState starting s t =
    (t.base ≡ 0)
    × ((t.pool + t.thread + t.mark ≡ 1)
        × ((s.pool_started ≡ t.thread + t.mark) × ((s.dispatch_threads ≡ t.mark) × NoClose s t)))
InState started s t = NoStart t × (IsOpen s × NoClose s t)
InState stopping s t =
    NoStart t
    × (IsOpen s
        × ((t.closing ≡ 1)
            × ((t.pool_closing ≡ 0)
                × ((t.joining ≡ 0)
                    × ((t.stopping_observer ≡ 0)
                        × ((s.pool_shut_down ≡ 0)
                            × ((s.joined ≡ 0) × (s.observer_stopped ≡ 0))))))))
InState stopped s t =
    NoStart t
    × (IsOpen s
        × ((t.closing ≡ 0)
            × ((s.pool_shut_down + t.pool_closing ≡ 1)
                × ((s.joined + t.joining ≡ s.pool_shut_down)
                    × (s.observer_stopped + t.stopping_observer ≡ s.joined)))))

abbrev Kept : Service → Tally → Type 0
Kept s t = InState s.state s t

advance-Kept :
    (c : Call) (x : State) (p q d j o : ℕ) (t : Tally)
    → let s : Service = record {
      state = x;
      pool_started = p;
      pool_shut_down = q;
      dispatch_threads = d;
      joined = j;
      observer_stopped = o;
    } in
      Kept s (add c t) → Kept (advance c s).0 (add (advance c s).1 t)
unfolding advance compare_exchange
advance-Kept start_base x p q d j o t k = ground arith
advance-Kept start_pool x p q d j o t k = ground arith
advance-Kept start_thread x p q d j o t k = ground arith
advance-Kept start_mark x p q d j o t k = ground arith
advance-Kept shutdown_wait x p q d j o t k = ground arith
advance-Kept shutdown_mark x p q d j o t k = ground arith
advance-Kept shutdown_base x p q d j o t k = ground arith
advance-Kept shutdown_pool x p q d j o t k = ground arith
advance-Kept shutdown_join x p q d j o t k = ground arith
advance-Kept shutdown_observer x p q d j o t k = ground arith
advance-Kept returned x p q d j o t k = k

-- The order of the calls does not matter.
add_comm : (b c : Call) (t : Tally) → add b (add c t) ≡ add c (add b t)
add_comm b c t = ground arith

tally-middle :
    (before : List Call) (c : Call) (after : List Call)
    → tally (before ++ c ∷ after) ≡ add c (tally (before ++ after))
tally-middle [] c after = refl
tally-middle (b ∷ before) c after =
    ap (add b) (tally-middle before c after) ∙ add_comm b c (tally (before ++ after))

KeptSystem : System → Type 0
KeptSystem x = Kept x.service (tally x.calls)

Step-Kept : (x y : System) → Step x y → KeptSystem x → KeptSystem y
unfolding KeptSystem
Step-Kept x y (goes_on s before c after) k =
    subst (Kept (advance c s).0) (sym (tally-middle before (advance c s).1 after)) (
      advance-Kept c s.state s.pool_started s.pool_shut_down s.dispatch_threads s.joined
        s.observer_stopped (tally (before ++ after))
        (subst (Kept s) (tally-middle before c after) k))
Step-Kept x y (shut_down s calls) k = k

Reach-Kept : (x : System) → Reach one_start x → KeptSystem x
unfolding KeptSystem
Reach-Kept x here =
    (refl, (refl, (refl, (refl, (refl, (refl, (refl, (refl, (refl, (refl, refl))))))))))
Reach-Kept x (later r step) = Step-Kept _ x step (Reach-Kept _ r)

Kept-bounds :
    (x : State) (s : Service) (t : Tally)
    → InState x s t
    → (s.joined ≤ s.pool_shut_down)
      × ((s.pool_shut_down ≤ s.dispatch_threads)
          × ((s.dispatch_threads ≤ s.pool_started) × (s.pool_started ≤ 1)))
Kept-bounds created s t k = ground arith
Kept-bounds starting s t k = ground arith
Kept-bounds started s t k = ground arith
Kept-bounds stopping s t k = ground arith
Kept-bounds stopped s t k = ground arith

-- When a service is made, started once and shut down any number of times, however the steps of these
-- calls interleave: at every moment the joins are at most as many as the shutdowns of the pool, these
-- at most as many as the dispatcher threads, these at most as many as the starts of the pool, and
-- these at most one.
closes_once :
    (x : System)
    → Reach one_start x
    → (x.service.joined ≤ x.service.pool_shut_down)
      × ((x.service.pool_shut_down ≤ x.service.dispatch_threads)
          × ((x.service.dispatch_threads ≤ x.service.pool_started) × (x.service.pool_started ≤ 1)))
closes_once x r =
    Kept-bounds x.service.state x.service (tally x.calls) (unfold KeptSystem in (Reach-Kept x r))

tally_returned : (cs : List Call) → All (λ c. c ≡ returned) cs → tally cs ≡ tally []
tally_returned [] a = refl
tally_returned (c ∷ cs) a = rw (a.0, tally_returned cs a.1) refl

-- Nothing is left between open and closed.
abbrev pub IsSettled : Service → Type 0
IsSettled s =
    ((s.state ≡ started)
      × ((s.pool_started ≡ 1)
          × ((s.dispatch_threads ≡ 1)
              × ((s.pool_shut_down ≡ 0) × ((s.joined ≡ 0) × (s.observer_stopped ≡ 0))))))
    ⊎ ((s.state ≡ stopped)
        × ((s.pool_started ≡ 1)
            × ((s.dispatch_threads ≡ 1)
                × ((s.pool_shut_down ≡ 1) × ((s.joined ≡ 1) × (s.observer_stopped ≡ 1))))))

-- When a service is made, started once and shut down any number of times, however the steps of these
-- calls interleave: once all calls have returned, either the service is started, with its pool and its
-- dispatcher thread started once and nothing closed, or it is stopped, with both closed once and the
-- observer of its rate limiters stopped once.
pub returned-IsSettled :
    (x : System) → Reach one_start x → All (λ c. c ≡ returned) x.calls → IsSettled x.service
returned-IsSettled x r a =
    of x.service.state refl
      (subst (Kept x.service) (tally_returned x.calls a) (unfold KeptSystem in (Reach-Kept x r)))
  where
    of :
        (state : State)
        → x.service.state ≡ state
        → InState state x.service (tally [])
        → IsSettled x.service
    of created e k = absurd (ground arith)
    of starting e k = absurd (ground arith)
    of started e k = inl (e, ground arith)
    of stopping e k = absurd (ground arith)
    of stopped e k = inr (e, ground arith)
