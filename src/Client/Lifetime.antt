-- ===== src/Client/Lifetime.antt =====
-- What a push consumer leaves behind: starts and shutdowns of PushConsumerImpl.cpp and ClientImpl.cpp.
use rocketmq_client_cpp.Prelude.{
  ℕ, ◌==◌, ◌≡◌, ◌≢◌, refl, Bool, true, false, not, none, some, List, [], ◌∷◌, ◌++◌, arith, keep,
  ◌||◌, subst, sym, ap,
}
use rocketmq_client_cpp.Prelude.Text.{Text}
use rocketmq_client_cpp.Types.{created, started, stopped}
use rocketmq_client_cpp.Client.{
  PushConsumer, Effect, schedule_task, cancel_task, null_pointer, clear_process_queues, start_push,
  shutdown_push, start, shutdown, ListenerType, start_service, stop_service,
  notify_client_termination, throttles, notify_termination, start_resolver, map, start_manager,
  start_exporter, add_observer, fetch_routes, send_heartbeats, receive_policy, stop_resolver,
  endpoints_in_use, batch_size,
}

abbrev pub cancels : ℕ → List Effect → Bool
cancels id [] = false
cancels id (cancel_task k ∷ es) = k == id || cancels id es
cancels id (e ∷ es) = cancels id es

-- The periodic tasks that are scheduled and never cancelled.
abbrev pub scheduled : List Effect → List ℕ
scheduled [] = []
scheduled (schedule_task id ∷ es) = id ∷ scheduled es
scheduled (e ∷ es) = scheduled es

abbrev pub leaked : List Effect → List ℕ
leaked es = keep (λ id. not (cancels id es)) (scheduled es)

abbrev pub crashes : List Effect → Bool
crashes [] = false
crashes (null_pointer ∷ es) = true
crashes (e ∷ es) = crashes es

scheduled-append : (xs ys : List Effect) → scheduled (xs ++ ys) ≡ scheduled xs ++ scheduled ys
scheduled-append [] ys = refl
scheduled-append (x ∷ xs) ys = ground (arith, scheduled-append xs ys)

cancels-append :
    (id : ℕ) (xs ys : List Effect) → cancels id (xs ++ ys) ≡ (cancels id xs || cancels id ys)
cancels-append id [] ys = refl
cancels-append id (x ∷ xs) ys = ground (arith, cancels-append id xs ys)

crashes-append : (xs ys : List Effect) → crashes (xs ++ ys) ≡ (crashes xs || crashes ys)
crashes-append [] ys = refl
crashes-append (x ∷ xs) ys = ground (arith, crashes-append xs ys)

abbrev IsStartable : PushConsumer → ListenerType → Type 0
IsStartable p listener =
    (p.base.state ≡ created)
    × ((p.base.has_resolver ≡ true)
        × ((p.message_listener ≡ some listener)
            × ((p.scan_assignment_handle ≡ 0) × (p.consume_message_service ≡ none))))

-- The consumer after its start, and what the start asked for.
abbrev begun : ℕ → ℕ → ListenerType → PushConsumer → PushConsumer
begun r k listener p = record p {
  base = record (p.base) { state = started; has_manager = true; route_update_handle = r };
  receive_message_policy = receive_policy listener p.message_model;
  consume_batch_size = batch_size listener p.consume_batch_size;
  consume_message_service = some listener;
  scan_assignment_handle = k;
}

abbrev asked : ℕ → ListenerType → PushConsumer → List Effect
asked k listener p =
    add_observer
    ∷ fetch_routes
    ∷ send_heartbeats
    ∷ start_service listener
    ∷ (throttles p.throttle_table ++ schedule_task k ∷ [])

start_push-begun :
    (r k : ℕ) (p : PushConsumer) (listener : ListenerType)
    → IsStartable p listener
    → start_push r k p ≡ (
      begun r k listener p,
      start_resolver ∷ start_manager ∷ start_exporter ∷ schedule_task r ∷ asked k listener p,
    )
unfolding start_push start
start_push-begun r k p listener (s, (res, (l, (h, c)))) = ground arith

start_push_again :
    (r k r' k' : ℕ) (p : PushConsumer) (listener : ListenerType)
    → p.message_listener ≡ some listener
    → start_push r' k' (begun r k listener p)
      ≡ (begun r k' listener (begun r k listener p), asked k' listener p)
unfolding start_push start
start_push_again r k r' k' p listener l = ground arith

abbrev closed : ℕ → ℕ → ListenerType → PushConsumer → List Effect
closed r k listener p =
    cancel_task k
    ∷ clear_process_queues
    ∷ stop_service listener
    ∷ stop_resolver
    ∷ cancel_task r
    ∷ map notify_termination (endpoints_in_use p.base.topic_route_table [])

shutdown_push-closed :
    (r k : ℕ) (p : PushConsumer) (listener : ListenerType)
    → p.base.has_resolver ≡ true
    → r ≢ 0
    → k ≢ 0
    → ((shutdown_push (begun r k listener p)).1 ≡ closed r k listener p)
      × (((shutdown_push (begun r k listener p)).0.base.state ≡ stopped)
          × ((shutdown_push (begun r k listener p)).0.base.has_manager ≡ false))
unfolding shutdown_push shutdown notify_client_termination
shutdown_push-closed r k p listener res nr nk = ground arith

-- What effects schedule and cancel, without a crash.
abbrev Sums : List ℕ → (ℕ → Bool) → List Effect → Type 0
Sums ids shut es =
    (scheduled es ≡ ids) × (((id : ℕ) → cancels id es ≡ shut id) × (crashes es ≡ false))

Sums-append :
    {ids ids' : List ℕ} {shut shut' : ℕ → Bool} (xs ys : List Effect)
    → Sums ids shut xs
    → Sums ids' shut' ys
    → Sums (ids ++ ids') (λ id. shut id || shut' id) (xs ++ ys)
Sums-append xs ys (i, (c, k)) (i', (c', k')) = (
  rw (scheduled-append xs ys, i, i') refl,
  (λ id. rw (cancels-append id xs ys, c id, c' id) refl, rw (crashes-append xs ys, k, k') refl),
)

Sums-nil : Sums [] (λ id. false) []
Sums-nil = (refl, (λ id. refl, refl))

throttles-Sums : (table : List (Text × ℕ)) → Sums [] (λ id. false) (throttles table)
unfolding throttles
throttles-Sums [] = Sums-nil
throttles-Sums ((topic, threshold) ∷ table) = throttles-Sums table

notify-Sums : (hosts : List Text) → Sums [] (λ id. false) (map notify_termination hosts)
notify-Sums [] = Sums-nil
notify-Sums (host ∷ hosts) = notify-Sums hosts

asked-Sums :
    (k : ℕ) (listener : ListenerType) (p : PushConsumer)
    → Sums (k ∷ []) (λ id. false) (asked k listener p)
asked-Sums k listener p =
    Sums-append (throttles p.throttle_table) (schedule_task k ∷ [])
      (throttles-Sums p.throttle_table) (refl, (λ id. refl, refl))

closed-Sums :
    (r k : ℕ) (listener : ListenerType) (p : PushConsumer)
    → Sums [] (λ id. k == id || r == id) (closed r k listener p)
closed-Sums r k listener p =
    let quiet = notify-Sums (endpoints_in_use p.base.topic_route_table []) in
    (quiet.0, (λ id. ground (arith, quiet.1.0 id), quiet.1.1))

-- All that a consumer asks for that is started with these identifiers, one pair for each call of `start`, and
-- then shut down.
abbrev pub started_with : List (ℕ × ℕ) → PushConsumer → PushConsumer × List Effect
started_with [] p = (p, [])
started_with ((r, k) ∷ ids) p =
    let (p', es) = start_push r k p in let (p'', later) = started_with ids p' in (p'', es ++ later)

abbrev pub life : List (ℕ × ℕ) → PushConsumer → PushConsumer × List Effect
life ids p =
    let (p', es) = started_with ids p in let (p'', es') = shutdown_push p' in (p'', es ++ es')

module _ (r k : ℕ) (p : PushConsumer) (listener : ListenerType) (ok : IsStartable p listener)
    (nr : r ≢ 0) where
  abbrev first_start : List Effect
  first_start =
      start_resolver ∷ start_manager ∷ start_exporter ∷ schedule_task r ∷ asked k listener p

  life_once : k ≢ 0 → (life ((r, k) ∷ []) p).1 ≡ (first_start ++ []) ++ closed r k listener p
  life_once nk =
      rw (start_push-begun r k p listener ok, (shutdown_push-closed r k p listener ok.1.0 nr nk).0)
        refl

  first_start-Sums : Sums (r ∷ k ∷ []) (λ id. false) first_start
  first_start-Sums = let all = asked-Sums k listener p in (ap (λ ids. r ∷ ids) all.0, all.1)

  once-Sums :
      Sums (r ∷ k ∷ []) (λ id. k == id || r == id) ((first_start ++ []) ++ closed r k listener p)
  once-Sums =
      Sums-append (first_start ++ []) (closed r k listener p)
        (Sums-append first_start [] first_start-Sums Sums-nil) (closed-Sums r k listener p)

  leaked-Sums :
      (es : List Effect) → Sums (r ∷ k ∷ []) (λ id. k == id || r == id) es → leaked es ≡ []
  leaked-Sums es (all, (shut, crash)) = rw (all, shut r, shut k) (ground arith)

  -- A push consumer that can be started, started once and then shut down, with identifiers other than 0:
  -- it schedules two tasks, cancels both, calls nothing through a null pointer, and ends stopped.
  pub life-clean :
      k ≢ 0
      → (scheduled (life ((r, k) ∷ []) p).1 ≡ r ∷ k ∷ [])
        × ((leaked (life ((r, k) ∷ []) p).1 ≡ [])
            × ((crashes (life ((r, k) ∷ []) p).1 ≡ false)
                × ((life ((r, k) ∷ []) p).0.base.state ≡ stopped)))
  life-clean nk =
      let all =
        subst (Sums (r ∷ k ∷ []) (λ id. k == id || r == id)) (sym (life_once nk)) once-Sums in
      (
        all.0,
        (
          leaked-Sums (life ((r, k) ∷ []) p).1 all,
          (
            all.1.1,
            rw (start_push-begun r k p listener ok)
                (shutdown_push-closed r k p listener ok.1.0 nr nk).1.0,
          ),
        ),
      )

  life_twice :
      (r' k' : ℕ)
      → k' ≢ 0
      → (life ((r, k) ∷ (r', k') ∷ []) p).1
        ≡ (first_start ++ (asked k' listener p ++ [])) ++ closed r k' listener p
  life_twice r' k' nk =
      rw
        (
          start_push-begun r k p listener ok,
          start_push_again r k r' k' p listener ok.1.1.0,
          (shutdown_push-closed r k' (begun r k listener p) listener ok.1.0 nr nk).0,
        )
        refl

  twice-Sums :
      (r' k' : ℕ)
      → Sums
          (r ∷ k ∷ k' ∷ [])
          (λ id. k' == id || r == id)
          ((first_start ++ (asked k' listener p ++ [])) ++ closed r k' listener p)
  twice-Sums r' k' =
      Sums-append (first_start ++ (asked k' listener p ++ [])) (closed r k' listener p)
        (Sums-append first_start (asked k' listener p ++ []) first_start-Sums
          (Sums-append (asked k' listener p) [] (asked-Sums k' listener p) Sums-nil))
        (closed-Sums r k' listener p)

  leaked_twice :
      (k' : ℕ) (es : List Effect)
      → r ≢ k
      → k ≢ k'
      → Sums (r ∷ k ∷ k' ∷ []) (λ id. k' == id || r == id) es
      → leaked es ≡ k ∷ []
  leaked_twice k' es nk nk' (all, (shut, crash)) = rw (all, shut r, shut k, shut k') (ground arith)

  -- A push consumer that can be started, started twice and then shut down, with identifiers other than 0
  -- and distinct: exactly one task is scheduled and never cancelled, the scan of assignments of the
  -- first start.
  pub life-leaked :
      (r' k' : ℕ) → k' ≢ 0 → r ≢ k → k ≢ k' → leaked (life ((r, k) ∷ (r', k') ∷ []) p).1 ≡ k ∷ []
  life-leaked r' k' nk' n n' = leaked_twice k' (life ((r, k) ∷ (r', k') ∷ []) p).1 n n' (
      subst (Sums (r ∷ k ∷ k' ∷ []) (λ id. k' == id || r == id)) (sym (life_twice r' k' nk'))
        (twice-Sums r' k'))

  -- Again.
  pub life-crashes : k ≢ 0 → crashes (shutdown_push (life ((r, k) ∷ []) p).0).1 ≡ true
  unfolding shutdown_push shutdown
  life-crashes nk = rw (start_push-begun r k p listener ok) (ground arith)
