-- ===== src/RouteCache/Coalesce.antt =====
-- The lookups of one topic in ClientImpl.cpp, in any order with replies and updates.
use rocketmq_client_cpp.Prelude.{
  ◌||◌, is_empty, ℕ, ◌+◌, ◌≡◌, refl, ap, sym, subst, Bool, true, false, Option, none, some, List,
  [], ◌∷◌, ◌++◌, if◌then◌else◌, arith, Bool-cases, inl, inr, is_some,
}
use rocketmq_client_cpp.Prelude.Text.{Text, text_eq, text_eq_refl}
use rocketmq_client_cpp.Prelude.Table.{
  lookup, contains_key, lookup-insert_or_assign, lookup-erase_key,
}
use rocketmq_client_cpp.Types.{ErrorCode}
use rocketmq_client_cpp.Route.{Partition, route_eq}
use rocketmq_client_cpp.RouteCache.{
  Client, Effect, store, register, register_for, join, update_route_cache, on_topic_route_ready,
  release_pending, answer, fetch_route_for, call, resolve_route,
}

abbrev pub or_nil : Option (List ℕ) → List ℕ
or_nil none = []
or_nil (some cbs) = cbs

-- The callbacks of a topic that wait.
abbrev pub parked : Text → Client → List ℕ
parked t c = or_nil (lookup t c.inflight_route_requests)

abbrev pub called : List Effect → List ℕ
called [] = []
called (call cb ec route ∷ es) = cb ∷ called es
called (resolve_route topic ∷ es) = called es

abbrev pub asked_server : List Effect → ℕ
asked_server [] = 0
asked_server (call cb ec route ∷ es) = asked_server es
asked_server (resolve_route topic ∷ es) = 1 + asked_server es

-- A client as one topic sees it: its callbacks in the order of their arrival and of their answers, and
-- how many requests for it are on their way.
pub record World : Type 0 where
  pub client : Client
  pub arrived : List ℕ
  pub answered : List ℕ
  pub requests : ℕ

abbrev pub Missing : Text → Client → Type 0
Missing t c = lookup t c.topic_route_table ≡ none

pub data Step (t : Text) (w : World) : World → Type 0 where
  -- A lookup of the topic that the table does not answer.
  asks :
      (cb : ℕ)
      → Missing t w.client
      → Step t w (record {
        client = (register true t cb w.client).0;
        arrived = w.arrived ++ cb ∷ [];
        answered = w.answered ++ called (register true t cb w.client).1;
        requests = w.requests + asked_server (register true t cb w.client).1;
      })
  -- One of another topic.
  asks_other :
      (topic : Text) (cb : ℕ)
      → text_eq topic t ≡ false
      → Step t w (record w { client = (register true topic cb w.client).0 })
  replies :
      (ec : Option ErrorCode) (route : Option (List Partition)) {c : Client} {es : List Effect}
      {n : ℕ}
      → w.requests ≡ n + 1
      → on_topic_route_ready t ec route w.client ≡ some (c, es)
      → Step t w (record {
        client = c;
        arrived = w.arrived;
        answered = w.answered ++ called es;
        requests = n;
      })
  replies_other :
      (topic : Text) (ec : Option ErrorCode) (route : Option (List Partition)) {c : Client}
      {es : List Effect}
      → text_eq topic t ≡ false
      → on_topic_route_ready topic ec route w.client ≡ some (c, es)
      → Step t w (record w { client = c })
  -- The reply to a request of `updateRouteInfo`.
  updates :
      (topic : Text) (ec : Option ErrorCode) (route : Option (List Partition))
      → Step t w (record w { client = update_route_cache topic ec route w.client })

pub data Reach (t : Text) : World → Type 0 where
  start :
      (table : List (Text × List Partition))
      → Reach t (record {
        client = record { topic_route_table = table; inflight_route_requests = [] };
        arrived = [];
        answered = [];
        requests = 0;
      })
  later : {w v : World} → Reach t w → Step t w v → Reach t v

pub record Shared (t : Text) (w : World) : Type 0 where
  pub order : w.arrived ≡ w.answered ++ parked t w.client
  pub one : w.requests ≡ (if contains_key t w.client.inflight_route_requests then 1 else 0)

abbrev pub waiting : Text → Client → Option (List ℕ)
waiting t c = lookup t c.inflight_route_requests

store-inflight :
    (topic : Text) (route : List Partition) (c : Client) (o : Option (List Partition))
    → (store topic route c o).inflight_route_requests ≡ c.inflight_route_requests
unfolding store
store-inflight topic route c none = refl
store-inflight topic route c (some cached) = elim (Bool-cases (route_eq cached route)) [
  | inl e ↦ rw e refl
  | inr e ↦ rw e refl
]

pub update-inflight :
    (topic : Text) (ec : Option ErrorCode) (route : Option (List Partition)) (c : Client)
    → (update_route_cache topic ec route c).inflight_route_requests ≡ c.inflight_route_requests
unfolding update_route_cache
update-inflight topic ec none c = refl
update-inflight topic ec (some route) c = elim (Bool-cases (is_some ec || is_empty route)) [
  | inl e ↦ rw e refl
  | inr e ↦ rw e (store-inflight topic route c (lookup topic c.topic_route_table))
]

-- A lookup that joins: it waits last, nobody is called, and the first one asks the server.
pub record Joined (t : Text) (cb : ℕ) (o : Option (List ℕ)) (r : Client × List Effect)
    : Type 0 where
  pub waits : waiting t r.0 ≡ some (or_nil o ++ cb ∷ [])
  pub calls : called r.1 ≡ []
  pub asks : asked_server r.1 ≡ (if is_some o then 0 else 1)

pub join-Joined :
    (t : Text) (cb : ℕ) (c : Client) (o : Option (List ℕ)) → Joined t cb o (join true t cb c o)
unfolding join fetch_route_for
join-Joined t cb c none = record {
  waits =
      ground
        (arith, lookup-insert_or_assign t t (cb ∷ []) c.inflight_route_requests, text_eq_refl t);
  calls = refl;
  asks = refl;
}
join-Joined t cb c (some cbs) = record {
  waits = ground (
    arith,
    lookup-insert_or_assign t t (cbs ++ cb ∷ []) c.inflight_route_requests,
    text_eq_refl t,
  );
  calls = refl;
  asks = refl;
}

pub register-Joined :
    (t : Text) (cb : ℕ) (c : Client)
    → Missing t c
    → Joined t cb (waiting t c) (register true t cb c)
unfolding register register_for
register-Joined t cb c m =
    subst (Joined t cb (waiting t c)) (ap (register_for true t cb c) (sym m))
      (join-Joined t cb c (waiting t c))

-- Other topics' requests leave the topic's alone.
join-other :
    (has : Bool) (topic t : Text) (cb : ℕ) (c : Client) (o : Option (List ℕ))
    → text_eq topic t ≡ false
    → waiting t (join has topic cb c o).0 ≡ waiting t c
unfolding join
join-other has topic t cb c none e =
    ground (arith, lookup-insert_or_assign topic t (cb ∷ []) c.inflight_route_requests)
join-other has topic t cb c (some cbs) e =
    ground (arith, lookup-insert_or_assign topic t (cbs ++ cb ∷ []) c.inflight_route_requests)

pub register-other :
    (has : Bool) (topic t : Text) (cb : ℕ) (c : Client) (o : Option (List Partition))
    → text_eq topic t ≡ false
    → waiting t (register_for has topic cb c o).0 ≡ waiting t c
unfolding register_for
register-other has topic t cb c none e = join-other has topic t cb c (waiting topic c) e
register-other has topic t cb c (some route) e = refl

called-answer :
    (ec : Option ErrorCode) (route : Option (List Partition)) (cbs : List ℕ)
    → called (answer ec route cbs) ≡ cbs
unfolding answer
called-answer ec route [] = refl
called-answer ec route (cb ∷ cbs) = ap (λ l. cb ∷ l) (called-answer ec route cbs)

-- What a reply takes: all that wait, and the topic's entry with them.
pub release-own :
    (t : Text) (ec : Option ErrorCode) (route : Option (List Partition)) (c c' : Client)
    (o : Option (List ℕ)) (es : List Effect)
    → release_pending t ec route c o ≡ some (c', es)
    → (called es ≡ or_nil o) × ((waiting t c' ≡ none) × (is_some o ≡ true))
unfolding release_pending
release-own t ec route c c' none es e = absurd cc
release-own t ec route c c' (some cbs) es e =
    let gone = lookup-erase_key t t c.inflight_route_requests in
    let all = called-answer ec route cbs in (cc, (ground (arith, gone, text_eq_refl t), refl))

pub release-other :
    (topic t : Text) (ec : Option ErrorCode) (route : Option (List Partition)) (c c' : Client)
    (o : Option (List ℕ)) (es : List Effect)
    → text_eq topic t ≡ false
    → release_pending topic ec route c o ≡ some (c', es)
    → waiting t c' ≡ waiting t c
unfolding release_pending
release-other topic t ec route c c' none es d e = absurd cc
release-other topic t ec route c c' (some cbs) es d e =
    ground (arith, lookup-erase_key topic t c.inflight_route_requests)
