-- ===== src/RouteCache/NoServer.antt =====
-- ClientImpl.cpp for a client that no name server is known to.
use rocketmq_client_cpp.Prelude.{
  ℕ, ◌≡◌, refl, ap, ◌∙◌, sym, subst, true, false, Bool, Option, none, some, List, [], ◌∷◌, ◌++◌,
  is_some, arith,
}
use rocketmq_client_cpp.Prelude.Text.{Text, text_eq_refl}
use rocketmq_client_cpp.Prelude.Table.{lookup-insert_or_assign}
use rocketmq_client_cpp.RouteCache.{Client, Effect, register, register_for, join, fetch_route_for}
use rocketmq_client_cpp.RouteCache.Coalesce.{Missing, waiting}

-- Lookups of one topic one after another, each with whether a name server is known then.
unfoldable pub lookups : Text → List (Bool × ℕ) → Client → List Effect
lookups t [] c = []
lookups t ((has, cb) ∷ later) c =
    let (c', effects) = register has t cb c in effects ++ lookups t later c'

-- A topic that somebody waits for and the table does not have.
record Parked (t : Text) (c : Client) : Type 0 where
  absent : Missing t c
  parked : is_some (waiting t c) ≡ true

join-parks :
    (has : Bool) (t : Text) (cb : ℕ) (c : Client) (o : Option (List ℕ))
    → Missing t c
    → Parked t (join has t cb c o).0
unfolding join
join-parks has t cb c none m = record {
  absent = m;
  parked =
      ground
        (arith, lookup-insert_or_assign t t (cb ∷ []) c.inflight_route_requests, text_eq_refl t);
}
join-parks has t cb c (some cbs) m = record {
  absent = m;
  parked = ground (
    arith,
    lookup-insert_or_assign t t (cbs ++ cb ∷ []) c.inflight_route_requests,
    text_eq_refl t,
  );
}

register-joins :
    (has : Bool) (t : Text) (cb : ℕ) (c : Client)
    → Missing t c
    → register has t cb c ≡ join has t cb c (waiting t c)
unfolding register register_for
register-joins has t cb c m = ap (register_for has t cb c) m

join-silent :
    (has : Bool) (t : Text) (cb : ℕ) (c : Client) (o : Option (List ℕ))
    → is_some o ≡ true
    → (join has t cb c o).1 ≡ []
unfolding join
join-silent has t cb c none h = absurd cc
join-silent has t cb c (some cbs) h = refl

lookups-silent :
    (t : Text) (later : List (Bool × ℕ)) (c : Client) → Parked t c → lookups t later c ≡ []
unfolding lookups
lookups-silent t [] c p = refl
lookups-silent t ((has, cb) ∷ later) c p =
    let joins = register-joins has t cb c p.absent in
    let next : Parked t (register has t cb c).0 =
      subst (λ r. Parked t r.0) (sym joins) (join-parks has t cb c (waiting t c) p.absent) in
    ap (λ r. r.1 ++ lookups t later (register has t cb c).0) joins
    ∙ (ap (λ es. es ++ lookups t later (register has t cb c).0)
          (join-silent has t cb c (waiting t c) p.parked)
        ∙ lookups-silent t later (register has t cb c).0 next)

-- Of a topic that is not in the table and that nobody waits for: after a first lookup without a name
-- server, neither it nor any later lookups of the topic, even those that know a name server, call a
-- callback or send a request, one after another.
no_server-parks_all :
    (t : Text) (cb : ℕ) (later : List (Bool × ℕ)) (c : Client)
    → Missing t c
    → waiting t c ≡ none
    → lookups t ((false, cb) ∷ later) c ≡ []
unfolding lookups
no_server-parks_all t cb later c m w =
    let joins = register-joins false t cb c m in
    let next : Parked t (register false t cb c).0 =
      subst (λ r. Parked t r.0) (sym joins) (join-parks false t cb c (waiting t c) m) in
    ap (λ r. r.1 ++ lookups t later (register false t cb c).0) (joins ∙ ap (join false t cb c) w)
    ∙ unfold join fetch_route_for in lookups-silent t later (register false t cb c).0 next
