-- ===== src/RouteCache/Endpoints.antt =====
-- Which endpoints `endpointsInUse` of ClientImpl.cpp collects.
use rocketmq_client_cpp.Prelude.{
  ◌≡◌, refl, ◌∙◌, Bool, false, ◌||◌, List, [], ◌∷◌, ◌++◌, arith, any, Bool-cases, inl, inr,
}
use rocketmq_client_cpp.Prelude.Text.{Text, text_eq, text_eq_iff}
use rocketmq_client_cpp.Route.{Partition, as_message_queue}
use rocketmq_client_cpp.RouteCache.{add_endpoint, route_endpoints, endpoints_in_use}

abbrev pub has : List Text → Text → Bool
has l e = any (λ x. text_eq x e) l

abbrev pub NoTwice : List Text → Type 0
NoTwice [] = Unit {0}
NoTwice (e ∷ l) = (has l e ≡ false) × NoTwice l

-- Some partition of a route, of a table, has the endpoint.
abbrev pub serves : List Partition → Text → Bool
serves route e = any (λ p. text_eq (as_message_queue p).service_address e) route

abbrev pub serves_table : List (Text × List Partition) → Text → Bool
serves_table table e = any (λ entry. serves entry.1 e) table

has-append : (l m : List Text) (e : Text) → has (l ++ m) e ≡ (has l e || has m e)
has-append [] m e = refl
has-append (x ∷ l) m e = ground (arith, has-append l m e)

has-add_endpoint :
    (a e : Text) (l : List Text) → has (add_endpoint a l) e ≡ (has l e || text_eq a e)
unfolding add_endpoint
has-add_endpoint a e l = elim (Bool-cases (has l a)) [
  | inl old ↦ rw old (ground (arith, text_eq_iff a e))
  | inr new ↦ rw (new, has-append l (a ∷ []) e) (ground arith)
]

has-route_endpoints :
    (route : List Partition) (e : Text) (l : List Text)
    → has (route_endpoints route l) e ≡ (has l e || serves route e)
unfolding route_endpoints
has-route_endpoints [] e l = ground arith
has-route_endpoints (p ∷ route) e l = ground (
  arith,
  has-route_endpoints route e (add_endpoint (as_message_queue p).service_address l),
  has-add_endpoint (as_message_queue p).service_address e l,
)

pub has-endpoints_in_use :
    (table : List (Text × List Partition)) (e : Text) (l : List Text)
    → has (endpoints_in_use table l) e ≡ (has l e || serves_table table e)
unfolding endpoints_in_use
has-endpoints_in_use [] e l = ground arith
has-endpoints_in_use ((topic, route) ∷ table) e l =
    ground
      (arith, has-endpoints_in_use table e (route_endpoints route l), has-route_endpoints route e l)

NoTwice-append : (l : List Text) (e : Text) → NoTwice l → has l e ≡ false → NoTwice (l ++ e ∷ [])
NoTwice-append [] e n h = (refl, tt)
NoTwice-append (x ∷ l) e n h = (
  has-append l (e ∷ []) x ∙ ground (arith, text_eq_iff e x, text_eq_iff x e),
  NoTwice-append l e n.1 (ground arith),
)

NoTwice-add_endpoint : (a : Text) (l : List Text) → NoTwice l → NoTwice (add_endpoint a l)
unfolding add_endpoint
NoTwice-add_endpoint a l n = elim (Bool-cases (has l a)) [
  | inl old ↦ rw old n
  | inr new ↦ rw new (NoTwice-append l a n new)
]

NoTwice-route_endpoints :
    (route : List Partition) (l : List Text) → NoTwice l → NoTwice (route_endpoints route l)
unfolding route_endpoints
NoTwice-route_endpoints [] l n = n
NoTwice-route_endpoints (p ∷ route) l n =
    NoTwice-route_endpoints route (add_endpoint (as_message_queue p).service_address l)
      (NoTwice-add_endpoint (as_message_queue p).service_address l n)

pub NoTwice-endpoints_in_use :
    (table : List (Text × List Partition)) (l : List Text)
    → NoTwice l
    → NoTwice (endpoints_in_use table l)
unfolding endpoints_in_use
NoTwice-endpoints_in_use [] l n = n
NoTwice-endpoints_in_use ((topic, route) ∷ table) l n =
    NoTwice-endpoints_in_use table (route_endpoints route l) (NoTwice-route_endpoints route l n)
