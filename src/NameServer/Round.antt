-- ===== src/NameServer/Round.antt =====
-- Every name server gets its turn.
use rocketmq_client_cpp.Prelude.{
  ℕ, zero, suc, ◌+◌, ◌%◌, ◌<◌, ◌≡◌, ap, ◌∙◌, List, [], ◌∷◌, length, get_elem?, get_or, arith, some,
}
use rocketmq_client_cpp.Prelude.Text.{Text}
use rocketmq_client_cpp.Prelude.Cycle.{position}
use rocketmq_client_cpp.NameServer.{Resolver, current, next}

-- After so many calls of `next`.
unfoldable pub next_times : ℕ → Resolver → Resolver
next_times zero r = r
next_times (suc n) r = next_times n (next r).0

next_times_lem :
    (n : ℕ) (r : Resolver)
    → r.index + n < 4_294_967_296
    → next_times n r ≡ record r { index = r.index + n }
unfolding next_times next
next_times_lem zero r h = ap (λ i. record r { index = i }) (omega arith)
next_times_lem (suc n) r h =
    next_times_lem n _ (omega arith) ∙ ap (λ i. record r { index = i }) (omega arith)

get_or_found : (l : List Text) (i : ℕ) (t : Text) → get_elem? l i ≡ some t → get_or l i [] ≡ t
get_or_found [] i t e = ground arith
get_or_found (x ∷ l) zero t e = ground arith
get_or_found (x ∷ l) (suc i) t e = get_or_found l i t e

current_at :
    (r : Resolver) (j : ℕ) (server : Text)
    → j < length r.name_server_list
    → get_elem? r.name_server_list j ≡ some server
    → r.index % length r.name_server_list ≡ j
    → current r ≡ server
unfolding current
current_at r j server lt at e = rw e (ground (arith, get_or_found r.name_server_list j server at))

-- While the index does not wrap, for every name server of the list there is a number of calls of next,
-- less than the length of the list, after which it is the current one.
next-current :
    (r : Resolver) (j : ℕ) (server : Text)
    → j < length r.name_server_list
    → get_elem? r.name_server_list j ≡ some server
    → r.index + length r.name_server_list < 4_294_967_296
    → (n : ℕ) × ((n < length r.name_server_list) × (current (next_times n r) ≡ server))
next-current r j server lt at w =
    let (n, meets) = position (length r.name_server_list) r.index j lt in
    (
      n,
      (
        meets.0,
        ap current (next_times_lem n r (omega arith)) ∙ current_at _ j server lt at meets.1,
      ),
    )
