-- ===== src/PushConsumer/Broker/Queryable.antt =====
-- Which partitions the loop of selectBroker of PushConsumerImpl.cpp takes a host of.
use rocketmq_client_cpp.Prelude.{
  zero, suc, ◌≡◌, ◌≢◌, ◌⊎◌, inl, inr, refl, true, false, none, some, List, [], ◌∷◌, arith, is_empty,
}
use rocketmq_client_cpp.Prelude.Text.{Text}
use rocketmq_client_cpp.Prelude.Int.{ℤ, pos, negsuc, eq_ℤ}
use rocketmq_client_cpp.Route.{Partition, Permission, master_broker_id, address}
use rocketmq_client_cpp.PushConsumer.Broker.{is_denied, host_of}

-- A partition of a master with addresses, which is not denied to all.
abbrev pub IsQueryable : Partition → Type 0
IsQueryable p =
    (p.broker.id ≡ pos 0)
    × ((p.permission ≢ Permission.none) × (p.broker.service_address.addresses ≢ []))

master-cases :
    (z : ℤ)
    → ((eq_ℤ master_broker_id z ≡ true) × (z ≡ pos 0))
      ⊎ ((eq_ℤ master_broker_id z ≡ false) × (z ≢ pos 0))
master-cases (pos zero) = inl (refl, refl)
master-cases (pos (suc n)) = inr (ground arith, λ e. absurd cc)
master-cases (negsuc n) = inr (refl, λ e. absurd cc)

denied-cases :
    (x : Permission)
    → ((is_denied x ≡ true) × (x ≡ Permission.none))
      ⊎ ((is_denied x ≡ false) × (x ≢ Permission.none))
denied-cases Permission.none = inl (refl, refl)
denied-cases Permission.read = inr (refl, λ e. absurd cc)
denied-cases Permission.write = inr (refl, λ e. absurd cc)
denied-cases Permission.read_write = inr (refl, λ e. absurd cc)

empty-cases :
    {A : Type 0}
    → (l : List A) → ((is_empty l ≡ true) × (l ≡ [])) ⊎ ((is_empty l ≡ false) × (l ≢ []))
empty-cases [] = inl (refl, refl)
empty-cases (x ∷ l) = inr (refl, λ e. absurd cc)

host_of-cases :
    (p : Partition)
    → ((host_of p ≡ some (address p.broker.service_address)) × IsQueryable p)
      ⊎ ((host_of p ≡ none) × ¬ IsQueryable p)
unfolding host_of
host_of-cases p = elim (master-cases p.broker.id) [
  | inr (e, slave) ↦ inr (ground arith, λ q. slave q.0)
  | inl (e, master) ↦ elim (denied-cases p.permission) [
    | inl (d, denied) ↦ inr (ground arith, λ q. q.1.0 denied)
    | inr (d, allowed) ↦ elim (empty-cases p.broker.service_address.addresses) [
      | inl (n, void) ↦ inr (ground arith, λ q. q.1.1 void)
      | inr (n, there) ↦ inl (ground arith, (master, (allowed, there)))
    ]
  ]
]

pub host_of-some :
    (p : Partition) (host : Text)
    → host_of p ≡ some host
    → IsQueryable p × (host ≡ address p.broker.service_address)
host_of-some p host e = elim (host_of-cases p) [ inl (f, q) ↦ (q, cc) | inr (f, q) ↦ absurd cc ]

pub host_of-none : (p : Partition) → host_of p ≡ none → ¬ IsQueryable p
host_of-none p e = elim (host_of-cases p) [ inl (f, q) ↦ absurd cc | inr (f, q) ↦ q ]
