-- ===== src/Manager/Clients.antt =====
-- The RPC client of a host, and the ones that are cleaned (ClientManagerImpl.cpp).
use rocketmq_client_cpp.Prelude.{
  subst, ◌≡◌, refl, ap, sym, Bool, true, false, not, ◌&&◌, Option, none, some, List, [], ◌∷◌, arith,
  Bool-cases, inl, inr, All,
}
use rocketmq_client_cpp.Prelude.Text.{Text, text_eq, text_eq_refl}
use rocketmq_client_cpp.Prelude.Table.{lookup, insert_or_assign, lookup-insert_or_assign}
use rocketmq_client_cpp.Manager.{
  new_client, marked, RpcClient, RpcTable, is_ok, reuse, get_rpc_client, in_use,
  clean_offline_rpc_clients,
}

-- A client that the table has for the host, with an open channel, and a heartbeat where it was asked for;
-- the other hosts keep theirs.
pub record Ready (host : Text) (need : Bool) (table : RpcTable) (r : RpcTable × RpcClient)
    : Type 0 where
  pub shared : lookup host r.0 ≡ some r.1
  pub open_channel : is_ok r.1 ≡ true
  pub heartbeat : need ≡ true → r.1.need_heartbeat ≡ true
  pub others : (other : Text) → text_eq host other ≡ false → lookup other r.0 ≡ lookup other table

insert-Ready :
    (host : Text) (need : Bool) (table : RpcTable) (c : RpcClient)
    → is_ok c ≡ true
    → (need ≡ true → c.need_heartbeat ≡ true)
    → Ready host need table (insert_or_assign host c table, c)
insert-Ready host need table c ok beat = record {
  shared = ground (arith, lookup-insert_or_assign host host c table, text_eq_refl host);
  open_channel = ok;
  heartbeat = beat;
  others = λ other e. ground (arith, lookup-insert_or_assign host other c table);
}

reuse-Ready :
    (host : Text) (need : Bool) (table : RpcTable) (o : Option RpcClient)
    → lookup host table ≡ o
    → Ready host need table (reuse host need table o)
unfolding reuse
reuse-Ready host need table none e = insert-Ready host need table (new_client need) refl (λ n. n)
reuse-Ready host need table (some c) e = elim (Bool-cases c.channel_shutdown) [
  | inl shut ↦
      let same : reuse host need table (some c)
          ≡ (insert_or_assign host (new_client need) table, new_client need) =
        ground arith in
      subst (Ready host need table) (sym same)
        (insert-Ready host need table (new_client need) refl (λ n. n))
  | inr fine ↦ elim (Bool-cases (need && not c.need_heartbeat)) [
    | inl mark ↦
        let same : reuse host need table (some c)
            ≡ (insert_or_assign host (marked c) table, marked c) =
          ground arith in
        subst (Ready host need table) (sym same)
          (insert-Ready host need table (marked c) (ap not fine) (λ n. refl))
    | inr keep ↦
        let same : reuse host need table (some c) ≡ (table, c) = ground arith in
        subst (Ready host need table) (sym same) (record {
          shared = e;
          open_channel = ap not fine;
          heartbeat = λ n. ground arith;
          others = λ other d. refl;
        })
  ]
]

-- getRpcClient gives a client that the table has for the host, with an open channel, and with the
-- heartbeat where it was asked for; the clients of other hosts stay.
get_rpc_client-Ready :
    (host : Text) (need : Bool) (table : RpcTable)
    → Ready host need table (get_rpc_client host need table)
unfolding get_rpc_client
get_rpc_client-Ready host need table = reuse-Ready host need table (lookup host table) refl

-- What a round of the health check keeps: a client in use, or one that needs no heartbeat.
abbrev pub Kept : List Text → Text × RpcClient → Type 0
Kept hosts entry = (entry.1.need_heartbeat && not (in_use hosts entry.0)) ≡ false

-- After a round of cleaning every client of the table is in use or needs no heartbeat, and no host
-- that was removed is in use.
clean_offline_rpc_clients-Kept :
    (hosts : List Text) (table : RpcTable)
    → All (Kept hosts) (clean_offline_rpc_clients hosts table).0
      × All (λ host. in_use hosts host ≡ false) (clean_offline_rpc_clients hosts table).1
unfolding clean_offline_rpc_clients
clean_offline_rpc_clients-Kept hosts [] = (tt, tt)
clean_offline_rpc_clients-Kept hosts ((host, c) ∷ table) =
    let rec = clean_offline_rpc_clients-Kept hosts table in
    elim (Bool-cases (c.need_heartbeat && not (in_use hosts host))) [
      | inl gone ↦ rw gone (rec.0, (ground arith, rec.1))
      | inr kept ↦ rw kept ((kept, rec.0), rec.1)
    ]
