-- ===== src/NameServer.antt =====
-- The list of name servers and the current one: src/main/cpp/rocketmq/StaticNameServerResolver.cpp and
-- DynamicNameServerResolver.cpp. The text of a list is split, and a list is fetched, by other code.
pub mod Round
use rocketmq_client_cpp.Prelude.{
  ℕ, ◌+◌, ◌%◌, Bool, true, false, not, ◌&&◌, Option, none, some, List, [], ◌∷◌, length, get_elem?,
  is_empty, if◌then◌else◌, get_or,
}
use rocketmq_client_cpp.Prelude.Text.{Text, text_eq}
use rocketmq_client_cpp.Prelude.Word.{u32}

-- Both have a list and an index; the list of a static one does not change, and is not empty.
pub record Resolver : Type 0 where
  pub name_server_list : List Text
  pub index : ℕ  -- std::atomic<std::uint32_t>

unfoldable pub current : Resolver → Text
current r =
    if is_empty r.name_server_list
    then []
    else get_or r.name_server_list (r.index % length r.name_server_list) []

unfoldable pub next : Resolver → Resolver × Text
unfolding current
next r = let r' : Resolver = record r { index = u32 (r.index + 1) } in (r', current r')

same_list : List Text → List Text → Bool
same_list [] [] = true
same_list (s ∷ l) (t ∷ m) = text_eq s t && same_list l m
same_list [] (t ∷ m) = false
same_list (s ∷ l) [] = false

-- `onNameServerListFetched`.
unfoldable pub on_name_server_list_fetched : List Text → Resolver → Resolver
unfolding same_list
on_name_server_list_fetched list r =
    if is_empty list
    then r
    else if same_list r.name_server_list list
    then r
    else record r { name_server_list = list }

-- The callback of `fetch`, while the resolver is there.
unfoldable pub on_fetch : Bool → List Text → Resolver → Resolver
on_fetch success list r =
    if success && not (is_empty list) then on_name_server_list_fetched list r else r

-- `resolve`, with what a fetch gives back at once if one is made.
unfoldable pub resolve : Bool → List Text → Resolver → Resolver × List Text
resolve success list r =
    let r' = if is_empty r.name_server_list then on_fetch success list r else r in
    (r', r'.name_server_list)
