-- ===== src/PublishInfo/Update.antt =====
-- What an update of the route leaves published (TopicPublishInfo.cpp).
use rocketmq_client_cpp.Prelude.{
  ◌≡◌, true, Option, none, some, List, [], ◌∷◌, is_empty, All, Bool-cases, inl, inr,
}
use rocketmq_client_cpp.Prelude.Text.{Text, text_eq}
use rocketmq_client_cpp.Route.{Partition}
use rocketmq_client_cpp.PublishInfo.{
  PublishInfo, is_publishable, add_writable, publish, writable_partitions, update_publish_info,
  set_topic_route_data,
}

abbrev Published : List Partition → Type 0
Published l = All (λ p. is_publishable p ≡ true) l

-- Nothing, where an assertion fails, or published partitions.
abbrev OrPublished : Option (List Partition) → Type 0
OrPublished none = Unit {0}
OrPublished (some l) = Published l

add_writable-OrPublished :
    (p : Partition) (o : Option (List Partition)) → OrPublished o → OrPublished (add_writable p o)
unfolding add_writable
add_writable-OrPublished p none h = tt
add_writable-OrPublished p (some l) h = elim (Bool-cases (is_publishable p)) [
  | inl e ↦ rw e (e, h)
  | inr e ↦ rw e h
]

writable_partitions-OrPublished :
    (topic : Text) (l : List Partition) → OrPublished (writable_partitions topic l)
unfolding writable_partitions
writable_partitions-OrPublished topic [] = tt
writable_partitions-OrPublished topic (p ∷ l) = elim (Bool-cases (text_eq p.topic.name topic)) [
  | inl own ↦ rw own (add_writable-OrPublished p _ (writable_partitions-OrPublished topic l))
  | inr other ↦ rw other tt
]

abbrev Publishes : Option PublishInfo → Type 0
Publishes none = Unit {0}
Publishes (some p) = Published p.partition_list

publish-Publishes :
    (p : PublishInfo) (o : Option (List Partition))
    → Published p.partition_list
    → OrPublished o
    → Publishes (publish p o)
unfolding publish
publish-Publishes p none h k = tt
publish-Publishes p (some l) h k = elim (Bool-cases (is_empty l)) [
  | inl e ↦ rw e h
  | inr e ↦ rw e k
]

-- When every published partition is publishable, that is, writable and on a master, so is every one
-- after an update of the route, unless a partition of another topic fails an assertion.
set_topic_route_data-publishable :
    (route : List Partition) (p : PublishInfo)
    → Published p.partition_list
    → Publishes (set_topic_route_data route p)
unfolding set_topic_route_data update_publish_info
set_topic_route_data-publishable route p h =
    publish-Publishes (record p { topic_route_data = route }) _ h
      (writable_partitions-OrPublished p.topic route)
