-- ===== src/Queue/Quota.antt =====
-- What `release` of ProcessQueueImpl.cpp does in each message model.
use rocketmq_client_cpp.Prelude.{ℕ, ◌≡◌, refl, some}
use rocketmq_client_cpp.Types.{clustering}
use rocketmq_client_cpp.Queue.{
  Consumer, ProcessQueue, release, release_tracked, with_offsets, release_quota,
}

pub release-clustering :
    (c : Consumer) (size o : ℕ) (q : ProcessQueue)
    → c.message_model ≡ clustering
    → release (some c) size o q ≡ some (release_quota size q)
unfolding release release_tracked with_offsets
release-clustering c size o q e = rw (e, release_tracked) refl
