-- ===== src/Lib.antt =====
-- A verification library for the RocketMQ C++ client.
--
-- The client sends messages through a producer and receives them through a push consumer. Both look up
-- the route of a topic, kept by the client base; the producer chooses queues out of the publish information
-- made from a route, and retries over them. The push consumer keeps a process queue for each message queue
-- that it is assigned; the receive cycle fills the process queue, a consume service (standard or FIFO) takes
-- messages out of it, calls the listener, and acknowledges, retries or forwards them. All requests go out
-- through the client manager, whose replies are turned into answers here.
--
-- The files, and the code that each is about (paths from the root of the repository):
--   Prelude        lists, texts, tables, sorting and integers over the native numbers
--   Types          api/rocketmq: ErrorCode, State, MQMessageQueue; src/main/cpp/rocketmq/FilterExpression.cpp
--   Queue          src/main/cpp/rocketmq/ProcessQueueImpl.cpp; Queue.Offsets is its set of offset records,
--                  Queue.World any sequence of cacheMessages, take and release, Queue.Refine what the sequence
--                  comes to, by Queue.Bag,
--                  and Queue.Requests what it asks the broker for
--   Fifo           src/main/cpp/rocketmq/ConsumeFifoMessageService.cpp; Fifo.Machine runs its handlers in any
--                  order with everything that is still to call back, and Fifo.Order is the order in which it
--                  calls the listener
--   Standard       src/main/cpp/rocketmq/ConsumeStandardMessageService.cpp
--                  Standard.Machine runs it with a process queue: receiving, dispatching and tasks in any order
--   Rpc            the replies in src/main/cpp/client/ClientManagerImpl.cpp, and of pullMessage in
--                  ProcessQueueImpl.cpp; Rpc.Wrap is wrapMessage, processPopResult and processPullResult
--   Wire           the attributes of a message on the wire, and what wrapMessage makes of them
--   Manager        the table of RPC clients and the observers of ClientManagerImpl.cpp
--   Receive        src/main/cpp/rocketmq/AsyncReceiveMessageCallback.cpp; Receive.Cycle joins it with receiveMessage of
--                  the push consumer
--   Route          src/main/cpp/client/include: ServiceAddress, Broker, Topic, Partition, TopicRouteData
--   PublishInfo    src/main/cpp/client/TopicPublishInfo.cpp
--   RouteCache     the routes and their lookups in src/main/cpp/rocketmq/ClientImpl.cpp
--   Producer       src/main/cpp/rocketmq/ProducerImpl.cpp; Producer.Table is its table of publish
--                  information, and Producer.Retry is RetrySendCallback of
--                  SendCallbacks.cpp with sendImpl; Producer.Request is wrapSendMessageRequest
--   Await          how a thread waits for a callback: AwaitPullCallback.cpp, SendCallbacks.cpp, getPublishInfo,
--                  listMessageQueue and endTransaction0 of ProducerImpl.cpp, and the start of
--                  src/main/cpp/base/ThreadPoolImpl.cpp
--   Client         start, shutdown, heartbeats and health checks of src/main/cpp/rocketmq/ClientImpl.cpp, with
--                  the start and the shutdown of the producer and the two consumers
--   Multiplexing   the poll of a broker in ClientImpl.cpp, and the transactions of ProducerImpl.cpp and
--                  src/main/cpp/rocketmq/TransactionImpl.cpp
--   NameServer     src/main/cpp/rocketmq/StaticNameServerResolver.cpp and DynamicNameServerResolver.cpp
--   PushConsumer   subscriptions, syncProcessQueue, receiveMessage, selectBroker and queryAssignment of
--                  src/main/cpp/rocketmq/PushConsumerImpl.cpp; src/main/cpp/client/TopicAssignmentInfo.cpp
--                  PushConsumer.Requests is what it answers to a message, with its settings
--   PullConsumer   src/main/cpp/rocketmq/PullConsumerImpl.cpp
--   RateLimiter    src/main/cpp/base/include/RateLimiter.h
--   Hex            hex and hexToBinary of src/main/cpp/base/MixAll.cpp
--   Histogram      src/main/cpp/base/include/Histogram.h, and the latencies that ClientManagerImpl counts
--   UniqueId       src/main/cpp/base/UniqueIdGenerator.cpp
--   Scheduler      src/main/cpp/scheduler/SchedulerImpl.cpp; an execution of a timer is several steps
--   Lifecycle      start and shutdown in src/main/cpp/rocketmq/ConsumeMessageService.cpp and in the two
--                  services
--   Tests          runs on concrete inputs
--
-- How the code is modelled. State is a record, and a method that runs under its mutexes is a function from
-- the state to the new state and the effects that it asks of others, in order: tasks submitted, requests
-- sent, callbacks called. A weak pointer is what it locks to, none where the object is gone. Where threads
-- interleave, a step relation runs the handlers in any order. A failed assertion is none or an effect abort.
-- Counters of 32 and 64 bits wrap where the code's do.
--
-- Fuel. The loop of submitConsumeTask has one round more than the cache has messages, which is enough with a
-- batch size of at least one; the recursion between sendImpl and onFailure has one round more than attempts
-- are left, which is enough since each failure counts one. The loop of selectBroker is given its fuel, and
-- more than the number of partitions is enough.
--
-- Parameters. The match of the topic's pattern (RE2), the hash of a message group, the digests and the
-- decompression of a body, the clocks, the answers of brokers and listeners, and the state of a gRPC channel.
--
-- Not modelled. The requests for a route, an assignment and the end of a client, signatures and credentials,
-- TLS, tracing, logging, the admin server, HTTP, and the public wrapper classes.
-- The lifetime of a callback that stands on the stack of a thread that waits; that the loop of submitConsumeTask takes
-- the mutex anew for each batch; offsets below 0; and calls of schedule of two schedulers at once, which race for the
-- identifier.
pub mod Prelude
pub mod Types
pub mod Queue
pub mod Fifo
pub mod Standard
pub mod Rpc
pub mod Receive
pub mod Route
pub mod PublishInfo
pub mod RouteCache
pub mod Producer
pub mod PushConsumer
pub mod RateLimiter
pub mod Hex
pub mod Scheduler
pub mod Lifecycle
pub mod Await
pub mod Client
pub mod Histogram
pub mod Manager
pub mod Multiplexing
pub mod NameServer
pub mod PullConsumer
pub mod Tests
pub mod UniqueId
pub mod Wire
