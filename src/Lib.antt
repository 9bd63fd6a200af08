-- ===== src/Lib.antt =====
-- recomm_engine: a news recommendation server. Stories are pushed in, indexed by keyword for about an
-- hour and stored by id; a query takes the keywords of a user and of a story, retrieves the stories
-- that share enough of them, and ranks them by a plugin.
--
-- The parts and their files here:
-- - Prelude: numbers, lists, maps with numbers for keys, signed integers, chains of fallible steps.
-- - Util/ProducerConsumerQueue is src/util/containers/producer_consumer_queue.h, the bounded queue
--   with timeouts between the server's threads. A method is a step under the mutex; one that would
--   wait answers `blocked` and is made again.
-- - Util/LocklessList is src/util/containers/lockless_list.h, a singly linked list with a fake front
--   and a pool of recycled nodes, over a store of nodes at addresses.
-- - Util/Strings is src/util/string/str_util.cc, Util/Timer is src/util/base/timer.cc, and Util/Bytes is
--   what the program takes from src/util/base/thrift_util.h and from memory.
-- - Indexing/PostingList is src/indexing/posting.cc and iterator.cc: a list of postings with an end
--   mark that hides the old ones from readers, and the iterator.
-- - Indexing/State is the state of src/indexing/instant_index.h with its threads' counters and pools,
--   and the abstract index that it represents: for each token its postings, newest first.
-- - Indexing/IndexBuildThread is src/indexing/index_build_thread.cc, which adds a story.
-- - Indexing/CleanOldStoryThread is src/indexing/clean_old_story_thread.cc, which marks the old
--   postings, sleeps, and then erases them.
-- - Indexing/Interleaving is AddStory and the two threads on one index, step by step in any order: a
--   step is what a thread does to one posting list, or a critical section under a writer's lock. The
--   passes share a reader's lock, so the program can also do two things to one list at one time. That
--   is a race, and is left out.
-- - Indexing/InstantIndex is src/indexing/instant_index.cc: the lists and the translations of ids for
--   readers, AddStory, Init and GetState.
-- - Indexing/ReplayLog is src/indexing/replay_log_writer_thread.cc with InstantIndex::Replay and
--   CleanOldStoryThread::CleanReplayLog: the log of stories, its reading after a start, and the removal
--   of its old files. Replay runs on fuel, two more than the bytes of a file;
--   the room on the stack and the errors of reading are arguments.
-- - Retrieval/Reader is src/retrieval/index_reader.cpp, the keywords that hit each document, and
--   Retrieval/Handler is retrieval_handler.cpp with ranker.cpp and result_set.h: the filter, the
--   order and the reply.
-- - Retrieval/Asynchronous is the directory src/retrieval/asynchronous: LinkedList is linked_list.h, a
--   ring of nodes over the addresses of its objects; WaitList is wait_list.h, whose methods are steps
--   like those of the queue above; Task is retrieval_task_base.cpp with the loop of
--   retrieval_search.cpp, threads that meet at a barrier, as a relation of single steps.
-- - Storage/LocalDict is src/local_dict.cc over leveldb, Storage/StoryProfileStorage is
--   src/story_profile_storage.cc over that, and Storage/UserProfileStorage is
--   src/user_profile_storage.cc over an interface that the Redis cluster fills.
-- - Handlers/StoryManagement is src/story_management_handler.cc, and Handlers/Query is
--   RecommEngineHandler::query of src/recomm_engine_handler.cc.
-- - AlgoPluginManager is src/algo_plugin_manager.cc: the two buffers of plugins, and the choice.
-- - RedisClient is src/redispp.cc, the client of Redis: Hiredis is what it uses of hiredis, Connection,
--   Commands and Transaction are its methods, and Protocol is what they rely on: replies that come in
--   the order of the commands, and a server with the transactions of Redis.
-- - RedisCluster is the hash ring of src/redis_cluster.cc, and RedisCluster/Servers its servers and
--   the choice of a live one.
--
-- Conventions. A 64-bit identifier is its value plus 2^63, which keeps the order of `std::map`. Text is
-- a list of bytes. Times are natural numbers read from a clock that is an argument. A counter of 32
-- bits wraps around. A loop over a list runs on fuel, two more than the number of nodes, and the
-- theorems show that it ends within that. `none` is a crash, a failed `CHECK` or an exception.
-- CityHash64, Thrift, leveldb, hiredis and the system's clock are not modelled: they are arguments.
-- SplitString runs on the number of characters of its text. Also left out: the threads of the server
-- and their start, and the sockets of src/server.cpp, which are glue, and what svc logs.
pub mod Prelude
pub mod Util
pub mod Indexing
pub mod Retrieval
pub mod Storage
pub mod Handlers
pub mod AlgoPluginManager
pub mod RedisClient
pub mod RedisCluster
