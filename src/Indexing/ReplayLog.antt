-- ===== src/Indexing/ReplayLog.antt =====
-- The replay log: src/indexing/replay_log_writer_thread.cc, which writes it, InstantIndex::Replay of
-- src/indexing/instant_index.cc, which reads it back, and CleanOldStoryThread::CleanReplayLog of
-- src/indexing/clean_old_story_thread.cc, which removes the old files.
pub mod Reading
pub mod Ending
pub mod Removal
pub mod Writing
mod Tests
use recomm_engine.Prelude.{
  ℕ, zero, suc, ◌+◌, ◌-◌, ◌%◌, ◌^◌, Bool, true, false, not, Option, none, some, List, [], ◌∷◌, ◌++◌,
  ltb, leb, length, take, drop, if◌then◌else◌, ◌>>=◌,
}
use recomm_engine.Prelude.Texts.{Text, TextMap, ascii, find_text, assign_text}
use recomm_engine.Util.Bytes.{Thrift, bytes, value}
use recomm_engine.Util.LocklessList.{u32_mod}
use recomm_engine.Util.Strings.{split_string, string_append_f}
use recomm_engine.Util.Timer.{Tm, local_time_str_hms}
use recomm_engine.Util.Timer.Order.{text_ltb}
use recomm_engine.Util.ProducerConsumerQueue.{
  try_put_internal, try_get_internal, timeout_use_default,
}
use recomm_engine.Indexing.Base.{StoryAddingRequest}
use recomm_engine.Indexing.State.{InstantIndex}
use recomm_engine.Indexing.IndexBuildThread

-- The bucket of time that the open log is for, in unsigned seconds.
pub record ReplayLogWriterThread : Type 0 where
  pub clean_doc_interval : ℕ
  pub time_begin : ℕ
  pub time_end : ℕ

-- The files by their names; a file that cannot be opened takes nothing.
pub record Disk : Type 0 where
  pub files : TextMap Text
  pub can_open : Text → Bool

-- The constructor.
abbrev pub new_writer : ℕ → ℕ → ReplayLogWriterThread
new_writer now clean_interval = record {
  clean_doc_interval = clean_interval;
  time_begin = now % u32_mod;
  time_end = (now % u32_mod + clean_interval) % u32_mod;
}

unfoldable pub next_bucket : ℕ → ReplayLogWriterThread → ReplayLogWriterThread
next_bucket now w =
    if ltb w.time_end now
    then record w { time_begin = now; time_end = (now + w.clean_doc_interval) % u32_mod }
    else w

abbrev content_of : Option Text → Text
content_of none = []
content_of (some t) = t

-- `std::ofstream` in the mode `app`.
abbrev append_file : Text → Text → Disk → Disk
append_file name t d =
    if d.can_open name
    then record d { files = assign_text name (content_of (find_text name d.files) ++ t) d.files }
    else d

-- TIME SIZE THRIFT_CHUNK.
unfoldable pub record_bytes : ℕ → Text → Text
record_bytes now serialized = bytes 4 now ++ bytes 8 (length serialized) ++ serialized

module _ (thrift : Thrift StoryAddingRequest) (localtime_r : ℕ → Tm) (replay_log_dir : Text) where
  unfoldable pub log_name : ReplayLogWriterThread → Text
  log_name w =
      (string_append_f
        (replay_log_dir
          ++ ascii "/"
          ++ local_time_str_hms localtime_r w.time_begin
          ++ ascii "_"
          ++ local_time_str_hms localtime_r w.time_end
          ++ ascii "_replay.log")
        []).0

  -- Nothing throws, so that the result is true. `now` is in unsigned seconds.
  unfoldable pub write :
      ℕ → StoryAddingRequest → ReplayLogWriterThread × Disk → (ReplayLogWriterThread × Disk) × Bool
  write now req (w, d) =
      let w = next_bucket now w in
      ((w, append_file (log_name w) (record_bytes now (thrift.to_string req)) d), true)

  abbrev written :
      ℕ → Option StoryAddingRequest → ReplayLogWriterThread × Disk → ReplayLogWriterThread × Disk
  written now none w = w
  written now (some req) w = (write now req w).0

  -- One round of Run, where the pool has a story; `Get` waits until it has.
  unfoldable pub run_round :
      (ℕ → ℕ)
      → ℕ
      → InstantIndex
      → ReplayLogWriterThread × Disk
      → InstantIndex × (ReplayLogWriterThread × Disk)
  run_round clock now s w =
      let (log_pool, got) = try_get_internal clock s.log_pool in
      (record s { log_pool = log_pool }, written now got w)

-- `std::ifstream`: the bytes that can still be read, `good()`, `eof()`, and whether an error of reading
-- comes behind these bytes and not the end.
pub record InputStream : Type 0 where
  pub left : Text
  pub good : Bool
  pub eof : Bool
  pub broken : Bool

-- A file that cannot be opened sets the bit of failure alone.
abbrev pub open_file : Bool → Option Text → InputStream
open_file broken (some t) = record { left = t; good = true; eof = false; broken = broken }
open_file broken none = record { left = []; good = false; eof = false; broken = broken }

-- `read`: the bytes that it stores. An error sets the bad bit, and not that of the end.
unfoldable pub read_bytes : ℕ → InputStream → Text × InputStream
read_bytes n s =
    if s.good
    then (if leb n (length s.left)
        then (take n s.left, record s { left = drop n s.left })
        else (s.left, record s { left = []; good = false; eof = not s.broken }))
    else ([], s)

-- What a variable holds after `read` has stored these bytes in it.
unfoldable pub stored : Text → Text → Text
stored got before = got ++ drop (length got) before

abbrev pub tabulate : (ℕ → ℕ) → ℕ → Text
tabulate f zero = []
tabulate f (suc n) = f n ∷ tabulate f n

-- How the loop over a file fares: it has not ended in so many rounds; it has ended, by its test or by
-- an exception that is caught behind it, with these stories; or a buffer does not fit on the stack.
pub data Replayed : Type 0 where
  running : Replayed
  finished : List StoryAddingRequest → Replayed
  overflowed : Replayed

abbrev pub restored : StoryAddingRequest → Replayed → Replayed
restored req running = running
restored req (finished reqs) = finished (req ∷ reqs)
restored req overflowed = overflowed

-- The bytes that the stack has left for the buffer, and the longest string. There is memory for it.
pub record Limits : Type 0 where
  pub stack_left : ℕ
  pub max_string : ℕ

-- `stack i k` is byte `k` of what the buffer of the i-th round holds before it is written.
module _ (thrift : Thrift StoryAddingRequest) (limits : Limits) (stack : ℕ → ℕ → ℕ) where
  -- From the object `req` and the variable `obj_size`, which keep what the round before left. The
  -- size of the buffer wraps around, and a string that is too long is an exception.
  unfoldable pub replay_loop : ℕ → ℕ → InputStream → Text → StoryAddingRequest → Replayed
  replay_loop zero i s obj_size req = running
  replay_loop (suc fuel) i s obj_size req =
      let (timestamp, s1) = read_bytes 4 s in
      let (got, s2) = read_bytes 8 s1 in
      let obj_size = stored got obj_size in
      let size = value obj_size in
      let (got, s3) = read_bytes size s2 in
      let str = stored got (tabulate (stack i) size) in
      let (req, parsed) = thrift.from_string str req in
      let rest = replay_loop fuel (i + 1) s3 obj_size req in
      let added = if parsed then restored req rest else rest in
      let built = if ltb limits.max_string size then finished [] else added in
      let round = if ltb limits.stack_left ((size + 1024) % 2 ^ 64) then overflowed else built in
      if s.eof then finished [] else round

  -- Two more rounds than the file has bytes.
  unfoldable pub replay_file : Bool → Text → Text → StoryAddingRequest → Replayed
  replay_file broken content obj_size req =
      replay_loop (length content + 2) 0 (open_file broken (some content)) obj_size req

-- The stories go to the builder's pool, which may refuse them.
unfoldable pub restore : (ℕ → ℕ) → ℕ → List StoryAddingRequest → InstantIndex → InstantIndex
restore clock i [] s = s
restore clock i (req ∷ reqs) s =
    restore clock (i + 1) reqs (IndexBuildThread.add_story (clock i) req s).0

abbrev last_of {ℓ} : {A : Type ℓ} → List A → Option A
last_of [] = none
last_of (x ∷ []) = some x
last_of (x ∷ y ∷ xs) = last_of (y ∷ xs)

abbrev second_of {ℓ} : {A : Type ℓ} → List A → Option A
second_of [] = none
second_of (x ∷ []) = none
second_of (x ∷ y ∷ xs) = some y

module _ (localtime_r : ℕ → Tm) where
  -- Whether the end time of this log is before the check point; a name with fewer than two parts is
  -- left alone. `none` is a path without a name.
  unfoldable pub is_old_log : Text → Text → Option Bool
  is_old_log cp_string path = do
    segs ← split_string path 47 []
    fname ← last_of segs
    segs ← split_string fname 95 []
    some (before (second_of segs))
    where
      before : Option Text → Bool
      before none = false
      before (some t) = text_ltb t cp_string

  unfoldable pub old_logs : Text → List Text → Option (List Text)
  old_logs cp_string [] = some []
  old_logs cp_string (path ∷ paths) = do
    old ← is_old_log cp_string path
    rest ← old_logs cp_string paths
    some (if old then path ∷ rest else rest)

  -- The files to be removed, of those in the directory.
  unfoldable pub clean_replay_log : ℕ → ℕ → List Text → Option (List Text)
  clean_replay_log now doc_life_time paths =
      let check_point = (now + u32_mod - doc_life_time) % u32_mod in
      old_logs (local_time_str_hms localtime_r check_point) paths
