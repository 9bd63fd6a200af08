-- ===== src/Indexing/ReplayLog/Tests.antt =====
-- Runs of the replay log with stories whose only field that is kept is their id.
use recomm_engine.Prelude.{
  ℕ, ◌+◌, ◌^◌, ◌<◌, ◌≡◌, ◌≢◌, refl, true, false, none, some, List, [], ◌∷◌, ◌++◌, map, keep_if, All,
  arith,
}
use recomm_engine.Prelude.Texts.{Text, ascii, find_text}
use recomm_engine.Util.Bytes.{Thrift, bytes}
use recomm_engine.Util.Timer.{Tm}
use recomm_engine.Util.Timer.Order.{IsTime}
use recomm_engine.Indexing.Base.{StoryAddingRequest}
use recomm_engine.Indexing.ReplayLog.{
  read_bytes, stored, finished, running, overflowed, Limits, ReplayLogWriterThread, Disk, write,
  open_file, replay_loop, replay_file, clean_replay_log, new_writer,
}
use recomm_engine.Indexing.ReplayLog.Reading.{log_of, replay_file-log_of}
use recomm_engine.Indexing.ReplayLog.Ending.{Ends, replay_file-Ends, replay_loop-stuck}
use recomm_engine.Indexing.ReplayLog.Writing.{InBucket, current_log, write_lem}
use recomm_engine.Indexing.ReplayLog.Removal.{file_name, ended_before, clean_replay_log-old}

abbrev story : Text → StoryAddingRequest
story id = record { story = record { story_id = id; signature = 0; keywords = []; rest = [] } }

abbrev thrift : Thrift StoryAddingRequest
thrift = record { to_string = λ r. r.story.story_id; from_string = λ t w. (story t, true) }

abbrev records : List (ℕ × StoryAddingRequest)
records = (1000, story (ascii "a")) ∷ (1001, story (ascii "bc")) ∷ []

-- The buffer holds a 7 everywhere.
abbrev sevens : ℕ → ℕ → ℕ
sevens i k = 7

abbrev eight_zeros : Text
eight_zeros = 0 ∷ 0 ∷ 0 ∷ 0 ∷ 0 ∷ 0 ∷ 0 ∷ 0 ∷ []

abbrev limits : Limits
limits = record { stack_left = 1048576; max_string = 2 ^ 62 }

-- A third story is restored, which was never written.
replay_file-log_of_example :
    replay_file thrift limits sevens false (log_of thrift records) eight_zeros (story [])
    ≡ finished (story (ascii "a") ∷ story (ascii "bc") ∷ story (7 ∷ 7 ∷ []) ∷ [])
unfolding bytes
replay_file-log_of_example =
    replay_file-log_of thrift limits sevens (omega arith) (1000, story (ascii "a"))
      ((1001, story (ascii "bc")) ∷ []) eight_zeros (story [])
      (refl, (omega arith, omega arith), (refl, (omega arith, omega arith), tt)) refl

-- A directory entry of three bytes that no writer made.
replay_file-Ends_example :
    Ends (replay_file thrift limits sevens false (1 ∷ 2 ∷ 3 ∷ []) eight_zeros (story []))
replay_file-Ends_example =
    replay_file-Ends thrift limits sevens (1 ∷ 2 ∷ 3 ∷ []) eight_zeros (story [])

-- A size of 2^63 that stands in the file overflows the stack.
abbrev huge : Text
huge = 1 ∷ 0 ∷ 0 ∷ 0 ∷ 0 ∷ 0 ∷ 0 ∷ 0 ∷ 0 ∷ 0 ∷ 0 ∷ 128 ∷ []

huge_overflows : replay_file thrift limits sevens false huge eight_zeros (story []) ≡ overflowed
unfolding replay_file replay_loop read_bytes stored
huge_overflows = refl

replay_loop-stuck_example :
    replay_loop thrift limits sevens 100 0 (open_file false none) eight_zeros (story []) ≡ running
replay_loop-stuck_example =
    replay_loop-stuck thrift limits sevens 100 0 [] false eight_zeros (story []) (omega arith)
      (omega arith, omega arith)

-- A calendar in which every second is a year, from 1900 on, up to the year 9999.
abbrev years : ℕ → Tm
years t = record { tm_year = t; tm_mon = 0; tm_mday = 1; tm_hour = 0; tm_min = 0; tm_sec = 0 }

is_time : (t : ℕ) → t < 8100 → IsTime (years t)
is_time t h = record {
  year = h;
  mon = omega arith;
  mday = omega arith;
  hour = omega arith;
  min = omega arith;
  sec = omega arith;
}

abbrev bucket : ℕ → ReplayLogWriterThread
bucket t = record { clean_doc_interval = 60; time_begin = t; time_end = t + 60 }

clean_replay_log-old_example :
    let paths = map (λ w. ascii "./replay/" ++ 47 ∷ file_name years w) in
    let removed = keep_if (ended_before years 140) (bucket 70 ∷ bucket 130 ∷ []) in
    (clean_replay_log years 3800 3660 (paths (bucket 70 ∷ bucket 130 ∷ [])) ≡ some (paths removed))
    × All (λ w. (t : ℕ) → InBucket t w → t + 3660 < 3800) removed
clean_replay_log-old_example =
    clean_replay_log-old years 3800 3660 (ascii "./replay/") (bucket 70 ∷ bucket 130 ∷ [])
      (λ a b h. ground (arith, h)) (omega arith) (omega arith) (is_time 140 (omega arith))
      (
        (is_time 70 (omega arith), is_time 130 (omega arith)),
        ((is_time 130 (omega arith), is_time 190 (omega arith)), tt),
      )

abbrev disk : Disk
disk = record { files = []; can_open = λ name. true }

write_lem_example :
    let w = new_writer 1000 60 in
    let (w', d') = (write thrift years (ascii "replay") 1061 (story (ascii "a")) (w, disk)).0 in
    InBucket 1061 w'
    × (find_text (current_log thrift years (ascii "replay") 1061 w) d'.files
        ≡ some (log_of thrift ((1061, story (ascii "a")) ∷ [])))
    × ((other : Text)
        → current_log thrift years (ascii "replay") 1061 w ≢ other
        → find_text other d'.files ≡ find_text other disk.files)
unfolding find_text
write_lem_example =
    write_lem thrift years (ascii "replay") 1000 1061 (story (ascii "a")) (new_writer 1000 60) disk
      [] (omega arith) (omega arith) (record { begun = omega arith; not_over = omega arith }) refl
      refl
