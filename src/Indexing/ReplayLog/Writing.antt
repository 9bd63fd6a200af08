-- ===== src/Indexing/ReplayLog/Writing.antt =====
-- What ReplayLogWriterThread::Write of src/indexing/replay_log_writer_thread.cc does to the files.
use recomm_engine.Prelude.{
  ℕ, ◌+◌, ◌<◌, ◌≤◌, ◌≡◌, ◌≢◌, sym, ap, ◌∙◌, true, some, List, [], ◌∷◌, ◌++◌, append_assoc,
  append-nil, ltb, arith, Bool-cases, inl, inr,
}
use recomm_engine.Prelude.Texts.{find_text-assign_text, find_text-other, Text, find_text}
use recomm_engine.Util.Bytes.{Thrift}
use recomm_engine.Util.LocklessList.{u32_mod}
use recomm_engine.Util.Timer.{Tm}
use recomm_engine.Indexing.Base.{StoryAddingRequest}
use recomm_engine.Indexing.ReplayLog.{
  ReplayLogWriterThread, Disk, next_bucket, content_of, record_bytes, log_name, write,
}
use recomm_engine.Indexing.ReplayLog.Reading.{log_of}

-- The time of the last record is in the bucket.
pub record InBucket (now : ℕ) (w : ReplayLogWriterThread) : Type 0 where
  pub begun : w.time_begin ≤ now
  pub not_over : now ≤ w.time_end

next_bucket-InBucket :
    (before now : ℕ) (w : ReplayLogWriterThread)
    → before ≤ now
    → now + w.clean_doc_interval < u32_mod
    → InBucket before w
    → InBucket now (next_bucket now w)
unfolding next_bucket
next_bucket-InBucket before now w later fits bucket = elim (Bool-cases (ltb w.time_end now)) [
  | inl expired ↦ rw expired (record { begun = omega arith; not_over = omega (arith, fits) })
  | inr current ↦
      rw current
        (record { begun = omega (arith, bucket.begun, later); not_over = ground (arith, current) })
]

module _ (thrift : Thrift StoryAddingRequest) (localtime_r : ℕ → Tm) (dir : Text) where
  log_of-last :
      (rs : List (ℕ × StoryAddingRequest)) (r : ℕ × StoryAddingRequest)
      → log_of thrift (rs ++ r ∷ []) ≡ log_of thrift rs ++ record_bytes r.0 (thrift.to_string r.1)
  log_of-last [] r = append-nil (record_bytes r.0 (thrift.to_string r.1))
  log_of-last (q ∷ rs) r =
      let first = record_bytes q.0 (thrift.to_string q.1) in
      ap (◌++◌ first) (log_of-last rs r)
      ∙ sym (append_assoc first (log_of thrift rs) (record_bytes r.0 (thrift.to_string r.1)))

  -- The log that a story is written to now.
  abbrev pub current_log : ℕ → ReplayLogWriterThread → Text
  current_log now w = log_name thrift localtime_r dir (next_bucket now w)

  -- While the clock does not run back, or beyond 32 bits, Write adds a story with its time to the end
  -- of the log of a bucket that this time is in, if that file can be opened, and to no other file.
  pub write_lem :
      (before now : ℕ) (req : StoryAddingRequest) (w : ReplayLogWriterThread) (d : Disk)
      (rs : List (ℕ × StoryAddingRequest))
      → before ≤ now
      → now + w.clean_doc_interval < u32_mod
      → InBucket before w
      → d.can_open (current_log now w) ≡ true
      → content_of (find_text (current_log now w) d.files) ≡ log_of thrift rs
      → let (w', d') = (write thrift localtime_r dir now req (w, d)).0 in
        InBucket now w'
        × (find_text (current_log now w) d'.files ≡ some (log_of thrift (rs ++ (now, req) ∷ [])))
        × ((other : Text)
            → current_log now w ≢ other
            → find_text other d'.files ≡ find_text other d.files)
  unfolding write
  write_lem before now req w d rs later fits bucket opens content =
      let name = current_log now w in
      let bytes = content_of (find_text name d.files) ++ record_bytes now (thrift.to_string req) in
      rw opens (
        next_bucket-InBucket before now w later fits bucket,
        find_text-assign_text name bytes d.files
            ∙ ap some (
                ap (λ t. t ++ record_bytes now (thrift.to_string req)) content
                ∙ sym (log_of-last rs (now, req))),
        λ other apart. find_text-other other name bytes d.files apart,
      )
