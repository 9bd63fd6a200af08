-- ===== src/Indexing/ReplayLog/Removal.antt =====
-- Which files CleanReplayLog of src/indexing/clean_old_story_thread.cc removes, of those that
-- src/indexing/replay_log_writer_thread.cc writes.
use recomm_engine.Prelude.{
  ℕ, ◌+◌, ◌-◌, ◌%◌, ◌<◌, ◌≤◌, ◌≡◌, refl, ap, ◌∙◌, Bool, true, false, ◌||◌, some, List, [], ◌∷◌,
  ◌++◌, append_assoc, map, keep_if, elem, length, take-all, length-append, All, All-append, arith,
  Bool-cases, inl, inr,
}
use recomm_engine.Prelude.Texts.{Text, ascii}
use recomm_engine.Util.Bytes.{Thrift}
use recomm_engine.Util.LocklessList.{u32_mod}
use recomm_engine.Util.Strings.{string_append_f}
use recomm_engine.Util.Strings.Words.{words, words-split, words-IsWord, split_string_lem, IsWord}
use recomm_engine.Util.Timer.{Tm, local_time_str_hms}
use recomm_engine.Util.Timer.Order.{
  IsTime, earlier, c_string_lem, pairs, parts, pairs-positive, hms-pairs, local_time_str_hms_lem,
}
use recomm_engine.Indexing.Base.{StoryAddingRequest}
use recomm_engine.Indexing.ReplayLog.Writing.{InBucket}
use recomm_engine.Indexing.ReplayLog.{
  ReplayLogWriterThread, log_name, last_of, is_old_log, old_logs, clean_replay_log,
}

elem-append : (a : ℕ) (s t : Text) → elem a (s ++ t) ≡ (elem a s || elem a t)
elem-append a [] t = refl
elem-append a (c ∷ s) t = ground (arith, elem-append a s t)

pairs-no_slash : (ns : List ℕ) → elem 47 (pairs ns) ≡ false
pairs-no_slash [] = refl
pairs-no_slash (n ∷ ns) = ground (arith, pairs-no_slash ns)

pairs-no_underscore : (ns : List ℕ) → All (λ n. n < 100) ns → elem 95 (pairs ns) ≡ false
pairs-no_underscore [] h = refl
pairs-no_underscore (n ∷ ns) h = ground (arith, h.0, pairs-no_underscore ns h.1)

parts-small : (t : Tm) → IsTime t → All (λ n. n < 100) (parts t)
parts-small t h = (
  omega (arith, h.year),
  (
    omega arith,
    (
      omega (arith, h.mon),
      (
        omega (arith, h.mday),
        (omega (arith, h.hour), (omega (arith, h.min), (omega (arith, h.sec), tt))),
      ),
    ),
  ),
)

module _ (localtime_r : ℕ → Tm) where
  abbrev hms : ℕ → Text
  hms = local_time_str_hms localtime_r

  abbrev IsStamp : ℕ → Type 0
  IsStamp t = IsTime (localtime_r t)

  abbrev suffix : Text
  suffix = ascii "replay.log"

  -- The name of a log in its directory.
  abbrev pub file_name : ReplayLogWriterThread → Text
  file_name w = hms w.time_begin ++ 95 ∷ (hms w.time_end ++ 95 ∷ suffix)

  hms-IsWord : (t : ℕ) → IsStamp t → IsWord 95 (hms t)
  hms-IsWord t h =
      let e = hms-pairs localtime_r t h in
      (
        rw e (omega arith),
        ap (elem 95) e
            ∙ pairs-no_underscore (parts (localtime_r t)) (parts-small (localtime_r t) h),
      )

  hms-no_slash : (t : ℕ) → IsStamp t → elem 47 (hms t) ≡ false
  hms-no_slash t h =
      ap (elem 47) (hms-pairs localtime_r t h) ∙ pairs-no_slash (parts (localtime_r t))

  abbrev pub HasTimes : ReplayLogWriterThread → Type 0
  HasTimes w = IsStamp w.time_begin × IsStamp w.time_end

  file_name-IsWord : (w : ReplayLogWriterThread) → HasTimes w → IsWord 47 (file_name w)
  file_name-IsWord w h = (
    omega (arith, length-append (hms w.time_begin) (95 ∷ (hms w.time_end ++ 95 ∷ suffix))),
    elem-append 47 (hms w.time_begin) _
        ∙ rw (hms-no_slash w.time_begin h.0)
            (elem-append 47 (hms w.time_end) _ ∙ rw (hms-no_slash w.time_end h.1) refl),
  )

  words-file_name :
      (w : ReplayLogWriterThread)
      → HasTimes w
      → words 95 (file_name w) ≡ hms w.time_begin ∷ hms w.time_end ∷ suffix ∷ []
  words-file_name w h =
      words-split 95 (hms w.time_begin) _
      ∙ rw (words-IsWord 95 (hms w.time_begin) (hms-IsWord w.time_begin h.0)) (
          ap (◌∷◌ (hms w.time_begin)) (
            words-split 95 (hms w.time_end) suffix
            ∙ rw (words-IsWord 95 (hms w.time_end) (hms-IsWord w.time_end h.1))
                (ap (◌∷◌ (hms w.time_end)) (words-IsWord 95 suffix (omega arith, refl)))))

  last_of-append : (xs : List Text) (x : Text) → last_of (xs ++ x ∷ []) ≡ some x
  last_of-append [] x = refl
  last_of-append (y ∷ []) x = refl
  last_of-append (y ∷ z ∷ xs) x = last_of-append (z ∷ xs) x

  is_old_log_lem :
      (cp : ℕ) (dir : Text) (w : ReplayLogWriterThread)
      → IsStamp cp
      → HasTimes w
      → is_old_log localtime_r (hms cp) (dir ++ 47 ∷ file_name w)
        ≡ some (earlier (localtime_r w.time_end) (localtime_r cp))
  unfolding is_old_log
  is_old_log_lem cp dir w hc h =
      let segs : words 47 (dir ++ 47 ∷ file_name w) ≡ words 47 dir ++ file_name w ∷ [] =
        words-split 47 dir (file_name w)
        ∙ ap (◌++◌ (words 47 dir)) (words-IsWord 47 (file_name w) (file_name-IsWord w h)) in
      rw (split_string_lem (dir ++ 47 ∷ file_name w) 47 []) (
        rw segs (
          rw (last_of-append (words 47 dir) (file_name w)) (
            rw (split_string_lem (file_name w) 95 []) (
              rw (words-file_name w h)
                (ap some (local_time_str_hms_lem localtime_r w.time_end cp h.1 hc))))))

  -- Whether the bucket of a log ended before this second, by the local time.
  abbrev pub ended_before : ℕ → ReplayLogWriterThread → Bool
  ended_before cp w = earlier (localtime_r w.time_end) (localtime_r cp)

  old_logs_lem :
      (cp : ℕ) (dir : Text) (ws : List ReplayLogWriterThread)
      → IsStamp cp
      → All HasTimes ws
      → old_logs localtime_r (hms cp) (map (λ w. dir ++ 47 ∷ file_name w) ws)
        ≡ some (map (λ w. dir ++ 47 ∷ file_name w) (keep_if (ended_before cp) ws))
  unfolding old_logs
  old_logs_lem cp dir [] hc h = refl
  old_logs_lem cp dir (w ∷ ws) hc h =
      let rest = old_logs_lem cp dir ws hc h.1 in
      rw (is_old_log_lem cp dir w hc h.0) (
        rw rest (elim (Bool-cases (ended_before cp w)) [
          | inl old ↦ rw old refl
          | inr young ↦ rw young refl
        ]))

  clean_replay_log_lem :
      (now doc_life_time : ℕ) (dir : Text) (ws : List ReplayLogWriterThread)
      → now < u32_mod
      → doc_life_time ≤ now
      → IsStamp (now - doc_life_time)
      → All HasTimes ws
      → clean_replay_log localtime_r now doc_life_time (map (λ w. dir ++ 47 ∷ file_name w) ws)
        ≡ some
            (map (λ w. dir ++ 47 ∷ file_name w) (keep_if (ended_before (now - doc_life_time)) ws))
  unfolding clean_replay_log
  clean_replay_log_lem now doc_life_time dir ws in_range lived hc h =
      let point : (now + u32_mod - doc_life_time) % u32_mod ≡ now - doc_life_time =
        omega (arith, in_range, lived) in
      rw point (old_logs_lem (now - doc_life_time) dir ws hc h)

  -- Of a directory of logs, CleanReplayLog removes those whose bucket ended more than the life time of
  -- a story before now, by the local time, and no others. Where the local time never goes back, no
  -- record of a removed log, at a time of the log's bucket, is as young as that life time.
  pub clean_replay_log-old :
      (now doc_life_time : ℕ) (dir : Text) (ws : List ReplayLogWriterThread)
      → ((a b : ℕ) → earlier (localtime_r a) (localtime_r b) ≡ true → a < b)
      → now < u32_mod
      → doc_life_time ≤ now
      → IsStamp (now - doc_life_time)
      → All HasTimes ws
      → let removed = keep_if (ended_before (now - doc_life_time)) ws in
        (clean_replay_log localtime_r now doc_life_time (map (λ w. dir ++ 47 ∷ file_name w) ws)
          ≡ some (map (λ w. dir ++ 47 ∷ file_name w) removed))
        × All (λ w. (t : ℕ) → InBucket t w → t + doc_life_time < now) removed
  clean_replay_log-old now doc_life_time dir ws forward in_range lived hc h =
      (clean_replay_log_lem now doc_life_time dir ws in_range lived hc h, all_old ws)
    where
      all_old :
          (ws : List ReplayLogWriterThread)
          → All
              (λ w. (t : ℕ) → InBucket t w → t + doc_life_time < now)
              (keep_if (ended_before (now - doc_life_time)) ws)
      all_old [] = tt
      all_old (w ∷ ws) = elim (Bool-cases (ended_before (now - doc_life_time) w)) [
        | inl old ↦ rw old (
          (λ t bucket.
              omega (arith, bucket.not_over, lived, forward w.time_end (now - doc_life_time) old)),
          all_old ws,
        )
        | inr young ↦ rw young (all_old ws)
      ]

  abbrev Positive : Text → Type 0
  Positive = All (λ c. 0 < c)

  no_zero-Positive : (t : Text) → elem 0 t ≡ false → Positive t
  no_zero-Positive [] h = tt
  no_zero-Positive (c ∷ t) h = (ground (arith, h), no_zero-Positive t (ground (arith, h)))

  hms-Positive : (t : ℕ) → IsStamp t → Positive (hms t) × (length (hms t) ≡ 14)
  hms-Positive t h = rw (hms-pairs localtime_r t h) (pairs-positive (parts (localtime_r t)), refl)

  joined :
      (dir s e : Text)
      → dir ++ ascii "/" ++ s ++ ascii "_" ++ e ++ 95 ∷ suffix
        ≡ dir ++ 47 ∷ (s ++ 95 ∷ (e ++ 95 ∷ suffix))
  joined dir s e =
      append_assoc (dir ++ ascii "/" ++ s ++ ascii "_") e (95 ∷ suffix)
      ∙ append_assoc (dir ++ ascii "/" ++ s) (ascii "_") (e ++ 95 ∷ suffix)
      ∙ append_assoc (dir ++ ascii "/") s (95 ∷ (e ++ 95 ∷ suffix))
      ∙ append_assoc dir (ascii "/") (s ++ 95 ∷ (e ++ 95 ∷ suffix))

  -- The writer's logs have such names, in a directory whose name fits the buffer.
  pub log_name_lem :
      (thrift : Thrift StoryAddingRequest) (dir : Text) (w : ReplayLogWriterThread)
      → Positive dir
      → length dir ≤ 982
      → HasTimes w
      → log_name thrift localtime_r dir w ≡ dir ++ 47 ∷ file_name w
  unfolding log_name string_append_f
  log_name_lem thrift dir w positive short h =
      let s = hms w.time_begin in
      let e = hms w.time_end in
      let hs = hms-Positive w.time_begin h.0 in
      let he = hms-Positive w.time_end h.1 in
      let P : ℕ → Type 0 = λ c. 0 < c in
      let tail : Positive (e ++ 95 ∷ suffix) =
        All-append P e (95 ∷ suffix) he.0 (no_zero-Positive (95 ∷ suffix) refl) in
      let name : Positive (s ++ 95 ∷ (e ++ 95 ∷ suffix)) =
        All-append P s (95 ∷ (e ++ 95 ∷ suffix)) hs.0 (omega arith, tail) in
      let whole = dir ++ 47 ∷ (s ++ 95 ∷ (e ++ 95 ∷ suffix)) in
      let fits : length whole ≤ 1023 = omega (
        arith,
        short,
        hs.1,
        he.1,
        length-append dir (47 ∷ (s ++ 95 ∷ (e ++ 95 ∷ suffix))),
        length-append s (95 ∷ (e ++ 95 ∷ suffix)),
        length-append e (95 ∷ suffix),
      ) in
      rw (joined dir s e) (
        rw (take-all 1023 whole fits) (
          c_string_lem whole
            (All-append P dir (47 ∷ (s ++ 95 ∷ (e ++ 95 ∷ suffix))) positive (omega arith, name))))
