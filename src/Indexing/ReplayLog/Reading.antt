-- ===== src/Indexing/ReplayLog/Reading.antt =====
-- What InstantIndex::Replay of src/indexing/instant_index.cc reads from the files of the replay log.
use recomm_engine.Prelude.{
  ℕ, zero, suc, ◌+◌, ◌^◌, ◌%◌, ltb, sym, ◌<◌, ◌≤◌, ◌≡◌, refl, ap, ◌∙◌, subst, Bool, true, false,
  some, List, [], ◌∷◌, ◌++◌, append_assoc, append-nil, map, leb, length, take, drop, drop-all,
  length-append, arith, if◌then◌else◌,
}
use recomm_engine.Prelude.Texts.{Text}
use recomm_engine.Util.Bytes.{Thrift, bytes, value, value-bytes, length-bytes, Fits-int64}
use recomm_engine.Indexing.Base.{StoryAddingRequest}
use recomm_engine.Indexing.ReplayLog.{
  Replayed, finished, restored, Limits, record_bytes, InputStream, open_file, read_bytes, stored,
  tabulate, replay_loop, replay_file,
}

abbrev pub from : Text → InputStream
from t = open_file false (some t)

-- A file in which a read has met the end.
abbrev ended : InputStream
ended = record { left = []; good = false; eof = true; broken = false }

take-length : (xs ys : Text) → take (length xs) (xs ++ ys) ≡ xs
take-length [] ys = refl
take-length (x ∷ xs) ys = ap (◌∷◌ x) (take-length xs ys)

drop-length : (xs ys : Text) → drop (length xs) (xs ++ ys) ≡ ys
drop-length [] ys = refl
drop-length (x ∷ xs) ys = drop-length xs ys

read_whole : (got rest : Text) → read_bytes (length got) (from (got ++ rest)) ≡ (got, from rest)
unfolding read_bytes
read_whole got rest =
    let enough : leb (length got) (length (got ++ rest)) ≡ true =
      ground (arith, length-append got rest) in
    rw enough (rw (take-length got rest) (rw (drop-length got rest) refl))

read_exact :
    (n : ℕ) (got rest : Text)
    → length got ≡ n
    → read_bytes n (from (got ++ rest)) ≡ (got, from rest)
read_exact n got rest e =
    subst (λ n. read_bytes n (from (got ++ rest)) ≡ (got, from rest)) e (read_whole got rest)

stored_whole : (got before : Text) → length before ≤ length got → stored got before ≡ got
unfolding stored
stored_whole got before h = rw (drop-all (length got) before h) (append-nil got)

length-tabulate : (f : ℕ → ℕ) (n : ℕ) → length (tabulate f n) ≡ n
length-tabulate f zero = refl
length-tabulate f (suc n) = ap suc (length-tabulate f n)

-- A buffer and a string of this size can be made.
abbrev pub CanHold : Limits → ℕ → Type 0
CanHold limits n = (n + 1024 ≤ limits.stack_left) × (n ≤ limits.max_string)

module _ (thrift : Thrift StoryAddingRequest) where
  -- A file to which these stories were written, at these times.
  abbrev pub log_of : List (ℕ × StoryAddingRequest) → Text
  log_of [] = []
  log_of (r ∷ rs) = record_bytes r.0 (thrift.to_string r.1) ++ log_of rs

  -- The size and the story of the last record.
  abbrev pub last_size : Text → List (ℕ × StoryAddingRequest) → Text
  last_size obj_size [] = obj_size
  last_size obj_size (r ∷ rs) = last_size (bytes 8 (length (thrift.to_string r.1))) rs

  abbrev pub last_request : StoryAddingRequest → List (ℕ × StoryAddingRequest) → StoryAddingRequest
  last_request req [] = req
  last_request req (r ∷ rs) = last_request r.1 rs

  -- Thrift reads each story that it wrote back over the object that the one before left, which keeps
  -- the optional fields that a record does not set, and each can be held.
  abbrev pub AllReadable : Limits → StoryAddingRequest → List (ℕ × StoryAddingRequest) → Type 0
  AllReadable limits w [] = Unit
  AllReadable limits w (r ∷ rs) =
      (thrift.from_string (thrift.to_string r.1) w ≡ (r.1, true))
      × CanHold limits (length (thrift.to_string r.1))
      × AllReadable limits r.1 rs

module _ (thrift : Thrift StoryAddingRequest) (limits : Limits) (stack : ℕ → ℕ → ℕ)
    (addressed : limits.stack_left < 2 ^ 64) where
  abbrev if_parsed : StoryAddingRequest × Bool → List StoryAddingRequest
  if_parsed (req, true) = req ∷ []
  if_parsed (req, false) = []

  -- What the round after the last record parses: the bytes that stood in the buffer.
  abbrev pub leftover : ℕ → Text → StoryAddingRequest → List StoryAddingRequest
  leftover i obj_size req = if_parsed (thrift.from_string (tabulate (stack i) (value obj_size)) req)

  abbrev after_all : List StoryAddingRequest → Replayed → Replayed
  after_all [] o = o
  after_all (r ∷ rs) o = restored r (after_all rs o)

  pub stack_holds : (n : ℕ) → CanHold limits n → ltb limits.stack_left ((n + 1024) % 2 ^ 64) ≡ false
  stack_holds n h = ground (arith, h.0, addressed)

  pub string_holds : (n : ℕ) → CanHold limits n → ltb limits.max_string n ≡ false
  string_holds n h = ground (arith, h.1)

  replay_record :
      (fuel i : ℕ) (r : ℕ × StoryAddingRequest) (more obj_size : Text) (req : StoryAddingRequest)
      → thrift.from_string (thrift.to_string r.1) req ≡ (r.1, true)
      → CanHold limits (length (thrift.to_string r.1))
      → length obj_size ≡ 8
      → replay_loop thrift limits stack
          (suc fuel)
          i
          (from (record_bytes r.0 (thrift.to_string r.1) ++ more))
          obj_size
          req
        ≡ restored r.1 (
            replay_loop thrift limits stack fuel
              (i + 1)
              (from more)
              (bytes 8 (length (thrift.to_string r.1)))
              r.1)
  unfolding replay_loop record_bytes
  replay_record fuel i r more obj_size req reads holds e =
      let text = thrift.to_string r.1 in
      let size = bytes 8 (length text) in
      let joined : (bytes 4 r.0 ++ size ++ text) ++ more ≡ bytes 4 r.0 ++ (size ++ (text ++ more)) =
        append_assoc (bytes 4 r.0 ++ size) text more
        ∙ append_assoc (bytes 4 r.0) size (text ++ more) in
      let read1 = read_exact 4 (bytes 4 r.0) (size ++ (text ++ more)) (length-bytes 4 r.0) in
      let read2 = read_exact 8 size (text ++ more) (length-bytes 8 (length text)) in
      let kept : stored size obj_size ≡ size =
        stored_whole size obj_size (omega (arith, e, length-bytes 8 (length text))) in
      let known : value size ≡ length text =
        value-bytes 8 (length text) (Fits-int64 _ (omega (arith, holds, addressed))) in
      let read3 = read_whole text more in
      let filled : stored text (tabulate (stack i) (length text)) ≡ text =
        stored_whole text _ (omega (arith, length-tabulate (stack i) (length text))) in
      rw joined (
        rw read1 (
          rw read2 (
            rw kept (
              rw known (
                rw (stack_holds (length text) holds) (
                  rw (string_holds (length text) holds) (rw read3 (rw filled (rw reads refl)))))))))

  replay_last :
      (fuel i : ℕ) (obj_size : Text) (req : StoryAddingRequest)
      → CanHold limits (value obj_size)
      → replay_loop thrift limits stack (suc (suc fuel)) i (from []) obj_size req
        ≡ finished (leftover i obj_size req)
  unfolding replay_loop read_bytes stored
  replay_last fuel i obj_size req holds = rw (stack_holds (value obj_size) holds) (
      rw (string_holds (value obj_size) holds)
        (last (thrift.from_string (tabulate (stack i) (value obj_size)) req)))
    where
      last :
          (got : StoryAddingRequest × Bool)
          → (if got.1 then finished (got.0 ∷ []) else finished []) ≡ finished (if_parsed got)
      last (req, true) = refl
      last (req, false) = refl

  replay_log_of :
      (rs : List (ℕ × StoryAddingRequest)) (fuel i : ℕ) (obj_size : Text) (req : StoryAddingRequest)
      → AllReadable thrift limits req rs
      → CanHold limits (value (last_size thrift obj_size rs))
      → length obj_size ≡ 8
      → length rs + 2 ≤ fuel
      → replay_loop thrift limits stack fuel i (from (log_of thrift rs)) obj_size req
        ≡ finished (
            map (λ r. r.1) rs
            ++ leftover (i + length rs) (last_size thrift obj_size rs) (last_request thrift req rs))
  replay_log_of [] zero i obj_size req w last e enough = absurd (omega (arith, enough))
  replay_log_of [] (suc zero) i obj_size req w last e enough = absurd (omega (arith, enough))
  replay_log_of [] (suc (suc fuel)) i obj_size req w last e enough =
      replay_last fuel i obj_size req last
      ∙ ap (λ k. finished (leftover k obj_size req)) (omega arith)
  replay_log_of (r ∷ rs) zero i obj_size req w last e enough = absurd (omega (arith, enough))
  replay_log_of (r ∷ rs) (suc fuel) i obj_size req w last e enough =
      let size = bytes 8 (length (thrift.to_string r.1)) in
      let rest =
        replay_log_of rs fuel (i + 1) size r.1 w.2 last (length-bytes 8 _)
          (omega (arith, enough)) in
      replay_record fuel i r (log_of thrift rs) obj_size req w.0 w.1 e
      ∙ ap (restored r.1) rest
      ∙ ap
          (λ k. finished (
            r.1
            ∷ (map (λ r. r.1) rs
                ++ leftover k (last_size thrift size rs) (last_request thrift r.1 rs))))
          {x = i + 1 + length rs} (omega arith)

  size-CanHold : (n : ℕ) → CanHold limits n → CanHold limits (value (bytes 8 n))
  size-CanHold n h =
      subst (CanHold limits) (sym (value-bytes 8 n (Fits-int64 n (omega (arith, h, addressed))))) h

  -- The bytes that the round behind the last record parses can be held too.
  last-CanHold :
      (req : StoryAddingRequest) (rs : List (ℕ × StoryAddingRequest)) (obj_size : Text)
      → CanHold limits (value obj_size)
      → AllReadable thrift limits req rs
      → CanHold limits (value (last_size thrift obj_size rs))
  last-CanHold req [] obj_size h w = h
  last-CanHold req (r ∷ rs) obj_size h w =
      let n = length (thrift.to_string r.1) in
      last-CanHold r.1 rs (bytes 8 n) (size-CanHold n w.1) w.2

  length-log_of : (rs : List (ℕ × StoryAddingRequest)) → length rs ≤ length (log_of thrift rs)
  unfolding record_bytes
  length-log_of [] = omega arith
  length-log_of (r ∷ rs) =
      let text = thrift.to_string r.1 in
      omega (
        arith,
        length-log_of rs,
        length-bytes 4 r.0,
        length-append (bytes 4 r.0 ++ bytes 8 (length text) ++ text) (log_of thrift rs),
        length-append (bytes 4 r.0 ++ bytes 8 (length text)) text,
        length-append (bytes 4 r.0) (bytes 8 (length text)),
      )

  -- Of a log with a record or more that Thrift reads back, each over the object that the one before
  -- left, and that the stack and a string can hold, Replay restores those stories, in order, and then
  -- what Thrift makes of the bytes that happen to stand in its buffer, as many as the last record had:
  -- nothing, or one more request.
  pub replay_file-log_of :
      (r : ℕ × StoryAddingRequest) (rs : List (ℕ × StoryAddingRequest)) (obj_size : Text)
      (req : StoryAddingRequest)
      → AllReadable thrift limits req (r ∷ rs)
      → length obj_size ≡ 8
      → replay_file thrift limits stack false (log_of thrift (r ∷ rs)) obj_size req
        ≡ finished (
            map (λ r. r.1) (r ∷ rs)
            ++ leftover
                (length (r ∷ rs))
                (last_size thrift obj_size (r ∷ rs))
                (last_request thrift req (r ∷ rs)))
  unfolding replay_file
  replay_file-log_of r rs obj_size req w e =
      let all = r ∷ rs in
      let n = length (thrift.to_string r.1) in
      replay_log_of all (length (log_of thrift all) + 2) 0 obj_size req w
        (last-CanHold r.1 rs (bytes 8 n) (size-CanHold n w.1) w.2) e
        (omega (arith, length-log_of all))
      ∙ ap
          (λ k. finished (
            map (λ r. r.1) all
            ++ leftover k (last_size thrift obj_size all) (last_request thrift req all)))
          {x = 0 + length all} (omega arith)
