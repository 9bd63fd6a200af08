-- ===== src/Indexing/ReplayLog/Ending.antt =====
-- Whether the loop of InstantIndex::Replay of src/indexing/instant_index.cc ends.
use recomm_engine.Prelude.{
  ℕ, zero, suc, ◌+◌, ◌%◌, ◌^◌, ◌<◌, ◌≡◌, ◌⊎◌, refl, subst, Bool, true, false, List, [], ◌∷◌, leb,
  ltb, leb→le, length, drop, length-drop, arith, Bool-cases, inl, inr, if◌then◌else◌,
}
use recomm_engine.Prelude.Texts.{Text}
use recomm_engine.Util.Bytes.{Thrift, value}
use recomm_engine.Indexing.Base.{StoryAddingRequest}
use recomm_engine.Indexing.ReplayLog.{
  Replayed, running, finished, overflowed, restored, Limits, InputStream, read_bytes, stored,
  tabulate, replay_loop, replay_file,
}
use recomm_engine.Indexing.ReplayLog.Reading.{from, CanHold, stack_holds, string_holds}

-- A file in which a read has met the end.
abbrev ended : InputStream
ended = record { left = []; good = false; eof = true; broken = false }

-- The streams of a file that was opened and is read without an error: some bytes are left, fewer than
-- so many, or its end was met.
data Stream (k : ℕ) : InputStream → Type 0 where
  more : (t : Text) → length t < k → Stream k (from t)
  over : Stream k ended

read-Stream : (n k : ℕ) (s : InputStream) → Stream k s → Stream k (read_bytes n s).1
unfolding read_bytes
read-Stream n k s over = over
read-Stream n k s (more t h) = elim (Bool-cases (leb n (length t))) [
  | inl enough ↦ rw enough (more (drop n t) (omega (arith, h, length-drop n t)))
  | inr short ↦ rw short over
]

read-shorter : (n k : ℕ) (t : Text) → length t < suc k → Stream k (read_bytes (suc n) (from t)).1
unfolding read_bytes
read-shorter n k t h = elim (Bool-cases (leb (suc n) (length t))) [
  | inl enough ↦
      rw enough (more (drop (suc n) t) (omega (arith, h, length-drop (suc n) t, leb→le _ _ enough)))
  | inr short ↦ rw short over
]

-- The loop has ended, or the program has.
abbrev pub Ends : Replayed → Type 0
Ends o = ((reqs : List StoryAddingRequest) × (o ≡ finished reqs)) ⊎ (o ≡ overflowed)

restored-Ends : (req : StoryAddingRequest) (o : Replayed) → Ends o → Ends (restored req o)
restored-Ends req running (inl (reqs, e)) = cc
restored-Ends req running (inr e) = cc
restored-Ends req (finished reqs) e = inl (req ∷ reqs, refl)
restored-Ends req overflowed e = inr refl

round-Ends :
    (big long parsed : Bool) (req : StoryAddingRequest) (rest : Replayed)
    → Ends rest
    → Ends (
        if big
        then overflowed
        else if long
        then finished []
        else if parsed
        then restored req rest
        else rest)
round-Ends true long parsed req rest e = inr refl
round-Ends false true parsed req rest e = inl ([], refl)
round-Ends false false true req rest e = restored-Ends req rest e
round-Ends false false false req rest e = e

module _ (thrift : Thrift StoryAddingRequest) (limits : Limits) (stack : ℕ → ℕ → ℕ) where
  replay_loop-Ends :
      (fuel i : ℕ) (s : InputStream) (obj_size : Text) (req : StoryAddingRequest)
      → Stream fuel s
      → Ends (replay_loop thrift limits stack (suc fuel) i s obj_size req)
  unfolding replay_loop
  replay_loop-Ends fuel i s obj_size req over = inl ([], refl)
  replay_loop-Ends zero i s obj_size req (more t h) = absurd (omega (arith, h))
  replay_loop-Ends (suc fuel) i s obj_size req (more t h) =
      let s1 = (read_bytes 4 (from t)).1 in
      let (got2, s2) = read_bytes 8 s1 in
      let obj_size2 = stored got2 obj_size in
      let (got3, s3) = read_bytes (value obj_size2) s2 in
      let (req3, parsed) =
        thrift.from_string (stored got3 (tabulate (stack i) (value obj_size2))) req in
      round-Ends (ltb limits.stack_left ((value obj_size2 + 1024) % 2 ^ 64))
        (ltb limits.max_string (value obj_size2)) parsed req3 _
        (replay_loop-Ends fuel (i + 1) s3 obj_size2 req3
          (read-Stream _ fuel s2 (read-Stream 8 fuel s1 (read-shorter 3 fuel t h))))

  -- On any bytes of a file that can be opened and is read without an error, the loop of Replay ends, or
  -- a buffer overflows the stack, within two more rounds than it has bytes.
  pub replay_file-Ends :
      (content obj_size : Text) (req : StoryAddingRequest)
      → Ends (replay_file thrift limits stack false content obj_size req)
  unfolding replay_file
  replay_file-Ends content obj_size req =
      subst (λ k. Ends (replay_loop thrift limits stack k 0 (from content) obj_size req))
        {x = suc (suc (length content))} (omega arith)
        (replay_loop-Ends (suc (length content)) 0 (from content) obj_size req
          (more content (omega arith)))

  restored-running :
      (parsed : Bool) (req : StoryAddingRequest) (rest : Replayed)
      → rest ≡ running
      → (if parsed then restored req rest else rest) ≡ running
  restored-running true req rest e = rw e refl
  restored-running false req rest e = e

  -- Once a file could not be opened, or a read has failed by an error and not at its end, the loop of
  -- Replay never ends: no number of rounds is enough. This is so where the size that stands in
  -- `obj_size` by then can be held by the stack and by a string.
  pub replay_loop-stuck :
      (fuel i : ℕ) (left : Text) (broken : Bool) (obj_size : Text) (req : StoryAddingRequest)
      → limits.stack_left < 2 ^ 64
      → CanHold limits (value obj_size)
      → replay_loop thrift limits stack fuel i
          (record { left = left; good = false; eof = false; broken = broken })
          obj_size
          req
        ≡ running
  unfolding replay_loop read_bytes stored
  replay_loop-stuck zero i left broken obj_size req addressed holds = refl
  replay_loop-stuck (suc fuel) i left broken obj_size req addressed holds =
      rw (stack_holds thrift limits stack addressed (value obj_size) holds) (
        rw (string_holds thrift limits stack addressed (value obj_size) holds) (
          restored-running _ _ _
            (replay_loop-stuck fuel (i + 1) left broken obj_size _ addressed holds)))
