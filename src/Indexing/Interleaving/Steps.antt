-- ===== src/Indexing/Interleaving/Steps.antt =====
-- What each step of the threads of src/indexing keeps.
use recomm_engine.Prelude.{
  ℕ, ◌+◌, ◌<◌, ◌≡◌, inl, inr, refl, Bool-cases, Option-cases, Option, none, some, [], ◌∷◌, length,
  arith, All,
}
use recomm_engine.Prelude.Int.{pos, sub_ℕ, ◌+ℤ◌, to_int32}
use recomm_engine.Prelude.Maps.{Map, find, assign}
use recomm_engine.Prelude.Texts.{Text}
use recomm_engine.Util.LocklessList.{u32_mod}
use recomm_engine.Util.ProducerConsumerQueue.{try_get_internal}
use recomm_engine.Indexing.Base.{Posting, StoryAddingRequest, to_float}
use recomm_engine.Indexing.PostingList.{PostingList}
use recomm_engine.Indexing.State.{InstantIndex}
use recomm_engine.Indexing.IndexBuildThread.{register, new_tokens}
use recomm_engine.Indexing.CleanOldStoryThread.{target_time, delete_attachments}
use recomm_engine.Indexing.Interleaving.{
  Builder, waits, registers, looks, creates, posts, Cleaner, sleeps, marks, marked, clears, deletes,
  Threads, keys, has_lock, build, clean, taken,
}
use recomm_engine.Indexing.Interleaving.Sound.{
  AllSound, AllSound-mono, push-IsSound, mark_list-IsSound, clear_list-IsSound, find-AllSound,
  assign-AllSound,
}
use recomm_engine.Indexing.Interleaving.Tokens.{
  Has, Covered, AllHave, Grows, assign-Grows, Covered-Grows, AllHave-Grows, Tokens-Grows,
  new_tokens-Covered, keys-Has, create_lists-Created, Covered-Created,
}

-- What a thread looks up is there.
abbrev pub IsBuilding : Map PostingList → Builder → Type 0
IsBuilding m waits = Unit
IsBuilding m (registers req) = Unit
IsBuilding m (looks req local_id) = Unit
IsBuilding m (creates req local_id tokens) = Covered m tokens req.story.keywords
IsBuilding m (posts keywords local_id) = AllHave m keywords

abbrev pub IsCleaning : Map PostingList → Cleaner → Type 0
IsCleaning m sleeps = Unit
IsCleaning m (marks target tokens) = All (Has m) tokens
IsCleaning m marked = Unit
IsCleaning m (clears tokens docs) = All (Has m) tokens
IsCleaning m (deletes docs) = Unit

-- Every list is sound and has at most `n` postings.
pub record IsSafe (n : ℕ) (t : Threads) : Type 0 where
  pub lists : AllSound n t.state.index
  pub building : IsBuilding t.state.index t.builder
  pub cleaning : IsCleaning t.state.index t.cleaner

taken-IsBuilding : (m : Map PostingList) (o : Option StoryAddingRequest) → IsBuilding m (taken o)
taken-IsBuilding m none = tt
taken-IsBuilding m (some req) = tt

pub IsBuilding-Grows :
    (m m' : Map PostingList) (b : Builder) → Grows m m' → IsBuilding m b → IsBuilding m' b
IsBuilding-Grows m m' waits g h = tt
IsBuilding-Grows m m' (registers req) g h = tt
IsBuilding-Grows m m' (looks req local_id) g h = tt
IsBuilding-Grows m m' (creates req local_id tokens) g h =
    Covered-Grows m m' tokens req.story.keywords g h
IsBuilding-Grows m m' (posts keywords local_id) g h = AllHave-Grows m m' keywords g h

pub IsCleaning-Grows :
    (m m' : Map PostingList) (c : Cleaner) → Grows m m' → IsCleaning m c → IsCleaning m' c
IsCleaning-Grows m m' sleeps g h = tt
IsCleaning-Grows m m' (marks target tokens) g h = Tokens-Grows m m' tokens g h
IsCleaning-Grows m m' marked g h = tt
IsCleaning-Grows m m' (clears tokens docs) g h = Tokens-Grows m m' tokens g h
IsCleaning-Grows m m' (deletes docs) g h = tt

module _ (n : ℕ) (room : n + 2 < u32_mod) where
  pub more : (m : Map PostingList) → AllSound n m → AllSound (n + 1) m
  more m h = AllSound-mono n (n + 1) m (omega arith) h

  pub record Built (city_hash64 : Text → ℕ) (pool_clock : ℕ → ℕ) (now : ℕ) (b : Builder)
      (c : Cleaner) (s : InstantIndex) : Type 0 where
    pub state : InstantIndex
    pub builder : Builder
    pub run : build city_hash64 pool_clock now b c s ≡ some (state, builder)
    pub lists : AllSound (n + 1) state.index
    pub grown : Grows s.index state.index
    pub building : IsBuilding state.index builder

  pub build-Built :
      (city_hash64 : Text → ℕ) (pool_clock : ℕ → ℕ) (now : ℕ) (b : Builder) (c : Cleaner)
      (s : InstantIndex)
      → AllSound n s.index
      → IsBuilding s.index b
      → Built city_hash64 pool_clock now b c s
  unfolding build register
  build-Built city_hash64 pool_clock now waits c s lists h =
      let (doc_pool, got) = try_get_internal pool_clock s.doc_pool in
      record {
        state = record s { doc_pool = doc_pool };
        builder = taken got;
        run = refl;
        lists = more s.index lists;
        grown = λ k i. i;
        building = taken-IsBuilding s.index got;
      }
  build-Built city_hash64 pool_clock now (registers req) c s lists h = record {
    state = (register city_hash64 req.story s).0;
    builder = looks req s.local_docid_counter;
    run = refl;
    lists = more s.index lists;
    grown = λ k i. i;
    building = tt;
  }
  build-Built city_hash64 pool_clock now (looks req local_id) c s lists h = record {
    state = s;
    builder = creates req local_id (new_tokens req.story.keywords s.index);
    run = refl;
    lists = more s.index lists;
    grown = λ k i. i;
    building = new_tokens-Covered req.story.keywords s.index;
  }
  build-Built city_hash64 pool_clock now (creates req local_id tokens) c s lists h =
      let r = create_lists-Created n tokens s.index lists in
      elim (Bool-cases (has_lock c)) [
        | inl locked ↦ record {
          state = s;
          builder = creates req local_id tokens;
          run = rw locked refl;
          lists = more s.index lists;
          grown = λ k i. i;
          building = h;
        }
        | inr open_now ↦ record {
          state = record s { index = r.index };
          builder = posts req.story.keywords local_id;
          run = rw open_now (rw (r.run) refl);
          lists = more r.index r.sound;
          grown = r.grown;
          building = Covered-Created n tokens s.index r req.story.keywords h;
        }
      ]
  build-Built city_hash64 pool_clock now (posts [] local_id) c s lists h = record {
    state = s;
    builder = waits;
    run = refl;
    lists = more s.index lists;
    grown = λ k i. i;
    building = tt;
  }
  build-Built city_hash64 pool_clock now (posts ((k, w) ∷ kw) local_id) c s lists h =
      elim (Option-cases (find k s.index)) [
        | inl missing ↦ absurd (h.0 missing)
        | inr (plist, found) ↦
            let v : Posting = record {
              local_docid = local_id;
              weight = to_float w;
              timestamp = to_int32 (pos now);
            } in
            let (plist', run, sound) =
              push-IsSound v n plist (find-AllSound n k s.index lists found) room in
            let m = assign k plist' s.index in
            record {
              state = record s { index = m };
              builder = posts kw local_id;
              run = rw found (rw run refl);
              lists = assign-AllSound (n + 1) k plist' s.index sound (more s.index lists);
              grown = assign-Grows k plist' s.index;
              building = AllHave-Grows s.index m kw (assign-Grows k plist' s.index) h.1;
            }
      ]

  pub record Cleaned (now doc_life_time : ℕ) (c : Cleaner) (s : InstantIndex) : Type 0 where
    pub state : InstantIndex
    pub cleaner : Cleaner
    pub run : clean now doc_life_time c s ≡ some (state, cleaner)
    pub lists : AllSound n state.index
    pub grown : Grows s.index state.index
    pub cleaning : IsCleaning state.index cleaner

  pub clean-Cleaned :
      (now doc_life_time : ℕ) (c : Cleaner) (s : InstantIndex)
      → AllSound n s.index
      → IsCleaning s.index c
      → Cleaned now doc_life_time c s
  unfolding clean
  clean-Cleaned now life sleeps s lists h = record {
    state = s;
    cleaner = marks (target_time now life) (keys s.index);
    run = refl;
    lists = lists;
    grown = λ k i. i;
    cleaning = keys-Has s.index;
  }
  clean-Cleaned now life (marks target []) s lists h = record {
    state = s;
    cleaner = marked;
    run = refl;
    lists = lists;
    grown = λ k i. i;
    cleaning = tt;
  }
  clean-Cleaned now life (marks target (k ∷ tokens)) s lists h =
      elim (Option-cases (find k s.index)) [
        | inl missing ↦ absurd (h.0 missing)
        | inr (plist, found) ↦
            let (plist', run, sound) =
              mark_list-IsSound target n plist (find-AllSound n k s.index lists found) in
            let m = assign k plist' s.index in
            record {
              state = record s { index = m };
              cleaner = marks target tokens;
              run = rw found (rw run refl);
              lists = assign-AllSound n k plist' s.index sound lists;
              grown = assign-Grows k plist' s.index;
              cleaning = Tokens-Grows s.index m tokens (assign-Grows k plist' s.index) h.1;
            }
      ]
  clean-Cleaned now life marked s lists h = record {
    state = s;
    cleaner = clears (keys s.index) [];
    run = refl;
    lists = lists;
    grown = λ k i. i;
    cleaning = keys-Has s.index;
  }
  clean-Cleaned now life (clears [] docs) s lists h = record {
    state = s;
    cleaner = deletes docs;
    run = refl;
    lists = lists;
    grown = λ k i. i;
    cleaning = tt;
  }
  clean-Cleaned now life (clears (k ∷ tokens) docs) s lists h =
      elim (Option-cases (find k s.index)) [
        | inl missing ↦ absurd (h.0 missing)
        | inr (plist, found) ↦
            let (plist', docs', run, sound) =
              clear_list-IsSound docs n plist (find-AllSound n k s.index lists found) in
            let m = assign k plist' s.index in
            record {
              state = record s { index = m };
              cleaner = clears tokens docs';
              run = rw found (rw run refl);
              lists = assign-AllSound n k plist' s.index sound lists;
              grown = assign-Grows k plist' s.index;
              cleaning = Tokens-Grows s.index m tokens (assign-Grows k plist' s.index) h.1;
            }
      ]
  clean-Cleaned now life (deletes docs) s lists h = record {
    state = record s {
      att = delete_attachments docs s.att;
      num_indexed_stories_total = to_int32 (s.num_indexed_stories_total +ℤ sub_ℕ 0 (length docs));
      delete_doc_cnt = s.delete_doc_cnt + length docs;
    };
    cleaner = sleeps;
    run = refl;
    lists = lists;
    grown = λ k i. i;
    cleaning = tt;
  }
