-- ===== src/Indexing/Interleaving/Runs.antt =====
-- Any order of the steps of the threads of src/indexing.
use recomm_engine.Prelude.{ℕ, ◌+◌, ◌<◌, ◌≡◌, refl, subst, some, List, [], ◌∷◌, length, arith}
use recomm_engine.Prelude.Texts.{Text}
use recomm_engine.Util.LocklessList.{u32_mod}
use recomm_engine.Indexing.InstantIndex.{add_story}
use recomm_engine.Indexing.Interleaving.{Threads, Turn, adds, builds, cleans, turn, run_turns}
use recomm_engine.Indexing.Interleaving.Steps.{
  IsSafe, IsBuilding-Grows, IsCleaning-Grows, build-Built, clean-Cleaned, more,
}

module _ (city_hash64 : Text → ℕ) (n : ℕ) (room : n + 2 < u32_mod) where
  record Survives (e : Turn) (t : Threads) : Type 0 where
    after : Threads
    run : turn city_hash64 e t ≡ some after
    safe : IsSafe (n + 1) after

  turn-Survives : (e : Turn) (t : Threads) → IsSafe n t → Survives e t
  unfolding turn add_story
  turn-Survives (adds now1 now2 req) t h = record {
    after = record t { state = (add_story now1 now2 req t.state).0 };
    run = refl;
    safe = record {
      lists = more n room t.state.index h.lists;
      building = h.building;
      cleaning = h.cleaning;
    };
  }
  turn-Survives (builds pool_clock now) t h =
      let r =
        build-Built n room city_hash64 pool_clock now t.builder t.cleaner t.state h.lists
          h.building in
      record {
        after = record t { state = r.state; builder = r.builder };
        run = rw (r.run) refl;
        safe = record {
          lists = r.lists;
          building = r.building;
          cleaning = IsCleaning-Grows t.state.index r.state.index t.cleaner r.grown h.cleaning;
        };
      }
  turn-Survives (cleans now doc_life_time) t h =
      let r = clean-Cleaned n room now doc_life_time t.cleaner t.state h.lists h.cleaning in
      record {
        after = record t { state = r.state; cleaner = r.cleaner };
        run = rw (r.run) refl;
        safe = record {
          lists = more n room r.state.index r.lists;
          building = IsBuilding-Grows t.state.index r.state.index t.builder r.grown h.building;
          cleaning = r.cleaning;
        };
      }

-- In whatever order the steps of the threads come, where what a thread does to one posting list is one
-- step, nothing crashes, each token that a thread looks up has a list, and every list stays sound, with
-- its end mark null, or at its fake front or one of its nodes. The longest list and the number of steps
-- are together below 2^32 - 2.
pub run_turns-IsSafe :
    (city_hash64 : Text → ℕ) (es : List Turn) (n : ℕ) (t : Threads)
    → IsSafe n t
    → n + length es + 2 < u32_mod
    → (t' : Threads) × (run_turns city_hash64 es t ≡ some t') × IsSafe (n + length es) t'
unfolding run_turns
run_turns-IsSafe city_hash64 [] n t safe room =
    (t, refl, subst (λ (k : ℕ). IsSafe k t) (omega arith) safe)
run_turns-IsSafe city_hash64 (e ∷ es) n t safe room =
    let one = turn-Survives city_hash64 n (omega (arith, room)) e t safe in
    let (t', run, safe') =
      run_turns-IsSafe city_hash64 es (n + 1) one.after one.safe (omega arith) in
    (t', rw (one.run) run, subst (λ (k : ℕ). IsSafe k t') (omega arith) safe')
