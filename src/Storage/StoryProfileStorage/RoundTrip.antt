-- ===== src/Storage/StoryProfileStorage/RoundTrip.antt =====
-- What src/story_profile_storage.cc gives back after a story was added.
use recomm_engine.Prelude.{
  ℕ, ◌+◌, ◌%◌, ◌^◌, ◌<◌, ◌≡◌, ◌≢◌, refl, sym, ap, ◌∙◌, Bool-cases, inl, inr, true, Option, none,
  some, arith, ◌==◌, ==_iff, if◌then◌else◌,
}
use recomm_engine.Util.Bytes.{Thrift, value, value-bytes, Fits-int64}
use recomm_engine.Indexing.Base.{StoryProfile}
use recomm_engine.Storage.LocalDict.{Leveldb, LocalDict, ok, put, get}
use recomm_engine.Storage.LocalDict.Contents.{IsMap, put_or, is_ok-ok}
use recomm_engine.Storage.StoryProfileStorage.{key_bytes, add_profile, get_profile}

-- What Thrift writes for the story `v` it reads back over the object `w`, which keeps the optional
-- fields that the story does not set.
abbrev pub Reads : Thrift StoryProfile → StoryProfile → StoryProfile → Type 0
Reads thrift v w = thrift.from_string (thrift.to_string v) w ≡ (v, true)

key_bytes-inj : (i k : ℕ) → i < 2 ^ 64 → k < 2 ^ 64 → key_bytes i ≡ key_bytes k → i ≡ k
unfolding key_bytes
key_bytes-inj i k hi hk e =
    let raw : ℕ → ℕ = λ n. (n + 2 ^ 63) % 2 ^ 64 in
    let same : raw i ≡ raw k =
      sym (value-bytes 8 (raw i) (Fits-int64 (raw i) (omega arith)))
      ∙ ap value e
      ∙ value-bytes 8 (raw k) (Fits-int64 (raw k) (omega arith)) in
    omega arith

module _ {D : Type 0} (db : Leveldb D) (thrift : Thrift StoryProfile) (is_map : IsMap db) where
  get-put :
      (d : D) (i k : ℕ) (v w : StoryProfile)
      → Reads thrift v w
      → i < 2 ^ 64
      → k < 2 ^ 64
      → let put = db.put (key_bytes k) (thrift.to_string v) d in
        put.1 ≡ ok
        → get_profile db thrift i w (record { persistence = some put.0 }) ≡ (
            if k == i
            then some (v, true)
            else get_profile db thrift i w (record { persistence = some d }))
  unfolding get_profile get
  get-put d i k v w reads hi hk h = elim (Bool-cases (k == i)) [
    | inl hit ↦
        let e : key_bytes i ≡ key_bytes k = ap key_bytes (sym ((==_iff k i).0 hit)) in
        rw hit (rw e (rw (is_map.same (key_bytes k) (thrift.to_string v) d h) (rw reads refl)))
    | inr miss ↦
        let ne : key_bytes k ≢ key_bytes i =
          λ e. absurd (ground (arith, key_bytes-inj k i hk hi e)) in
        rw miss (rw (is_map.other (key_bytes k) (thrift.to_string v) (key_bytes i) d ne) refl)
  ]

  round_trip :
      (p : Option D) (dict' : LocalDict D) (i k : ℕ) (v w : StoryProfile)
      → Reads thrift v w
      → i < 2 ^ 64
      → k < 2 ^ 64
      → add_profile db thrift k v (record { persistence = p }) ≡ some (dict', true)
      → get_profile db thrift i w dict' ≡ (
          if k == i then some (v, true) else get_profile db thrift i w (record { persistence = p }))
  unfolding add_profile put
  round_trip none dict' i k v w reads hi hk e = cc
  round_trip (some d) dict' i k v w reads hi hk e =
      let r = ap (put_or (dict', true)) e in
      ap (get_profile db thrift i w) (sym (ap (λ r. r.0) r))
      ∙ get-put d i k v w reads hi hk (is_ok-ok _ (ap (λ r. r.1) r))

  -- After a story was added under a key with success, the same key gives it back and any other key
  -- gives what it gave before, over a database that is a map and a Thrift that reads what it wrote for
  -- the story back over the object that GetProfile is given.
  pub get_profile-add_profile :
      (dict dict' : LocalDict D) (i k : ℕ) (v w : StoryProfile)
      → Reads thrift v w
      → i < 2 ^ 64
      → k < 2 ^ 64
      → add_profile db thrift k v dict ≡ some (dict', true)
      → get_profile db thrift i w dict'
        ≡ (if k == i then some (v, true) else get_profile db thrift i w dict)
  get_profile-add_profile dict dict' i k v w reads hi hk e =
      round_trip dict.persistence dict' i k v w reads hi hk e
