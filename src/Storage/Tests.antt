-- ===== src/Storage/Tests.antt =====
-- The theorems on the storages at a database that is a function, and at two maps of keywords.
use recomm_engine.Prelude.{
  ◌≡◌, refl, Bool, true, false, some, List, [], ◌∷◌, arith, ◌==◌, if◌then◌else◌, Bool-cases, inl,
  inr,
}
use recomm_engine.Prelude.Texts.{Text, same_text, same_text_refl, same_text_sound}
use recomm_engine.Prelude.Maps.{Map}
use recomm_engine.Prelude.Int.{ℤ, pos, negsuc}
use recomm_engine.Indexing.Base.{StoryProfile}
use recomm_engine.Storage.LocalDict
use recomm_engine.Storage.LocalDict.{Status, ok, not_found, Leveldb, LocalDict}
use recomm_engine.Storage.StoryProfileStorage.{add_profile, get_profile, key_bytes}
use recomm_engine.Util.Bytes.{Thrift}
use recomm_engine.Storage.LocalDict.Contents.{IsMap, now, last_value, get-bootstrap}
use recomm_engine.Storage.StoryProfileStorage.RoundTrip.{get_profile-add_profile}
use recomm_engine.Storage.UserProfileStorage.{UserProfile, Redis}

abbrev Database : Type 0
Database = Text → Status × Text

abbrev db : Leveldb Database
db = record {
  put = λ key value d. ((λ k. if same_text key k then (ok, value) else d k), ok);
  get = λ key d. d key;
}

db-IsMap : IsMap db
db-IsMap = record {
  same = λ key value d h. rw (same_text_refl key) refl;
  other = λ key value k d ne. elim (Bool-cases (same_text key k)) [
    | inl hit ↦ absurd (ne (same_text_sound key k hit))
    | inr miss ↦ rw miss refl
  ];
}

abbrev story : StoryProfile
story = record { story_id = 97 ∷ []; signature = 9; keywords = []; rest = [] }

abbrev thrift : Thrift StoryProfile
thrift = record { to_string = λ v. v.signature ∷ v.story_id; from_string = λ t v. parse t v }
  where
    parse : Text → StoryProfile → StoryProfile × Bool
    parse [] v = (v, false)
    parse (n ∷ t) v = (record { story_id = t; signature = n; keywords = []; rest = [] }, true)

abbrev empty : LocalDict Database
empty = record { persistence = some (λ k. (not_found, [])) }

abbrev filled : LocalDict Database
filled = record { persistence = some (db.put (key_bytes 7) (9 ∷ 97 ∷ []) (λ k. (not_found, []))).0 }

get_profile-add_profile_example :
    get_profile db thrift 8 story filled
    ≡ (if 7 == 8 then some (story, true) else get_profile db thrift 8 story empty)
unfolding add_profile LocalDict.put
get_profile-add_profile_example =
    get_profile-add_profile db thrift db-IsMap empty filled 8 7 story story refl (omega arith)
      (omega arith) refl

abbrev more : Map ℤ
more = (5, pos 2147483647) ∷ (8, negsuc 3) ∷ []

-- A cluster of one client that knows nobody, and keeps what was last set.
abbrev redis : Redis Text (Unit {0})
redis = record {
  get_redis_node = λ user d. some (d, some tt);
  get = λ p user d. some (d, ([], pos 1));
  set_ex = λ p user value life d. some (value, true);
}

abbrev user_thrift : Thrift UserProfile
user_thrift = record { to_string = λ v. v.uid; from_string = λ t v. (record v { uid = t }, true) }

abbrev user : UserProfile
user = record { uid = 98 ∷ []; keywords = more; history = []; rest = [] }

abbrev pairs : List (Text × Text)
pairs = (1 ∷ [], 5 ∷ []) ∷ (2 ∷ [], 6 ∷ []) ∷ (1 ∷ [], 7 ∷ []) ∷ []

get-bootstrap_example :
    LocalDict.get db (1 ∷ []) [] (record {
      persistence =
          some
            (db.put
              (1 ∷ [])
              (7 ∷ [])
              (db.put (2 ∷ []) (6 ∷ []) (db.put (1 ∷ []) (5 ∷ []) (λ k. (not_found, []))).0).0).0;
    })
    ≡ now (last_value (1 ∷ []) pairs) (LocalDict.get db (1 ∷ []) [] empty)
unfolding LocalDict.bootstrap LocalDict.put_all LocalDict.put LocalDict.purge
get-bootstrap_example = get-bootstrap db db-IsMap pairs empty _ (1 ∷ []) [] refl
