-- ===== src/Indexing/Example.antt =====
-- An index of src/indexing with two documents, for the tests.
use recomm_engine.Prelude.{ℕ, refl, none, [], ◌∷◌, arith}
use recomm_engine.Prelude.Int.{pos}
use recomm_engine.Util.LocklessList.{LocklessList, null, node, write}
use recomm_engine.Util.LocklessList.Chain.{Cells, IsList}
use recomm_engine.Indexing.Base.{Posting, StoryAddingRequest}
use recomm_engine.Indexing.PostingList.{PostingList}
use recomm_engine.Indexing.State.{InstantIndex}
use recomm_engine.Indexing.State.Represents.{Represents}
use recomm_engine.Indexing.IndexBuildThread.Refines.{Abstract}

abbrev pub posting : ℕ → ℕ → Posting
posting d t = record { local_docid = d; weight = pos 1; timestamp = pos t }

-- Document 2, of second 50, in front of document 1, of second 20.
abbrev pub two : LocklessList Posting
two = record {
  store =
      write (write (write (λ _. none) 1 (node (posting 0 0) 3)) 2 (node (posting 1 20) null)) 3
        (node (posting 2 50) 2);
  next_new = 4;
  front = 1;
  node_num = 2;
  obj_pool = [];
  buffer_num = 0;
}

abbrev pub cells : Cells Posting
cells = (3, posting 2 50) ∷ (2, posting 1 20) ∷ []

pub two-IsList : IsList two cells
two-IsList = record {
  fake = posting 0 0;
  chain = (
    3,
    refl,
    (λ e. omega (arith, e)),
    refl,
    (
      2,
      refl,
      (λ e. omega (arith, e)),
      refl,
      (null, refl, (λ e. omega (arith, e)), refl, (refl, tt)),
    ),
  );
  counted = refl;
  small = omega arith;
  once = λ a. ground arith;
  made = λ a h. ground arith;
  started = omega arith;
  pooled = λ a h. absurd (omega arith);
}

-- The end mark hides document 1.
abbrev pub plist : PostingList
plist = record { inner_list = two; end_mark = 3 }

abbrev pub abstract : Abstract
abstract = (5, posting 2 50 ∷ posting 1 20 ∷ []) ∷ []

abbrev pub index : InstantIndex
index = record {
  index = (5, plist) ∷ [];
  att = (1, 11) ∷ (2, 22) ∷ [];
  local_docid_counter = 3;
  num_indexed_stories_current = pos 2;
  num_indexed_stories_total = pos 2;
  delete_doc_cnt = 0;
  doc_pool = record { capacity = 2; que = []; default_timeout = pos 0 };
  log_pool = record { capacity = 2; que = []; default_timeout = pos 0 };
}

abbrev pub request : StoryAddingRequest
request = record {
  story = record {
    story_id = 97 ∷ [];
    signature = 9;
    keywords = (5, pos 3) ∷ (8, pos 4) ∷ [];
    rest = [];
  };
}

pub index-Represents : Represents index.index abstract
index-Represents = (refl, record { cells = cells; is_list = two-IsList; same = refl }, tt)
