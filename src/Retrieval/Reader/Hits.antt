-- ===== src/Retrieval/Reader/Hits.antt =====
-- What src/retrieval/index_reader.cpp finds: the keywords that hit a document, in the request's order.
use mathlib.Core.List.{foldl}
use recomm_engine.Prelude.{
  ℕ, ◌+◌, ◌≡◌, refl, sym, ap, subst, ◌∙◌, Option, none, some, List, [], ◌∷◌, ◌++◌, append_assoc,
  append-nil, arith, ◌==◌, if◌then◌else◌, Bool-cases, inl, inr, ==_iff, ◌>>=◌,
}
use recomm_engine.Prelude.Maps.{Map, find, assign, find-assign, IsOrdered, assign-IsOrdered}
use recomm_engine.Util.LocklessList.Chain.{Cells, IsList}
use recomm_engine.Indexing.Base.{Posting}
use recomm_engine.Indexing.PostingList.{PostingList, PostingIterator, new_iterator, iterate}
use recomm_engine.Indexing.PostingList.Visible.{visible, read_lem}
use recomm_engine.Indexing.State.{InstantIndex}
use recomm_engine.Indexing.InstantIndex.{get_posting_list}
use recomm_engine.Retrieval.Reader.{
  RetrievalRequestInfo, KeyOfDoc, IndexReader, add_back, add_hit_keyword_to_doc_info, hit_body,
  read_hits, all_hits, begin_intersect,
}

-- Each list of the index is sound, and readers see these postings of a token.
abbrev pub Seen : Option PostingList → List Posting → Type 0
Seen none vs = vs ≡ []
Seen (some plist) vs = (xs : Cells Posting) × IsList plist.inner_list xs × (visible plist xs ≡ vs)

abbrev pub Shows : InstantIndex → (ℕ → List Posting) → Type 0
Shows s seen = (token : ℕ) → Seen (find token s.index) (seen token)

-- The hits of a keyword on a document, among the postings of its token.
unfoldable pub hits_in : ℕ → ℕ → List Posting → List KeyOfDoc
hits_in doc keyword [] = []
hits_in doc keyword (v ∷ vs) =
    if v.local_docid == doc
    then record { keyword_id = keyword; weight_in_doc = v.weight } ∷ hits_in doc keyword vs
    else hits_in doc keyword vs

unfoldable pub hits : (ℕ → List Posting) → ℕ → List RetrievalRequestInfo → List KeyOfDoc
hits seen doc [] = []
hits seen doc (k ∷ infos) = hits_in doc k.keyword (seen k.keyword) ++ hits seen doc infos

-- What the map holds for a document: nothing, or its hits.
abbrev pub keys_of {ℓ} : {A : Type ℓ} → Option (List A) → List A
keys_of none = []
keys_of (some ks) = ks

-- No document has an empty list of hits.
abbrev pub Full {ℓ} : {A : Type ℓ} → Map (List A) → Type 0
Full [] = Unit
Full ((d, []) ∷ m) = ⊥
Full ((d, x ∷ xs) ∷ m) = Full m

add_back-cons {ℓ} :
    {A : Type ℓ} (x : A) (o : Option (List A)) → (y : A) × (ys : List A) × (add_back x o ≡ y ∷ ys)
add_back-cons x none = (x, [], refl)
add_back-cons x (some []) = (x, [], refl)
add_back-cons x (some (y ∷ ys)) = (y, ys ++ x ∷ [], refl)

assign-Full {ℓ} :
    {A : Type ℓ} (d : ℕ) (x : A) (xs : List A) (m : Map (List A))
    → Full m
    → Full (assign d (x ∷ xs) m)
unfolding assign
assign-Full d x xs [] f = tt
assign-Full d x xs ((e, []) ∷ m) f = absurd f
assign-Full d x xs ((e, y ∷ ys) ∷ m) f = ground (arith, assign-Full d x xs m)

keys_of-add_back {ℓ} :
    {A : Type ℓ} (x : A) (o : Option (List A)) → add_back x o ≡ keys_of o ++ x ∷ []
keys_of-add_back x none = refl
keys_of-add_back x (some xs) = refl

-- The map holds what `f` says, documents in order.
pub record Collects (m : Map (List KeyOfDoc)) (f : ℕ → List KeyOfDoc) : Type 0 where
  pub ordered : IsOrdered m
  pub full : Full m
  pub keys : (d : ℕ) → keys_of (find d m) ≡ f d

hit_body-Collects :
    (keyword : ℕ) (v : Posting) (m : Map (List KeyOfDoc)) (f : ℕ → List KeyOfDoc)
    → Collects m f
    → Collects (hit_body keyword v m) (λ d. f d ++ hits_in d keyword (v ∷ []))
unfolding add_hit_keyword_to_doc_info hits_in
hit_body-Collects keyword v m f h =
    let k : KeyOfDoc = record { keyword_id = keyword; weight_in_doc = v.weight } in
    let new = add_back k (find v.local_docid m) in
    let (y, ys, e) = add_back-cons k (find v.local_docid m) in
    record {
      ordered = assign-IsOrdered v.local_docid new m h.ordered;
      full =
          subst (λ ks. Full (assign v.local_docid ks m)) (sym e)
            (assign-Full v.local_docid y ys m h.full);
      keys = λ d.
          ap keys_of (find-assign d v.local_docid new m) ∙ elim (Bool-cases (v.local_docid == d)) [
            | inl hit ↦ rw hit (
                keys_of-add_back k (find v.local_docid m)
                ∙ ap (λ (ks : List KeyOfDoc). ks ++ k ∷ [])
                    (h.keys v.local_docid ∙ ap f ((==_iff v.local_docid d).0 hit)))
            | inr miss ↦ rw miss (h.keys d ∙ sym (append-nil (f d)))
          ];
    }

hits_in-cons :
    (d keyword : ℕ) (v : Posting) (vs : List Posting)
    → hits_in d keyword (v ∷ vs) ≡ hits_in d keyword (v ∷ []) ++ hits_in d keyword vs
unfolding hits_in
hits_in-cons d keyword v vs = elim (Bool-cases (v.local_docid == d)) [
  | inl hit ↦ rw hit refl
  | inr miss ↦ rw miss refl
]

Collects-eq :
    (m : Map (List KeyOfDoc)) (f g : ℕ → List KeyOfDoc)
    → ((d : ℕ) → f d ≡ g d)
    → Collects m f
    → Collects m g
Collects-eq m f g e h = record { ordered = h.ordered; full = h.full; keys = λ d. h.keys d ∙ e d }

foldl-Collects :
    (keyword : ℕ) (vs : List Posting) (m : Map (List KeyOfDoc)) (f : ℕ → List KeyOfDoc)
    → Collects m f
    → Collects (foldl (λ t p. hit_body keyword p t) m vs) (λ d. f d ++ hits_in d keyword vs)
unfolding hits_in
foldl-Collects keyword [] m f h = Collects-eq m f _ (λ d. sym (append-nil (f d))) h
foldl-Collects keyword (v ∷ vs) m f h =
    Collects-eq _ (λ d. (f d ++ hits_in d keyword (v ∷ [])) ++ hits_in d keyword vs) _
      (λ d.
        append_assoc (f d) (hits_in d keyword (v ∷ [])) (hits_in d keyword vs)
        ∙ ap (◌++◌ (f d)) (sym (hits_in-cons d keyword v vs)))
      (foldl-Collects keyword vs (hit_body keyword v m) _ (hit_body-Collects keyword v m f h))

-- An iterator is made, and the postings are read.
read_hits-iterator :
    (keyword : ℕ) (plist : PostingList) (m : Map (List KeyOfDoc)) (o : Option PostingIterator)
    → (o >>= (λ it. some (some (plist, it))) >>= (λ iter. read_hits keyword iter m))
      ≡ (o >>= λ it. iterate (hit_body keyword) (plist.inner_list.node_num + 2) plist it m)
unfolding read_hits
read_hits-iterator keyword plist m none = refl
read_hits-iterator keyword plist m (some it) = refl

module _ (s : InstantIndex) (seen : ℕ → List Posting) (shows : Shows s seen) where
  read_hits_lem :
      (keyword : ℕ) (m : Map (List KeyOfDoc)) (f : ℕ → List KeyOfDoc)
      → Collects m f
      → (m' : Map (List KeyOfDoc)) × ((get_posting_list keyword s >>= λ iter.
            read_hits keyword iter m)
          ≡ some m')
        × Collects m' (λ d. f d ++ hits_in d keyword (seen keyword))
  unfolding get_posting_list read_hits
  read_hits_lem keyword m f h = go (find keyword s.index) refl (shows keyword)
    where
      go :
          (o : Option PostingList)
          → find keyword s.index ≡ o
          → Seen o (seen keyword)
          → (m' : Map (List KeyOfDoc)) × ((get_posting_list keyword s >>= λ iter.
                read_hits keyword iter m)
              ≡ some m')
            × Collects m' (λ d. f d ++ hits_in d keyword (seen keyword))
      go none e none_seen = (m, rw e refl, rw none_seen (foldl-Collects keyword [] m f h))
      go (some plist) e (xs, is, vis) = (
        foldl (λ t p. hit_body keyword p t) m (visible plist xs),
        rw e (
            read_hits-iterator keyword plist m (new_iterator plist)
            ∙ read_lem (hit_body keyword) plist xs m is),
        subst
            (λ vs.
              Collects (foldl (λ t p. hit_body keyword p t) m (visible plist xs))
                (λ d. f d ++ hits_in d keyword vs))
            vis (foldl-Collects keyword (visible plist xs) m f h),
      )

  all_hits_lem :
      (infos : List RetrievalRequestInfo) (m : Map (List KeyOfDoc)) (f : ℕ → List KeyOfDoc)
      → Collects m f
      → (m' : Map (List KeyOfDoc)) × (all_hits infos s m ≡ some m')
        × Collects m' (λ d. f d ++ hits seen d infos)
  unfolding all_hits hits
  all_hits_lem [] m f h = (m, refl, Collects-eq m f _ (λ d. sym (append-nil (f d))) h)
  all_hits_lem (k ∷ infos) m f h =
      let (m1, run1, h1) = read_hits_lem k.keyword m f h in
      let (m2, run2, h2) = all_hits_lem infos m1 _ h1 in
      (m2, read_all k infos m m1 run1 ∙ run2, Collects-eq m2 _ _ (λ d. append_assoc (f d) _ _) h2)
    where
      read_all :
          (k : RetrievalRequestInfo) (infos : List RetrievalRequestInfo)
          (m m1 : Map (List KeyOfDoc))
          → (get_posting_list k.keyword s >>= λ iter. read_hits k.keyword iter m) ≡ some m1
          → all_hits (k ∷ infos) s m ≡ all_hits infos s m1
      read_all k infos m m1 run = step (get_posting_list k.keyword s) run
        where
          step :
              (o : Option (Option (PostingList × PostingIterator)))
              → (o >>= λ iter. read_hits k.keyword iter m) ≡ some m1
              → (o >>= λ iter. read_hits k.keyword iter m >>= λ m. all_hits infos s m)
                ≡ all_hits infos s m1
          step none e = cc
          step (some iter) e = rw e refl

  -- On an index whose lists are sound, beginIntersect does not crash and ends. For each document the
  -- reader then has the keywords that hit it, with the weights of its postings, in the order of the
  -- request and of the lists that readers see, and no document that nothing hit.
  pub begin_intersect_lem :
      (keywords : List RetrievalRequestInfo) (r : IndexReader)
      → (r' : IndexReader) × (begin_intersect keywords s r ≡ some r')
        × (r'.iter ≡ r'.doc_hits_info)
        × Collects r'.doc_hits_info (λ d. hits seen d keywords)
  unfolding begin_intersect find
  begin_intersect_lem keywords r =
      let (m, run, h) =
        all_hits_lem keywords [] (λ d. []) (record { ordered = tt; full = tt; keys = λ d. refl }) in
      (record { keyword_info = keywords; doc_hits_info = m; iter = m }, rw run refl, refl, h)
