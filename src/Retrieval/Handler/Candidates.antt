-- ===== src/Retrieval/Handler/Candidates.antt =====
-- The documents that the loop of src/retrieval/retrieval_handler.cpp lets through.
use recomm_engine.Prelude.{
  ℕ, zero, suc, ◌+◌, ◌≤◌, ◌<◌, ◌≡◌, ◌≢◌, refl, sym, ap, ◌∙◌, Bool, true, false, none, some, List,
  [], ◌∷◌, ◌++◌, append-nil, append_assoc, length, arith, inl, inr, Bool-cases, ◌==◌, ==_iff,
  if◌then◌else◌, subst,
}
use recomm_engine.Prelude.Maps.{Map, find, IsOrdered, Above, Above-IsOrdered}
use recomm_engine.Indexing.State.{InstantIndex}
use recomm_engine.Retrieval.Reader.{
  RetrievalRequestInfo, KeyOfDoc, IndexReader, next_doc, get_global_id_from_local_id,
}
use recomm_engine.Retrieval.Reader.Hits.{Full, keys_of}
use recomm_engine.Retrieval.Handler.{RetrievalResult, ResultSet, insert_doc, score_doc, score_docs}
use recomm_engine.Retrieval.Handler.Sorting.{In}

module _ (under : ℕ → ℕ → Bool) (size : ℕ) (s : InstantIndex) where
  -- The entry of a document.
  abbrev pub entry : ℕ → List KeyOfDoc → RetrievalResult
  entry d keys = record { story_id = get_global_id_from_local_id s d; score = length keys }

  unfoldable pub candidates : Map (List KeyOfDoc) → List RetrievalResult
  candidates [] = []
  candidates ((d, keys) ∷ m) =
      if under (length keys) size then candidates m else entry d keys ∷ candidates m

  pub score_docs_lem :
      (fuel : ℕ) (m : Map (List KeyOfDoc)) (keywords : List RetrievalRequestInfo)
      (all : Map (List KeyOfDoc)) (set : ResultSet)
      → length m < fuel
      → let r : IndexReader = record { keyword_info = keywords; doc_hits_info = all; iter = m } in
        (r' : IndexReader) × (set' : ResultSet) × (score_docs fuel under size s r set
          ≡ some (r', set'))
        × (set'.docs ≡ set.docs ++ candidates m)
        × (set'.doc_num ≡ set.doc_num + length (candidates m))
  unfolding score_docs next_doc candidates score_doc insert_doc
  score_docs_lem zero m keywords all set f = absurd (omega arith)
  score_docs_lem (suc fuel) [] keywords all set f = (
    record { keyword_info = keywords; doc_hits_info = all; iter = [] },
    set,
    refl,
    sym (append-nil set.docs),
    omega arith,
  )
  score_docs_lem (suc fuel) ((d, keys) ∷ m) keywords all set f =
      let ih = score_docs_lem fuel m keywords all in
      elim (Bool-cases (under (length keys) size)) [
        | inl low ↦
            let (r', set', run, docs, num) = ih set (omega arith) in
            (r', set', rw low run, rw low docs, rw low num)
        | inr high ↦
            let (r', set', run, docs, num) =
              ih (insert_doc (get_global_id_from_local_id s d) (length keys) set) (omega arith) in
            (
              r',
              set',
              rw high run,
              rw high (docs ∙ append_assoc set.docs (entry d keys ∷ []) (candidates m)),
              rw high (omega (arith, num)),
            )
      ]

  find-Above : (i k : ℕ) (m : Map (List KeyOfDoc)) → Above k m → i ≤ k → find i m ≡ none
  unfolding find
  find-Above i k [] a h = refl
  find-Above i k ((j, keys) ∷ m) a h = ground (arith, find-Above i j m)

  -- A document of a map, with its hits, that passes the filter.
  abbrev pub Passes : Map (List KeyOfDoc) → RetrievalResult → ℕ → Type 0
  Passes m e d =
      (keys_of (find d m) ≢ [])
      × (under (length (keys_of (find d m))) size ≡ false)
      × (e ≡ entry d (keys_of (find d m)))

  Passes-cons :
      (k : ℕ) (keys : List KeyOfDoc) (m : Map (List KeyOfDoc)) (e : RetrievalResult) (d : ℕ)
      → Above k m
      → Passes m e d
      → Passes ((k, keys) ∷ m) e d
  unfolding find
  Passes-cons k keys m e d a p = elim (Bool-cases (k == d)) [
    | inl hit ↦ absurd (p.0 (ap keys_of (find-Above d k m a (ground arith))))
    | inr miss ↦ rw miss p
  ]

  Passes-here :
      (k : ℕ) (x : KeyOfDoc) (xs : List KeyOfDoc) (m : Map (List KeyOfDoc)) (e : RetrievalResult)
      → under (length (x ∷ xs)) size ≡ false
      → e ≡ entry k (x ∷ xs)
      → Passes ((k, x ∷ xs) ∷ m) e k
  unfolding find
  Passes-here k x xs m e h i =
      let same : (k == k) ≡ true = ground arith in rw same ((λ z. cc), h, i)

  pub candidates_sound :
      (m : Map (List KeyOfDoc)) (e : RetrievalResult)
      → Full m
      → IsOrdered m
      → In e (candidates m)
      → (d : ℕ) × Passes m e d
  unfolding candidates
  candidates_sound [] e full o h = absurd h
  candidates_sound ((k, []) ∷ m) e full o h = absurd full
  candidates_sound ((k, x ∷ xs) ∷ m) e full o h =
      let tail : In e (candidates m) → (d : ℕ) × Passes ((k, x ∷ xs) ∷ m) e d = λ i.
        (let (d, p) = candidates_sound m e full (Above-IsOrdered k m o) i in
          (d, Passes-cons k (x ∷ xs) m e d o p)) in
      elim (Bool-cases (under (length (x ∷ xs)) size)) [
        | inl low ↦
            tail (
              subst (λ b. In e (if b then candidates m else entry k (x ∷ xs) ∷ candidates m)) low h)
        | inr high ↦
            elim (subst (λ b. In e (if b then candidates m else entry k (x ∷ xs) ∷ candidates m))
              high h) [ inl i ↦ (k, Passes-here k x xs m e high i) | inr i ↦ tail i ]
      ]

  pub candidates_complete :
      (m : Map (List KeyOfDoc)) (e : RetrievalResult) (d : ℕ) → Passes m e d → In e (candidates m)
  unfolding find candidates
  candidates_complete [] e d p = absurd (p.0 refl)
  candidates_complete ((k, keys) ∷ m) e d p = elim (Bool-cases (k == d)) [
    | inl hit ↦
        let found : find d ((k, keys) ∷ m) ≡ some keys = rw hit refl in
        let q =
          subst
            (λ o.
              (keys_of o ≢ [])
              × (under (length (keys_of o)) size ≡ false)
              × (e ≡ entry d (keys_of o)))
            found p in
        rw q.1 (inl (q.2 ∙ ap (λ i. entry i keys) (sym ((==_iff k d).0 hit))))
    | inr miss ↦
        let found : find d ((k, keys) ∷ m) ≡ find d m = rw miss refl in
        let q =
          subst
            (λ o.
              (keys_of o ≢ [])
              × (under (length (keys_of o)) size ≡ false)
              × (e ≡ entry d (keys_of o)))
            found p in
        let i = candidates_complete m e d q in
        elim (Bool-cases (under (length keys) size)) [
          | inl low ↦ rw low i
          | inr high ↦ rw high (inr i)
        ]
  ]
