-- ===== src/Storage/LocalDict/Contents.antt =====
-- What a dictionary of src/local_dict.cc holds, over a database that is a map.
use recomm_engine.Prelude.{
  ℕ, ◌≡◌, ◌≢◌, refl, sym, ap, ◌∙◌, Bool, Bool-cases, inl, inr, true, false, Option, none, some,
  List, [], ◌∷◌, if◌then◌else◌,
}
use recomm_engine.Prelude.Texts.{Text, same_text, same_text_refl, same_text_sound}
use recomm_engine.Storage.LocalDict.{
  Leveldb, LocalDict, Status, ok, not_found, failed, is_ok, put, get, put_all, purge, bootstrap,
}

-- A database gives back what was put under a key, and the other keys are as before.
pub record IsMap {D : Type 0} (db : Leveldb D) : Type 0 where
  pub same :
      (key value : Text) (d : D)
      → (db.put key value d).1 ≡ ok
      → db.get key (db.put key value d).0 ≡ (ok, value)
  pub other : (key value k : Text) (d : D) → key ≢ k → db.get k (db.put key value d).0 ≡ db.get k d

abbrev pub put_or {ℓ} : {A : Type ℓ} → A → Option A → A
put_or a none = a
put_or a (some b) = b

pub is_ok-ok : (s : Status) → is_ok s ≡ true → s ≡ ok
is_ok-ok ok h = refl
is_ok-ok not_found h = cc
is_ok-ok failed h = cc

-- The value of the last pair with this key.
abbrev pub last_value : Text → List (Text × Text) → Option Text
last_value key [] = none
last_value key ((k, v) ∷ pairs) = elim (last_value key pairs) [
  | none ↦ if same_text k key then some v else none
  | some w ↦ some w
]

-- What is got for a key: from the pairs, or else what it was before.
abbrev pub now : Option Text → Option (ℕ × Text) → Option (ℕ × Text)
now none old = old
now (some v) old = some (0, v)

module _ {D : Type 0} (db : Leveldb D) (is_map : IsMap db) where
  get-put_self :
      (d : D) (k v key value : Text)
      → (db.put k v d).1 ≡ ok
      → get db key value (record { persistence = some (db.put k v d).0 })
        ≡ now
            (if same_text k key then some v else none)
            (get db key value (record { persistence = some d }))
  unfolding get
  get-put_self d k v key value h = elim (Bool-cases (same_text k key)) [
    | inl hit ↦ rw hit (rw (sym (same_text_sound k key hit)) (rw (is_map.same k v d h) refl))
    | inr miss ↦
        let apart : k ≢ key = λ e. absurd (differ k key e miss) in
        rw miss (rw (is_map.other k v key d apart) refl)
  ]
    where
      differ : (k key : Text) → k ≡ key → same_text k key ≡ false → ⊥
      differ k key e miss = cc (ap (same_text k) (sym e) ∙ same_text_refl k)

  now-last_value :
      (k v key : Text) (pairs : List (Text × Text)) (old : Option (ℕ × Text))
      → now (last_value key pairs) (now (if same_text k key then some v else none) old)
        ≡ now (last_value key ((k, v) ∷ pairs)) old
  now-last_value k v key pairs old = go (last_value key pairs)
    where
      go :
          (o : Option Text)
          → now o (now (if same_text k key then some v else none) old)
            ≡ now (elim o [ none ↦ if same_text k key then some v else none | some w ↦ some w ]) old
      go none = refl
      go (some w) = refl

  get-put_all :
      (pairs : List (Text × Text)) (p : Option D) (dict' : LocalDict D) (key value : Text)
      → put_all db pairs (record { persistence = p }) ≡ some (dict', true)
      → get db key value dict'
        ≡ now (last_value key pairs) (get db key value (record { persistence = p }))
  unfolding put_all put
  get-put_all [] p dict' key value e =
      ap (get db key value) (sym (ap (λ r. r.0) (ap (put_or (dict', true)) e)))
  get-put_all ((k, v) ∷ pairs) none dict' key value e = cc
  get-put_all ((k, v) ∷ pairs) (some d) dict' key value e =
      elim (Bool-cases (is_ok (db.put k v d).1)) [
        | inl done ↦
            get-put_all pairs (some (db.put k v d).0) dict' key value (rw done at e)
            ∙ ap (now (last_value key pairs)) (get-put_self d k v key value (is_ok-ok _ done))
            ∙ now-last_value k v key pairs (get db key value (record { persistence = some d }))
        | inr not_done ↦ absurd (wrong (rw not_done at e))
      ]
    where
      wrong :
          ◌≡◌ {A = Option (LocalDict D × Bool)}
            (some (record { persistence = some (db.put k v d).0 }, false))
            (some (dict', true))
          → ⊥
      wrong e = cc

  -- After Bootstrap has succeeded, each key of the file has the value of its last pair there, and every
  -- other key what it had before: Purge, with which Bootstrap begins, takes nothing away.
  pub get-bootstrap :
      (pairs : List (Text × Text)) (dict dict' : LocalDict D) (key value : Text)
      → bootstrap db pairs dict ≡ some (dict', true)
      → get db key value dict' ≡ now (last_value key pairs) (get db key value dict)
  unfolding bootstrap purge
  get-bootstrap pairs dict dict' key value e = get-put_all pairs dict.persistence dict' key value e
