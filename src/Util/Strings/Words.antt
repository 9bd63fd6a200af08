-- ===== src/Util/Strings/Words.antt =====
-- SplitString of src/util/string/str_util.cc gives the words between the delimiters.
use recomm_engine.Prelude.{
  ℕ, zero, suc, ◌+◌, ◌-◌, ◌<◌, ◌≤◌, ◌≡◌, refl, sym, ap, ◌∙◌, false, none, some, List, [], ◌∷◌, ◌++◌,
  append_assoc, append-nil, ◌==◌, ==_refl, Bool-cases, inl, inr, ltb, ltb→lt, length, take, drop,
  drop-drop, length-drop, take-all, drop-all, arith, All, elem, if◌then◌else◌,
}
use recomm_engine.Prelude.Texts.{Text}
use recomm_engine.Util.Strings.{scan, find_char, push_segment, split_loop, split_string}

abbrev word : Text → List Text
word [] = []
word (c ∷ cs) = (c ∷ cs) ∷ []

-- The words of a text, those before the first character being begun with `seen`.
unfoldable pub words_from : ℕ → Text → Text → List Text
words_from del seen [] = word seen
words_from del seen (c ∷ cs) =
    if c == del then word seen ++ words_from del [] cs else words_from del (seen ++ c ∷ []) cs

-- The reference: the maximal runs without the delimiter, in order.
abbrev pub words : ℕ → Text → List Text
words del str = words_from del [] str

push_segment_lem : (seg : Text) (segs : List Text) → push_segment seg segs ≡ segs ++ word seg
push_segment_lem [] segs = sym (append-nil segs)
push_segment_lem (c ∷ seg) segs = refl

-- Where the delimiter is found, the words before it and after it.
data Scan (del : ℕ) (t : Text) (pos : ℕ) : Type 0 where
  nowhere :
      scan del t pos ≡ none
      → ((seen : Text) → words_from del seen t ≡ word (seen ++ t))
      → Scan del t pos
  at :
      (k : ℕ)
      → k < length t
      → scan del t pos ≡ some (pos + k)
      → ((seen : Text)
          → words_from del seen t ≡ word (seen ++ take k t) ++ words_from del [] (drop (suc k) t))
      → Scan del t pos

scan_lem : (del : ℕ) (t : Text) (pos : ℕ) → Scan del t pos
unfolding words_from
scan_lem del [] pos = nowhere refl (λ seen. ap word (sym (append-nil seen)))
scan_lem del (c ∷ t) pos = elim (Bool-cases (c == del)) [
  | inl hit ↦
      at 0 (omega arith) (rw hit (ap some (omega arith)))
        (λ seen. rw hit (rw (append-nil seen) refl))
  | inr miss ↦ elim (scan_lem del t (pos + 1)) [
    | nowhere no_delimiter rest ↦
        nowhere (rw miss no_delimiter)
          (λ seen. rw miss (rest (seen ++ c ∷ []) ∙ ap word (append_assoc seen (c ∷ []) t)))
    | at k inside found rest ↦
        at (suc k) (omega (arith, inside)) (rw miss (found ∙ ap some (omega arith))) (λ seen.
          rw miss (
            rest (seen ++ c ∷ [])
            ∙ ap (λ w. word w ++ words_from del [] (drop (suc k) t))
                (append_assoc seen (c ∷ []) (take k t))))
  ]
]

-- From a place inside the text, with enough rounds.
split_loop_lem :
    (fuel del : ℕ) (str : Text) (p : ℕ) (segs : List Text)
    → p < length str
    → length str ≤ p + fuel
    → split_loop fuel del str p segs ≡ some (segs ++ words del (drop p str))
unfolding split_loop find_char words_from
split_loop_lem zero del str p segs inside enough = absurd (omega (arith, inside, enough))
split_loop_lem (suc fuel) del str p segs inside enough = elim (scan_lem del (drop p str) p) [
  | nowhere no_delimiter rest ↦
      let over : ltb (length str + 1) (length str) ≡ false = ground arith in
      let last : take (length str - p) (drop p str) ≡ drop p str =
        take-all _ _ (omega (arith, length-drop p str)) in
      rw no_delimiter (
        rw over
          (rw last (ap some (push_segment_lem (drop p str) segs ∙ ap (◌++◌ segs) (sym (rest []))))))
  | at k near found rest ↦
      let len = length-drop p str in
      let seg = take k (drop p str) in
      let cut : take (p + k - p) (drop p str) ≡ seg = ap (λ n. take n (drop p str)) (omega arith) in
      let after : drop (suc k) (drop p str) ≡ drop (p + k + 1) str =
        drop-drop (suc k) p str ∙ ap (λ n. drop n str) (omega arith) in
      let whole : words del (drop p str) ≡ word seg ++ words del (drop (p + k + 1) str) =
        rest [] ∙ ap (λ t. word seg ++ words del t) after in
      rw found (
        rw cut (
          rw (push_segment_lem seg segs) (elim (Bool-cases (ltb (p + k + 1) (length str))) [
            | inl more ↦ rw more (
                split_loop_lem fuel del str (p + k + 1) (segs ++ word seg) (ltb→lt _ _ more)
                  (omega (arith, enough))
                ∙ ap some (
                    append_assoc segs (word seg) (words del (drop (p + k + 1) str))
                    ∙ ap (◌++◌ segs) (sym whole)))
            | inr done ↦
                let none_left : words del (drop (p + k + 1) str) ≡ [] =
                  ap (words del) (drop-all _ str (ground (arith, done))) in
                rw done (
                  ap some (
                    ap (◌++◌ segs)
                      (sym (whole ∙ ap (◌++◌ (word seg)) none_left ∙ append-nil (word seg)))))
          ])))
]

-- SplitString adds to the segments the words of the text: its maximal runs without the delimiter, in
-- order; its loop ends within as many rounds as the text has characters.
pub split_string_lem :
    (str : Text) (del : ℕ) (segs : List Text)
    → split_string str del segs ≡ some (segs ++ words del str)
unfolding split_string words_from
split_string_lem [] del segs = ap some (sym (append-nil segs))
split_string_lem (c ∷ str) del segs =
    split_loop_lem (length (c ∷ str)) del (c ∷ str) 0 segs (omega arith) (omega arith)

-- Words joined by a delimiter.
abbrev pub join : ℕ → List Text → Text
join del [] = []
join del (w ∷ []) = w
join del (w ∷ v ∷ ws) = w ++ del ∷ join del (v ∷ ws)

-- A word of file names: something, without the delimiter.
abbrev pub IsWord : ℕ → Text → Type 0
IsWord del w = (0 < length w) × (elem del w ≡ false)

words_from-append :
    (del : ℕ) (seen w rest : Text)
    → elem del w ≡ false
    → words_from del seen (w ++ rest) ≡ words_from del (seen ++ w) rest
unfolding words_from
words_from-append del seen [] rest free = ap (λ s. words_from del s rest) (sym (append-nil seen))
words_from-append del seen (c ∷ w) rest free = elim (Bool-cases (c == del)) [
  | inl hit ↦ absurd (ground (arith, hit, free))
  | inr miss ↦ rw miss (
      words_from-append del (seen ++ c ∷ []) w rest (ground (arith, miss, free))
      ∙ ap (λ s. words_from del s rest) (append_assoc seen (c ∷ []) w))
]

word-IsWord : (del : ℕ) (w : Text) → IsWord del w → word w ≡ w ∷ []
word-IsWord del [] h = absurd (omega (arith, h.0))
word-IsWord del (c ∷ w) h = refl

words_from-split :
    (del : ℕ) (seen a b : Text)
    → words_from del seen (a ++ del ∷ b) ≡ words_from del seen a ++ words del b
unfolding words_from
words_from-split del seen [] b = rw (==_refl del) refl
words_from-split del seen (c ∷ a) b = elim (Bool-cases (c == del)) [
  | inl hit ↦ rw hit (
      ap (◌++◌ (word seen)) (words_from-split del [] a b)
      ∙ sym (append_assoc (word seen) (words del a) (words del b)))
  | inr miss ↦ rw miss (words_from-split del (seen ++ c ∷ []) a b)
]

-- The words before a delimiter, and those after it.
pub words-split : (del : ℕ) (a b : Text) → words del (a ++ del ∷ b) ≡ words del a ++ words del b
words-split del a b = words_from-split del [] a b

pub words-IsWord : (del : ℕ) (w : Text) → IsWord del w → words del w ≡ w ∷ []
unfolding words_from
words-IsWord del w h =
    ap (words del) (sym (append-nil w)) ∙ words_from-append del [] w [] h.1 ∙ word-IsWord del w h

pub words-join : (del : ℕ) (ws : List Text) → All (IsWord del) ws → words del (join del ws) ≡ ws
unfolding words_from
words-join del [] h = refl
words-join del (w ∷ []) h = words-IsWord del w h.0
words-join del (w ∷ v ∷ ws) h =
    words-split del w (join del (v ∷ ws))
    ∙ (λ i. words-IsWord del w h.0 i ++ words-join del (v ∷ ws) h.1 i)
