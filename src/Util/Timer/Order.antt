-- ===== src/Util/Timer/Order.antt =====
-- The order of the texts that LocalTimeStrHMS of src/util/base/timer.cc gives, by `operator<` of
-- `std::string`, is that of the times.
use recomm_engine.Prelude.{
  ℕ, ◌+◌, ◌/◌, ◌%◌, ◌<◌, ◌≤◌, ◌≡◌, refl, ap, ◌∙◌, Bool, true, false, ◌&&◌, ◌||◌, List, [], ◌∷◌,
  ◌==◌, ltb, All, arith, Bool-cases, inl, inr,
}
use recomm_engine.Prelude.Texts.{Text}
use recomm_engine.Util.Strings.{c_string, string_append_f}
use recomm_engine.Util.Timer.{Tm, padded, two, local_time_str_hms}

-- `operator<` of `std::string`.
unfoldable pub text_ltb : Text → Text → Bool
text_ltb s [] = false
text_ltb [] (y ∷ ys) = true
text_ltb (x ∷ xs) (y ∷ ys) = ltb x y || (x == y) && text_ltb xs ys

-- Earlier by year, month, day, hour, minute and second.
abbrev pub earlier : Tm → Tm → Bool
earlier s t =
    ltb s.tm_year t.tm_year
    || (s.tm_year == t.tm_year)
      && (ltb s.tm_mon t.tm_mon
          || (s.tm_mon == t.tm_mon)
            && (ltb s.tm_mday t.tm_mday
                || (s.tm_mday == t.tm_mday)
                  && (ltb s.tm_hour t.tm_hour
                      || (s.tm_hour == t.tm_hour)
                        && (ltb s.tm_min t.tm_min
                            || (s.tm_min == t.tm_min) && ltb s.tm_sec t.tm_sec))))

-- A time before the year 10000, with the ranges of `struct tm`.
pub record IsTime (t : Tm) : Type 0 where
  pub year : t.tm_year < 8100
  pub mon : t.tm_mon < 12
  pub mday : t.tm_mday < 32
  pub hour : t.tm_hour < 24
  pub min : t.tm_min < 60
  pub sec : t.tm_sec < 61

-- Two digits.
abbrev pub pair : ℕ → Text → Text
pair n rest = (48 + n / 10) ∷ (48 + n % 10) ∷ rest

two_lem : (n : ℕ) → n < 100 → two n ≡ pair n []
two_lem n h = elim (Bool-cases (ltb n 10)) [
  | inl one ↦ rw one (λ i. (48 + small one i) ∷ (48 + same one i) ∷ [])
  | inr more ↦ let tens : ltb (n / 10) 10 ≡ true = ground (arith, h) in rw more (rw tens refl)
]
  where
    small : ltb n 10 ≡ true → 0 ≡ n / 10
    small one = ground (arith, one)

    same : ltb n 10 ≡ true → n ≡ n % 10
    same one = ground (arith, one)

year_lem : (n : ℕ) → 1000 ≤ n → n < 10000 → padded 32 4 n ≡ pair (n / 100) (pair (n % 100) [])
year_lem n lo hi =
    let d1 : ltb n 10 ≡ false = ground (arith, lo) in
    let d2 : ltb (n / 10) 10 ≡ false = ground (arith, lo) in
    let d3 : ltb (n / 10 / 10) 10 ≡ false = ground (arith, lo) in
    let d4 : ltb (n / 10 / 10 / 10) 10 ≡ true = ground (arith, hi) in
    let e1 : n / 10 / 10 / 10 ≡ n / 100 / 10 = omega arith in
    let e2 : n / 10 / 10 % 10 ≡ n / 100 % 10 = omega arith in
    let e3 : n / 10 % 10 ≡ n % 100 / 10 = omega arith in
    let e4 : n % 10 ≡ n % 100 % 10 = omega arith in
    rw d1 (rw d2 (rw d3 (rw d4 (λ i. (48 + e1 i) ∷ (48 + e2 i) ∷ (48 + e3 i) ∷ (48 + e4 i) ∷ []))))

pub c_string_lem : (t : Text) → All (λ c. 0 < c) t → c_string t ≡ t
c_string_lem [] h = refl
c_string_lem (c ∷ t) h =
    let there : (c == 0) ≡ false = ground (arith, h.0) in rw there (ap (◌∷◌ c) (c_string_lem t h.1))

abbrev pub pairs : List ℕ → Text
pairs [] = []
pairs (n ∷ ns) = pair n (pairs ns)

pub pairs-positive : (ns : List ℕ) → All (λ c. 0 < c) (pairs ns)
pairs-positive [] = tt
pairs-positive (n ∷ ns) = (omega arith, (omega arith, pairs-positive ns))

abbrev pub parts : Tm → List ℕ
parts t =
    ((t.tm_year + 1900) / 100)
    ∷ ((t.tm_year + 1900) % 100)
    ∷ (t.tm_mon + 1)
    ∷ t.tm_mday
    ∷ t.tm_hour
    ∷ t.tm_min
    ∷ t.tm_sec
    ∷ []

pub hms-pairs :
    (localtime_r : ℕ → Tm) (tt : ℕ)
    → IsTime (localtime_r tt)
    → local_time_str_hms localtime_r tt ≡ pairs (parts (localtime_r tt))
unfolding local_time_str_hms string_append_f
hms-pairs localtime_r time h =
    let t = localtime_r time in
    rw (year_lem (t.tm_year + 1900) (omega arith) (omega (arith, h.year))) (
      rw (two_lem (t.tm_mon + 1) (omega (arith, h.mon))) (
        rw (two_lem t.tm_mday (omega (arith, h.mday))) (
          rw (two_lem t.tm_hour (omega (arith, h.hour))) (
            rw (two_lem t.tm_min (omega (arith, h.min))) (
              rw (two_lem t.tm_sec (omega (arith, h.sec)))
                (c_string_lem (pairs (parts t)) (pairs-positive (parts t))))))))

text_ltb-pair :
    (a b : ℕ) (s t : Text) → text_ltb (pair a s) (pair b t) ≡ (ltb a b || (a == b) && text_ltb s t)
unfolding text_ltb
text_ltb-pair a b s t = ground arith

year_ltb :
    (a b : ℕ) (r : Bool)
    → (ltb ((a + 1900) / 100) ((b + 1900) / 100)
        || ((a + 1900) / 100 == (b + 1900) / 100)
          && (ltb ((a + 1900) % 100) ((b + 1900) % 100)
              || ((a + 1900) % 100 == (b + 1900) % 100) && r))
      ≡ (ltb a b || (a == b) && r)
year_ltb a b r = ground arith

text_ltb-pairs : (ms ns : List ℕ) → text_ltb (pairs ms) (pairs ns) ≡ text_ltb ms ns
unfolding text_ltb
text_ltb-pairs [] [] = refl
text_ltb-pairs (m ∷ ms) [] = refl
text_ltb-pairs [] (n ∷ ns) = refl
text_ltb-pairs (m ∷ ms) (n ∷ ns) =
    text_ltb-pair m n (pairs ms) (pairs ns)
    ∙ ap (λ b. ltb m n || (m == n) && b) (text_ltb-pairs ms ns)

ltb_suc : (a b : ℕ) → ltb (a + 1) (b + 1) ≡ ltb a b
ltb_suc a b = ground arith

==_suc : (a b : ℕ) → (a + 1 == b + 1) ≡ (a == b)
==_suc a b = ground arith

last_part : (a b : Bool) → (a || b && false) ≡ a
last_part a b = ground arith

text_ltb-parts : (s t : Tm) → text_ltb (parts s) (parts t) ≡ earlier s t
unfolding text_ltb
text_ltb-parts s t =
    year_ltb s.tm_year t.tm_year _
    ∙ rw (ltb_suc s.tm_mon t.tm_mon) (
        rw (==_suc s.tm_mon t.tm_mon)
          (rw (last_part (ltb s.tm_sec t.tm_sec) (s.tm_sec == t.tm_sec)) refl))

-- The texts compare as the times do, before the year 10000.
pub local_time_str_hms_lem :
    (localtime_r : ℕ → Tm) (s t : ℕ)
    → IsTime (localtime_r s)
    → IsTime (localtime_r t)
    → text_ltb (local_time_str_hms localtime_r s) (local_time_str_hms localtime_r t)
      ≡ earlier (localtime_r s) (localtime_r t)
local_time_str_hms_lem localtime_r s t hs ht =
    (λ i. text_ltb (hms-pairs localtime_r s hs i) (hms-pairs localtime_r t ht i))
    ∙ text_ltb-pairs (parts (localtime_r s)) (parts (localtime_r t))
    ∙ text_ltb-parts (localtime_r s) (localtime_r t)
