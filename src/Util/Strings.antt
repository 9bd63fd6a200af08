-- ===== src/Util/Strings.antt =====
-- src/util/string/str_util.cc: SplitString and StringAppendF.
pub mod Words
mod Tests
use recomm_engine.Prelude.{
  ℕ, zero, suc, ◌+◌, ◌-◌, ◌/◌, ◌%◌, Bool, true, false, Option, none, some, List, [], ◌∷◌, ◌++◌,
  ◌==◌, ltb, length, take, drop, if◌then◌else◌,
}
use recomm_engine.Prelude.Texts.{Text}

-- `str.find(del, last_pos)`; `none` is `npos`.
abbrev scan : ℕ → Text → ℕ → Option ℕ
scan del [] pos = none
scan del (c ∷ cs) pos = if c == del then some pos else scan del cs (pos + 1)

unfoldable pub find_char : ℕ → Text → ℕ → Option ℕ
find_char del str last_pos = scan del (drop last_pos str) last_pos

-- `std::min(cur_pos, str.size())`; `npos` is the greatest number.
abbrev end_of : Text → Option ℕ → ℕ
end_of str none = length str
end_of str (some cur_pos) = cur_pos

abbrev push_segment : Text → List Text → List Text
push_segment [] segs = segs
push_segment (c ∷ seg) segs = segs ++ (c ∷ seg) ∷ []

-- The loop from `last_pos`; `none` is a loop that has not ended in so many rounds.
unfoldable pub split_loop : ℕ → ℕ → Text → ℕ → List Text → Option (List Text)
split_loop zero del str last_pos segs = none
split_loop (suc fuel) del str last_pos segs =
    let end_pos = end_of str (find_char del str last_pos) in
    let segs = push_segment (take (end_pos - last_pos) (drop last_pos str)) segs in
    let rest = split_loop fuel del str (end_pos + 1) segs in
    if ltb (end_pos + 1) (length str) then rest else some segs

-- As many rounds as the text has characters.
unfoldable pub split_string : Text → ℕ → List Text → Option (List Text)
split_string [] del segs = some segs
split_string (c ∷ str) del segs = split_loop (length (c ∷ str)) del (c ∷ str) 0 segs

-- `STR_BUF_SIZE`.
abbrev pub str_buf_size : ℕ
str_buf_size = 1024

-- Decimal digits; ten are enough for 32 bits.
abbrev pub digits : ℕ → ℕ → Text
digits zero n = []
digits (suc fuel) n =
    let rest = digits fuel (n / 10) in
    if ltb n 10 then (48 + n) ∷ [] else rest ++ (48 + n % 10) ∷ []

-- What a C string holds of the characters: those before a zero.
abbrev pub c_string : Text → Text
c_string [] = []
c_string (c ∷ cs) = if c == 0 then [] else c ∷ c_string cs

-- `formatted` is what the format and its arguments give. `vsnprintf` cuts it to the buffer.
unfoldable pub string_append_f : Text → Text → Text × Bool
string_append_f formatted dst =
    (dst ++ c_string (take (str_buf_size - 1) formatted), ltb (length formatted) str_buf_size)
