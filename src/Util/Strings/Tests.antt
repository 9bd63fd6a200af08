-- ===== src/Util/Strings/Tests.antt =====
-- Runs of src/util/string/str_util.cc.
use recomm_engine.Prelude.{◌≡◌, refl, some, [], ◌∷◌, ◌++◌}
use recomm_engine.Prelude.Texts.{ascii}
use recomm_engine.Util.Strings.{split_string, split_loop, find_char}
use recomm_engine.Util.Strings.Words.{words, split_string_lem}

split_twice : split_string (ascii "//a/b/") 47 [] ≡ some (ascii "a" ∷ ascii "b" ∷ [])
unfolding split_string split_loop find_char
split_twice = refl

split_string_lem_example :
    split_string (ascii "//a/bc/") 47 (ascii "x" ∷ [])
    ≡ some ((ascii "x" ∷ []) ++ words 47 (ascii "//a/bc/"))
split_string_lem_example = split_string_lem (ascii "//a/bc/") 47 (ascii "x" ∷ [])
