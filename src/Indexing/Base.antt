-- ===== src/Indexing/Base.antt =====
-- The data of src/indexing/base.h and posting.h, and of idl/recomm_engine.thrift as far as the index
-- reads it. A 64-bit identifier is the number that stands for it in the order of a `std::map`
-- (its value plus 2^63), so keys compare as the program compares them. Text is its bytes.
use recomm_engine.Prelude.{
  ℕ, zero, suc, ◌+◌, ◌-◌, ◌*◌, ◌/◌, ◌%◌, ◌^◌, ltb, ◌==◌, if◌then◌else◌, ◌||◌, ◌&&◌,
}
use recomm_engine.Prelude.Texts.{Text}
use recomm_engine.Prelude.Maps.{Map}
use recomm_engine.Prelude.Int.{ℤ, pos, negsuc}

abbrev pub illegal_local_doc_id : ℕ
illegal_local_doc_id = 0

-- A `float` that was made from a 32-bit integer is an integer: `weight` is its value.
pub record Posting : Type 0 where
  pub local_docid : ℕ
  pub weight : ℤ
  pub timestamp : ℤ

-- `new Posting()` is zero throughout.
abbrev pub zero_posting : Posting
zero_posting = record { local_docid = 0; weight = pos 0; timestamp = pos 0 }

-- The fields that no code of the program reads are `rest`.
pub record StoryProfile : Type 0 where
  pub story_id : Text
  pub signature : ℕ
  pub keywords : Map ℤ
  pub rest : Text

pub record StoryAddingRequest : Type 0 where
  pub story : StoryProfile

-- A magnitude to 24 significant bits, a tie going to the even one: `k` bits are cut off.
abbrev round_bits : ℕ → ℕ → ℕ
round_bits zero n = n
round_bits (suc k) n =
    let q = n / 2 ^ suc k in
    let r = n % 2 ^ suc k in
    let up : ℕ = if ltb (2 ^ k) r || (r == 2 ^ k) && (q % 2 == 1) then q + 1 else q in
    up * 2 ^ suc k

-- How many bits a magnitude below 2^(24 + fuel) has beyond 24.
spare_bits : ℕ → ℕ → ℕ
spare_bits zero n = 0
spare_bits (suc fuel) n = if ltb n (2 ^ 24) then 0 else suc (spare_bits fuel (n / 2))

unfoldable pub round_float : ℕ → ℕ
unfolding spare_bits
round_float n = round_bits (spare_bits 8 n) n

-- The conversion of an `int32_t` to `float`, to nearest and to even.
unfoldable pub to_float : ℤ → ℤ
to_float (pos n) = pos (round_float n)
to_float (negsuc n) = negsuc (round_float (n + 1) - 1)
