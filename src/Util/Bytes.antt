-- ===== src/Util/Bytes.antt =====
-- Numbers and objects as bytes: what a number is in memory, and src/util/base/thrift_util.h, whose
-- serialisation is Thrift's.
use recomm_engine.Prelude.{
  ℕ, zero, suc, ◌+◌, ◌*◌, ◌/◌, ◌%◌, ◌^◌, ◌<◌, ◌≡◌, refl, sym, Bool, List, [], ◌∷◌, length, arith,
}
use recomm_engine.Prelude.Texts.{Text}

-- ThriftToString and StringToThrift, which gives what the object holds afterwards, and whether it worked.
pub record Thrift (T : Type 0) : Type 0 where
  pub to_string : T → Text
  pub from_string : Text → T → T × Bool

-- The bytes of a number in memory, the lowest first.
unfoldable pub bytes : ℕ → ℕ → List ℕ
bytes zero n = []
bytes (suc c) n = n % 256 ∷ bytes c (n / 256)

abbrev pub value : List ℕ → ℕ
value [] = 0
value (b ∷ bs) = b + 256 * value bs

-- The number has no more than `c` bytes.
abbrev Fits : ℕ → ℕ → Type 0
Fits zero n = n ≡ 0
Fits (suc c) n = Fits c (n / 256)

pub value-bytes : (c n : ℕ) → Fits c n → value (bytes c n) ≡ n
unfolding bytes
value-bytes zero n f = sym f
value-bytes (suc c) n f = omega (arith, value-bytes c (n / 256) f)

pub Fits-int64 : (n : ℕ) → n < 2 ^ 64 → Fits 8 n
Fits-int64 n h = omega arith

pub length-bytes : (c n : ℕ) → length (bytes c n) ≡ c
unfolding bytes
length-bytes zero n = refl
length-bytes (suc c) n = omega (arith, length-bytes c (n / 256))
