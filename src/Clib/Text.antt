-- ===== src/Clib/Text.antt =====
-- Byte strings: comparison, search, substrings, and the tokens of strtok.
use Prim.Native.Char.{code}
use mathlib.Core.Option
use Prim.Native.String.{String}
use Prim.Native.Nat.{compare, Ordering}
use finger_move.Base.{
  Bool, List, Option, [], ap₂, drop, false, if◌then◌else◌, ite, none, refl, some, suc, take, true,
  zero, ℕ, ℕ_discrete, ◌+◌, ◌==◌, ◌||◌, ◌∷◌,
}

abbrev pub Bytes : Type 0
Bytes = List ℕ

-- The bytes of an ASCII literal.
abbrev pub codes : String → Bytes
codes String.[] = []
codes (String.◌∷◌ c s) = code c ∷ codes s

-- `strcmp(a, b)` by its sign, which is also the order of std::string.
unfoldable pub strcmp : Bytes → Bytes → Ordering
strcmp [] [] = Ordering.eq
strcmp [] (b ∷ bs) = Ordering.lt
strcmp (a ∷ as') [] = Ordering.gt
strcmp (a ∷ as') (b ∷ bs) = elim (compare a b) [
  | Ordering.lt ↦ Ordering.lt
  | Ordering.eq ↦ strcmp as' bs
  | Ordering.gt ↦ Ordering.gt
]

-- Decided byte by byte. Shut in proofs, where a split on it yields the equation or its negation.
unfoldable pub Bytes-discrete : Discrete Bytes
unfolding ℕ_discrete
Bytes-discrete [] [] = yes refl
Bytes-discrete [] (b ∷ bs) = no (λ e. cc)
Bytes-discrete (a ∷ as') [] = no (λ e. cc)
Bytes-discrete (a ∷ as') (b ∷ bs) = elim (ℕ_discrete a b) [
  | no differ ↦ no (λ e. differ (cc))
  | yes p ↦ elim (Bytes-discrete as' bs) [
    | yes q ↦ yes (ap₂ ◌∷◌ p q)
    | no differ ↦ no (λ e. differ (cc))
  ]
]

-- `!strcmp(a, b)`, and `==` of std::string.
abbrev pub same : Bytes → Bytes → Bool
same a b = ite (Bytes-discrete a b) true false

unfoldable pub elem : Bytes → List Bytes → Bool
elem x [] = false
elem x (y ∷ ys) = same x y || elem x ys

-- What a `char*` shows of a buffer: the bytes before the first NUL.
unfoldable pub c_str : Bytes → Bytes
c_str [] = []
c_str (c ∷ s) = if c == 0 then [] else c ∷ c_str s

-- `s[i]`, with the NUL behind the last byte.
abbrev pub char_at : Bytes → ℕ → ℕ
char_at [] i = 0
char_at (c ∷ s) zero = c
char_at (c ∷ s) (suc i) = char_at s i

-- The bytes before the first `c`, and those behind it.
unfoldable pub before : ℕ → Bytes → Bytes
before c [] = []
before c (x ∷ s) = if x == c then [] else x ∷ before c s

unfoldable pub after : ℕ → Bytes → Bytes
after c [] = []
after c (x ∷ s) = if x == c then s else after c s

unfoldable pub has_byte : ℕ → Bytes → Bool
has_byte c [] = false
has_byte c (x ∷ s) = x == c || has_byte c s

-- The position of the first `c`; `none` is std::string::npos.
unfoldable pub find : ℕ → Bytes → Option ℕ
find c [] = none
find c (x ∷ s) = if x == c then some 0 else Option.map suc (find c s)

-- `s.find(c, from)`
unfoldable pub find_from : ℕ → Bytes → ℕ → Option ℕ
find_from c s from = Option.map (λ i. from + i) (find c (drop from s))

-- `s.substr(pos, len)` at a position inside `s`.
abbrev pub substr : Bytes → ℕ → ℕ → Bytes
substr s start len = take len (drop start s)

unfoldable pub skip : ℕ → Bytes → Bytes
skip c [] = []
skip c (x ∷ s) = if x == c then skip c s else x ∷ s

-- One call of strtok with the one delimiter `c`: the token, and what the next call goes on with.
-- `none` is the null pointer.
unfoldable pub strtok : ℕ → Bytes → Option (Bytes × Bytes)
unfolding skip before after
strtok c s = elim (skip c s) [ [] ↦ none | x ∷ r ↦ some (before c (x ∷ r), after c (x ∷ r)) ]

-- What its buffer holds after the call: the string ends where the token does.
unfoldable pub strtok_left : ℕ → Bytes → Bytes
unfolding before
strtok_left c [] = []
strtok_left c (x ∷ s) = let rest = strtok_left c s in if x == c then c ∷ rest else x ∷ before c s

-- `line[strlen(line) - 1] = 0`; the caller sees to it that the line is not empty.
unfoldable pub drop_last : Bytes → Bytes
drop_last [] = []
drop_last (c ∷ []) = []
drop_last (c ∷ d ∷ s) = c ∷ drop_last (d ∷ s)
