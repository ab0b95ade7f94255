-- ===== src/Worker/Errors.antt =====
-- backend/worker/tasks.py: `_short_error`, over code points, and the texts that go into messages.
use workato_take_home.Prelude.{
  ℕ, zero, suc, ◌+◌, ◌-◌, ◌/◌, ◌%◌, Bool, true, false, ◌&&◌, ◌||◌, List, [], ◌∷◌, ◌++◌, length,
  Text, text, ltb, leb, eqb, if◌then◌else◌,
}

-- `str.isspace` of one character
unfoldable pub is_space : ℕ → Bool
is_space c =
    (leb 9 c && leb c 13)
    || (leb 28 c && leb c 32)
    || eqb c 0x85
    || eqb c 0xa0
    || eqb c 0x1680
    || (leb 0x2000 c && leb c 0x200a)
    || eqb c 0x2028
    || eqb c 0x2029
    || eqb c 0x202f
    || eqb c 0x205f
    || eqb c 0x3000

starts_word : Text → Bool
starts_word [] = false
starts_word (c ∷ cs) = if is_space c then false else true

-- The character `c` before the words `ws` of what follows it.
attach : ℕ → Bool → List Text → List Text
attach c true (w ∷ ws) = (c ∷ w) ∷ ws
attach c _ ws = (c ∷ []) ∷ ws

-- `message.split()`
pub split : Text → List Text
unfolding is_space starts_word attach
split [] = []
split (c ∷ cs) = let rest = split cs in if is_space c then rest else attach c (starts_word cs) rest

-- `" ".join(words)`
pub join : List Text → Text
join [] = []
join (w ∷ []) = w
join (w ∷ v ∷ ws) = w ++ (b' ' ∷ join (v ∷ ws))

-- `cleaned[:n]`
unfoldable pub take : ℕ → Text → Text
take zero cs = []
take (suc n) [] = []
take (suc n) (c ∷ cs) = c ∷ take n cs

abbrev pub max_last_error_length : ℕ
max_last_error_length = 300

unfoldable pub short_error : Text → Text
unfolding split join take
short_error message =
    let cleaned = join (split message) in
    if leb (length cleaned) max_last_error_length
    then cleaned
    else take (max_last_error_length - 3) cleaned ++ text "..."

-- `str(n)`; fuel `suc n` is enough, since each round divides by ten.
unfoldable pub decimal_rounds : ℕ → ℕ → Text
decimal_rounds zero n = []
decimal_rounds (suc fuel) n =
    let rest = decimal_rounds fuel (n / 10) ++ (48 + n % 10) ∷ [] in
    if ltb n 10 then (48 + n) ∷ [] else rest

unfoldable pub decimal : ℕ → Text
unfolding decimal_rounds
decimal n = decimal_rounds (suc n) n
