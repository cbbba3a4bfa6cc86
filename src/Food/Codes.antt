-- ===== src/Food/Codes.antt =====
-- app/modules/events/food_collection_service.py: the codes of food tokens. What `secrets.choice` draws
-- is an argument: the k-th code that is drawn.
use Prim.Native.Char.{Char, code}
use Prim.Native.Nat.{◌^◌, min, max}
use society_agent.Prelude.{
  ℕ, zero, suc, ◌-◌, ◌*◌, String, ◌≡◌, refl, Bool, true, false, ◌&&◌, ◌||◌, List, leb, length,
}
use society_agent.Text.{text_length, contains}
use society_agent.Db.Errors.{Result, ok, err, token_space_exhausted, token_attempts_exhausted}

-- `len(TOKEN_ALPHABET)`
abbrev pub alphabet_size : ℕ
alphabet_size = 31

-- `[A-Z2-9]`
abbrev pub is_token_letter : Char → Bool
is_token_letter c = (leb 65 (code c) && leb (code c) 90) || (leb 50 (code c) && leb (code c) 57)

unfoldable pub all_token_letters : String → Bool
all_token_letters String.[] = true
all_token_letters (String.◌∷◌ c s) = is_token_letter c && all_token_letters s

-- `TOKEN_RE.fullmatch`
unfoldable pub is_token_text : String → Bool
is_token_text s = all_token_letters s && leb 6 (text_length s) && leb (text_length s) 20

-- `while attempts < max_attempts`: a code that is not in use, and the number of draws made.
unfoldable pub draw_unused : ℕ → (ℕ → String) → List String → ℕ → Result (String × ℕ)
draw_unused zero draw existing k = err token_attempts_exhausted
draw_unused (suc n) draw existing k = elim (contains (draw k) existing) [
  | true ↦ draw_unused n draw existing (suc k)
  | false ↦ ok (draw k, suc k)
]

abbrev pub max_attempts : ℕ → ℕ → ℕ
max_attempts space used = min 10000 (max 64 ((space - used) * 2))

-- `_build_token_code`
unfoldable pub build_token_code : ℕ → (ℕ → String) → List String → ℕ → Result (String × ℕ)
build_token_code len draw existing k =
    let space = alphabet_size ^ len in
    elim (leb space (length existing)) [
      | true ↦ err token_space_exhausted
      | false ↦ draw_unused (max_attempts space (length existing)) draw existing k
    ]

is_token_text_test : is_token_text "ABCD2345" ≡ true
unfolding is_token_text all_token_letters text_length
is_token_text_test = refl
