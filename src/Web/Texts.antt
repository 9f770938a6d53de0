-- ===== src/Web/Texts.antt =====
-- The tests that apps/web/lib makes of texts by regular expressions.
use Prim.Native.Char.{code}
use Prim.Native.String.{[], ◌∷◌, ◌++◌ as text_append}
use Prim.Native.String.append
use slasettle_hub.Prelude.{
  ℕ, suc, ◌+◌, String, Bool, true, false, ◌&&◌, ◌||◌, ◌≡◌, refl, nat_eq, leb, arith, if◌then◌else◌,
  Bool-cases, inl, inr,
}

-- An ASCII capital as its small letter.
unfoldable pub lower_code : ℕ → ℕ
lower_code c = if leb 65 c && leb c 90 then c + 32 else c

-- Whether a text begins with a word of small letters, in any case.
unfoldable pub begins_with : String → String → Bool
unfolding lower_code
begins_with [] text = true
begins_with (d ∷ word) [] = false
begins_with (d ∷ word) (c ∷ text) = nat_eq (lower_code (code c)) (code d) && begins_with word text

-- `/word/i.test(text)`
unfoldable pub mentions : String → String → Bool
unfolding begins_with
mentions word [] = begins_with word []
mentions word (c ∷ text) = begins_with word (c ∷ text) || mentions word text

-- `/^[…]+$/`, with the test of one character.
unfoldable pub all_chars : (ℕ → Bool) → String → Bool
all_chars p [] = true
all_chars p (c ∷ text) = p (code c) && all_chars p text

unfoldable pub char_count : String → ℕ
char_count [] = 0
char_count (c ∷ text) = suc (char_count text)

unfoldable pub is_digit : ℕ → Bool
is_digit c = leb 48 c && leb c 57

unfoldable pub is_hex_digit : ℕ → Bool
unfolding is_digit lower_code
is_hex_digit c = is_digit c || leb 97 (lower_code c) && leb (lower_code c) 102

-- `/^[0-9a-fA-F]{64}$/`
unfoldable pub is_hash : String → Bool
unfolding all_chars char_count is_hex_digit
is_hash text = all_chars is_hex_digit text && nat_eq (char_count text) 64

begins_with-append :
    (word s t : String) → begins_with word s ≡ true → begins_with word (text_append s t) ≡ true
unfolding begins_with
begins_with-append [] s t h = refl
begins_with-append (d ∷ word) [] t h = cc
begins_with-append (d ∷ word) (c ∷ s) t h =
    rw (append.cons c s t) (ground (arith, begins_with-append word s t))

begins_with_end : (word t : String) → begins_with word [] ≡ true → begins_with word t ≡ true
unfolding begins_with
begins_with_end [] t h = refl
begins_with_end (d ∷ word) t h = cc

-- A text that goes on mentions what it mentioned.
pub mentions-append :
    (word s t : String) → mentions word s ≡ true → mentions word (text_append s t) ≡ true
unfolding mentions
mentions-append word [] [] h = h
mentions-append word [] (c ∷ t) h =
    rw (append.nil (c ∷ t)) (rw (begins_with_end word (c ∷ t) h) refl)
mentions-append word (c ∷ s) t h = elim (Bool-cases (begins_with word (c ∷ s))) [
  | inl now ↦
      let long = begins_with-append word (c ∷ s) t now in
      rw (append.cons c s t) (rw (rw (append.cons c s t) at long) refl)
  | inr later ↦ rw (append.cons c s t) (ground (arith, mentions-append word s t))
]
