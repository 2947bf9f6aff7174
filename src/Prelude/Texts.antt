-- ===== src/Prelude/Texts.antt =====
-- Python's `str` as a list of code points. Only ASCII letters have a case here: the other scripts
-- of this program (Arabic, digits, punctuation) have none.
use Prim.Native.Nat.{ℕ, ◌+◌, ◌-◌}
use Prim.Native.Char.{code}
use Prim.Native.String.{String}
use mathlib.Core.Path.{◌≡◌, refl}
use mathlib.Core.Logic.{◌↔◌}
use mathlib.Core.Bool.{Bool, true, false, ◌&&◌, ◌||◌}
use mathlib.Core.List.{List, [], ◌∷◌, ◌++◌, map}
use native.Mathlib.Omega.{arith}
use lead_engine.Prelude.Tests.{leb, ◌==◌, if◌then◌else◌}

abbrev pub Text : Type 0
Text = List ℕ

-- The code points of a literal.
abbrev pub text : String → Text
text String.[] = []
text (String.◌∷◌ c s) = code c ∷ text s

unfoldable pub text_eq : Text → Text → Bool
text_eq [] [] = true
text_eq [] (d ∷ t) = false
text_eq (c ∷ s) [] = false
text_eq (c ∷ s) (d ∷ t) = c == d && text_eq s t

pub text_eq_sound : (s t : Text) → text_eq s t ≡ true → s ≡ t
unfolding text_eq
text_eq_sound [] [] h = refl
text_eq_sound [] (d ∷ t) h = cc
text_eq_sound (c ∷ s) [] h = cc
text_eq_sound (c ∷ s) (d ∷ t) h = ground (arith, text_eq_sound s t)

pub text_eq_refl : (s : Text) → text_eq s s ≡ true
unfolding text_eq
text_eq_refl [] = refl
text_eq_refl (c ∷ s) = ground (arith, text_eq_refl s)

pub text_eq_iff : (s t : Text) → (text_eq s t ≡ true) ↔ (s ≡ t)
text_eq_iff s t = (text_eq_sound s t, λ e. rw e (text_eq_refl t))

-- `s in texts`, for a sequence of texts.
unfoldable pub contains : List Text → Text → Bool
contains [] s = false
contains (t ∷ ts) s = text_eq t s || contains ts s

unfoldable pub starts_with : Text → Text → Bool
starts_with s [] = true
starts_with [] (d ∷ t) = false
starts_with (c ∷ s) (d ∷ t) = c == d && starts_with s t

unfoldable pub ends_with : Text → Text → Bool
ends_with [] t = text_eq [] t
ends_with (c ∷ s) t = text_eq (c ∷ s) t || ends_with s t

pub starts_with-append : (s t : Text) → starts_with (s ++ t) s ≡ true
unfolding starts_with
starts_with-append [] t = refl
starts_with-append (c ∷ s) t = ground (arith, starts_with-append s t)

pub ends_with-append : (s t : Text) → ends_with (s ++ t) t ≡ true
unfolding ends_with
ends_with-append [] [] = unfold text_eq in refl
ends_with-append [] (d ∷ t) = ground (arith, text_eq_refl (d ∷ t))
ends_with-append (c ∷ s) t = ground (arith, ends_with-append s t)

abbrev lower_code : ℕ → ℕ
lower_code c = if leb b'A' c && leb c b'Z' then c + 32 else c

abbrev upper_code : ℕ → ℕ
upper_code c = if leb b'a' c && leb c b'z' then c - 32 else c

unfoldable pub lower : Text → Text
lower s = map lower_code s

unfoldable pub upper : Text → Text
upper s = map upper_code s

map_idem : (f : ℕ → ℕ) → ((c : ℕ) → f (f c) ≡ f c) → (s : Text) → map f (map f s) ≡ map f s
map_idem f h [] = refl
map_idem f h (c ∷ s) = cc (h c, map_idem f h s)

lower_code_idem : (c : ℕ) → lower_code (lower_code c) ≡ lower_code c
lower_code_idem c = ground arith

upper_code_idem : (c : ℕ) → upper_code (upper_code c) ≡ upper_code c
upper_code_idem c = ground arith

pub lower_idem : (s : Text) → lower (lower s) ≡ lower s
unfolding lower
lower_idem s = map_idem lower_code lower_code_idem s

pub upper_idem : (s : Text) → upper (upper s) ≡ upper s
unfolding upper
upper_idem s = map_idem upper_code upper_code_idem s

abbrev is_space : ℕ → Bool
is_space c = leb 9 c && leb c 13 || leb 28 c && leb c 32

unfoldable pub strip_left : Text → Text
strip_left [] = []
strip_left (c ∷ s) = let rest = strip_left s in if is_space c then rest else c ∷ s

-- A character put before a text that has lost its trailing white space.
abbrev pub keep_unless_space : ℕ → Text → Text
keep_unless_space c [] = if is_space c then [] else c ∷ []
keep_unless_space c (d ∷ t) = c ∷ d ∷ t

unfoldable pub strip_right : Text → Text
strip_right [] = []
strip_right (c ∷ s) = keep_unless_space c (strip_right s)

-- Python's `strip`, of ASCII white space.
unfoldable pub strip : Text → Text
strip s = strip_right (strip_left s)
