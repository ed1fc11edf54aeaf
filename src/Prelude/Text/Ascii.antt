-- ===== src/Prelude/Text/Ascii.antt =====
-- What package strings does with letters and white space, for strings of ASCII characters.
use Prim.Native.Nat.{ℕ, ◌-◌}
use mathlib.Core.Bool.{Bool, ◌&&◌, ◌||◌}
use mathlib.Core.List.{List, [], ◌∷◌, map}
use oniworks.Prelude.Tests.{if◌then◌else◌, leb, nat_beq, ◌==◌}
use oniworks.Prelude.Text.{Text, text_eq}

-- unicode.IsSpace
abbrev pub is_space : ℕ → Bool
is_space c = nat_beq c 32 || (leb 9 c && leb c 13)

abbrev pub upper_byte : ℕ → ℕ
upper_byte c = if leb b'a' c && leb c b'z' then c - 32 else c

-- strings.ToUpper
abbrev pub to_upper : Text → Text
to_upper = map upper_byte

-- strings.EqualFold
abbrev pub equal_fold : Text → Text → Bool
equal_fold s t = to_upper s == to_upper t

push_byte : ℕ → List Text → List Text
push_byte c [] = (c ∷ []) ∷ []
push_byte c (w ∷ ws) = (c ∷ w) ∷ ws

-- The first word is the one that is still open at the left end, and may be empty.
words : Text → List Text
unfolding push_byte
words [] = [] ∷ []
words (c ∷ s) = let rest = words s in if is_space c then [] ∷ rest else push_byte c rest

drop_empty : List Text → List Text
drop_empty [] = []
drop_empty ([] ∷ ws) = drop_empty ws
drop_empty ((c ∷ w) ∷ ws) = (c ∷ w) ∷ drop_empty ws

-- strings.Fields
unfoldable pub fields : Text → List Text
unfolding words drop_empty
fields s = drop_empty (words s)

trim_left : Text → Text
trim_left [] = []
trim_left (c ∷ s) = let rest = trim_left s in if is_space c then rest else c ∷ s

trim_right : Text → Text
trim_right [] = []
trim_right (c ∷ s) = let rest = trim_right s in if is_space c && (rest == []) then [] else c ∷ rest

-- strings.TrimSpace
unfoldable pub trim_space : Text → Text
unfolding trim_left trim_right
trim_space s = trim_right (trim_left s)
