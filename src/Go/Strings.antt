-- ===== src/Go/Strings.antt =====
-- Of the package strings: Split at a character, TrimSpace (for white space below U+0100), TrimPrefix,
-- and net.JoinHostPort.
use Prim.Native.Char.{Char, code}
use meme_launchpad_backend.Common.{
  ℕ, ◌≡◌, refl, ==_refl, String, Bool, false, Option, none, some, ◌&&◌, ◌||◌, List, [], ◌∷◌, leb,
  ◌==◌, string_eq, nat_eq, if◌then◌else◌,
}

infixr 60 ◌<>◌
-- `+` of strings, by clauses
abbrev pub ◌<>◌ : String → String → String
String.[] <> t = t
(String.◌∷◌ c s) <> t = String.◌∷◌ c (s <> t)

abbrev cons_head : Char → List String → List String
cons_head c [] = (String.◌∷◌ c "") ∷ []
cons_head c (s ∷ rest) = (String.◌∷◌ c s) ∷ rest

unfoldable pub split : ℕ → String → List String
split sep String.[] = "" ∷ []
split sep (String.◌∷◌ c s) =
    let rest = split sep s in if code c == sep then "" ∷ rest else cons_head c rest

-- the two parts of strings.SplitN(s, sep, 2), if it has two
unfoldable pub split_first : ℕ → String → Option (String × String)
split_first sep String.[] = none
split_first sep (String.◌∷◌ c s) =
    let rest = split_first sep s in
    if code c == sep
    then some ("", s)
    else elim rest [ none ↦ none | some (a, b) ↦ some (String.◌∷◌ c a, b) ]

abbrev is_space : ℕ → Bool
is_space c = leb 9 c && leb c 13 || (c == 32 || (c == 133 || c == 160))

unfoldable pub trim_left : String → String
trim_left String.[] = ""
trim_left (String.◌∷◌ c s) =
    let rest = trim_left s in if is_space (code c) then rest else String.◌∷◌ c s

unfoldable pub trim_right : String → String
trim_right String.[] = ""
trim_right (String.◌∷◌ c s) =
    let rest = trim_right s in if rest == "" && is_space (code c) then "" else String.◌∷◌ c rest

unfoldable pub trim_space : String → String
unfolding trim_left trim_right
trim_space s = trim_left (trim_right s)

-- strings.TrimPrefix(s, "0x")
unfoldable pub trim_0x : String → String
trim_0x (String.◌∷◌ a (String.◌∷◌ b s)) =
    if code a == 48 && code b == 120 then s else String.◌∷◌ a (String.◌∷◌ b s)
trim_0x s = s

unfoldable pub has_suffix : String → String → Bool
has_suffix String.[] suffix = "" == suffix
has_suffix (String.◌∷◌ c s) suffix =
    let later = has_suffix s suffix in (String.◌∷◌ c s) == suffix || later

unfoldable pub has_colon : String → Bool
has_colon String.[] = false
has_colon (String.◌∷◌ c s) = code c == 58 || has_colon s

unfoldable pub join_host_port : String → String → String
unfolding has_colon
join_host_port host port =
    if has_colon host then "[" <> host <> "]:" <> port else host <> ":" <> port

two_names : split 44 "a, b" ≡ "a" ∷ " b" ∷ []
unfolding split
two_names = refl

trimmed : trim_space " b\t" ≡ "b"
unfolding trim_space trim_left trim_right
trimmed = refl

-- what follows a prefix of a text, if it has this prefix: strings.HasPrefix with TrimPrefix
unfoldable pub cut_prefix : String → String → Option String
cut_prefix String.[] s = some s
cut_prefix (String.◌∷◌ c p) String.[] = none
cut_prefix (String.◌∷◌ c p) (String.◌∷◌ d s) =
    let rest = cut_prefix p s in if code c == code d then rest else none

pub cut_prefix-append : (s t : String) → cut_prefix s (s <> t) ≡ some t
unfolding cut_prefix
cut_prefix-append String.[] t = refl
cut_prefix-append (String.◌∷◌ c s) t = rw (==_refl (code c), cut_prefix) (cut_prefix-append s t)
