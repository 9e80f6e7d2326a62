-- ===== src/Config/Refs.antt =====
-- src/pynchy/config/refs.py: references to connections and chats.
use pynchy.Base.{
  List, Option, Text, [], codes, eqb, if◌then◌else◌, is_empty, is_prefix, list-eq, none, not, some,
  ℕ, ℕ-eq, ◌++◌, ◌==◌, ◌||◌, ◌∷◌,
}

pub record ConnectionRef : Type 0 where
  pub platform : Text
  pub name : Text

pub record ChatRef : Type 0 where
  pub platform : Text
  pub name : Text
  pub chat : Text

-- `s.split(".")` and `".".join(parts)`
abbrev pub cons_head : ℕ → List Text → List Text
cons_head c [] = (c ∷ []) ∷ []
cons_head c (s ∷ ss) = (c ∷ s) ∷ ss

unfoldable pub split_dots : Text → List Text
split_dots [] = [] ∷ []
split_dots (c ∷ t) = let rest = split_dots t in if eqb c b'.' then [] ∷ rest else cons_head c rest

abbrev pub join_dots : List Text → Text
join_dots [] = []
join_dots (s ∷ []) = s
join_dots (s ∷ t ∷ ss) = s ++ b'.' ∷ join_dots (t ∷ ss)

abbrev pub connection_of : List Text → Option ConnectionRef
connection_of (a ∷ platform ∷ name ∷ rest) =
    if not (a == codes "connection")
    then none
    else if is_empty platform || is_empty name
    then none
    else some (record { platform = platform; name = name })
connection_of _ = none

unfoldable pub parse_connection_ref : Option Text → Option ConnectionRef
unfolding split_dots
parse_connection_ref none = none
parse_connection_ref (some ref) = if is_empty ref then none else connection_of (split_dots ref)

abbrev pub chat_of : List Text → Option ChatRef
chat_of (a ∷ platform ∷ name ∷ b ∷ x ∷ rest) =
    let chat = join_dots (x ∷ rest) in
    if not (a == codes "connection") || not (b == codes "chat")
    then none
    else if is_empty platform || is_empty name || is_empty chat
    then none
    else some (record { platform = platform; name = name; chat = chat })
chat_of _ = none

unfoldable pub parse_chat_ref : Option Text → Option ChatRef
unfolding split_dots
parse_chat_ref none = none
parse_chat_ref (some ref) = if is_empty ref then none else chat_of (split_dots ref)

abbrev pub connection_ref_from_parts : Text → Text → Text
connection_ref_from_parts platform name = codes "connection" ++ b'.' ∷ (platform ++ b'.' ∷ name)

abbrev pub second_of : Text → List Text → Text
second_of name (a ∷ b ∷ c ∷ rest) = b
second_of name _ = name

unfoldable pub channel_platform_from_name : Option Text → Option Text
unfolding is_prefix split_dots
channel_platform_from_name none = none
channel_platform_from_name (some name) =
    if is_empty name
    then none
    else if is_prefix (codes "connection.") name
    then some (second_of name (split_dots name))
    else some name
