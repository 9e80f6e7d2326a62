-- ===== src/Security/Classify.antt =====
-- src/pynchy/agent/agent_runner/src/agent_runner/security/classify.py: the classes of bash commands.
use pynchy.Base.{
  Bool, List, Option, Text, [], any, codes, contains, drop_space, eqb, false, if◌then◌else◌,
  is_empty, is_infix, is_space, leb, length, list-eq, map, none, not, some, strip, suc, true, zero,
  ℕ, ℕ-eq, ◌&&◌, ◌++◌, ◌+◌, ◌||◌, ◌∷◌,
}

-- What the patterns and `str.lower` ask of Unicode: the characters of `\w`, and lower case (a
-- character may become several). `ascii` answers for ASCII.
pub record Unicode : Type 0 where
  pub is_word : ℕ → Bool
  pub lower : ℕ → Text

abbrev pub ascii : Unicode
ascii = record {
  is_word =
      λ c. (leb 48 c && leb c 57) || (leb 65 c && leb c 90) || (leb 97 c && leb c 122) || eqb c 95;
  lower = λ c. (if leb 65 c && leb c 90 then c + 32 else c) ∷ [];
}

abbrev pub lowercase : Unicode → Text → Text
lowercase u [] = []
lowercase u (c ∷ t) = u.lower c ++ lowercase u t

pub data CommandClass : Type 0 where
  safe network unknown : CommandClass

abbrev pub provably_local : List Text
provably_local = map codes (
    "awk" ∷ "base64" ∷ "basename" ∷ "bc" ∷ "cal" ∷ "cat" ∷ "column" ∷ "comm" ∷ "cut" ∷ "date" ∷ "df"
    ∷ "diff" ∷ "dirname" ∷ "du" ∷ "echo" ∷ "expand" ∷ "expr" ∷ "fd" ∷ "file" ∷ "find" ∷ "fmt"
    ∷ "fold" ∷ "free" ∷ "grep" ∷ "head" ∷ "hexdump" ∷ "id" ∷ "iconv" ∷ "jq" ∷ "less" ∷ "locale"
    ∷ "ls" ∷ "lscpu" ∷ "md5sum" ∷ "mktemp" ∷ "nl" ∷ "nproc" ∷ "od" ∷ "paste" ∷ "pwd" ∷ "readelf"
    ∷ "realpath" ∷ "rev" ∷ "rg" ∷ "sed" ∷ "seq" ∷ "sha256sum" ∷ "sort" ∷ "stat" ∷ "strings" ∷ "tac"
    ∷ "tail" ∷ "tr" ∷ "tree" ∷ "type" ∷ "uname" ∷ "unexpand" ∷ "uniq" ∷ "uptime" ∷ "wc" ∷ "which"
    ∷ "whoami" ∷ "xargs" ∷ "xxd" ∷ [])

abbrev pub network_single : List Text
network_single = map codes (
    "curl" ∷ "wget" ∷ "nc" ∷ "netcat" ∷ "ncat" ∷ "telnet" ∷ "ssh" ∷ "scp" ∷ "sftp" ∷ "rsync"
    ∷ "nslookup" ∷ "dig" ∷ "host" ∷ "ping" ∷ "traceroute" ∷ "python" ∷ "python3" ∷ "node" ∷ "ruby"
    ∷ "perl" ∷ "php" ∷ "eval" ∷ [])

abbrev pub network_multi : List Text
network_multi = map codes (
    "apt-get install" ∷ "apt install" ∷ "pip install" ∷ "npm install" ∷ "yarn add" ∷ "cargo install"
    ∷ "bash -c" ∷ "sh -c" ∷ [])

-- `token in PROVABLY_LOCAL`, `token in _NETWORK_SINGLE`, and whether a pattern of `_NETWORK_MULTI` is
-- in a text. The host's handler has the same two lists and tests.
unfoldable pub is_local : Text → Bool
is_local t = contains t provably_local

unfoldable pub is_network : Text → Bool
is_network t = contains t network_single

unfoldable pub has_network_pattern : Text → Bool
unfolding is_infix
has_network_pattern t = any (λ p. is_infix p t) network_multi

-- `_SHELL_SPLIT.split`: the text is cut at `||`, `&&`, `|`, `;` and `$(`, the first that fits. The
-- white space that the pattern takes on both sides of an operator is left to `strip`, which every
-- segment goes through next.
abbrev cons_head : ℕ → List Text → List Text
cons_head c [] = (c ∷ []) ∷ []
cons_head c (s ∷ ss) = (c ∷ s) ∷ ss

unfoldable pub shell_split : Text → List Text
shell_split [] = [] ∷ []
shell_split (c ∷ []) = if eqb c b'|' || eqb c b';' then [] ∷ [] ∷ [] else (c ∷ []) ∷ []
shell_split (c ∷ d ∷ t) =
    let after_one = shell_split (d ∷ t) in
    let after_two = shell_split t in
    if (eqb c b'|' && eqb d b'|') || (eqb c b'&' && eqb d b'&') || (eqb c b'$' && eqb d b'(')
    then [] ∷ after_two
    else if eqb c b'|' || eqb c b';'
    then [] ∷ after_one
    else cons_head c after_one

-- The text from the first white space on, `s.split()[0]` being the text before it.
unfoldable pub first_word : Text → Text
unfolding is_space
first_word [] = []
first_word (c ∷ t) = if is_space c then [] else c ∷ first_word t

-- `_ENV_PREFIX.sub("", seg)`: as long as the text starts, after white space, with a word, `=`, a
-- value with no white space and then white space, that is taken off. `in_name` is whether a
-- character of the name was read.
abbrev drop_value : Text → Option Text
drop_value [] = none
drop_value (c ∷ t) = if is_space c then some (drop_space t) else drop_value t

drop_name : Unicode → Bool → Text → Option Text
unfolding drop_space
drop_name u in_name [] = none
drop_name u in_name (c ∷ t) =
    if eqb c b'=' && in_name then drop_value t else if u.is_word c then drop_name u true t else none

-- Each round takes a character off at least, so the length of the text bounds the rounds.
unfoldable pub drop_assignments : Unicode → ℕ → Text → Text
unfolding drop_name
drop_assignments u zero t = t
drop_assignments u (suc fuel) t = elim (drop_name u false (drop_space t)) [
  | none ↦ t
  | some rest ↦ drop_assignments u fuel rest
]

unfoldable pub env_prefix_sub : Unicode → Text → Text
unfolding drop_assignments
env_prefix_sub u t = drop_assignments u (length t) t

-- One round of the loop of `_extract_tokens`. A stripped text that is not empty has a first word.
unfoldable pub segment_token : Unicode → Text → List Text
unfolding strip env_prefix_sub first_word
segment_token u seg =
    let s = strip (env_prefix_sub u (strip seg)) in
    if is_empty (strip seg) || is_empty s then [] else first_word s ∷ []

abbrev segment_tokens : Unicode → List Text → List Text
segment_tokens u [] = []
segment_tokens u (s ∷ ss) = segment_token u s ++ segment_tokens u ss

unfoldable pub extract_tokens : Unicode → Text → List Text
unfolding shell_split segment_token
extract_tokens u command = segment_tokens u (shell_split command)

-- The loop over the tokens, with `has_unknown`.
unfoldable pub classify_tokens : Bool → List Text → CommandClass
classify_tokens has_unknown [] = if has_unknown then unknown else safe
classify_tokens has_unknown (t ∷ ts) =
    let rest = classify_tokens (has_unknown || not (is_local t)) ts in
    if is_network t then network else rest

abbrev pub classify_nonempty : List Text → CommandClass
classify_nonempty [] = unknown
classify_nonempty (t ∷ ts) = classify_tokens false (t ∷ ts)

unfoldable pub classify_command : Unicode → Text → CommandClass
classify_command u text =
    let command = strip text in
    if is_empty command
    then unknown
    else if has_network_pattern (lowercase u command)
    then network
    else classify_nonempty (extract_tokens u command)
