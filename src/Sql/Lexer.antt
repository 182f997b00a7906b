-- ===== src/Sql/Lexer.antt =====
-- `Parser::Tokenize` of src/coordinator/parser.cpp. Characters are bytes, classified as in the C locale;
-- the place in the input is that of the bytes that are left.
use trans_db.Prelude.{
  ℕ, zero, suc, ◌+◌, ◌-◌, Bool, true, false, ◌&&◌, ◌||◌, Option, none, some, List, [], ◌∷◌, ◌++◌,
  map, length, leb, ◌==◌, if◌then◌else◌,
}
use trans_db.Bytes.{Bytes}
use trans_db.Sql.Token.{
  TokenType, Token, ident, number_int, number_float, string_lit, lparen, rparen, comma, semicolon,
  star, plus, minus, dot, eq, ne, lt, le, gt, ge, end_of_input, unknown, ◌=t=◌, classify_keyword,
}

abbrev pub between : ℕ → ℕ → ℕ → Bool
between lo hi c = leb lo c && leb c hi

abbrev pub is_upper : ℕ → Bool
is_upper c = between 65 90 c

abbrev pub is_lower : ℕ → Bool
is_lower c = between 97 122 c

abbrev pub is_digit : ℕ → Bool
is_digit c = between 48 57 c

abbrev pub is_space : ℕ → Bool
is_space c = (c == 32) || between 9 13 c

abbrev pub to_upper : ℕ → ℕ
to_upper c = if is_lower c then c - 32 else c

abbrev pub to_lower : ℕ → ℕ
to_lower c = if is_upper c then c + 32 else c

-- `IsIdentStart`
abbrev pub is_ident_start : ℕ → Bool
is_ident_start c = is_upper c || is_lower c || (c == 95)

-- `IsIdentCont`
abbrev pub is_ident_cont : ℕ → Bool
is_ident_cont c = is_upper c || is_lower c || is_digit c || (c == 95)

-- `SkipWsAndComments`; the flag says that a comment has begun. The line end that stops a comment is white
-- space.
unfoldable pub skip_ws_and_comments : Bool → Bytes → Bytes
skip_ws_and_comments comment [] = []
skip_ws_and_comments true (c ∷ cs) =
    let inside = skip_ws_and_comments true cs in
    let behind = skip_ws_and_comments false cs in if (c == 10) || (c == 13) then behind else inside
skip_ws_and_comments false (c ∷ []) = if is_space c then [] else c ∷ []
skip_ws_and_comments false (c ∷ d ∷ ds) =
    let later = skip_ws_and_comments false (d ∷ ds) in
    let comment = skip_ws_and_comments true ds in
    if is_space c then later else if (c == 45) && (d == 45) then comment else c ∷ d ∷ ds

-- The longest run of bytes that pass the test, and what is behind it.
unfoldable pub span : (ℕ → Bool) → Bytes → Bytes × Bytes
span p [] = ([], [])
span p (c ∷ cs) = let (run, rest) = span p cs in if p c then (c ∷ run, rest) else ([], c ∷ cs)

unfoldable pub starts_with : (ℕ → Bool) → Bytes → Bool
starts_with p [] = false
starts_with p (c ∷ cs) = p c

-- What one round of the loop does with the bytes from its token on: a token and the bytes behind it, or
-- the last token.
pub data Lexed : Type 0 where
  lexed : (type : TokenType) (value rest : Bytes) → Lexed
  stops : (value : Bytes) → Lexed

unfoldable pub lex_word : Bytes → Lexed
lex_word bytes =
    let (raw, rest) = span is_ident_cont bytes in
    let type = classify_keyword (map to_upper raw) in
    lexed type (if type =t= ident then map to_lower raw else raw) rest

unfoldable pub lex_number : Bytes → Lexed
lex_number bytes =
    let (whole, rest) = span is_digit bytes in
    elim rest [
      | [] ↦ lexed number_int whole []
      | c ∷ cs ↦
          let (fraction, behind) = span is_digit cs in
          if c == 46
          then lexed number_float (whole ++ (c ∷ fraction)) behind
          else lexed number_int whole (c ∷ cs)
    ]

-- The loop over the inside of a string; `none` where the input ends before it does.
unfoldable pub string_loop : Bytes → Option (Bytes × Bytes)
string_loop [] = none
string_loop (c ∷ []) = if c == 39 then some ([], []) else none
string_loop (c ∷ d ∷ ds) =
    let one = string_loop (d ∷ ds) in
    let two = string_loop ds in
    if c == 39
    then (if d == 39
        then (elim two [ none ↦ none | some (lit, rest) ↦ some (39 ∷ lit, rest) ])
        else some ([], d ∷ ds))
    else (elim one [ none ↦ none | some (lit, rest) ↦ some (c ∷ lit, rest) ])

unfoldable pub lex_string : Bytes → Lexed
unfolding string_loop
lex_string cs = elim (string_loop cs) [
  | none ↦ stops (39 ∷ [])
  | some (lit, rest) ↦ lexed string_lit lit rest
]

-- One token type if the next byte is the one given, another if it is not.
unfoldable pub lex_pair : ℕ → ℕ → TokenType → Bytes → Lexed → Lexed
lex_pair c d both [] other = other
lex_pair c d both (e ∷ cs) other = if e == d then lexed both (c ∷ d ∷ []) cs else other

-- The `switch` on the first byte.
unfoldable pub lex_symbol : ℕ → Bytes → Lexed
lex_symbol c cs =
    if c == 40
    then lexed lparen (c ∷ []) cs
    else if c == 41
    then lexed rparen (c ∷ []) cs
    else if c == 44
    then lexed comma (c ∷ []) cs
    else if c == 59
    then lexed semicolon (c ∷ []) cs
    else if c == 42
    then lexed star (c ∷ []) cs
    else if c == 43
    then lexed plus (c ∷ []) cs
    else if c == 45
    then lexed minus (c ∷ []) cs
    else if c == 46
    then lexed dot (c ∷ []) cs
    else if c == 61
    then lexed eq (c ∷ []) cs
    else if c == 33
    then lex_pair c 61 ne cs (stops (c ∷ []))
    else if c == 60
    then lex_pair c 61 le cs (lex_pair c 62 ne cs (lexed lt (c ∷ []) cs))
    else if c == 62
    then lex_pair c 61 ge cs (lexed gt (c ∷ []) cs)
    else stops (c ∷ [])

-- A round of the loop from the first byte of its token.
unfoldable pub lex_one : ℕ → Bytes → Lexed
lex_one c cs =
    if is_ident_start c
    then lex_word (c ∷ cs)
    else if is_digit c || ((c == 46) && starts_with is_digit cs)
    then lex_number (c ∷ cs)
    else if c == 39
    then lex_string cs
    else lex_symbol c cs

-- The loop of `Tokenize`, on fuel; `size` is that of the input.
unfoldable pub tokenize_loop : ℕ → ℕ → Bytes → List Token
tokenize_loop size zero bytes = []
tokenize_loop size (suc f) bytes = elim (skip_ws_and_comments false bytes) [
  | [] ↦ record { type = end_of_input; value = []; pos = size } ∷ []
  | c ∷ cs ↦
      let start = size - length (c ∷ cs) in
      elim (lex_one c cs) [
        | lexed type value rest ↦
            record { type = type; value = value; pos = start } ∷ tokenize_loop size f rest
        | stops value ↦ record { type = unknown; value = value; pos = start } ∷ []
      ]
]

-- `Tokenize`; each round but the last uses up a byte.
unfoldable pub tokenize : Bytes → List Token
tokenize input = tokenize_loop (length input) (suc (length input)) input
