-- ===== src/Sql/Cursor.antt =====
-- The walk over the tokens in src/coordinator/parser.cpp: `Peek`, `Advance`, `Match`, `Expect`, `AtEnd`.
-- `pos_` is kept as the tokens from there on; a thrown `ParseError` is the other result.
use trans_db.Prelude.{ℕ, zero, suc, Bool, true, false, List, [], ◌∷◌, length, if◌then◌else◌}
use trans_db.Sql.Token.{Token, TokenType, end_of_input, ◌=t=◌}
use trans_db.Sql.Rounds.{is_last}
use trans_db.Sql.Syntax.{Message, ParseError, unexpected_token}

pub data Parsed (A : Type 0) : Type 0 where
  parsed : A → List Token → Parsed A
  failed : ParseError → Parsed A

abbrev pub Parser : Type 0 → Type 0
Parser A = List Token → Parsed A

infixl 5 ◌>>=◌
abbrev pub ◌>>=◌ : {A B : Type 0} → Parser A → (A → Parser B) → Parser B
(p >>= k) ts = elim (p ts) [ parsed a rest ↦ k a rest | failed e ↦ failed e ]

abbrev pub return : {A : Type 0} → A → Parser A
return a ts = parsed a ts

-- `Peek`; there is always a token.
abbrev pub peek_token : List Token → Token
peek_token [] = record { type = end_of_input; value = []; pos = 0 }
peek_token (t ∷ ts) = t

-- `AtEnd`
unfoldable pub at_end : List Token → Bool
at_end [] = true
at_end (t ∷ []) = true
at_end (t ∷ u ∷ ts) = is_last t.type

-- `Advance`, of which the result is what `Peek` has given.
unfoldable pub advance : List Token → List Token
unfolding at_end
advance [] = []
advance (t ∷ ts) = if at_end (t ∷ ts) then t ∷ ts else ts

abbrev pub peek : Parser Token
peek ts = parsed (peek_token ts) ts

abbrev pub skip : Parser Unit
skip ts = parsed tt (advance ts)

abbrev pub throw : {A : Type 0} → Message → ℕ → Parser A
throw message position ts = failed (record { message = message; position = position })

-- `Match`
unfoldable pub match : TokenType → Parser Bool
match type ts = if (peek_token ts).type =t= type then parsed true (advance ts) else parsed false ts

-- `Expect`
unfoldable pub expect : TokenType → Parser Token
expect type ts =
    let t = peek_token ts in
    if t.type =t= type
    then parsed t (advance ts)
    else failed (record { message = unexpected_token; position = t.pos })

-- `while (Match(separator)) item();`, on fuel.
unfoldable pub match_loop : {A : Type 0} → TokenType → Parser A → ℕ → Parser (List A)
unfolding match
match_loop separator item zero ts = parsed [] ts
match_loop separator item (suc f) ts =
    (do
      more ← match separator
      if more
          then (do a ← item; rest ← match_loop separator item f; return (a ∷ rest))
          else return [])
      ts

-- Each round of such a loop uses up its separator.
unfoldable pub while_match : {A : Type 0} → TokenType → Parser A → Parser (List A)
while_match separator item ts = match_loop separator item (length ts) ts
