-- ===== src/Tests/Statements.antt =====
-- Runs of the theorems on the SQL front end, src/coordinator/parser.cpp.
use trans_db.Prelude.{◌≡◌, refl, [], ◌∷◌, ◌++◌}
use trans_db.Bytes.{Bytes}
use trans_db.Sql.Token.{string_lit}
use trans_db.Sql.Lexer.{tokenize, lex_one, lexed, starts_with}
use trans_db.Sql.Quoted.{escape, lex_one-escape}
use trans_db.Sql.Lexed.{AreTokens, tokenize-AreTokens}

-- ", a, b"
abbrev names : Bytes
names = 44 ∷ 32 ∷ 97 ∷ 44 ∷ 32 ∷ 98 ∷ []

tokenize-AreTokens_example : AreTokens 0 6 (tokenize names)
tokenize-AreTokens_example = tokenize-AreTokens names

-- "it's", between quotes and followed by a semicolon.
lex_one-escape_example :
    lex_one 39 (escape (105 ∷ 116 ∷ 39 ∷ 115 ∷ []) ++ 39 ∷ (59 ∷ []))
    ≡ lexed string_lit (105 ∷ 116 ∷ 39 ∷ 115 ∷ []) (59 ∷ [])
unfolding starts_with
lex_one-escape_example = lex_one-escape (105 ∷ 116 ∷ 39 ∷ 115 ∷ []) (59 ∷ []) refl
