-- ===== src/Sql/Quoted.antt =====
-- String literals of src/coordinator/parser.cpp: a quote inside one is written twice.
use trans_db.Prelude.{
  ℕ, ◌≡◌, refl, ap, false, some, [], ◌∷◌, ◌++◌, ◌==◌, if◌then◌else◌, arith, Bool-cases, inl, inr,
  ==_iff, sym, ◌∙◌,
}
use trans_db.Bytes.{Bytes}
use trans_db.Sql.Token.{string_lit}
use trans_db.Sql.Lexer.{lexed, starts_with, string_loop, lex_string, lex_one}

-- What a client writes between the quotes for a value.
unfoldable pub escape : Bytes → Bytes
escape [] = []
escape (c ∷ cs) = let rest = escape cs in if c == 39 then 39 ∷ 39 ∷ rest else c ∷ rest

string_loop_end :
    (rest : Bytes)
    → starts_with (λ c. c == 39) rest ≡ false
    → string_loop (39 ∷ rest) ≡ some ([], rest)
unfolding string_loop starts_with
string_loop_end [] h = refl
string_loop_end (d ∷ ds) h = ground (arith, h)

string_loop_other :
    (c : ℕ) (cs lit rest : Bytes)
    → (c == 39) ≡ false
    → string_loop cs ≡ some (lit, rest)
    → string_loop (c ∷ cs) ≡ some (c ∷ lit, rest)
unfolding string_loop
string_loop_other c [] lit rest h e = absurd cc
string_loop_other c (d ∷ ds) lit rest h e = ground (arith, h, e)

string_loop_two :
    (cs lit rest : Bytes)
    → string_loop cs ≡ some (lit, rest)
    → string_loop (39 ∷ 39 ∷ cs) ≡ some (39 ∷ lit, rest)
unfolding string_loop
string_loop_two cs lit rest e = ground (arith, e)

string_loop-escape :
    (value rest : Bytes)
    → starts_with (λ c. c == 39) rest ≡ false
    → string_loop (escape value ++ 39 ∷ rest) ≡ some (value, rest)
unfolding escape
string_loop-escape [] rest h = string_loop_end rest h
string_loop-escape (c ∷ cs) rest h = elim (Bool-cases (c == 39)) [
  | inl e ↦
      rw (escape, e)
        (string_loop_two (escape cs ++ 39 ∷ rest) cs rest (string_loop-escape cs rest h)
          ∙ ap (λ d. some (d ∷ cs, rest)) (sym ((==_iff c 39).0 e)))
  | inr e ↦
      rw (escape, e)
        (string_loop_other c (escape cs ++ 39 ∷ rest) cs rest e (string_loop-escape cs rest h))
]

-- A value in which every quote is written twice, between quotes and not followed by a further
-- quote, is read as the string literal of that value, and what is behind it is left.
pub lex_one-escape :
    (value rest : Bytes)
    → starts_with (λ c. c == 39) rest ≡ false
    → lex_one 39 (escape value ++ 39 ∷ rest) ≡ lexed string_lit value rest
unfolding lex_one lex_string
lex_one-escape value rest h = ground (arith, string_loop-escape value rest h)
