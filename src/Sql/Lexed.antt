-- ===== src/Sql/Lexed.antt =====
-- The loop of `Tokenize` in src/coordinator/parser.cpp comes to an end, with tokens whose places go up.
use trans_db.Prelude.{
  ℕ, zero, suc, ◌-◌, ◌<◌, ◌≤◌, ◌≡◌, refl, ap, sym, subst, true, false, List, [], ◌∷◌, length, arith,
}
use trans_db.Bytes.{Bytes}
use trans_db.Sql.Token.{TokenType, Token, end_of_input, unknown, ◌=t=◌, type_number}
use trans_db.Sql.Lexer.{skip_ws_and_comments, Lexed, lexed, stops, lex_one, tokenize_loop, tokenize}
use trans_db.Sql.Rounds.{is_last, IsStep, skip-length, lex_one-IsStep}

-- Tokens at places that go up from `lo` and stay in the input, of which just the last one is
-- `END_OF_INPUT` or `UNKNOWN`.
unfoldable pub AreTokens : ℕ → ℕ → List Token → Type 0
AreTokens lo size [] = ⊥
AreTokens lo size (t ∷ []) = (is_last t.type ≡ true) × (lo ≤ t.pos) × (t.pos ≤ size)
AreTokens lo size (t ∷ u ∷ ts) =
    (is_last t.type ≡ false) × (lo ≤ t.pos) × AreTokens (suc t.pos) size (u ∷ ts)

AreTokens-cons :
    (lo lo' size : ℕ) (t : Token) (ts : List Token)
    → is_last t.type ≡ false
    → lo ≤ t.pos
    → suc t.pos ≤ lo'
    → AreTokens lo' size ts
    → AreTokens lo size (t ∷ ts)
unfolding AreTokens
AreTokens-cons lo lo' size t [] l h k a = absurd a
AreTokens-cons lo lo' size t (u ∷ []) l h k (a, b, c) = (l, h, (a, omega (arith, b, k), c))
AreTokens-cons lo lo' size t (u ∷ v ∷ ts) l h k (a, b, c) = (l, h, (a, omega (arith, b, k), c))

step_lexed :
    (type : TokenType) (value rest : Bytes) {n : ℕ}
    → IsStep n (lexed type value rest)
    → (length rest < n) × (is_last type ≡ false)
unfolding IsStep
step_lexed type value rest h = h

last_token :
    (lo size : ℕ) (t : Token)
    → is_last t.type ≡ true
    → lo ≤ t.pos
    → t.pos ≤ size
    → AreTokens lo size (t ∷ [])
unfolding AreTokens
last_token lo size t l h k = (l, h, k)

end_last : is_last end_of_input ≡ true
unfolding ◌=t=◌ type_number
end_last = refl

unknown_last : is_last unknown ≡ true
unfolding ◌=t=◌ type_number
unknown_last = refl

tokenize_loop-AreTokens :
    (size f : ℕ) (bytes : Bytes)
    → length bytes ≤ size
    → length bytes < f
    → AreTokens (size - length bytes) size (tokenize_loop size f bytes)
unfolding tokenize_loop
tokenize_loop-AreTokens size zero bytes h k = elim k [ ]
tokenize_loop-AreTokens size (suc f) bytes h k =
    from_skipped (tokenize_loop-AreTokens size f) (skip_ws_and_comments false bytes) refl
  where
    from_lexed :
        ((rest : Bytes)
          → length rest ≤ size
          → length rest < f
          → AreTokens (size - length rest) size (tokenize_loop size f rest))
        → (c : ℕ) (cs : Bytes) (out : Lexed) → lex_one c cs ≡ out
        → length (c ∷ cs) ≤ length bytes
        → AreTokens (size - length bytes) size (elim out [
          | lexed type value rest ↦
              record { type = type; value = value; pos = size - length (c ∷ cs) }
              ∷ tokenize_loop size f rest
          | stops value ↦
              record { type = unknown; value = value; pos = size - length (c ∷ cs) } ∷ []
        ])
    from_lexed again c cs (lexed type value rest) e less =
        let (shorter, goes_on) =
          step_lexed type value rest (subst (IsStep (suc (length cs))) e (lex_one-IsStep c cs)) in
        AreTokens-cons (size - length bytes) (size - length rest) size
          (record { type = type; value = value; pos = size - length (c ∷ cs) })
          (tokenize_loop size f rest) goes_on (omega (arith, less))
          (omega (arith, shorter, less, h))
          (again rest (omega (arith, shorter, less, h)) (omega (arith, shorter, less, k)))
    from_lexed again c cs (stops value) e less =
        last_token (size - length bytes) size
          (record { type = unknown; value = value; pos = size - length (c ∷ cs) }) unknown_last
          (omega (arith, less)) (omega arith)

    from_skipped :
        ((rest : Bytes)
          → length rest ≤ size
          → length rest < f
          → AreTokens (size - length rest) size (tokenize_loop size f rest))
        → (left : Bytes) → skip_ws_and_comments false bytes ≡ left
        → AreTokens (size - length bytes) size (tokenize_loop size (suc f) bytes)
    from_skipped again [] e =
        rw (tokenize_loop, e)
          (last_token (size - length bytes) size
            (record { type = end_of_input; value = []; pos = size }) end_last (omega arith)
            (omega arith))
    from_skipped again (c ∷ cs) e =
        rw (tokenize_loop, e)
          (from_lexed again c cs (lex_one c cs) refl
            (omega (arith, ap length (sym e), skip-length false bytes)))

-- On every input `Tokenize` comes to an end, with tokens at places of the input that go strictly
-- up, of which the last one, and no other, is `END_OF_INPUT` or `UNKNOWN`.
pub tokenize-AreTokens : (input : Bytes) → AreTokens 0 (length input) (tokenize input)
unfolding tokenize
tokenize-AreTokens input =
    subst (λ lo. AreTokens lo (length input) (tokenize input)) (omega arith)
      (tokenize_loop-AreTokens (length input) (suc (length input)) input (omega arith)
        (omega arith))
