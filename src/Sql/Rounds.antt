-- ===== src/Sql/Rounds.antt =====
-- One round of `Tokenize` in src/coordinator/parser.cpp takes at least a byte, and its token is not one of
-- the two that end the tokens.
use trans_db.Prelude.{
  ℕ, suc, ◌<◌, ◌≤◌, ◌≡◌, refl, Bool, true, false, ◌&&◌, ◌||◌, some, List, [], ◌∷◌, ◌++◌, map,
  length, ◌==◌, ◌=l=◌, if◌then◌else◌, arith, Bool-cases, Option-cases, inl, inr, not,
}
use trans_db.Bytes.{Bytes}
use trans_db.Sql.Token.{
  TokenType, number_int, number_float, ne, lt, le, gt, ge, end_of_input, unknown, ◌=t=◌,
  classify_keyword, find_keyword, keywords, type_number,
}
use trans_db.Sql.Lexer.{
  is_digit, is_ident_start, is_ident_cont, to_upper, skip_ws_and_comments, span, starts_with, Lexed,
  lexed, stops, lex_word, lex_number, string_loop, lex_string, lex_pair, lex_symbol, lex_one,
}

-- `END_OF_INPUT` and `UNKNOWN`, with which the tokens end.
abbrev pub is_last : TokenType → Bool
is_last t = (t =t= end_of_input) || (t =t= unknown)

-- A round leaves less than it finds, and its token is not one of the last ones.
unfoldable pub IsStep : ℕ → Lexed → Type 0
IsStep n (lexed type value rest) = (length rest < n) × (is_last type ≡ false)
IsStep n (stops value) = Unit

pub skip-length : (b : Bool) (cs : Bytes) → length (skip_ws_and_comments b cs) ≤ length cs
unfolding skip_ws_and_comments
skip-length true [] = omega arith
skip-length false [] = omega arith
skip-length true (c ∷ cs) = ground (arith, skip-length true cs, skip-length false cs)
skip-length false (c ∷ []) = ground arith
skip-length false (c ∷ d ∷ ds) = ground (arith, skip-length false (d ∷ ds), skip-length true ds)

span-length : (p : ℕ → Bool) (cs : Bytes) → length (span p cs).1 ≤ length cs
unfolding span
span-length p [] = omega arith
span-length p (c ∷ cs) = ground (arith, span-length p cs)

span_start :
    (p : ℕ → Bool) (c : ℕ) (cs : Bytes) → p c ≡ true → length (span p (c ∷ cs)).1 ≤ length cs
unfolding span
span_start p c cs h = ground (arith, h, span-length p cs)

string-length :
    (cs : Bytes) (lit rest : Bytes) → string_loop cs ≡ some (lit, rest) → length rest < length cs
unfolding string_loop
string-length [] lit rest h = absurd cc
string-length (c ∷ []) lit rest h = ground (arith, h)
string-length (c ∷ d ∷ ds) lit rest h = elim (Option-cases (string_loop ds)) [
  | inl e ↦ elim (Option-cases (string_loop (d ∷ ds))) [
    | inl e' ↦ ground (arith, h, e, e')
    | inr ((l', r'), e') ↦ ground (arith, h, e, e', string-length (d ∷ ds) l' r' e')
  ]
  | inr ((l, r), e) ↦ elim (Option-cases (string_loop (d ∷ ds))) [
    | inl e' ↦ ground (arith, h, e, e', string-length ds l r e)
    | inr ((l', r'), e') ↦
        ground (arith, h, e, e', string-length ds l r e, string-length (d ∷ ds) l' r' e')
  ]
]

-- None of the words is one of the last types.
go_on : List (Bytes × TokenType) → Bool
go_on [] = true
go_on ((word, type) ∷ words) = not (is_last type) && go_on words

keyword_go_on :
    (u : Bytes) (words : List (Bytes × TokenType))
    → go_on words ≡ true
    → is_last (find_keyword u words) ≡ false
unfolding find_keyword go_on ◌=t=◌ type_number
keyword_go_on u [] h = refl
keyword_go_on u ((word, type) ∷ words) h = elim (Bool-cases (u =l= word)) [
  | inl e ↦ rw e (ground (arith, h))
  | inr e ↦ rw e (keyword_go_on u words (ground (arith, h)))
]

IsStep-if :
    (n : ℕ) (b : Bool) (x y : Lexed) → IsStep n x → IsStep n y → IsStep n (if b then x else y)
IsStep-if n true x y hx hy = hx
IsStep-if n false x y hx hy = hy

lex_pair-IsStep :
    (n c d : ℕ) (both : TokenType) (cs : Bytes) (other : Lexed)
    → length cs < n
    → is_last both ≡ false
    → IsStep n other
    → IsStep n (lex_pair c d both cs other)
unfolding lex_pair
lex_pair-IsStep n c d both [] other h l k = k
lex_pair-IsStep n c d both (e ∷ cs) other h l k =
    IsStep-if n (e == d) _ _ (unfold IsStep in (omega (arith, h), l)) k

lex_symbol-IsStep : (c : ℕ) (cs : Bytes) → IsStep (suc (length cs)) (lex_symbol c cs)
unfolding lex_symbol ◌=t=◌ type_number IsStep
lex_symbol-IsStep c cs =
    let n : ℕ = suc (length cs) in
    let less : length cs < n = omega arith in
    IsStep-if n (c == 40) _ _ (less, refl)
      (IsStep-if n (c == 41) _ _ (less, refl)
        (IsStep-if n (c == 44) _ _ (less, refl)
          (IsStep-if n (c == 59) _ _ (less, refl)
            (IsStep-if n (c == 42) _ _ (less, refl)
              (IsStep-if n (c == 43) _ _ (less, refl)
                (IsStep-if n (c == 45) _ _ (less, refl)
                  (IsStep-if n (c == 46) _ _ (less, refl)
                    (IsStep-if n (c == 61) _ _ (less, refl)
                      (IsStep-if n (c == 33) _ _
                        (lex_pair-IsStep n c 61 ne cs (stops (c ∷ [])) less refl tt)
                        (IsStep-if n (c == 60) _ _
                          (lex_pair-IsStep n c 61 le cs (lex_pair c 62 ne cs (lexed lt (c ∷ []) cs))
                            less refl
                            (lex_pair-IsStep n c 62 ne cs (lexed lt (c ∷ []) cs) less refl
                              (less, refl)))
                          (IsStep-if n (c == 62) _ _
                            (lex_pair-IsStep n c 61 ge cs (lexed gt (c ∷ []) cs) less refl
                              (less, refl))
                            tt)))))))))))

lex_word-IsStep :
    (c : ℕ) (cs : Bytes) → is_ident_start c ≡ true → IsStep (suc (length cs)) (lex_word (c ∷ cs))
unfolding lex_word IsStep classify_keyword
lex_word-IsStep c cs h = (
  omega (arith, span_start is_ident_cont c cs (ground (arith, h))),
  keyword_go_on (map to_upper (span is_ident_cont (c ∷ cs)).0) keywords
      (unfold keywords go_on ◌=t=◌ type_number in refl),
)

number_tail :
    (n : ℕ) (whole rest : Bytes)
    → length rest < n
    → IsStep n (elim rest [
      | [] ↦ lexed number_int whole []
      | c ∷ cs ↦
          if c == 46
          then lexed number_float (whole ++ (c ∷ (span is_digit cs).0)) (span is_digit cs).1
          else lexed number_int whole (c ∷ cs)
    ])
unfolding IsStep ◌=t=◌ type_number
number_tail n whole [] h = (h, refl)
number_tail n whole (c ∷ cs) h =
    IsStep-if n (c == 46) _ _ (omega (arith, h, span-length is_digit cs), refl) (h, refl)

lex_number-IsStep :
    (c : ℕ) (cs : Bytes)
    → (is_digit c || ((c == 46) && starts_with is_digit cs)) ≡ true
    → IsStep (suc (length cs)) (lex_number (c ∷ cs))
unfolding lex_number IsStep ◌=t=◌ type_number
lex_number-IsStep c cs h = elim (Bool-cases (is_digit c)) [
  | inl d ↦
      number_tail (suc (length cs)) (span is_digit (c ∷ cs)).0 (span is_digit (c ∷ cs)).1
        (omega (arith, span_start is_digit c cs d))
  | inr d ↦
      let none_whole : span is_digit (c ∷ cs) ≡ ([], c ∷ cs) = unfold span in ground (arith, d) in
      let point : (c == 46) ≡ true = ground (arith, d, h) in
      rw (lex_number, none_whole, point) (omega (arith, span-length is_digit cs), refl)
]

lex_string-IsStep : (cs : Bytes) → IsStep (suc (length cs)) (lex_string cs)
unfolding lex_string IsStep ◌=t=◌ type_number
lex_string-IsStep cs = elim (Option-cases (string_loop cs)) [
  | inl e ↦ rw (lex_string, e) tt
  | inr ((lit, rest), e) ↦ rw (lex_string, e) (omega (arith, string-length cs lit rest e), refl)
]

pub lex_one-IsStep : (c : ℕ) (cs : Bytes) → IsStep (suc (length cs)) (lex_one c cs)
unfolding lex_one
lex_one-IsStep c cs =
    let n : ℕ = suc (length cs) in
    elim (Bool-cases (is_ident_start c)) [
      | inl w ↦ rw (lex_one, w) (lex_word-IsStep c cs w)
      | inr w ↦ elim (Bool-cases (is_digit c || ((c == 46) && starts_with is_digit cs))) [
        | inl d ↦ rw (lex_one, w, d) (lex_number-IsStep c cs d)
        | inr d ↦
            rw (lex_one, w, d)
              (IsStep-if n (c == 39) _ _ (lex_string-IsStep cs) (lex_symbol-IsStep c cs))
      ]
    ]
