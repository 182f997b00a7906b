-- ===== src/Sql/Loops.antt =====
-- The loops `while (Match(...))` of src/coordinator/parser.cpp end: on the tokens that the tokenizer gives,
-- the fuel of the model is enough.
use trans_db.Prelude.{
  ℕ, zero, suc, ◌<◌, ◌≤◌, ◌≡◌, refl, ap, sym, ◌∙◌, Bool, true, false, ◌||◌, List, [], ◌∷◌, length,
  ◌==◌, if◌then◌else◌, arith, Bool-cases, inl, inr, ==_iff,
}
use trans_db.Bytes.{Bytes}
use trans_db.Sql.Token.{Token, TokenType, type_number, ◌=t=◌, end_of_input, unknown}
use trans_db.Sql.Lexer.{tokenize}
use trans_db.Sql.Rounds.{is_last}
use trans_db.Sql.Lexed.{AreTokens, tokenize-AreTokens}
use trans_db.Sql.Cursor.{
  Parsed, parsed, failed, Parser, ◌>>=◌, return, peek_token, at_end, advance, match, expect,
  match_loop, while_match,
}

-- There is a token, and the one at the end is one of the last ones.
unfoldable pub IsEnded : List Token → Type 0
IsEnded [] = ⊥
IsEnded (t ∷ []) = is_last t.type ≡ true
IsEnded (t ∷ u ∷ ts) = IsEnded (u ∷ ts)

AreTokens-IsEnded : (lo size : ℕ) (ts : List Token) → AreTokens lo size ts → IsEnded ts
unfolding AreTokens IsEnded
AreTokens-IsEnded lo size [] h = h
AreTokens-IsEnded lo size (t ∷ []) (a, b, c) = a
AreTokens-IsEnded lo size (t ∷ u ∷ ts) (a, b, c) = AreTokens-IsEnded (suc t.pos) size (u ∷ ts) c

pub tokenize-IsEnded : (input : Bytes) → IsEnded (tokenize input)
tokenize-IsEnded input =
    AreTokens-IsEnded 0 (length input) (tokenize input) (tokenize-AreTokens input)

same-is_last : (t u : TokenType) → (t =t= u) ≡ true → is_last t ≡ is_last u
unfolding ◌=t=◌
same-is_last t u h =
    ap (λ n. (n == type_number end_of_input) || (n == type_number unknown))
      ((==_iff (type_number t) (type_number u)).0 h)

-- The walk does not go back, and does not leave the tokens.
abbrev pub GoesOn : {A : Type 0} → List Token → Parsed A → Type 0
GoesOn ts (parsed a rest) = (length rest ≤ length ts) × IsEnded rest
GoesOn ts (failed e) = Unit

abbrev pub Stays : {A : Type 0} → Parser A → Type 0
Stays p = (ts : List Token) → IsEnded ts → GoesOn ts (p ts)

none_left : (ts : List Token) → IsEnded ts → length ts ≤ 0 → ⊥
unfolding IsEnded
none_left [] h k = h
none_left (t ∷ ts) h k = elim k [ ]

advance-GoesOn :
    (ts : List Token) → IsEnded ts → (length (advance ts) ≤ length ts) × IsEnded (advance ts)
unfolding advance at_end IsEnded
advance-GoesOn [] h = absurd h
advance-GoesOn (t ∷ []) h = (omega arith, h)
advance-GoesOn (t ∷ u ∷ ts) h = elim (Bool-cases (is_last t.type)) [
  | inl e ↦ rw e (omega arith, h)
  | inr e ↦ rw e (omega arith, h)
]

advance-less :
    (type : TokenType) (ts : List Token)
    → is_last type ≡ false
    → IsEnded ts
    → ((peek_token ts).type =t= type) ≡ true
    → length (advance ts) < length ts
unfolding advance at_end IsEnded
advance-less type [] l h e = absurd h
advance-less type (t ∷ []) l h e = absurd (ground (arith, l, h, same-is_last t.type type e))
advance-less type (t ∷ u ∷ ts) l h e = ground (arith, l, same-is_last t.type type e)

pub expect-Stays : (type : TokenType) → Stays (expect type)
unfolding expect
expect-Stays type ts h = elim (Bool-cases ((peek_token ts).type =t= type)) [
  | inl e ↦ rw (expect, e) (advance-GoesOn ts h)
  | inr e ↦ rw (expect, e) tt
]

pub return-Stays : {A : Type 0} (a : A) → Stays (return a)
return-Stays a ts h = (omega arith, h)

pub bind-Stays :
    {A B : Type 0} (p : Parser A) (k : A → Parser B)
    → Stays p
    → ((a : A) → Stays (k a))
    → Stays (p >>= k)
bind-Stays {A = A} {B = B} p k hp hk ts h = through (p ts) (hp ts h)
  where
    shorter :
        (rest : List Token) (out : Parsed B)
        → length rest ≤ length ts
        → GoesOn rest out
        → GoesOn ts out
    shorter rest (parsed b more) l g = (omega (arith, l, g.0), g.1)
    shorter rest (failed e) l g = tt

    through :
        (out : Parsed A)
        → GoesOn ts out
        → GoesOn ts (elim out [ parsed a rest ↦ k a rest | failed e ↦ failed e ])
    through (parsed a rest) g = shorter rest (k a rest) g.0 (hk a rest g.1)
    through (failed e) g = tt

bind_parsed :
    {A B : Type 0} (p : Parser A) (k : A → Parser B) (ts : List Token) (a : A) (rest : List Token)
    → p ts ≡ parsed a rest
    → (p >>= k) ts ≡ k a rest
bind_parsed {B = B} p k ts a rest e =
    ap {B = Parsed B} (λ out. elim out [ parsed b more ↦ k b more | failed x ↦ failed x ]) e

match_found :
    (type : TokenType) (ts : List Token)
    → ((peek_token ts).type =t= type) ≡ true
    → match type ts ≡ parsed true (advance ts)
unfolding match
match_found type ts e = rw e refl

match_other :
    (type : TokenType) (ts : List Token)
    → ((peek_token ts).type =t= type) ≡ false
    → match type ts ≡ parsed false ts
unfolding match
match_other type ts e = rw e refl

module _ {A : Type 0} (separator : TokenType) (item : Parser A)
    (goes_on : is_last separator ≡ false) (stays : Stays item) where
  -- What the loop does with the rest of its fuel.
  abbrev body : (List Token → Parsed (List A)) → Bool → Parser (List A)
  body again more = if more then (do a ← item; rest ← again; return (a ∷ rest)) else return []

  with_loop : (List Token → Parsed (List A)) → List Token → Parsed (List A)
  with_loop again ts = (do more ← match separator; body again more) ts

  -- The value of an item in front of those that follow.
  abbrev item_then : (List Token → Parsed (List A)) → Parsed A → Parsed (List A)
  item_then again (parsed a rest) = elim (again rest) [
    | parsed l more ↦ parsed (a ∷ l) more
    | failed e ↦ failed e
  ]
  item_then again (failed e) = failed e

  with_loop-item :
      (again : List Token → Parsed (List A)) (ts : List Token)
      → ((peek_token ts).type =t= separator) ≡ true
      → with_loop again ts ≡ item_then again (item (advance ts))
  unfolding with_loop
  with_loop-item again ts e =
      bind_parsed (match separator) (body again) ts true (advance ts) (match_found separator ts e)
      ∙ through (item (advance ts))
    where
      through :
          (out : Parsed A)
          → ◌≡◌ {A = Parsed (List A)}
              (elim out [
                | parsed a rest ↦ elim (again rest) [
                  | parsed l more ↦ parsed (a ∷ l) more
                  | failed e ↦ failed e
                ]
                | failed e ↦ failed e
              ])
              (item_then again out)
      through (parsed a rest) = refl
      through (failed e) = refl

  loops_agree :
      (again again' : List Token → Parsed (List A)) (ts : List Token)
      → IsEnded ts
      → ((rest : List Token) → length rest < length ts → IsEnded rest → again rest ≡ again' rest)
      → with_loop again ts ≡ with_loop again' ts
  loops_agree again again' ts h same = elim (Bool-cases ((peek_token ts).type =t= separator)) [
    | inr e ↦
        unfold with_loop in
        bind_parsed (match separator) (body again) ts false ts (match_other separator ts e)
        ∙ sym (bind_parsed (match separator) (body again') ts false ts (match_other separator ts e))
    | inl e ↦
        with_loop-item again ts e
        ∙ after (item (advance ts)) (stays (advance ts) (advance-GoesOn ts h).1)
            (advance-less separator ts goes_on h e)
        ∙ sym (with_loop-item again' ts e)
  ]
    where
      after :
          (out : Parsed A)
          → GoesOn (advance ts) out
          → length (advance ts) < length ts
          → item_then again out ≡ item_then again' out
      after (parsed a rest) g l =
          ap (λ x. item_then (λ r. x) (parsed a rest)) (same rest (omega (arith, g.0, l)) g.1)
      after (failed e) g l = refl

  loop-step :
      (f : ℕ) (ts : List Token)
      → match_loop separator item (suc f) ts ≡ with_loop (match_loop separator item f) ts
  unfolding match_loop with_loop
  loop-step f ts = refl

  -- More fuel than there are tokens changes nothing.
  match_loop_enough :
      (f g : ℕ) (ts : List Token)
      → IsEnded ts
      → length ts ≤ f
      → length ts ≤ g
      → match_loop separator item f ts ≡ match_loop separator item g ts
  match_loop_enough zero g ts h k l = absurd (none_left ts h k)
  match_loop_enough (suc f) zero ts h k l = absurd (none_left ts h l)
  match_loop_enough (suc f) (suc g) ts h k l =
      loop-step f ts
      ∙ loops_agree (match_loop separator item f) (match_loop separator item g) ts h
          (λ rest less ended.
            match_loop_enough f g rest ended (omega (arith, k, less)) (omega (arith, l, less)))
      ∙ sym (loop-step g ts)

  -- On tokens that end as those of the tokenizer do, for a separator that is not one of the two
  -- last types and an item that neither goes back nor leaves the tokens, the parser's loop over
  -- separators satisfies the equation of the source's `while (Match(separator)) item()`: the fuel
  -- of the model is never used up.
  pub while_match-step :
      (ts : List Token)
      → IsEnded ts
      → while_match separator item ts
        ≡ (do
          more ← match separator
          if more
              then (do a ← item; rest ← while_match separator item; return (a ∷ rest))
              else return [])
            ts
  unfolding while_match with_loop
  while_match-step ts h =
      match_loop_enough (length ts) (suc (length ts)) ts h (omega arith) (omega arith)
      ∙ loop-step (length ts) ts
      ∙ loops_agree (match_loop separator item (length ts)) (while_match separator item) ts h
          (λ rest less ended.
            match_loop_enough (length ts) (length rest) rest ended (omega (arith, less))
              (omega arith))
