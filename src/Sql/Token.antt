-- ===== src/Sql/Token.antt =====
-- `Parser::Token` of src/coordinator/parser.h, and `ClassifyKeyword` of parser.cpp.
use trans_db.Prelude.{ℕ, ◌≡◌, Bool, true, List, [], ◌∷◌, ◌==◌, ◌=l=◌, if◌then◌else◌, ==_refl}
use trans_db.Bytes.{Bytes}

-- `Token::Type`
pub data TokenType : Type 0 where
  ident number_int number_float string_lit lparen rparen comma semicolon : TokenType
  star plus minus dot eq ne lt le : TokenType
  gt ge kw_create kw_table kw_insert kw_into kw_values kw_select : TokenType
  kw_from kw_join kw_inner kw_on kw_where kw_order kw_by kw_limit : TokenType
  kw_asc kw_desc kw_update kw_set kw_delete kw_and kw_begin kw_commit : TokenType
  kw_rollback kw_primary kw_key kw_int kw_bigint kw_float kw_varchar kw_not : TokenType
  kw_null kw_abort kw_count kw_sum kw_min kw_max end_of_input unknown : TokenType

-- The number of an enumerator.
unfoldable pub type_number : TokenType → ℕ
type_number ident = 0
type_number number_int = 1
type_number number_float = 2
type_number string_lit = 3
type_number lparen = 4
type_number rparen = 5
type_number comma = 6
type_number semicolon = 7
type_number star = 8
type_number plus = 9
type_number minus = 10
type_number dot = 11
type_number eq = 12
type_number ne = 13
type_number lt = 14
type_number le = 15
type_number gt = 16
type_number ge = 17
type_number kw_create = 18
type_number kw_table = 19
type_number kw_insert = 20
type_number kw_into = 21
type_number kw_values = 22
type_number kw_select = 23
type_number kw_from = 24
type_number kw_join = 25
type_number kw_inner = 26
type_number kw_on = 27
type_number kw_where = 28
type_number kw_order = 29
type_number kw_by = 30
type_number kw_limit = 31
type_number kw_asc = 32
type_number kw_desc = 33
type_number kw_update = 34
type_number kw_set = 35
type_number kw_delete = 36
type_number kw_and = 37
type_number kw_begin = 38
type_number kw_commit = 39
type_number kw_rollback = 40
type_number kw_primary = 41
type_number kw_key = 42
type_number kw_int = 43
type_number kw_bigint = 44
type_number kw_float = 45
type_number kw_varchar = 46
type_number kw_not = 47
type_number kw_null = 48
type_number kw_abort = 49
type_number kw_count = 50
type_number kw_sum = 51
type_number kw_min = 52
type_number kw_max = 53
type_number end_of_input = 54
type_number unknown = 55

infix 50 ◌=t=◌
unfoldable pub ◌=t=◌ : TokenType → TokenType → Bool
unfolding type_number
t =t= u = type_number t == type_number u

pub =t=_refl : (t : TokenType) → (t =t= t) ≡ true
unfolding ◌=t=◌
=t=_refl t = ==_refl (type_number t)

pub record Token : Type 0 where
  pub type : TokenType
  pub value : Bytes
  pub pos : ℕ

-- The keywords in the order in which they are compared.
unfoldable pub keywords : List (Bytes × TokenType)
keywords =
    (67 ∷ 82 ∷ 69 ∷ 65 ∷ 84 ∷ 69 ∷ [], kw_create)
    ∷ (84 ∷ 65 ∷ 66 ∷ 76 ∷ 69 ∷ [], kw_table)
    ∷ (73 ∷ 78 ∷ 83 ∷ 69 ∷ 82 ∷ 84 ∷ [], kw_insert)
    ∷ (73 ∷ 78 ∷ 84 ∷ 79 ∷ [], kw_into)
    ∷ (86 ∷ 65 ∷ 76 ∷ 85 ∷ 69 ∷ 83 ∷ [], kw_values)
    ∷ (83 ∷ 69 ∷ 76 ∷ 69 ∷ 67 ∷ 84 ∷ [], kw_select)
    ∷ (70 ∷ 82 ∷ 79 ∷ 77 ∷ [], kw_from)
    ∷ (74 ∷ 79 ∷ 73 ∷ 78 ∷ [], kw_join)
    ∷ (73 ∷ 78 ∷ 78 ∷ 69 ∷ 82 ∷ [], kw_inner)
    ∷ (79 ∷ 78 ∷ [], kw_on)
    ∷ (87 ∷ 72 ∷ 69 ∷ 82 ∷ 69 ∷ [], kw_where)
    ∷ (79 ∷ 82 ∷ 68 ∷ 69 ∷ 82 ∷ [], kw_order)
    ∷ (66 ∷ 89 ∷ [], kw_by)
    ∷ (76 ∷ 73 ∷ 77 ∷ 73 ∷ 84 ∷ [], kw_limit)
    ∷ (65 ∷ 83 ∷ 67 ∷ [], kw_asc)
    ∷ (68 ∷ 69 ∷ 83 ∷ 67 ∷ [], kw_desc)
    ∷ (85 ∷ 80 ∷ 68 ∷ 65 ∷ 84 ∷ 69 ∷ [], kw_update)
    ∷ (83 ∷ 69 ∷ 84 ∷ [], kw_set)
    ∷ (68 ∷ 69 ∷ 76 ∷ 69 ∷ 84 ∷ 69 ∷ [], kw_delete)
    ∷ (65 ∷ 78 ∷ 68 ∷ [], kw_and)
    ∷ (66 ∷ 69 ∷ 71 ∷ 73 ∷ 78 ∷ [], kw_begin)
    ∷ (67 ∷ 79 ∷ 77 ∷ 77 ∷ 73 ∷ 84 ∷ [], kw_commit)
    ∷ (82 ∷ 79 ∷ 76 ∷ 76 ∷ 66 ∷ 65 ∷ 67 ∷ 75 ∷ [], kw_rollback)
    ∷ (80 ∷ 82 ∷ 73 ∷ 77 ∷ 65 ∷ 82 ∷ 89 ∷ [], kw_primary)
    ∷ (75 ∷ 69 ∷ 89 ∷ [], kw_key)
    ∷ (73 ∷ 78 ∷ 84 ∷ [], kw_int)
    ∷ (66 ∷ 73 ∷ 71 ∷ 73 ∷ 78 ∷ 84 ∷ [], kw_bigint)
    ∷ (70 ∷ 76 ∷ 79 ∷ 65 ∷ 84 ∷ [], kw_float)
    ∷ (86 ∷ 65 ∷ 82 ∷ 67 ∷ 72 ∷ 65 ∷ 82 ∷ [], kw_varchar)
    ∷ (78 ∷ 79 ∷ 84 ∷ [], kw_not)
    ∷ (78 ∷ 85 ∷ 76 ∷ 76 ∷ [], kw_null)
    ∷ (65 ∷ 66 ∷ 79 ∷ 82 ∷ 84 ∷ [], kw_abort)
    ∷ (67 ∷ 79 ∷ 85 ∷ 78 ∷ 84 ∷ [], kw_count)
    ∷ (83 ∷ 85 ∷ 77 ∷ [], kw_sum)
    ∷ (77 ∷ 73 ∷ 78 ∷ [], kw_min)
    ∷ (77 ∷ 65 ∷ 88 ∷ [], kw_max)
    ∷ []

unfoldable pub find_keyword : Bytes → List (Bytes × TokenType) → TokenType
find_keyword u [] = ident
find_keyword u ((word, type) ∷ words) =
    let later = find_keyword u words in if u =l= word then type else later

-- `ClassifyKeyword`
unfoldable pub classify_keyword : Bytes → TokenType
unfolding find_keyword keywords
classify_keyword u = find_keyword u keywords
