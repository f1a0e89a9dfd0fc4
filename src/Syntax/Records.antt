-- ===== src/Syntax/Records.antt =====
-- The structs of src/stacky.hh. A text is the list of its bytes, an `unsigned` or a `uint64_t` a
-- native number. `Operation::word` points into the dictionary: the model keeps the entry's key.
use stacky.Common.{ℕ, ◌-◌, ◌^◌, Bool, false, Option, none, List, []}
use stacky.Syntax.Kinds.{
  KeywordKind, IntrinsicKind, TokenKind, TypeKind, OperationKind, WordKind, SymbolPrefix,
}

abbrev pub Text : Type 0
Text = List ℕ

pub record Location : Type 0 where
  pub file : Text
  pub column : ℕ
  pub line : ℕ
  pub function_name : Text

unfoldable pub with_function : Text → Location → Location
with_function fname loc = record loc { function_name = fname }

pub record Token : Type 0 where
  pub location : Location
  pub kind : TokenKind
  pub sval : Text
  pub ival : ℕ
  pub kval : KeywordKind
  pub byte_size : ℕ

pub record StackType : Type 0 where
  pub kind : TypeKind
  pub var : ℕ
  pub location : Location

unfoldable pub with_location : Location → StackType → StackType
with_location loc type = record type { location = loc }

-- The top of a `Typestack` (the back of the vector) is the head of the list.
abbrev pub Typestack : Type 0
Typestack = List StackType

pub record StackEffect : Type 0 where
  pub input : Typestack
  pub output : Typestack

pub record Operation : Type 0 where
  pub kind : OperationKind
  pub token : Token
  pub ival : ℕ
  pub sval : Text
  pub intrinsic : IntrinsicKind
  pub word : Option Text
  pub jump : ℕ
  pub symbol_prefix : SymbolPrefix
  pub type : StackType
  pub location : Location

pub record Word : Type 0 where
  pub kind : WordKind
  pub ival : ℕ
  pub intrinsic : IntrinsicKind
  pub byte_size : ℕ
  pub id : ℕ
  pub function_body : List Operation
  pub has_effect : Bool
  pub effect : StackEffect
  pub is_dynamically_typed : Bool
  pub location : Location
  pub function_name : Text

-- `Operation::Empty_Jump`, an `unsigned` -1.
abbrev pub empty_jump : ℕ
empty_jump = 2 ^ 32 - 1

-- What value-initialisation gives each struct, and the default member initialisers.
abbrev pub no_location : Location
no_location = record { file = []; column = 0; line = 0; function_name = [] }

abbrev pub no_token : Token
no_token = record {
  location = no_location;
  kind = TokenKind.word;
  sval = [];
  ival = 2 ^ 64 - 1;
  kval = KeywordKind.end;
  byte_size = 0;
}

abbrev pub type_of_kind : TypeKind → StackType
type_of_kind k = record { kind = k; var = 2 ^ 32 - 1; location = no_location }

abbrev pub new_operation : OperationKind → Operation
new_operation k = record {
  kind = k;
  token = no_token;
  ival = 0;
  sval = [];
  intrinsic = IntrinsicKind.add;
  word = none;
  jump = empty_jump;
  symbol_prefix = SymbolPrefix.unset;
  type = type_of_kind TypeKind.int;
  location = no_location;
}

abbrev pub new_word : Word
new_word = record {
  kind = WordKind.intrinsic;
  ival = 0;
  intrinsic = IntrinsicKind.add;
  byte_size = 0;
  id = 0;
  function_body = [];
  has_effect = false;
  effect = record { input = []; output = [] };
  is_dynamically_typed = false;
  location = no_location;
  function_name = [];
}
