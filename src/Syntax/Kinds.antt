-- ===== src/Syntax/Kinds.antt =====
-- The enumerations of src/stacky.hh. A C++ enumerator `Two_Dup` is the constructor `two_dup`; one
-- that is a reserved word here has a `_` behind it.

pub data KeywordKind : Type 0 where
  end if_ else_ while do_ include import return bool dynamic : KeywordKind
  typename stack_effect_definition stack_effect_divider : KeywordKind
  array constant function : KeywordKind

pub data IntrinsicKind : Type 0 where
  add bitwise_and bitwise_or bitwise_xor boolean_and boolean_negate boolean_or : IntrinsicKind
  div div_mod equal greater greater_eq left_shift less less_eq max min mod_ mul : IntrinsicKind
  not_equal random32 random64 right_shift subtract : IntrinsicKind
  drop dup over rot swap tuck two_dup two_drop two_over two_swap : IntrinsicKind
  load store top call : IntrinsicKind
  argv argc syscall : IntrinsicKind

pub data TokenKind : Type 0 where
  word integer string char keyword address_of : TokenKind

pub data TypeKind : Type 0 where
  int bool pointer any variable : TypeKind

pub data OperationKind : Type 0 where
  intrinsic push_symbol push_int call_symbol cast end if_ else_ while do_ return : OperationKind

pub data WordKind : Type 0 where
  intrinsic integer array function : WordKind

-- The prefixes of generated labels (`Function_Prefix` and the others); `unset` is the empty view.
pub data SymbolPrefix : Type 0 where
  unset function_prefix string_prefix symbol_prefix : SymbolPrefix
