-- ===== src/Ir/Opcode.antt =====
-- `enum neri_ir_opcode_v1` of native/include/neri/ir_domains.h.
use neri.Prelude.{ℕ, ◌-◌, ◌≤◌, ◌≡◌, refl, List, [], ◌∷◌, arith, get_or}
use neri.Ir.Domain.{Domain, Numbered, Numbered-get_or}

pub data Opcode : Type 0 where
  constant int_neg_checked int_add_checked int_sub_checked int_mul_checked : Opcode
  int_div_checked float_neg float_add float_sub float_mul float_div bool_not bool_and : Opcode
  bool_or compare cast_int_to_float cast_float_to_int_checked : Opcode
  cast_int_to_byte_checked cast_byte_to_int class_upcast optional_none optional_some : Opcode
  optional_is_some optional_get_checked string_concat string_equal string_not_equal : Opcode
  call call_direct call_virtual call_import call_unsafe call_c_abi array_new : Opcode
  array_length array_load_checked array_store_checked object_alloc field_load : Opcode
  field_store unsafe_begin unsafe_end stack_alloc pointer_load pointer_store : Opcode
  pointer_offset pointer_difference pointer_compare pointer_cast native_alloc : Opcode
  native_realloc native_free borrow_begin borrow_end string_from_int string_from_byte : Opcode
  string_from_float numeric_cast_checked native_field_address : Opcode
  native_index_address_checked task_generate c_function_address call_c_indirect : Opcode
  array_generate worker_entry class_checked_cast : Opcode

-- The enumerator's value.
unfoldable pub wire : Opcode → ℕ
wire Opcode.constant = 1
wire Opcode.int_neg_checked = 2
wire Opcode.int_add_checked = 3
wire Opcode.int_sub_checked = 4
wire Opcode.int_mul_checked = 5
wire Opcode.int_div_checked = 6
wire Opcode.float_neg = 7
wire Opcode.float_add = 8
wire Opcode.float_sub = 9
wire Opcode.float_mul = 10
wire Opcode.float_div = 11
wire Opcode.bool_not = 12
wire Opcode.bool_and = 13
wire Opcode.bool_or = 14
wire Opcode.compare = 15
wire Opcode.cast_int_to_float = 16
wire Opcode.cast_float_to_int_checked = 17
wire Opcode.cast_int_to_byte_checked = 18
wire Opcode.cast_byte_to_int = 19
wire Opcode.class_upcast = 20
wire Opcode.optional_none = 21
wire Opcode.optional_some = 22
wire Opcode.optional_is_some = 23
wire Opcode.optional_get_checked = 24
wire Opcode.string_concat = 25
wire Opcode.string_equal = 26
wire Opcode.string_not_equal = 27
wire Opcode.call = 28
wire Opcode.call_direct = 29
wire Opcode.call_virtual = 30
wire Opcode.call_import = 31
wire Opcode.call_unsafe = 32
wire Opcode.call_c_abi = 33
wire Opcode.array_new = 34
wire Opcode.array_length = 35
wire Opcode.array_load_checked = 36
wire Opcode.array_store_checked = 37
wire Opcode.object_alloc = 38
wire Opcode.field_load = 39
wire Opcode.field_store = 40
wire Opcode.unsafe_begin = 41
wire Opcode.unsafe_end = 42
wire Opcode.stack_alloc = 43
wire Opcode.pointer_load = 44
wire Opcode.pointer_store = 45
wire Opcode.pointer_offset = 46
wire Opcode.pointer_difference = 47
wire Opcode.pointer_compare = 48
wire Opcode.pointer_cast = 49
wire Opcode.native_alloc = 50
wire Opcode.native_realloc = 51
wire Opcode.native_free = 52
wire Opcode.borrow_begin = 53
wire Opcode.borrow_end = 54
wire Opcode.string_from_int = 55
wire Opcode.string_from_byte = 56
wire Opcode.string_from_float = 57
wire Opcode.numeric_cast_checked = 58
wire Opcode.native_field_address = 59
wire Opcode.native_index_address_checked = 60
wire Opcode.task_generate = 61
wire Opcode.c_function_address = 62
wire Opcode.call_c_indirect = 63
wire Opcode.array_generate = 64
wire Opcode.worker_entry = 65
wire Opcode.class_checked_cast = 66

tags : List Opcode
tags =
    Opcode.constant ∷ Opcode.int_neg_checked ∷ Opcode.int_add_checked ∷ Opcode.int_sub_checked
    ∷ Opcode.int_mul_checked ∷ Opcode.int_div_checked ∷ Opcode.float_neg ∷ Opcode.float_add
    ∷ Opcode.float_sub ∷ Opcode.float_mul ∷ Opcode.float_div ∷ Opcode.bool_not ∷ Opcode.bool_and
    ∷ Opcode.bool_or ∷ Opcode.compare ∷ Opcode.cast_int_to_float ∷ Opcode.cast_float_to_int_checked
    ∷ Opcode.cast_int_to_byte_checked ∷ Opcode.cast_byte_to_int ∷ Opcode.class_upcast
    ∷ Opcode.optional_none ∷ Opcode.optional_some ∷ Opcode.optional_is_some
    ∷ Opcode.optional_get_checked ∷ Opcode.string_concat ∷ Opcode.string_equal
    ∷ Opcode.string_not_equal ∷ Opcode.call ∷ Opcode.call_direct ∷ Opcode.call_virtual
    ∷ Opcode.call_import ∷ Opcode.call_unsafe ∷ Opcode.call_c_abi ∷ Opcode.array_new
    ∷ Opcode.array_length ∷ Opcode.array_load_checked ∷ Opcode.array_store_checked
    ∷ Opcode.object_alloc ∷ Opcode.field_load ∷ Opcode.field_store ∷ Opcode.unsafe_begin
    ∷ Opcode.unsafe_end ∷ Opcode.stack_alloc ∷ Opcode.pointer_load ∷ Opcode.pointer_store
    ∷ Opcode.pointer_offset ∷ Opcode.pointer_difference ∷ Opcode.pointer_compare
    ∷ Opcode.pointer_cast ∷ Opcode.native_alloc ∷ Opcode.native_realloc ∷ Opcode.native_free
    ∷ Opcode.borrow_begin ∷ Opcode.borrow_end ∷ Opcode.string_from_int ∷ Opcode.string_from_byte
    ∷ Opcode.string_from_float ∷ Opcode.numeric_cast_checked ∷ Opcode.native_field_address
    ∷ Opcode.native_index_address_checked ∷ Opcode.task_generate ∷ Opcode.c_function_address
    ∷ Opcode.call_c_indirect ∷ Opcode.array_generate ∷ Opcode.worker_entry
    ∷ Opcode.class_checked_cast ∷ []

unfoldable pub cast : ℕ → Opcode
unfolding tags
cast n = get_or tags (n - 1) Opcode.constant

pub cast-wire : (t : Opcode) → cast (wire t) ≡ t
unfolding cast wire
cast-wire Opcode.constant = refl
cast-wire Opcode.int_neg_checked = refl
cast-wire Opcode.int_add_checked = refl
cast-wire Opcode.int_sub_checked = refl
cast-wire Opcode.int_mul_checked = refl
cast-wire Opcode.int_div_checked = refl
cast-wire Opcode.float_neg = refl
cast-wire Opcode.float_add = refl
cast-wire Opcode.float_sub = refl
cast-wire Opcode.float_mul = refl
cast-wire Opcode.float_div = refl
cast-wire Opcode.bool_not = refl
cast-wire Opcode.bool_and = refl
cast-wire Opcode.bool_or = refl
cast-wire Opcode.compare = refl
cast-wire Opcode.cast_int_to_float = refl
cast-wire Opcode.cast_float_to_int_checked = refl
cast-wire Opcode.cast_int_to_byte_checked = refl
cast-wire Opcode.cast_byte_to_int = refl
cast-wire Opcode.class_upcast = refl
cast-wire Opcode.optional_none = refl
cast-wire Opcode.optional_some = refl
cast-wire Opcode.optional_is_some = refl
cast-wire Opcode.optional_get_checked = refl
cast-wire Opcode.string_concat = refl
cast-wire Opcode.string_equal = refl
cast-wire Opcode.string_not_equal = refl
cast-wire Opcode.call = refl
cast-wire Opcode.call_direct = refl
cast-wire Opcode.call_virtual = refl
cast-wire Opcode.call_import = refl
cast-wire Opcode.call_unsafe = refl
cast-wire Opcode.call_c_abi = refl
cast-wire Opcode.array_new = refl
cast-wire Opcode.array_length = refl
cast-wire Opcode.array_load_checked = refl
cast-wire Opcode.array_store_checked = refl
cast-wire Opcode.object_alloc = refl
cast-wire Opcode.field_load = refl
cast-wire Opcode.field_store = refl
cast-wire Opcode.unsafe_begin = refl
cast-wire Opcode.unsafe_end = refl
cast-wire Opcode.stack_alloc = refl
cast-wire Opcode.pointer_load = refl
cast-wire Opcode.pointer_store = refl
cast-wire Opcode.pointer_offset = refl
cast-wire Opcode.pointer_difference = refl
cast-wire Opcode.pointer_compare = refl
cast-wire Opcode.pointer_cast = refl
cast-wire Opcode.native_alloc = refl
cast-wire Opcode.native_realloc = refl
cast-wire Opcode.native_free = refl
cast-wire Opcode.borrow_begin = refl
cast-wire Opcode.borrow_end = refl
cast-wire Opcode.string_from_int = refl
cast-wire Opcode.string_from_byte = refl
cast-wire Opcode.string_from_float = refl
cast-wire Opcode.numeric_cast_checked = refl
cast-wire Opcode.native_field_address = refl
cast-wire Opcode.native_index_address_checked = refl
cast-wire Opcode.task_generate = refl
cast-wire Opcode.c_function_address = refl
cast-wire Opcode.call_c_indirect = refl
cast-wire Opcode.array_generate = refl
cast-wire Opcode.worker_entry = refl
cast-wire Opcode.class_checked_cast = refl

pub wire_bounds : (t : Opcode) → (1 ≤ wire t) × (wire t ≤ 66)
unfolding wire
wire_bounds Opcode.constant = omega arith
wire_bounds Opcode.int_neg_checked = omega arith
wire_bounds Opcode.int_add_checked = omega arith
wire_bounds Opcode.int_sub_checked = omega arith
wire_bounds Opcode.int_mul_checked = omega arith
wire_bounds Opcode.int_div_checked = omega arith
wire_bounds Opcode.float_neg = omega arith
wire_bounds Opcode.float_add = omega arith
wire_bounds Opcode.float_sub = omega arith
wire_bounds Opcode.float_mul = omega arith
wire_bounds Opcode.float_div = omega arith
wire_bounds Opcode.bool_not = omega arith
wire_bounds Opcode.bool_and = omega arith
wire_bounds Opcode.bool_or = omega arith
wire_bounds Opcode.compare = omega arith
wire_bounds Opcode.cast_int_to_float = omega arith
wire_bounds Opcode.cast_float_to_int_checked = omega arith
wire_bounds Opcode.cast_int_to_byte_checked = omega arith
wire_bounds Opcode.cast_byte_to_int = omega arith
wire_bounds Opcode.class_upcast = omega arith
wire_bounds Opcode.optional_none = omega arith
wire_bounds Opcode.optional_some = omega arith
wire_bounds Opcode.optional_is_some = omega arith
wire_bounds Opcode.optional_get_checked = omega arith
wire_bounds Opcode.string_concat = omega arith
wire_bounds Opcode.string_equal = omega arith
wire_bounds Opcode.string_not_equal = omega arith
wire_bounds Opcode.call = omega arith
wire_bounds Opcode.call_direct = omega arith
wire_bounds Opcode.call_virtual = omega arith
wire_bounds Opcode.call_import = omega arith
wire_bounds Opcode.call_unsafe = omega arith
wire_bounds Opcode.call_c_abi = omega arith
wire_bounds Opcode.array_new = omega arith
wire_bounds Opcode.array_length = omega arith
wire_bounds Opcode.array_load_checked = omega arith
wire_bounds Opcode.array_store_checked = omega arith
wire_bounds Opcode.object_alloc = omega arith
wire_bounds Opcode.field_load = omega arith
wire_bounds Opcode.field_store = omega arith
wire_bounds Opcode.unsafe_begin = omega arith
wire_bounds Opcode.unsafe_end = omega arith
wire_bounds Opcode.stack_alloc = omega arith
wire_bounds Opcode.pointer_load = omega arith
wire_bounds Opcode.pointer_store = omega arith
wire_bounds Opcode.pointer_offset = omega arith
wire_bounds Opcode.pointer_difference = omega arith
wire_bounds Opcode.pointer_compare = omega arith
wire_bounds Opcode.pointer_cast = omega arith
wire_bounds Opcode.native_alloc = omega arith
wire_bounds Opcode.native_realloc = omega arith
wire_bounds Opcode.native_free = omega arith
wire_bounds Opcode.borrow_begin = omega arith
wire_bounds Opcode.borrow_end = omega arith
wire_bounds Opcode.string_from_int = omega arith
wire_bounds Opcode.string_from_byte = omega arith
wire_bounds Opcode.string_from_float = omega arith
wire_bounds Opcode.numeric_cast_checked = omega arith
wire_bounds Opcode.native_field_address = omega arith
wire_bounds Opcode.native_index_address_checked = omega arith
wire_bounds Opcode.task_generate = omega arith
wire_bounds Opcode.c_function_address = omega arith
wire_bounds Opcode.call_c_indirect = omega arith
wire_bounds Opcode.array_generate = omega arith
wire_bounds Opcode.worker_entry = omega arith
wire_bounds Opcode.class_checked_cast = omega arith

numbered : Numbered wire 1 tags
unfolding wire tags
numbered = omega arith

pub wire-cast : (n : ℕ) → 1 ≤ n → n ≤ 66 → wire (cast n) ≡ n
unfolding cast
wire-cast n h k =
    omega (arith, Numbered-get_or wire Opcode.constant 1 tags (n - 1) numbered (omega arith))

abbrev pub domain : Domain Opcode
domain = record {
  first = 1;
  last = 66;
  cast = cast;
  wire = wire;
  first-le = λ t. (wire_bounds t).0;
  le-last = λ t. (wire_bounds t).1;
  cast-wire = cast-wire;
  wire-cast = wire-cast;
}
