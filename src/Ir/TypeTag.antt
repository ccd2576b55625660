-- ===== src/Ir/TypeTag.antt =====
-- `enum neri_ir_type_tag_v1` of native/include/neri/ir_domains.h.
-- Its values are sparse, so there is no contiguous domain.
use neri.Prelude.{ℕ, ◌≡◌, refl, sym, ap, ◌∙◌, ◌==◌, if◌then◌else◌}

pub data TypeTag : Type 0 where
  void bool byte int float string int32 uint32 uint64 float32 array class optional : TypeTag
  pointer native_record fixed_array c_function unsafe_capability borrow_capability : TypeTag

-- The enumerator's value.
unfoldable pub wire : TypeTag → ℕ
wire TypeTag.void = 1
wire TypeTag.bool = 2
wire TypeTag.byte = 3
wire TypeTag.int = 4
wire TypeTag.float = 5
wire TypeTag.string = 6
wire TypeTag.int32 = 7
wire TypeTag.uint32 = 8
wire TypeTag.uint64 = 9
wire TypeTag.float32 = 10
wire TypeTag.array = 16
wire TypeTag.class = 17
wire TypeTag.optional = 18
wire TypeTag.pointer = 19
wire TypeTag.native_record = 20
wire TypeTag.fixed_array = 21
wire TypeTag.c_function = 22
wire TypeTag.unsafe_capability = 32
wire TypeTag.borrow_capability = 33

-- The tag of a number; `void` where there is none.
number_tag : ℕ → TypeTag
number_tag n =
    if n == 2
    then TypeTag.bool
    else if n == 3
    then TypeTag.byte
    else if n == 4
    then TypeTag.int
    else if n == 5
    then TypeTag.float
    else if n == 6
    then TypeTag.string
    else if n == 7
    then TypeTag.int32
    else if n == 8
    then TypeTag.uint32
    else if n == 9
    then TypeTag.uint64
    else if n == 10
    then TypeTag.float32
    else if n == wire TypeTag.array
    then TypeTag.array
    else if n == wire TypeTag.class
    then TypeTag.class
    else if n == wire TypeTag.optional
    then TypeTag.optional
    else if n == wire TypeTag.pointer
    then TypeTag.pointer
    else if n == wire TypeTag.native_record
    then TypeTag.native_record
    else if n == wire TypeTag.fixed_array
    then TypeTag.fixed_array
    else if n == wire TypeTag.c_function
    then TypeTag.c_function
    else if n == wire TypeTag.unsafe_capability
    then TypeTag.unsafe_capability
    else if n == wire TypeTag.borrow_capability
    then TypeTag.borrow_capability
    else TypeTag.void

number_tag-wire : (t : TypeTag) → number_tag (wire t) ≡ t
unfolding number_tag wire
number_tag-wire TypeTag.void = refl
number_tag-wire TypeTag.bool = refl
number_tag-wire TypeTag.byte = refl
number_tag-wire TypeTag.int = refl
number_tag-wire TypeTag.float = refl
number_tag-wire TypeTag.string = refl
number_tag-wire TypeTag.int32 = refl
number_tag-wire TypeTag.uint32 = refl
number_tag-wire TypeTag.uint64 = refl
number_tag-wire TypeTag.float32 = refl
number_tag-wire TypeTag.array = refl
number_tag-wire TypeTag.class = refl
number_tag-wire TypeTag.optional = refl
number_tag-wire TypeTag.pointer = refl
number_tag-wire TypeTag.native_record = refl
number_tag-wire TypeTag.fixed_array = refl
number_tag-wire TypeTag.c_function = refl
number_tag-wire TypeTag.unsafe_capability = refl
number_tag-wire TypeTag.borrow_capability = refl

pub wire_injective : (t u : TypeTag) → wire t ≡ wire u → t ≡ u
wire_injective t u e = sym (number_tag-wire t) ∙ ap number_tag e ∙ number_tag-wire u
