-- ===== src/Transport/Wire/Types.antt =====
-- The formats of types, one level of nesting at a time.
use neri.Prelude.{
  ℕ, zero, suc, ◌+◌, ◌-◌, subst, ◌≤◌, ◌≡◌, refl, sym, not, List, [], ◌∷◌, Option, none, some, arith,
  length, length-append, append-nil, ◌++◌, ap,
}
use neri.Ir.TypeTag.{TypeTag}
use neri.Ir.Feature.{Feature}
use neri.Ir.SymbolKind.{SymbolKind}
use neri.Ir.Model.{SymbolId, IrType, ir_type, IrTypes, no_types, more_types}
use neri.Transport.Reader.{ErrorKind, Context, Reader, ◌>>=◌, u8, u32, pure}
use neri.Transport.Types.{
  of_list, too_old, read_symbol, read_type_body, read_type_levels, read_type, decode_type_tag,
}
use neri.Transport.Cursor.{read_n, count}
use neri.Transport.Format.Basic.{
  Format, ReadsWhen, Reads, done, part, pure-Reads, part-Reads, part-When, via, offset-Reads,
  assoc-Reads,
}
use neri.Transport.Format.Words.{word, le_bytes, u32-Reads}
use neri.Transport.Format.Containers.{size_within, bounded-Reads}
use neri.Transport.Format.Collections.{items, encode_items, length-le-items, read_n-Reads}
use neri.Transport.Format.Choice.{
  nothing, shaped, shaped-Reads, gate, gate-Reads, choose, choose-Reads, fail-Reads,
}
use neri.Transport.Wire.Symbols.{symbol, read_symbol-Reads}
use neri.Transport.Wire.Tags.{type_tag, type_tag-Reads}

abbrev pub tag_of : IrType → TypeTag
tag_of (ir_type tag s args n) = tag

abbrev pub no_symbol : SymbolId
no_symbol = record { module_id = []; kind = SymbolKind.class; semantic_name = [] }

abbrev pub no_type : IrType
no_type = ir_type TypeTag.void none no_types 0

abbrev pub symbol_or : Option SymbolId → SymbolId
symbol_or none = no_symbol
symbol_or (some s) = s

abbrev pub symbol_of : IrType → SymbolId
symbol_of (ir_type tag s args n) = symbol_or s

abbrev pub first_or : IrTypes → IrType
first_or no_types = no_type
first_or (more_types t ts) = t

abbrev pub to_list : IrTypes → List IrType
to_list no_types = []
to_list (more_types t ts) = t ∷ to_list ts

abbrev pub rest_or : IrTypes → List IrType
rest_or no_types = []
rest_or (more_types t ts) = to_list ts

abbrev pub first_of : IrType → IrType
first_of (ir_type tag s args n) = first_or args

abbrev pub rest_of : IrType → List IrType
rest_of (ir_type tag s args n) = rest_or args

abbrev pub count_of : IrType → ℕ
count_of (ir_type tag s args n) = n

to_list-of_list : (ts : List IrType) → to_list (of_list ts) ≡ ts
unfolding of_list
to_list-of_list [] = refl
to_list-of_list (t ∷ ts) = ap (◌∷◌ t) (to_list-of_list ts)

-- A type with nothing but its tag.
unfoldable pub plain_body : TypeTag → Format IrType
plain_body tag = shaped (λ t. t ≡ ir_type tag none no_types 0) done

plain-Reads :
    (tag : TypeTag)
    → ReadsWhen
        (λ t. Unit {0} × (tag_of t ≡ tag))
        (pure (ir_type tag none no_types 0))
        (plain_body tag)
unfolding plain_body
plain-Reads tag = shaped-Reads (pure-Reads _ refl (λ b h. h)) (λ t h. (tt, ap tag_of h))

-- A type with a symbol.
unfoldable pub symbol_body : Context → TypeTag → Format IrType
symbol_body x tag =
    shaped (λ t. t ≡ ir_type tag (some (symbol_of t)) no_types 0) (part symbol_of (symbol x) done)

symbol_body-Reads :
    (x : Context) (tag : TypeTag)
    → ReadsWhen
        (λ t. Unit {0} × (tag_of t ≡ tag))
        (read_symbol x >>= λ s. pure (ir_type tag (some s) no_types 0))
        (symbol_body x tag)
unfolding symbol_body
symbol_body-Reads x tag =
    shaped-Reads
      (part-Reads (read_symbol-Reads x) λ s _. pure-Reads _ (refl, refl) (λ b h. rw (← h.1) h.0))
      (λ t h. (tt, ap tag_of h))

-- A type with one argument.
unfoldable pub nested_body : Format IrType → TypeTag → Format IrType
nested_body f tag =
    shaped (λ t. t ≡ ir_type tag none (more_types (first_of t) no_types) 0) (part first_of f done)

nested_body-Reads :
    {nested : Reader IrType} {f : Format IrType} (tag : TypeTag)
    → Reads nested f
    → ReadsWhen
        (λ t. Unit {0} × (tag_of t ≡ tag))
        (nested >>= λ element. pure (ir_type tag none (more_types element no_types) 0))
        (nested_body f tag)
unfolding nested_body
nested_body-Reads tag first =
    shaped-Reads (part-Reads first λ s _. pure-Reads _ (refl, refl) (λ b h. rw (← h.1) h.0))
      (λ t h. (tt, ap tag_of h))

-- A fixed array: its length, then its element.
unfoldable pub fixed_body : Format IrType → Format IrType
fixed_body f =
    shaped
      (λ t. t ≡ ir_type TypeTag.fixed_array none (more_types (first_of t) no_types) (count_of t))
      (part count_of (word 4) (part first_of f done))

fixed_body-Reads :
    {nested : Reader IrType} {f : Format IrType}
    → Reads nested f
    → ReadsWhen
        (λ t. Unit {0} × (tag_of t ≡ TypeTag.fixed_array))
        (u32 >>= λ n. nested >>= λ element.
          pure (ir_type TypeTag.fixed_array none (more_types element no_types) n))
        (fixed_body f)
unfolding fixed_body
fixed_body-Reads first =
    shaped-Reads
      (part-Reads u32-Reads λ n _.
        part-Reads first
          λ s _. pure-Reads _ ((refl, refl), refl) (λ b h. rw (← h.0.1, ← h.1) h.0.0))
      (λ t h. (tt, ap tag_of h))

-- A C function: the number of its parameters, then its result and the parameters.
unfoldable pub c_function_body : Context → Format IrType → Format IrType
c_function_body x f =
    shaped
      (λ t. t ≡ ir_type TypeTag.c_function none (more_types (first_of t) (of_list (rest_of t))) 0)
      (part (λ t. length (rest_of t)) (size_within x.max_collection_count)
        (part first_of f (part rest_of (items f) done)))

c_function_body-Reads :
    (x : Context) {nested : Reader IrType} {f : Format IrType}
    → ((a : IrType) → f.Valid a → 1 ≤ length (f.encode a))
    → Reads nested f
    → ReadsWhen
        (λ t. Unit {0} × (tag_of t ≡ TypeTag.c_function))
        (count x >>= λ n. nested >>= λ result. read_n n nested >>= λ parameters.
          pure (ir_type TypeTag.c_function none (more_types result (of_list parameters)) 0))
        (c_function_body x f)
unfolding c_function_body count part done items
c_function_body-Reads x {f} some_byte first =
    shaped-Reads
      (bounded-Reads x.max_collection_count (λ t. length (rest_of t))
        (λ a hc valid. omega (
          arith,
          length-le-items f some_byte (rest_of a) valid.1.0,
          length-append (f.encode (first_of a)) (encode_items f.encode (rest_of a) ++ []),
          ap length (append-nil (encode_items f.encode (rest_of a))),
        ))
        λ n. part-Reads first λ r _.
          part-When (read_n-Reads n first) (λ a h. (tt, h.0.1))
            λ ps len _.
              pure-Reads _
                (
                  (
                    (
                      ap (λ l. ir_type TypeTag.c_function none (more_types r (of_list l)) 0)
                          (sym (to_list-of_list ps)),
                      rw (to_list-of_list ps) len.1,
                    ),
                    refl,
                  ),
                  to_list-of_list ps,
                )
                (λ b h. rw (← h.0.1, ← h.1) h.0.0.0))
      (λ t h. (tt, ap tag_of h))

-- What follows each tag, with the features that it needs; `f` is the format one level down.
unfoldable pub type_body : Context → Format IrType → TypeTag → Format IrType
type_body x f TypeTag.void = plain_body TypeTag.void
type_body x f TypeTag.bool = plain_body TypeTag.bool
type_body x f TypeTag.byte = plain_body TypeTag.byte
type_body x f TypeTag.int = plain_body TypeTag.int
type_body x f TypeTag.float = plain_body TypeTag.float
type_body x f TypeTag.string = plain_body TypeTag.string
type_body x f TypeTag.unsafe_capability = plain_body TypeTag.unsafe_capability
type_body x f TypeTag.int32 = gate (too_old x Feature.extended_scalars) (plain_body TypeTag.int32)
type_body x f TypeTag.uint32 = gate (too_old x Feature.extended_scalars) (plain_body TypeTag.uint32)
type_body x f TypeTag.uint64 = gate (too_old x Feature.extended_scalars) (plain_body TypeTag.uint64)
type_body x f TypeTag.float32 =
    gate (too_old x Feature.extended_scalars) (plain_body TypeTag.float32)
type_body x f TypeTag.class = symbol_body x TypeTag.class
type_body x f TypeTag.native_record =
    gate (too_old x Feature.native_records) (symbol_body x TypeTag.native_record)
type_body x f TypeTag.fixed_array = gate (too_old x Feature.native_records) (fixed_body f)
type_body x f TypeTag.c_function = gate (not x.c_interop) (c_function_body x f)
type_body x f TypeTag.array = nested_body f TypeTag.array
type_body x f TypeTag.optional = nested_body f TypeTag.optional
type_body x f TypeTag.pointer = nested_body f TypeTag.pointer
type_body x f TypeTag.borrow_capability = nested_body f TypeTag.borrow_capability

type_body-Reads :
    (x : Context) {nested : Reader IrType} {f : Format IrType} (o : ℕ) (tag : TypeTag)
    → ((a : IrType) → f.Valid a → 1 ≤ length (f.encode a))
    → Reads nested f
    → ReadsWhen
        (λ t. Unit {0} × (tag_of t ≡ tag))
        (read_type_body x nested o tag)
        (type_body x f tag)
unfolding read_type_body type_body
type_body-Reads x o TypeTag.void some_byte first = plain-Reads TypeTag.void
type_body-Reads x o TypeTag.bool some_byte first = plain-Reads TypeTag.bool
type_body-Reads x o TypeTag.byte some_byte first = plain-Reads TypeTag.byte
type_body-Reads x o TypeTag.int some_byte first = plain-Reads TypeTag.int
type_body-Reads x o TypeTag.float some_byte first = plain-Reads TypeTag.float
type_body-Reads x o TypeTag.string some_byte first = plain-Reads TypeTag.string
type_body-Reads x o TypeTag.unsafe_capability some_byte first =
    plain-Reads TypeTag.unsafe_capability
type_body-Reads x o TypeTag.int32 some_byte first =
    gate-Reads (too_old x Feature.extended_scalars) ErrorKind.unsupported_feature o
      (plain-Reads TypeTag.int32)
type_body-Reads x o TypeTag.uint32 some_byte first =
    gate-Reads (too_old x Feature.extended_scalars) ErrorKind.unsupported_feature o
      (plain-Reads TypeTag.uint32)
type_body-Reads x o TypeTag.uint64 some_byte first =
    gate-Reads (too_old x Feature.extended_scalars) ErrorKind.unsupported_feature o
      (plain-Reads TypeTag.uint64)
type_body-Reads x o TypeTag.float32 some_byte first =
    gate-Reads (too_old x Feature.extended_scalars) ErrorKind.unsupported_feature o
      (plain-Reads TypeTag.float32)
type_body-Reads x o TypeTag.class some_byte first = symbol_body-Reads x TypeTag.class
type_body-Reads x o TypeTag.native_record some_byte first =
    gate-Reads (too_old x Feature.native_records) ErrorKind.unsupported_feature o
      (symbol_body-Reads x TypeTag.native_record)
type_body-Reads x o TypeTag.fixed_array some_byte first =
    gate-Reads (too_old x Feature.native_records) ErrorKind.unsupported_feature o
      (fixed_body-Reads first)
type_body-Reads x o TypeTag.c_function some_byte first =
    gate-Reads (not x.c_interop) ErrorKind.unsupported_feature o
      (c_function_body-Reads x some_byte first)
type_body-Reads x o TypeTag.array some_byte first = nested_body-Reads TypeTag.array first
type_body-Reads x o TypeTag.optional some_byte first = nested_body-Reads TypeTag.optional first
type_body-Reads x o TypeTag.pointer some_byte first = nested_body-Reads TypeTag.pointer first
type_body-Reads x o TypeTag.borrow_capability some_byte first =
    nested_body-Reads TypeTag.borrow_capability first

-- A type of at most `levels` levels of nesting.
unfoldable pub type_levels : Context → ℕ → Format IrType
type_levels x zero = nothing
type_levels x (suc levels) =
    part tag_of type_tag (choose tag_of (type_body x (type_levels x levels)))

some_byte :
    (x : Context) (levels : ℕ) (t : IrType)
    → (type_levels x levels).Valid t
    → 1 ≤ length ((type_levels x levels).encode t)
unfolding type_levels nothing part type_tag via word le_bytes
some_byte x zero t h = absurd h
some_byte x (suc levels) t h = omega arith

pub type_levels-Reads :
    (x : Context) (levels : ℕ) → Reads (read_type_levels x levels) (type_levels x levels)
unfolding read_type_levels type_levels
type_levels-Reads x zero = offset-Reads λ o. fail-Reads ErrorKind.malformed_module o
type_levels-Reads x (suc levels) = offset-Reads λ o.
    assoc-Reads u8 (λ tag. decode_type_tag tag o) _
      (part-Reads (type_tag-Reads o) λ tag _.
        choose-Reads (type_body x (type_levels x levels)) tag
          (type_body-Reads x o tag (some_byte x levels) (type_levels-Reads x levels)))

-- A type within the nesting limit.
unfoldable pub type_within : Context → Format IrType
type_within x = type_levels x (x.max_nesting_depth + 1)

levels_at_zero : (n : ℕ) → n + 1 ≡ n + 1 - 0
levels_at_zero n = omega arith

pub read_type-Reads : (x : Context) → Reads (read_type x) (type_within x)
unfolding read_type type_within
read_type-Reads x =
    subst (λ n. Reads (read_type_levels x n) (type_levels x (x.max_nesting_depth + 1)))
      (levels_at_zero x.max_nesting_depth) (type_levels-Reads x (x.max_nesting_depth + 1))

pub type_within_bytes :
    (x : Context) (t : IrType) → (type_within x).Valid t → 1 ≤ length ((type_within x).encode t)
unfolding type_within
type_within_bytes x t h = some_byte x (x.max_nesting_depth + 1) t h
