-- ===== src/Transport/Wire/Tags.antt =====
-- The type tags on the wire.
use neri.Prelude.{ℕ, ◌<◌, ◌≡◌, refl, arith}
use neri.Ir.TypeTag
use neri.Ir.TypeTag.{TypeTag}
use neri.Transport.Reader.{Cursor, ok, fail, pure, ◌>>=◌, u8}
use neri.Transport.Types.{decode_type_tag}
use neri.Transport.Format.Basic.{Format, Reads, Always, via, via-Reads}
use neri.Transport.Format.Words.{word, u8-Reads}

unfoldable pub type_tag : Format TypeTag
unfolding via word
type_tag = via TypeTag.wire (word 1) Always

decode-back :
    (y o : ℕ) (c : Cursor) (a : TypeTag) (c' : Cursor)
    → decode_type_tag y o c ≡ ok (a, c')
    → (TypeTag.wire a ≡ y) × (c' ≡ c)
unfolding decode_type_tag TypeTag.wire fail pure
decode-back y o c a c' e = ground arith

decode-forth : (o : ℕ) (a : TypeTag) (c : Cursor) → decode_type_tag (TypeTag.wire a) o c ≡ ok (a, c)
unfolding decode_type_tag TypeTag.wire fail pure
decode-forth o TypeTag.void c = refl
decode-forth o TypeTag.bool c = refl
decode-forth o TypeTag.byte c = refl
decode-forth o TypeTag.int c = refl
decode-forth o TypeTag.float c = refl
decode-forth o TypeTag.string c = refl
decode-forth o TypeTag.int32 c = refl
decode-forth o TypeTag.uint32 c = refl
decode-forth o TypeTag.uint64 c = refl
decode-forth o TypeTag.float32 c = refl
decode-forth o TypeTag.array c = refl
decode-forth o TypeTag.class c = refl
decode-forth o TypeTag.optional c = refl
decode-forth o TypeTag.pointer c = refl
decode-forth o TypeTag.native_record c = refl
decode-forth o TypeTag.fixed_array c = refl
decode-forth o TypeTag.c_function c = refl
decode-forth o TypeTag.unsafe_capability c = refl
decode-forth o TypeTag.borrow_capability c = refl

wire-lt : (a : TypeTag) → TypeTag.wire a < 256
unfolding TypeTag.wire
wire-lt TypeTag.void = omega arith
wire-lt TypeTag.bool = omega arith
wire-lt TypeTag.byte = omega arith
wire-lt TypeTag.int = omega arith
wire-lt TypeTag.float = omega arith
wire-lt TypeTag.string = omega arith
wire-lt TypeTag.int32 = omega arith
wire-lt TypeTag.uint32 = omega arith
wire-lt TypeTag.uint64 = omega arith
wire-lt TypeTag.float32 = omega arith
wire-lt TypeTag.array = omega arith
wire-lt TypeTag.class = omega arith
wire-lt TypeTag.optional = omega arith
wire-lt TypeTag.pointer = omega arith
wire-lt TypeTag.native_record = omega arith
wire-lt TypeTag.fixed_array = omega arith
wire-lt TypeTag.c_function = omega arith
wire-lt TypeTag.unsafe_capability = omega arith
wire-lt TypeTag.borrow_capability = omega arith

pub type_tag-Reads : (o : ℕ) → Reads (u8 >>= λ tag. decode_type_tag tag o) type_tag
unfolding type_tag via word
type_tag-Reads o =
    via-Reads TypeTag.wire Always (λ tag. decode_type_tag tag o) u8-Reads
      (λ y c a c' valid e. let (same, stay) = decode-back y o c a c' e in (tt, same, stay))
      (λ a c valid. (wire-lt a, decode-forth o a c))
