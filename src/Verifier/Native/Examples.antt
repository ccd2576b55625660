-- ===== src/Verifier/Native/Examples.antt =====
-- A record with a byte, an integer and an array, laid out by native/codegen/native_layout.h.
use neri.Prelude.{ℕ, ◌≡◌, refl, List, [], ◌∷◌, none, some, false}
use neri.Ir.Model.{IrType, ir_type, no_types, more_types, SymbolId, Field, NativeRecord, IrModule}
use neri.Ir.Access.{Access}
use neri.Ir.SymbolKind.{SymbolKind}
use neri.Ir.SymbolKind
use neri.Ir.TypeTag.{TypeTag}
use neri.Ir.TypeTag
use neri.Transport.Reader.{ok}
use neri.Verifier.Types.{plain, is_tag, c_bits}
use neri.Verifier.Pointers.{declaration}
use neri.Verifier.Body.Sample.{whole}
use neri.Verifier.Native.Layout.{
  NativeLayout, Layouts, Laid, no_layouts, visit_record, align_up, place_field, lay_record,
  complete, record_layout, array_layout, scalar_layout, inline_layout, layout_levels, layout,
}
use neri.Verifier.Native.Sound.{Good, AllGood, Places, Members}
use neri.Verifier.Native.Levels.{layout-Good, record-Places}

abbrev named : SymbolKind → ℕ → SymbolId
named kind n = record { module_id = 109 ∷ []; kind = kind; semantic_name = n ∷ [] }

abbrev field : ℕ → IrType → Field
field n t = record {
  id = named SymbolKind.field n;
  value_type = t;
  access = Access.public;
  location = none;
}

-- Three words of 32 bits.
abbrev words : IrType
words = ir_type TypeTag.fixed_array none (more_types (plain TypeTag.int32) no_types) 3

abbrev point : NativeRecord
point = record {
  id = named SymbolKind.native_record 80;
  is_union = false;
  fields = field 97 (plain TypeTag.byte) ∷ field 98 (plain TypeTag.int) ∷ field 99 words ∷ [];
}

abbrev records : IrModule
records = record whole { native_records = point ∷ [] }

abbrev point_type : IrType
point_type = ir_type TypeTag.native_record (some (named SymbolKind.native_record 80)) no_types 0

abbrev point_layout : Laid
point_layout =
    let l : NativeLayout = record { size = 32; alignment = 8; offsets = 0 ∷ 8 ∷ 16 ∷ [] } in
    (l, record { completed = (80 ∷ [], l) ∷ []; visiting = [] })

laid_out : layout records point_type no_layouts ≡ ok point_layout
unfolding layout layout_levels inline_layout record_layout lay_record complete place_field align_up
    array_layout scalar_layout declaration is_tag c_bits TypeTag.wire SymbolKind.wire
laid_out = refl

layout-Good_example : Good point_layout.0 × AllGood (Layouts.completed point_layout.1)
layout-Good_example = layout-Good records point_type no_layouts point_layout tt laid_out

record_laid_out : lay_record (layout_levels records 127) point no_layouts ≡ ok point_layout
unfolding layout_levels inline_layout lay_record complete place_field align_up array_layout
    scalar_layout is_tag c_bits TypeTag.wire
record_laid_out = refl

record-Places_example :
    (ls : List NativeLayout) × (t : Layouts) × Members
      (layout_levels records 127)
      point.fields
      ls
      (visit_record (80 ∷ []) no_layouts)
      t
    × Places false 0 (0 ∷ 8 ∷ 16 ∷ []) ls 32
record-Places_example = record-Places records 127 point no_layouts point_layout tt record_laid_out
