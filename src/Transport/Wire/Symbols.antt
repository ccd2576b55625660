-- ===== src/Transport/Wire/Symbols.antt =====
-- The formats of symbols and source locations.
use neri.Prelude.{refl, Option, arith}
use neri.Ir.SymbolKind
use neri.Ir.Model.{SymbolId, SourceLocation}
use neri.Transport.Reader.{Context}
use neri.Transport.Types.{read_symbol, read_source_location, read_location}
use neri.Transport.Format.Basic.{Format, Reads, done, part, pure-Reads, part-Reads}
use neri.Transport.Format.Words.{model_number, model_id-Reads, tag_word, tag_u8-Reads}
use neri.Transport.Format.Containers.{identity_text, identity-Reads}
use neri.Transport.Format.Collections.{optional, read_optional-Reads}

unfoldable pub symbol : Context → Format SymbolId
symbol x =
    part (λ s. s.module_id) (identity_text x)
      (part (λ s. s.kind) (tag_word 1 SymbolKind.domain)
        (part (λ s. s.semantic_name) (identity_text x) done))

pub read_symbol-Reads : (x : Context) → Reads (read_symbol x) (symbol x)
unfolding read_symbol symbol
read_symbol-Reads x = part-Reads (identity-Reads x) λ m _.
    part-Reads (tag_u8-Reads SymbolKind.domain) λ k _.
      part-Reads (identity-Reads x)
        λ n _. pure-Reads _ (((tt, refl), refl), refl) (λ b h. ground arith)

unfoldable pub source_location : Context → Format SourceLocation
source_location x =
    part (λ l. l.source_id) (identity_text x)
      (part (λ l. l.utf8_start) model_number (part (λ l. l.utf8_length) model_number done))

pub read_source_location-Reads : (x : Context) → Reads (read_source_location x) (source_location x)
unfolding read_source_location source_location
read_source_location-Reads x = part-Reads (identity-Reads x) λ m _. part-Reads model_id-Reads λ k _.
    part-Reads model_id-Reads λ n _. pure-Reads _ (((tt, refl), refl), refl) (λ b h. ground arith)

unfoldable pub location : Context → Format (Option SourceLocation)
location x = optional (source_location x)

pub read_location-Reads : (x : Context) → Reads (read_location x) (location x)
unfolding read_location location
read_location-Reads x = read_optional-Reads (read_source_location-Reads x)
