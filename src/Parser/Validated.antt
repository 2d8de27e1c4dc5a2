-- ===== src/Parser/Validated.antt =====
-- crates/parser/src/lib.rs: delimiters that `validate_delimiters` accepts are neither empty nor long.
use locus.Base.{◌≤◌, ◌≡◌, arith, [], ◌∷◌}
use locus.Base.Lists.{length}
use locus.Base.Results.{ok}
use locus.Parser.{Bytes, validate_delimiters, max_delimiter_bytes}

-- What `validate_delimiters` accepts.
pub record IsValidated (start end : Bytes) : Type 0 where
  pub start_nonempty : 1 ≤ length start
  pub end_nonempty : 1 ≤ length end
  pub start_short : length start ≤ max_delimiter_bytes
  pub end_short : length end ≤ max_delimiter_bytes

pub validate_delimiters-IsValidated :
    (start end : Bytes) → validate_delimiters start end ≡ ok tt → IsValidated start end
unfolding validate_delimiters
validate_delimiters-IsValidated [] end e = absurd (ground arith)
validate_delimiters-IsValidated (a ∷ s) [] e = absurd (ground arith)
validate_delimiters-IsValidated (a ∷ s) (b ∷ t) e = record {
  start_nonempty = omega arith;
  end_nonempty = omega arith;
  start_short = ground arith;
  end_short = ground arith;
}
