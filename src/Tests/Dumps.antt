-- ===== src/Tests/Dumps.antt =====
-- Reads of a class dump and of a root.
use rootforge.Prelude.{
  ℕ, zero, suc, ◌≡◌, refl, none, some, List, [], ◌∷◌, ◌++◌, length, ◌==◌, if◌then◌else◌,
}
use rootforge.Text.{text}
use rootforge.Hprof.Reader.{Reader, big_endian, split, must, unsigned, type_size, skip, read_value}
use rootforge.Hprof.Skips.{left_of, skip-must}
use rootforge.Hprof.Header.{open_dump}
use rootforge.Hprof.Opens.{open_dump-header}
use rootforge.Trigger.Scope.{NoNul}
use rootforge.Tests.Sample.{nonzero-NoNul}
use rootforge.Hprof.Moves.{Moves, read_value-ReadsType}
use rootforge.Hprof.Classes.{
  ClassInfo, Meta, read_class_dump, read_pool, read_statics, read_fields, update_class, put_class,
}
use rootforge.Hprof.Layout.{KeepsLayout, read_class_dump-KeepsLayout}

abbrev two_shorts : Reader
two_shorts = record { rest = 1 ∷ 2 ∷ 3 ∷ []; pos = 40 }

read_value-ReadsType_example :
    (bytes : List ℕ) × Moves two_shorts (record { rest = 3 ∷ []; pos = 42 }) bytes
    × (type_size 9 ≡ some (length bytes))
    × (258 ≡ big_endian 0 bytes)
unfolding read_value unsigned must split big_endian
read_value-ReadsType_example =
    read_value-ReadsType 9 two_shorts 258 (record { rest = 3 ∷ []; pos = 42 }) refl

-- A class that has been flattened, and its dump with no constants, statics or fields.
abbrev flat : ClassInfo
flat = record {
  id = 1;
  name = text "A";
  super = 0;
  inst_size = 8;
  fields = [];
  statics = [];
  layout = some (record { name = text "f"; typ = 2 } ∷ []);
}

abbrev one_class : Meta
one_class = record { strings = λ k. []; classes = λ k. if k == 1 then some flat else none }

abbrev zeros : ℕ → List ℕ
zeros zero = []
zeros (suc n) = 0 ∷ zeros n

abbrev dumped : Reader
dumped = record { rest = zeros 7 ++ (1 ∷ zeros 62); pos = 100 }

abbrev reread : ClassInfo
reread = update_class 0 0 [] [] flat

read_class_dump-KeepsLayout_example : KeepsLayout one_class (put_class reread 1 one_class)
unfolding read_class_dump read_pool read_statics read_fields unsigned must split big_endian
read_class_dump-KeepsLayout_example =
    read_class_dump-KeepsLayout one_class dumped reread (put_class reread 1 one_class)
      (record { rest = []; pos = 170 }) refl

skip-must_example : skip 2 two_shorts ≡ left_of (must 2 two_shorts)
skip-must_example = skip-must 2 two_shorts

version-NoNul : NoNul (text "JAVA PROFILE" ++ text " 1")
version-NoNul = nonzero-NoNul (text "JAVA PROFILE" ++ text " 1") refl

open_dump-header_example :
    open_dump (record {
      rest = (text "JAVA PROFILE" ++ text " 1") ++ (0 ∷ 0 ∷ 0 ∷ 0 ∷ 8 ∷ (zeros 7 ++ (3 ∷ 44 ∷ [])));
      pos = 0;
    })
    ≡ some (big_endian 0 (zeros 7 ++ (3 ∷ [])), record { rest = 44 ∷ []; pos = 27 })
open_dump-header_example =
    open_dump-header (text " 1") (zeros 7 ++ (3 ∷ [])) (44 ∷ []) 0 version-NoNul refl
