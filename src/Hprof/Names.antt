-- ===== src/Hprof/Names.antt =====
-- normalizeClassName, argsOf and lineLabel of heapdump/hprofx/hprof.go.
pub mod Types
use rootforge.Prelude.{
  ℕ, zero, suc, ◌-◌, ◌^◌, Option, none, some, List, [], ◌∷◌, ◌++◌, map, ◌==◌, ltb, if◌then◌else◌,
}
use rootforge.Text.{Text, text}

-- strings.ReplaceAll(s, "/", ".").
unfoldable pub dotted : Text → Text
dotted s = map (λ c. if c == b'/' then b'.' else c) s

-- The loop that counts the dimensions.
unfoldable pub dimensions : Text → ℕ
dimensions [] = 0
dimensions (c ∷ s) = let rest = dimensions s in if c == b'[' then suc rest else 0

-- What is left of a string from an index on.
abbrev pub drop : ℕ → Text → Text
drop zero s = s
drop (suc n) [] = []
drop (suc n) (c ∷ s) = drop n s

-- strings.TrimSuffix(s, ";").
unfoldable pub trim_semicolon : Text → Text
trim_semicolon [] = []
trim_semicolon (c ∷ []) = if c == b';' then [] else c ∷ []
trim_semicolon (c ∷ d ∷ s) = c ∷ trim_semicolon (d ∷ s)

-- The map primDescriptor.
unfoldable pub prim_descriptor : ℕ → Option Text
prim_descriptor c =
    if c == b'B'
    then some (text "byte")
    else if c == b'C'
    then some (text "char")
    else if c == b'D'
    then some (text "double")
    else if c == b'F'
    then some (text "float")
    else if c == b'I'
    then some (text "int")
    else if c == b'J'
    then some (text "long")
    else if c == b'S'
    then some (text "short")
    else if c == b'Z'
    then some (text "boolean")
    else none

-- strings.Repeat.
abbrev pub repeat : Text → ℕ → Text
repeat s zero = []
repeat s (suc n) = s ++ repeat s n

abbrev pub or_whole : Text → ℕ → Option Text → Text
or_whole s dims none = s
or_whole s dims (some prim) = prim ++ repeat (text "[]") dims

-- The switch on the element type.
unfoldable pub element_name : Text → ℕ → Text → Text
element_name s dims [] = s
element_name s dims (c ∷ elem) =
    if c == b'L'
    then trim_semicolon elem ++ repeat (text "[]") dims
    else or_whole s dims (prim_descriptor c)

-- Without a leading bracket there is no dimension.
unfoldable pub element_or_whole : Text → ℕ → Text
element_or_whole s zero = s
element_or_whole s (suc n) = element_name s (suc n) (drop (suc n) s)

unfoldable pub normalize_class_name : Text → Text
normalize_class_name s = element_or_whole (dotted s) (dimensions (dotted s))

-- argsOf: up to the first ")", or nothing.
abbrev pub with_byte : ℕ → Option Text → Option Text
with_byte c none = none
with_byte c (some s) = some (c ∷ s)

unfoldable pub up_to_paren : Text → Option Text
up_to_paren [] = none
up_to_paren (c ∷ s) =
    let rest = up_to_paren s in if c == b')' then some (c ∷ []) else with_byte c rest

unfoldable pub args_of : Text → Text
args_of sig = elim (up_to_paren sig) [ none ↦ [] | some s ↦ s ]

-- lineLabel, of the 32 bits of an int32; `print` is fmt.Sprint.
unfoldable pub line_label : (ℕ → Text) → ℕ → Text
line_label print line =
    if line == 2 ^ 32 - 1
    then text "unknown"
    else if line == 2 ^ 32 - 2
    then text "compiled"
    else if line == 2 ^ 32 - 3
    then text "native"
    else print line
