-- ===== src/Hprof/Names/Types.antt =====
-- The names of Java's types, as the JVM writes them and as the source does.
use rootforge.Prelude.{ℕ, zero, suc, ◌≡◌, refl, sym, ap, ◌∙◌, [], ◌∷◌, ◌++◌, ◌==◌, if◌then◌else◌}
use mathlib.Core.List.{append_assoc, append-nil}
use rootforge.Text.{Text, text}
use rootforge.Hprof.Names.{
  dotted, dimensions, drop, trim_semicolon, prim_descriptor, repeat, element_name, element_or_whole,
  normalize_class_name,
}

pub data Primitive : Type 0 where
  byte : Primitive
  char : Primitive
  double : Primitive
  float : Primitive
  int : Primitive
  long : Primitive
  short : Primitive
  boolean : Primitive

pub data JavaType : Type 0 where
  prim : Primitive → JavaType
  class_type : Text → JavaType
  array : JavaType → JavaType

abbrev pub letter : Primitive → ℕ
letter byte = b'B'
letter char = b'C'
letter double = b'D'
letter float = b'F'
letter int = b'I'
letter long = b'J'
letter short = b'S'
letter boolean = b'Z'

abbrev pub word : Primitive → Text
word byte = text "byte"
word char = text "char"
word double = text "double"
word float = text "float"
word int = text "int"
word long = text "long"
word short = text "short"
word boolean = text "boolean"

-- The JVM's descriptor of a type.
abbrev pub descriptor : JavaType → Text
descriptor (prim p) = letter p ∷ []
descriptor (class_type name) = b'L' ∷ name ++ text ";"
descriptor (array t) = b'[' ∷ descriptor t

-- The type in a Java source, where the packages have dots.
abbrev pub source_name : JavaType → Text
source_name (prim p) = word p
source_name (class_type name) = dotted name
source_name (array t) = source_name t ++ text "[]"

dotted-append : (s t : Text) → dotted (s ++ t) ≡ dotted s ++ dotted t
unfolding dotted
dotted-append [] t = refl
dotted-append (c ∷ s) t = ap (λ (r : Text). (if c == b'/' then b'.' else c) ∷ r) (dotted-append s t)

trim_semicolon-append : (s : Text) → trim_semicolon (s ++ text ";") ≡ s
unfolding trim_semicolon
trim_semicolon-append [] = refl
trim_semicolon-append (c ∷ []) = refl
trim_semicolon-append (c ∷ d ∷ s) = ap (λ (r : Text). c ∷ r) (trim_semicolon-append (d ∷ s))

repeat-last : (s : Text) (n : ℕ) → repeat s (suc n) ≡ repeat s n ++ s
repeat-last s zero = append-nil s
repeat-last s (suc n) =
    ap (λ (r : Text). s ++ r) (repeat-last s n) ∙ sym (append_assoc s (repeat s n) s)

-- The dimensions of a type, and what they are dimensions of.
abbrev depth : JavaType → ℕ
depth (prim p) = 0
depth (class_type name) = 0
depth (array t) = suc (depth t)

abbrev base : JavaType → JavaType
base (prim p) = prim p
base (class_type name) = class_type name
base (array t) = base t

dimensions-letter : (p : Primitive) → dimensions (dotted (letter p ∷ [])) ≡ 0
unfolding dimensions dotted
dimensions-letter byte = refl
dimensions-letter char = refl
dimensions-letter double = refl
dimensions-letter float = refl
dimensions-letter int = refl
dimensions-letter long = refl
dimensions-letter short = refl
dimensions-letter boolean = refl

dimensions-descriptor : (t : JavaType) → dimensions (dotted (descriptor t)) ≡ depth t
unfolding dimensions dotted
dimensions-descriptor (prim p) = dimensions-letter p
dimensions-descriptor (class_type name) = refl
dimensions-descriptor (array t) = ap suc (dimensions-descriptor t)

drop-descriptor :
    (t : JavaType) → drop (depth t) (dotted (descriptor t)) ≡ dotted (descriptor (base t))
unfolding dotted
drop-descriptor (prim p) = refl
drop-descriptor (class_type name) = refl
drop-descriptor (array t) = drop-descriptor t

source_name-base :
    (t : JavaType) → source_name t ≡ source_name (base t) ++ repeat (text "[]") (depth t)
source_name-base (prim p) = sym (append-nil (word p))
source_name-base (class_type name) = sym (append-nil (dotted name))
source_name-base (array t) =
    ap (λ (r : Text). r ++ text "[]") (source_name-base t)
    ∙ append_assoc (source_name (base t)) (repeat (text "[]") (depth t)) (text "[]")
    ∙ ap (λ (r : Text). source_name (base t) ++ r) (sym (repeat-last (text "[]") (depth t)))

element_name-letter :
    (s : Text) (n : ℕ) (p : Primitive)
    → element_name s n (dotted (letter p ∷ [])) ≡ word p ++ repeat (text "[]") n
unfolding element_name prim_descriptor dotted
element_name-letter s n byte = refl
element_name-letter s n char = refl
element_name-letter s n double = refl
element_name-letter s n float = refl
element_name-letter s n int = refl
element_name-letter s n long = refl
element_name-letter s n short = refl
element_name-letter s n boolean = refl

element_name-base :
    (s : Text) (n : ℕ) (t : JavaType)
    → element_name s n (dotted (descriptor (base t))) ≡ source_name (base t) ++ repeat (text "[]") n
unfolding element_name prim_descriptor dotted
element_name-base s n (prim p) = element_name-letter s n p
element_name-base s n (class_type name) =
    ap (λ (r : Text). r ++ repeat (text "[]") n)
      (ap trim_semicolon (dotted-append name (text ";"))
        ∙ (unfold dotted in trim_semicolon-append (dotted name)))
element_name-base s n (array t) = element_name-base s n t

-- normalizeClassName turns the JVM's descriptor of an array type into the name that a Java source
-- gives the type, for every primitive or class and any number of dimensions.
pub normalize_class_name-descriptor :
    (t : JavaType) → normalize_class_name (descriptor (array t)) ≡ source_name (array t)
unfolding normalize_class_name element_or_whole
normalize_class_name-descriptor t = rw (dimensions-descriptor (array t)) (
    ap (element_name (dotted (descriptor (array t))) (suc (depth t))) (drop-descriptor (array t))
    ∙ element_name-base (dotted (descriptor (array t))) (suc (depth t)) t
    ∙ sym (source_name-base (array t)))
