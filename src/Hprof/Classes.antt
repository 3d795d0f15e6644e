-- ===== src/Hprof/Classes.antt =====
-- readClassDump and skipObjectBody of heapdump/hprofx/hprof.go, and the header of a dump.
use rootforge.Prelude.{
  ℕ, zero, suc, ◌*◌, not, ◌&&◌, Option, none, some, List, [], ◌∷◌, ◌==◌, if◌then◌else◌,
}
use rootforge.Text.{Text}
use rootforge.Hprof.Reader.{
  Reader, Parsed, id, u1, u2, u4, unsigned, read_value, skip, type_size, ◌>>=◌,
}

pub record FieldDesc : Type 0 where
  pub name : Text
  pub typ : ℕ

-- An int32 is kept as its 32 bits, and a nil layout is `none`.
pub record ClassInfo : Type 0 where
  pub id : ℕ
  pub name : Text
  pub super : ℕ
  pub inst_size : ℕ
  pub fields : List FieldDesc
  pub statics : List ℕ
  pub layout : Option (List FieldDesc)

-- The maps Strings and Classes of Meta, which readClassDump uses; a missing string is empty.
pub record Meta : Type 0 where
  pub strings : ℕ → Text
  pub classes : ℕ → Option ClassInfo

-- The loop over the constant pool.
unfoldable pub read_pool : ℕ → Reader → Option Reader
unfolding unsigned read_value
read_pool zero d = some d
read_pool (suc n) d = u2 d >>= λ i. u1 i.1 >>= λ t. read_value t.0 t.1 >>= λ v. read_pool n v.1

abbrev pub kept : ℕ → ℕ → List ℕ → List ℕ
kept t v rest = if t == 2 && not (v == 0) then v ∷ rest else rest

-- The loop over the static fields.
unfoldable pub read_statics : ℕ → Reader → Parsed (List ℕ)
unfolding unsigned read_value
read_statics zero d = some ([], d)
read_statics (suc n) d = id d >>= λ i. u1 i.1 >>= λ t.
    read_value t.0 t.1 >>= λ v. read_statics n v.1 >>= λ rest. some (kept t.0 v.0 rest.0, rest.1)

-- The loop over the instance fields.
unfoldable pub read_fields : (ℕ → Text) → ℕ → Reader → Parsed (List FieldDesc)
unfolding unsigned
read_fields strings zero d = some ([], d)
read_fields strings (suc n) d = id d >>= λ i. u1 i.1 >>= λ t. read_fields strings n t.1 >>= λ rest.
    some (record { name = strings i.0; typ = t.0 } ∷ rest.0, rest.1)

abbrev pub class_or_new : ℕ → Option ClassInfo → ClassInfo
class_or_new id (some c) = c
class_or_new id none = record {
  id = id;
  name = [];
  super = 0;
  inst_size = 0;
  fields = [];
  statics = [];
  layout = none;
}

abbrev pub fields_unless :
    Option (List FieldDesc) → List FieldDesc → List FieldDesc → List FieldDesc
fields_unless none old new = new
fields_unless (some layout) old new = old

-- The writes to the class.
unfoldable pub update_class : ℕ → ℕ → List ℕ → List FieldDesc → ClassInfo → ClassInfo
update_class super inst_size statics fields c = record c {
  super = super;
  inst_size = inst_size;
  statics = statics;
  fields = fields_unless c.layout c.fields fields;
}

unfoldable pub put_class : ClassInfo → ℕ → Meta → Meta
put_class c id m = record m { classes = λ k. if k == id then some c else m.classes k }

-- readClassDump: the class, and the Meta with it.
unfoldable pub read_class_dump : Meta → Reader → Parsed (ClassInfo × Meta)
unfolding unsigned read_pool read_statics read_fields
read_class_dump m d = id d >>= λ id'. u4 id'.1 >>= λ serial. id serial.1 >>= λ super.
    id super.1 >>= λ loader. id loader.1 >>= λ signers. id signers.1 >>= λ domain.
    id domain.1 >>= λ r. id r.1 >>= λ s. u4 s.1 >>= λ size. u2 size.1 >>= λ pool.
    read_pool pool.0 pool.1 >>= λ d2. u2 d2 >>= λ ns. read_statics ns.0 ns.1 >>= λ statics.
    u2 statics.1 >>= λ nf. read_fields m.strings nf.0 nf.1 >>= λ fields.
    let c = update_class super.0 size.0 statics.0 fields.0 (class_or_new id'.0 (m.classes id'.0)) in
    some ((c, put_class c id'.0 m), fields.1)

abbrev pub sub_instance : ℕ
sub_instance = 0x21

abbrev pub sub_obj_array : ℕ
sub_obj_array = 0x22

abbrev pub sub_prim_array : ℕ
sub_prim_array = 0x23

-- skipObjectBody.
unfoldable pub skip_object_body : ℕ → Reader → Option Reader
unfolding unsigned skip type_size
skip_object_body sub d =
    if sub == sub_instance
    then (id d >>= λ o. u4 o.1 >>= λ s. id s.1 >>= λ c. u4 c.1 >>= λ n. skip n.0 n.1)
    else if sub == sub_obj_array
    then (id d >>= λ o. u4 o.1 >>= λ s. u4 s.1 >>= λ n. id n.1 >>= λ c. skip (n.0 * 8) c.1)
    else if sub == sub_prim_array
    then (id d >>= λ o.
        u4 o.1 >>= λ s. u4 s.1 >>= λ n. u1 n.1 >>= λ t. type_size t.0 >>= λ w. skip (n.0 * w) t.1)
    else none
