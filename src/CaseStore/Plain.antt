-- ===== src/CaseStore/Plain.antt =====
-- Cloned Cases: to clone again changes nothing, and cloning a store's map gives the same map.
use rootforge.Prelude.{◌≡◌, refl, ap, ◌∙◌, Option, none, some, List, [], ◌∷◌, map}
use rootforge.Text.{Text}
use rootforge.Dict.{Dict, insert, copy, copy_into, Distinct}
use rootforge.Dict.Laws.{Entries}
use rootforge.Dict.Copy.{copy_lem, copy-Distinct}
use rootforge.Trigger.{Event, clone, clone_attributes}
use rootforge.Incident.{clone_incident}
use rootforge.Casefile.{Case, Cases, clone_case}
use rootforge.CaseStore.{clone_cases, clone_cases_into, copied}

clone_attributes_twice :
    (m : Option (Dict Text)) → clone_attributes (clone_attributes m) ≡ clone_attributes m
unfolding clone_attributes
clone_attributes_twice none = refl
clone_attributes_twice (some m) = ap some (copy_lem (copy m) (copy-Distinct m))

clone_twice : (e : Event) → clone (clone e) ≡ clone e
unfolding clone
clone_twice e = λ i. record e { attributes = clone_attributes_twice e.attributes i }

map-clone : (es : List Event) → map clone (map clone es) ≡ map clone es
map-clone [] = refl
map-clone (e ∷ es) = λ i. clone_twice e i ∷ map-clone es i

pub clone_case-clone_case : (c : Case) → clone_case (clone_case c) ≡ clone_case c
unfolding clone_case clone_incident
clone_case-clone_case c =
    λ i. record c { incident = record c.incident { events = map-clone c.incident.events i } }

-- A Case that its own clone is equal to, as every Case of a store.
abbrev pub IsPlain : Text → Case → Type 0
IsPlain k c = clone_case c ≡ c

-- What the two maps of a store are: no repeated keys, and cloned Cases.
pub record IsCloned (s : Cases) : Type 0 where
  pub distinct : Distinct s.by_id
  pub distinct_prints : Distinct s.open_by_print
  pub plain : Entries IsPlain s.by_id

clone_cases_into-copy_into :
    (t m : Dict Case) → Entries IsPlain m → clone_cases_into t m ≡ copy_into t m
unfolding clone_cases_into copy_into
clone_cases_into-copy_into t [] h = refl
clone_cases_into-copy_into t ((k, c) ∷ m) h =
    ap (λ (x : Case). clone_cases_into (insert k x t) m) h.0
    ∙ clone_cases_into-copy_into (insert k c t) m h.1

pub clone_cases_lem : (m : Dict Case) → Distinct m → Entries IsPlain m → clone_cases m ≡ m
unfolding clone_cases
clone_cases_lem m d h = clone_cases_into-copy_into [] m h ∙ unfold copy in copy_lem m d

pub copied_lem : (s : Cases) → IsCloned s → copied s ≡ s
unfolding copied
copied_lem s c = λ i. record {
  by_id = clone_cases_lem s.by_id c.distinct c.plain i;
  open_by_print = copy_lem s.open_by_print c.distinct_prints i;
}
