-- ===== src/Pipeline/SafeYaml/Fields.antt =====
-- Flat documents as fields: their mapping, their lines, and a reader on them.
use asterim.Prelude.{
  ℕ, suc, ◌≤◌, Bool, false, ◌≡◌, refl, inl, inr, ap, ◌∙◌, none, some, List, [], ◌∷◌, map, arith,
  String, leb, length, includes, str_eq, Bool-cases,
}
use asterim.Pipeline.Parser.Values.{YamlValue, text, YamlMapping, end, entry, member}
use asterim.Pipeline.SafeYaml.Answers.{value, assign, refused_keys, max_yaml_collection_entries}
use asterim.Pipeline.SafeYaml.Lines.{
  SafeYamlReader, count_indent, strip_return, skip_from, skip_ignorable,
}
use asterim.Pipeline.SafeYaml.PrintedLines.{Field, line_of, skip-line, line-Ends}
use asterim.Pipeline.SafeYaml.Safe.{member-assign-none}

abbrev pub fields_of : List Field → YamlMapping
fields_of [] = end
fields_of ((k, v) ∷ es) = entry k (text v) (fields_of es)

-- The keys differ and none of them is refused.
abbrev pub AreDistinct : List Field → Type 0
AreDistinct [] = Unit
AreDistinct ((k, v) ∷ es) =
    (includes k refused_keys ≡ false) × (member k (fields_of es) ≡ none) × AreDistinct es

-- No key of the fields is in the mapping.
abbrev pub Apart : YamlMapping → List Field → Type 0
Apart m [] = Unit
Apart m ((k, v) ∷ es) = (member k m ≡ none) × Apart m es

pub some-ne-none : (v : YamlValue) → some v ≡ none → ⊥
some-ne-none v h = cc

pub assign-Apart :
    (k v : String) (m : YamlMapping) (es : List Field)
    → Apart m es
    → member k (fields_of es) ≡ none
    → Apart (assign k (text v) m) es
unfolding member
assign-Apart k v m [] a h = tt
assign-Apart k v m ((j, w) ∷ es) a h = elim (Bool-cases (str_eq j k)) [
  | inl same ↦ absurd (some-ne-none (text w) (rw same at h))
  | inr other ↦
      (member-assign-none j k (text v) m other a.0, assign-Apart k v m es a.1 (rw other at h))
]

pub end-Apart : (es : List Field) → Apart end es
unfolding member
end-Apart [] = tt
end-Apart ((k, v) ∷ es) = (refl, end-Apart es)

-- The mapping with the fields behind it.
abbrev pub joined : YamlMapping → YamlMapping → YamlMapping
joined end m = m
joined (entry k v rest) m = entry k v (joined rest m)

pub assign_new :
    (k : String) (v : YamlValue) (m : YamlMapping)
    → member k m ≡ none
    → assign k v m ≡ joined m (entry k v end)
unfolding member assign
assign_new k v end h = refl
assign_new k v (entry j w rest) h = elim (Bool-cases (str_eq j k)) [
  | inl same ↦ absurd (some-ne-none w (rw same at h))
  | inr other ↦ rw other (ap (entry j w) (assign_new k v rest (rw other at h)))
]

pub joined_assoc : (a b c : YamlMapping) → joined (joined a b) c ≡ joined a (joined b c)
joined_assoc end b c = refl
joined_assoc (entry k v rest) b c = ap (entry k v) (joined_assoc rest b c)

pub joined-assign :
    (k v : String) (m : YamlMapping) (es : List Field)
    → member k m ≡ none
    → joined (assign k (text v) m) (fields_of es) ≡ joined m (fields_of ((k, v) ∷ es))
joined-assign k v m es h =
    ap (λ a. joined a (fields_of es)) (assign_new k (text v) m h)
    ∙ joined_assoc m (entry k (text v) end) (fields_of es)

abbrev pub lines_of : List Field → List String
lines_of es = map (λ e. line_of e "") es

pub count_indent-line : (e : Field) → count_indent (line_of e "") ≡ some 0
unfolding count_indent
count_indent-line e = refl

abbrev pub reader : ℕ → List String → Bool → Bool → SafeYamlReader
reader i ls started content = record {
  index = i;
  ahead = ls;
  saw_document_start = started;
  saw_content = content;
}

pub skip-lines :
    (e : Field) (ls : List String) (i : ℕ) (started content : Bool)
    → skip_ignorable (reader i (line_of e "" ∷ ls) started content)
      ≡ value (reader i (line_of e "" ∷ ls) started content)
unfolding skip_ignorable
skip-lines e ls i started content = skip-line e ls i started content

pub skip-end :
    (i : ℕ) (started content : Bool)
    → skip_ignorable (reader i [] started content) ≡ value (reader i [] started content)
unfolding skip_ignorable
skip-end i started content = refl

pub skip-done :
    (r : SafeYamlReader)
    → r.ahead ≡ []
    → skip_ignorable r ≡ value (reader r.index [] r.saw_document_start r.saw_content)
unfolding skip_ignorable
skip-done r h =
    ap (λ ls. skip_from ls r.index r.saw_document_start r.saw_content) h
    ∙ skip-end r.index r.saw_document_start r.saw_content

pub length-lines : (es : List Field) → length (lines_of es) ≡ length es
length-lines [] = refl
length-lines (e ∷ es) = ap (λ (n : ℕ). suc n) (length-lines es)

pub strip_return-lines : (es : List Field) → map strip_return (lines_of es) ≡ lines_of es
strip_return-lines [] = refl
strip_return-lines (e ∷ es) = rw ((line-Ends e).1, strip_return-lines es) refl

pub joined_end : (m : YamlMapping) → joined m end ≡ m
joined_end end = refl
joined_end (entry k v rest) = ap (entry k v) (joined_end rest)

pub has_room :
    (n : ℕ) → suc n ≤ max_yaml_collection_entries → leb max_yaml_collection_entries n ≡ false
has_room n h = ground arith
