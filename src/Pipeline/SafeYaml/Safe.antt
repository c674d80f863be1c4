-- ===== src/Pipeline/SafeYaml/Safe.antt =====
-- Values within the reader's bounds, and what `items.push` and `mapping[key] = …` keep of them.
use asterim.Prelude.{
  ℕ, suc, ◌-◌, ◌≤◌, String, Bool, true, false, ◌≡◌, refl, none, inl, inr, arith, if◌then◌else◌, leb,
  length, includes, str_eq, str_eq_comm, Bool-cases,
}
use asterim.Pipeline.Parser.Values.{
  YamlValue, text, number, boolean, null, sequence, mapping, YamlValues, nil, cons, YamlMapping,
  end, entry, member, values_of, keys_of,
}
use asterim.Pipeline.SafeYaml.Answers.{
  Answer, value, thrown, ◌>>=◌, ◌>>◌, throw_if, Problem, push, assign, max_yaml_collection_entries,
  refused_keys, out_of_fuel,
}

-- At most `n` collections stand within one another, none has too many entries, and the keys of a
-- mapping differ and are none of the refused ones.
abbrev mutual
  pub IsSafe : ℕ → YamlValue → Type 0
  IsSafe n (sequence vs) =
      (1 ≤ n) × (length (values_of vs) ≤ max_yaml_collection_entries) × AreSafe (n - 1) vs
  IsSafe n (mapping m) =
      (1 ≤ n) × (length (keys_of m) ≤ max_yaml_collection_entries) × HasSafe (n - 1) m
  IsSafe n v = Unit

  pub AreSafe : ℕ → YamlValues → Type 0
  AreSafe n nil = Unit
  AreSafe n (cons v vs) = IsSafe n v × AreSafe n vs

  pub HasSafe : ℕ → YamlMapping → Type 0
  HasSafe n end = Unit
  HasSafe n (entry k v rest) =
      (includes k refused_keys ≡ false) × (member k rest ≡ none) × IsSafe n v × HasSafe n rest

mutual
  pub IsSafe-mono : (n m : ℕ) (v : YamlValue) → n ≤ m → IsSafe n v → IsSafe m v
  IsSafe-mono n m (sequence vs) h s =
      (omega (arith, s.0), s.1, AreSafe-mono (n - 1) (m - 1) vs (omega arith) s.2)
  IsSafe-mono n m (mapping f) h s =
      (omega (arith, s.0), s.1, HasSafe-mono (n - 1) (m - 1) f (omega arith) s.2)
  IsSafe-mono n m (text t) h s = s
  IsSafe-mono n m (number t) h s = s
  IsSafe-mono n m (boolean t) h s = s
  IsSafe-mono n m null h s = s

  AreSafe-mono : (n m : ℕ) (vs : YamlValues) → n ≤ m → AreSafe n vs → AreSafe m vs
  AreSafe-mono n m nil h s = s
  AreSafe-mono n m (cons v vs) h s = (IsSafe-mono n m v h s.0, AreSafe-mono n m vs h s.1)

  HasSafe-mono : (n m : ℕ) (f : YamlMapping) → n ≤ m → HasSafe n f → HasSafe m f
  HasSafe-mono n m end h s = s
  HasSafe-mono n m (entry k v rest) h s =
      (s.0, s.1, IsSafe-mono n m v h s.2, HasSafe-mono n m rest h s.3)

pub push-AreSafe :
    (n : ℕ) (v : YamlValue) (vs : YamlValues) → IsSafe n v → AreSafe n vs → AreSafe n (push v vs)
unfolding push
push-AreSafe n v nil h s = (h, tt)
push-AreSafe n v (cons w ws) h s = (s.0, push-AreSafe n v ws h s.1)

pub length-push :
    (v : YamlValue) (vs : YamlValues) → length (values_of (push v vs)) ≡ suc (length (values_of vs))
unfolding push
length-push v nil = omega arith
length-push v (cons w ws) = omega (arith, length-push v ws)

pub member-assign-none :
    (j k : String) (v : YamlValue) (m : YamlMapping)
    → str_eq j k ≡ false
    → member j m ≡ none
    → member j (assign k v m) ≡ none
unfolding member assign
member-assign-none j k v end d h = ground (arith, str_eq_comm j k)
member-assign-none j k v (entry i w rest) d h = ground (arith, member-assign-none j k v rest d)

pub assign-HasSafe :
    (n : ℕ) (k : String) (v : YamlValue) (m : YamlMapping)
    → includes k refused_keys ≡ false
    → IsSafe n v
    → HasSafe n m
    → HasSafe n (assign k v m)
unfolding member assign
assign-HasSafe n k v end g h s = (g, refl, h, tt)
assign-HasSafe n k v (entry i w rest) g h s = elim (Bool-cases (str_eq i k)) [
  | inl same ↦ rw same (s.0, s.1, h, s.3)
  | inr other ↦
      rw other
        (s.0, member-assign-none i k v rest other s.1, s.2, assign-HasSafe n k v rest g h s.3)
]

pub length-assign :
    (k : String) (v : YamlValue) (m : YamlMapping)
    → length (keys_of (assign k v m)) ≤ suc (length (keys_of m))
unfolding assign
length-assign k v end = omega arith
length-assign k v (entry i w rest) = ground (arith, length-assign k v rest)

-- A problem of the document, not of the model's fuel.
abbrev pub IsRefusal : Problem → Type 0
IsRefusal out_of_fuel = ⊥
IsRefusal p = Unit

-- What was read is such, and enough fuel was given.
abbrev pub Meets : {A : Type 0} → (A → Type 0) → Answer A → Type 0
Meets P (value a) = P a
Meets P (thrown e) = IsRefusal e.problem

module _ {A : Type 0} (P Q : A → Type 0) where
  pub Meets-both : (a : Answer A) → Meets P a → Meets Q a → Meets (λ x. P x × Q x) a
  Meets-both (value x) h k = (h, k)
  Meets-both (thrown e) h k = h

module _ {A B : Type 0} (P : A → Type 0) (Q : B → Type 0) where
  pub Meets-bind :
      (a : Answer A) (f : A → Answer B)
      → Meets P a
      → ((x : A) → P x → Meets Q (f x))
      → Meets Q (a >>= f)
  Meets-bind (value x) f h k = k x h
  Meets-bind (thrown e) f h k = h

module _ {B : Type 0} (Q : B → Type 0) (m : Answer B) where
  pub Meets-throw_if :
      (b : Bool) (p : Problem) (line : ℕ)
      → IsRefusal p
      → (b ≡ false → Meets Q m)
      → Meets Q (throw_if b p line >> m)
  Meets-throw_if true p line r h = r
  Meets-throw_if false p line r h = h refl

  pub Meets-if :
      (b : Bool) (n : Answer B)
      → (b ≡ true → Meets Q m)
      → (b ≡ false → Meets Q n)
      → Meets Q (if b then m else n)
  Meets-if true n h k = h refl
  Meets-if false n h k = k refl

abbrev pub IsList : ℕ → YamlValues → Type 0
IsList n vs = (length (values_of vs) ≤ max_yaml_collection_entries) × AreSafe n vs

abbrev pub IsFields : ℕ → YamlMapping → Type 0
IsFields n m = (length (keys_of m) ≤ max_yaml_collection_entries) × HasSafe n m

has_room : (n : ℕ) → leb max_yaml_collection_entries n ≡ false → suc n ≤ max_yaml_collection_entries
has_room n h = ground arith

pub push-IsList :
    (n : ℕ) (v : YamlValue) (vs : YamlValues)
    → leb max_yaml_collection_entries (length (values_of vs)) ≡ false
    → IsSafe n v
    → IsList n vs
    → IsList n (push v vs)
push-IsList n v vs few h s =
    (omega (arith, length-push v vs, has_room _ few), push-AreSafe n v vs h s.1)

pub assign-IsFields :
    (n : ℕ) (k : String) (v : YamlValue) (m : YamlMapping)
    → leb max_yaml_collection_entries (length (keys_of m)) ≡ false
    → includes k refused_keys ≡ false
    → IsSafe n v
    → IsFields n m
    → IsFields n (assign k v m)
assign-IsFields n k v m few g h s =
    (omega (arith, length-assign k v m, has_room _ few), assign-HasSafe n k v m g h s.1)
