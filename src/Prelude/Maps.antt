-- ===== src/Prelude/Maps.antt =====
-- A JavaScript `Map` with string keys, as its entries in insertion order.
use Prim.Native.Nat.{ℕ, suc, ◌≤◌, ◌+◌}
use Prim.Native.String.{String}
use mathlib.Core.Path.{◌≡◌, refl, ap}
use mathlib.Core.Bool.{Bool, true, false}
use mathlib.Core.Option.{Option, none, some}
use mathlib.Core.Logic.{inl, inr}
use mathlib.Core.List.{List, [], ◌∷◌, map}
use native.Mathlib.Omega.{arith}
use asterim.Prelude.Tests.{
  str_eq, if◌then◌else◌, str_eq_iff, str_eq_refl, str_eq-cases, str_eq_comm, is_some, Bool-cases,
}
use mathlib.Core.Path.{subst}
use asterim.Prelude.Lists.{All, length}

abbrev pub Map {ℓ} : Type ℓ → Type ℓ
Map V = List (String × V)

module _ {ℓ} {V : Type ℓ} where
  unfoldable pub get : String → Map V → Option V
  get k [] = none
  get k ((j, v) ∷ m) = if str_eq j k then some v else get k m

  abbrev pub has : String → Map V → Bool
  has k m = is_some (get k m)

  -- `m.set(k, v)`: a key that is there keeps its place, a new one goes last.
  unfoldable pub put : String → V → Map V → Map V
  put k v [] = (k, v) ∷ []
  put k v ((j, w) ∷ m) = if str_eq j k then (j, v) ∷ m else (j, w) ∷ put k v m

  -- `m.delete(k)`.
  unfoldable pub delete : String → Map V → Map V
  delete k [] = []
  delete k ((j, w) ∷ m) = let rest = delete k m in if str_eq j k then rest else (j, w) ∷ rest

  abbrev pub keys : Map V → List String
  keys m = map (λ e. e.0) m

  pub get-put :
      (j k : String) (v : V) (m : Map V)
      → get j (put k v m) ≡ (if str_eq k j then some v else get j m)
  unfolding get put
  get-put j k v [] = refl
  get-put j k v ((i, w) ∷ m) = elim (str_eq-cases i k) [
    | inl e ↦ ground (arith, str_eq_iff i k, str_eq_iff i j, str_eq_iff k j)
    | inr n ↦ ground (arith, str_eq_iff i k, str_eq_iff i j, str_eq_iff k j, get-put j k v m)
  ]

  pub get-put_self : (k : String) (v : V) (m : Map V) → get k (put k v m) ≡ some v
  get-put_self k v m = rw (get-put k k v m, str_eq_refl k)

  pub get-delete :
      (j k : String) (m : Map V) → get j (delete k m) ≡ (if str_eq k j then none else get j m)
  unfolding get delete
  get-delete j k [] = ground arith
  get-delete j k ((i, w) ∷ m) =
      ground (arith, str_eq_iff i k, str_eq_iff i j, str_eq_iff k j, get-delete j k m)

  pub get-delete_self : (k : String) (m : Map V) → get k (delete k m) ≡ none
  get-delete_self k m = rw (get-delete k k m, str_eq_refl k)

  pub length-put : (k : String) (v : V) (m : Map V) → length (put k v m) ≤ suc (length m)
  unfolding put
  length-put k v [] = omega arith
  length-put k v ((j, w) ∷ m) = ground (arith, length-put k v m)

  pub length-delete : (k : String) (m : Map V) → length (delete k m) ≤ length m
  unfolding delete
  length-delete k [] = omega arith
  length-delete k ((j, w) ∷ m) = ground (arith, length-delete k m)

-- Every value of the map has the property.
module _ {ℓ κ} {V : Type ℓ} (P : V → Type κ) where
  abbrev pub AllValues : Map V → Type κ
  AllValues m = All (λ e. P e.1) m

  pub AllValues-put : (k : String) (v : V) (m : Map V) → P v → AllValues m → AllValues (put k v m)
  unfolding put
  AllValues-put k v [] p h = (p, tt)
  AllValues-put k v ((j, w) ∷ m) p (q, h) = elim (Bool-cases (str_eq j k)) [
    | inl e ↦ rw e (p, h)
    | inr e ↦ rw e (q, AllValues-put k v m p h)
  ]

  pub AllValues-delete : (k : String) (m : Map V) → AllValues m → AllValues (delete k m)
  unfolding delete
  AllValues-delete k [] h = tt
  AllValues-delete k ((j, w) ∷ m) (q, h) = elim (Bool-cases (str_eq j k)) [
    | inl e ↦ rw e (AllValues-delete k m h)
    | inr e ↦ rw e (q, AllValues-delete k m h)
  ]

  pub AllValues-get : (k : String) (m : Map V) {v : V} → AllValues m → get k m ≡ some v → P v
  unfolding get
  AllValues-get k [] h e = absurd (cc)
  AllValues-get k ((j, w) ∷ m) {v} (q, h) e = elim (Bool-cases (str_eq j k)) [
    | inl hit ↦ let same : w ≡ v = ground arith in subst P same q
    | inr miss ↦ AllValues-get k m h (rw miss at e)
  ]

abbrev pub one : Bool → ℕ
one true = 1
one false = 0

module _ {ℓ} {V : Type ℓ} where
  -- No key stands twice.
  abbrev pub IsKeyed : Map V → Type ℓ
  IsKeyed [] = Unit
  IsKeyed ((k, v) ∷ m) = (get k m ≡ none) × IsKeyed m

  pub put-IsKeyed : (k : String) (v : V) (m : Map V) → IsKeyed m → IsKeyed (put k v m)
  unfolding get put
  put-IsKeyed k v [] h = (refl, tt)
  put-IsKeyed k v ((j, w) ∷ m) (q, h) = elim (str_eq-cases j k) [
    | inl e ↦ rw (e, str_eq_refl k) (rw e at q, h)
    | inr n ↦ rw n (rw (get-put j k v m, str_eq_comm k j, n) q, put-IsKeyed k v m h)
  ]

  pub delete-IsKeyed : (k : String) (m : Map V) → IsKeyed m → IsKeyed (delete k m)
  unfolding get delete
  delete-IsKeyed k [] h = tt
  delete-IsKeyed k ((j, w) ∷ m) (q, h) = elim (str_eq-cases j k) [
    | inl e ↦ rw (e, str_eq_refl k) (delete-IsKeyed k m h)
    | inr n ↦ rw n (rw (get-delete j k m, str_eq_comm k j, n) q, delete-IsKeyed k m h)
  ]

  -- How many values pass a test.
  abbrev pub count_values : (V → Bool) → Map V → ℕ
  count_values p [] = 0
  count_values p ((k, v) ∷ m) = one (p v) + count_values p m

  pub count-put_new :
      (p : V → Bool) (k : String) (v : V) (m : Map V)
      → get k m ≡ none
      → count_values p (put k v m) ≡ one (p v) + count_values p m
  unfolding get put
  count-put_new p k v [] h = refl
  count-put_new p k v ((j, w) ∷ m) h = elim (Bool-cases (str_eq j k)) [
    | inl e ↦ absurd (ground arith)
    | inr n ↦ rw n (omega (arith, count-put_new p k v m (rw n at h)))
  ]

  -- A new value that passes the test as the old one did changes no count.
  pub count-put_same :
      (p : V → Bool) (k : String) (v w : V) (m : Map V)
      → get k m ≡ some w
      → p v ≡ p w
      → count_values p (put k v m) ≡ count_values p m
  unfolding get put
  count-put_same p k v w [] h e = absurd (cc)
  count-put_same p k v w ((j, u) ∷ m) h e = elim (Bool-cases (str_eq j k)) [
    | inl hit ↦ let same : u ≡ w = ground arith in rw (hit, e, same)
    | inr miss ↦ rw miss (ap (λ n. one (p u) + n) (count-put_same p k v w m (rw miss at h) e))
  ]

  delete_absent : (k : String) (m : Map V) → get k m ≡ none → delete k m ≡ m
  unfolding get delete
  delete_absent k [] h = refl
  delete_absent k ((j, w) ∷ m) h = elim (Bool-cases (str_eq j k)) [
    | inl e ↦ absurd (ground arith)
    | inr n ↦ rw n (ap (λ l. (j, w) ∷ l) (delete_absent k m (rw n at h)))
  ]

  pub count-delete :
      (p : V → Bool) (k : String) (v : V) (m : Map V)
      → IsKeyed m
      → get k m ≡ some v
      → count_values p m ≡ one (p v) + count_values p (delete k m)
  unfolding get delete
  count-delete p k v [] keyed h = absurd (cc)
  count-delete p k v ((j, w) ∷ m) (q, keyed) h = elim (str_eq-cases j k) [
    | inl e ↦
        let same : w ≡ v = ground (arith, str_eq_iff j k) in
        rw (e, str_eq_refl k, delete_absent k m (rw e at q), same) refl
    | inr n ↦ rw n (omega (arith, count-delete p k v m keyed (rw n at h)))
  ]
