-- ===== src/Maps.antt =====
-- Go's `map[string]V` as an association list. A loop over a map sees its entries in the list's
-- order; Go leaves that order open, and no statement fixes it.
use mathlib.Core.Path.{subst₂}
use beacon_desk.Prelude.{
  ◌+◌, ◌≤◌, String, ◌≡◌, refl, Bool, true, false, ◌&&◌, ◌||◌, Option, none, some, List, [], ◌∷◌,
  arith, ◌==◌, eq_iff, if◌then◌else◌, length, string_test, inl, inr,
}

abbrev pub Map {ℓ} : Type ℓ → Type ℓ
Map V = List (String × V)

module _ {ℓ} {V : Type ℓ} where
  -- m[k]
  unfoldable pub lookup : String → Map V → Option V
  lookup k [] = none
  lookup k ((j, v) ∷ m) = if j == k then some v else lookup k m

  -- delete(m, k)
  unfoldable pub delete : String → Map V → Map V
  delete k [] = []
  delete k ((j, v) ∷ m) = let rest = delete k m in if j == k then rest else (j, v) ∷ rest

  -- m[k] = v
  unfoldable pub insert : String → V → Map V → Map V
  unfolding delete
  insert k v m = (k, v) ∷ delete k m

  pub lookup-delete :
      (k j : String) (m : Map V) → lookup j (delete k m) ≡ (if k == j then none else lookup j m)
  unfolding lookup delete
  lookup-delete k j [] = ground arith
  lookup-delete k j ((i, v) ∷ m) =
      ground (arith, lookup-delete k j m, eq_iff i k, eq_iff i j, eq_iff k j)

  pub lookup-insert :
      (k j : String) (v : V) (m : Map V)
      → lookup j (insert k v m) ≡ (if k == j then some v else lookup j m)
  unfolding lookup insert
  lookup-insert k j v m = ground (arith, lookup-delete k j m)

  -- No key stands twice.
  abbrev pub IsUnique : Map V → Type ℓ
  IsUnique [] = Unit
  IsUnique ((k, v) ∷ m) = (lookup k m ≡ none) × IsUnique m

  pub delete-IsUnique : (k : String) (m : Map V) → IsUnique m → IsUnique (delete k m)
  unfolding delete
  delete-IsUnique k [] u = tt
  delete-IsUnique k ((j, v) ∷ m) u = ground (arith, lookup-delete k j m, delete-IsUnique k m u.1)

  pub insert-IsUnique : (k : String) (v : V) (m : Map V) → IsUnique m → IsUnique (insert k v m)
  unfolding insert
  insert-IsUnique k v m u = ground (arith, lookup-delete k k m, eq_iff k k, delete-IsUnique k m u)

  -- `for k, v := range l { if p(v) { delete(m, k) } }`
  unfoldable pub delete_where : (V → Bool) → Map V → Map V → Map V
  delete_where p [] m = m
  delete_where p ((k, v) ∷ l) m = delete_where p l (if p v then delete k m else m)

  -- The entries of `l` under the key `j` for which the loop deletes `j`.
  unfoldable pub doomed : (V → Bool) → String → Map V → Bool
  doomed p j [] = false
  doomed p j ((k, v) ∷ l) = (p v && k == j) || doomed p j l

  pub lookup-delete_where :
      (p : V → Bool) (j : String) (l m : Map V)
      → lookup j (delete_where p l m) ≡ (if doomed p j l then none else lookup j m)
  unfolding delete_where doomed
  lookup-delete_where p j [] m = refl
  lookup-delete_where p j ((k, v) ∷ l) m =
      ground (arith, lookup-delete_where p j l (if p v then delete k m else m), lookup-delete k j m)

  pub delete_where-IsUnique :
      (p : V → Bool) (l m : Map V) → IsUnique m → IsUnique (delete_where p l m)
  unfolding delete_where
  delete_where-IsUnique p [] m u = u
  delete_where-IsUnique p ((k, v) ∷ l) m u =
      delete_where-IsUnique p l (if p v then delete k m else m)
        (ground (arith, delete-IsUnique k m u))

  doomed_of_lookup :
      (p : V → Bool) (j : String) (v : V) (m : Map V)
      → lookup j m ≡ some v
      → p v ≡ true
      → doomed p j m ≡ true
  unfolding lookup doomed
  doomed_of_lookup p j v [] e h = cc
  doomed_of_lookup p j v ((k, w) ∷ m) e h = ground (arith, doomed_of_lookup p j v m)

  not-doomed_of_none :
      (p : V → Bool) (j : String) (m : Map V) → lookup j m ≡ none → doomed p j m ≡ false
  unfolding lookup doomed
  not-doomed_of_none p j [] e = refl
  not-doomed_of_none p j ((k, w) ∷ m) e = ground (arith, not-doomed_of_none p j m)

  doomed-lookup :
      (p : V → Bool) (j : String) (v : V) (m : Map V)
      → IsUnique m
      → lookup j m ≡ some v
      → doomed p j m ≡ p v
  unfolding lookup doomed
  doomed-lookup p j v [] u e = cc
  doomed-lookup p j v ((k, w) ∷ m) u e =
      ground (arith, doomed-lookup p j v m u.1, not-doomed_of_none p j m, eq_iff k j)

  abbrev pub keep_unless : (V → Bool) → Option V → Option V
  keep_unless p none = none
  keep_unless p (some v) = if p v then none else some v

  -- The loop over a map itself removes exactly the entries that match.
  pub lookup-delete_where_self :
      (p : V → Bool) (j : String) (m : Map V)
      → IsUnique m
      → lookup j (delete_where p m m) ≡ keep_unless p (lookup j m)
  lookup-delete_where_self p j m u = split (lookup j m) refl
    where
      split :
          (o : Option V)
          → lookup j m ≡ o
          → lookup j (delete_where p m m) ≡ keep_unless p (lookup j m)
      split none e = ground (arith, lookup-delete_where p j m m)
      split (some v) e = ground (arith, lookup-delete_where p j m m, doomed-lookup p j v m u)

  -- Whatever is found after the loop does not match.
  pub delete_where_sound :
      (p : V → Bool) (j : String) (v : V) (m : Map V)
      → lookup j (delete_where p m m) ≡ some v
      → (lookup j m ≡ some v) × (p v ≡ false)
  delete_where_sound p j v m e =
      ground (arith, lookup-delete_where p j m m, doomed_of_lookup p j v m)

  pub length-delete-le : (k : String) (m : Map V) → length (delete k m) ≤ length m
  unfolding delete
  length-delete-le k [] = omega arith
  length-delete-le k ((j, v) ∷ m) = ground (arith, length-delete-le k m)

  pub length-insert-le : (k : String) (v : V) (m : Map V) → length (insert k v m) ≤ length m + 1
  unfolding insert
  length-insert-le k v m = omega (arith, length-delete-le k m)

  -- A property of every entry, by its key.
  abbrev pub Entries {κ} : (String → V → Type κ) → Map V → Type (ℓ ⊔ κ)
  Entries P m = (k : String) (v : V) → lookup k m ≡ some v → P k v

  pub Entries-delete {κ} :
      (P : String → V → Type κ) (k : String) (m : Map V) → Entries P m → Entries P (delete k m)
  Entries-delete P k m h j v e = h j v (ground (arith, lookup-delete k j m))

  pub Entries-delete_where {κ} :
      (P : String → V → Type κ) (p : V → Bool) (l m : Map V)
      → Entries P m
      → Entries P (delete_where p l m)
  Entries-delete_where P p l m h j v e = h j v (ground (arith, lookup-delete_where p j l m))

  pub Entries-insert {κ} :
      (P : String → V → Type κ) (k : String) (v : V) (m : Map V)
      → P k v
      → Entries P m
      → Entries P (insert k v m)
  Entries-insert P k v m here there j w e = elim (string_test k j) [
    | inl (same, t) ↦ subst₂ P same (ground (arith, lookup-insert k j v m)) here
    | inr (other, t) ↦ there j w (ground (arith, lookup-insert k j v m))
  ]
