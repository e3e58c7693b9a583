-- ===== src/Strings/Order.antt =====
-- The order of the keys, and maps whose entries stand in it.
use asabru_commons.Base.{
  ◌≡◌, refl, true, false, some, none, List, [], ◌∷◌, ◌++◌, Bytes, arith, str_eq, str_eq_iff,
  if◌then◌else◌, Bool-cases, inl, inr,
}
use asabru_commons.Strings.{str_ltb, map_set, map_find, map_erase}

-- What is less is not equal, and not greater.
pub str_ltb_asymm :
    (s t : Bytes) → str_ltb s t ≡ true → (str_ltb t s ≡ false) × (str_eq t s ≡ false)
unfolding str_ltb str_eq
str_ltb_asymm [] [] h = absurd (cc)
str_ltb_asymm (c ∷ s) [] h = absurd (cc)
str_ltb_asymm [] (d ∷ t) h = (refl, refl)
str_ltb_asymm (c ∷ s) (d ∷ t) h = ground (arith, str_ltb_asymm s t)

pub str_ltb_trans : (s t u : Bytes) → str_ltb s t ≡ true → str_ltb t u ≡ true → str_ltb s u ≡ true
unfolding str_ltb
str_ltb_trans s [] u h k = absurd (cc)
str_ltb_trans s (d ∷ t) [] h k = absurd (cc)
str_ltb_trans [] (d ∷ t) (e ∷ u) h k = refl
str_ltb_trans (c ∷ s) (d ∷ t) (e ∷ u) h k = ground (arith, str_ltb_trans s t u)

pub str_ltb_total : (s t : Bytes) → str_eq s t ≡ false → str_ltb s t ≡ false → str_ltb t s ≡ true
unfolding str_ltb str_eq
str_ltb_total [] [] h k = absurd (cc)
str_ltb_total [] (d ∷ t) h k = absurd (cc)
str_ltb_total (c ∷ s) [] h k = refl
str_ltb_total (c ∷ s) (d ∷ t) h k = ground (arith, str_ltb_total s t)

module _ {ℓ} {V : Type ℓ} where
  -- `key` is less than every key of the map.
  abbrev pub IsBelow : Bytes → List (Bytes × V) → Type 0
  IsBelow key [] = Unit
  IsBelow key ((k, v) ∷ m) = (str_ltb key k ≡ true) × IsBelow key m

  abbrev pub IsSorted : List (Bytes × V) → Type 0
  IsSorted [] = Unit
  IsSorted ((k, v) ∷ m) = IsBelow k m × IsSorted m

  -- Every key of the map is less than `key`.
  abbrev pub IsAbove : Bytes → List (Bytes × V) → Type 0
  IsAbove key [] = Unit
  IsAbove key ((k, v) ∷ m) = (str_ltb k key ≡ true) × IsAbove key m

module _ {ℓ} {V : Type ℓ} where
  IsBelow-trans :
      (j k : Bytes) (m : List (Bytes × V)) → str_ltb j k ≡ true → IsBelow k m → IsBelow j m
  IsBelow-trans j k [] h b = tt
  IsBelow-trans j k ((i, v) ∷ m) h b = (str_ltb_trans j k i h b.0, IsBelow-trans j k m h b.1)

  map_set-IsBelow :
      (j key : Bytes) (value : V) (m : List (Bytes × V))
      → str_ltb j key ≡ true
      → IsBelow j m
      → IsBelow j (map_set key value m)
  unfolding map_set
  map_set-IsBelow j key value [] h b = (h, tt)
  map_set-IsBelow j key value ((k, v) ∷ m) h b =
      let ih = map_set-IsBelow j key value m h b.1 in ground arith

  pub map_set-IsSorted :
      (key : Bytes) (value : V) (m : List (Bytes × V)) → IsSorted m → IsSorted (map_set key value m)
  unfolding map_set
  map_set-IsSorted key value [] s = (tt, tt)
  map_set-IsSorted key value ((k, v) ∷ m) s = elim (Bool-cases (str_eq key k)) [
    | inl same ↦ rw (same, (str_eq_iff key k).0 same) s
    | inr other ↦ elim (Bool-cases (str_ltb key k)) [
      | inl less ↦ rw (other, less) ((less, IsBelow-trans key k m less s.0), s)
      | inr more ↦
          rw (other, more)
            (
              map_set-IsBelow k key value m (str_ltb_total key k other more) s.0,
              map_set-IsSorted key value m s.1,
            )
    ]
  ]

  -- A key behind all others is entered at the end.
  pub map_set-IsAbove :
      (key : Bytes) (value : V) (m : List (Bytes × V))
      → IsAbove key m
      → map_set key value m ≡ m ++ (key, value) ∷ []
  unfolding map_set
  map_set-IsAbove key value [] a = refl
  map_set-IsAbove key value ((k, v) ∷ m) a =
      let (x, y) = str_ltb_asymm k key a.0 in rw (y, x, map_set-IsAbove key value m a.1)

  pub map_find_below : (k : Bytes) (m : List (Bytes × V)) → IsBelow k m → map_find k m ≡ none
  unfolding map_find
  map_find_below k [] b = refl
  map_find_below k ((j, v) ∷ m) b =
      let (x, y) = str_ltb_asymm k j b.0 in
      ground (arith, str_eq_iff k j, str_eq_iff j k, map_find_below k m b.1)

  -- The next key in order is behind the entries so far and the one before it.
  pub IsAbove-next :
      (k j : Bytes) (v : V) (m : List (Bytes × V))
      → IsAbove k m
      → str_ltb k j ≡ true
      → IsAbove j (m ++ (k, v) ∷ [])
  IsAbove-next k j v [] a h = (h, tt)
  IsAbove-next k j v ((i, w) ∷ m) a h = (str_ltb_trans i k j a.0 h, IsAbove-next k j v m a.1 h)

  -- A lookup after a write: the value written under its key, and what was there under any other.
  pub map_find-set :
      (key : Bytes) (value : V) (k : Bytes) (m : List (Bytes × V))
      → map_find k (map_set key value m) ≡ (if str_eq k key then some value else map_find k m)
  unfolding map_set map_find
  map_find-set key value k [] = refl
  map_find-set key value k ((j, v) ∷ m) =
      ground (arith, str_eq_iff key j, str_eq_iff k key, str_eq_iff k j, map_find-set key value k m)

  pub map_find-erase_ne :
      (key k : Bytes) (m : List (Bytes × V))
      → str_eq k key ≡ false
      → map_find k (map_erase key m) ≡ map_find k m
  unfolding map_erase map_find
  map_find-erase_ne key k [] h = refl
  map_find-erase_ne key k ((j, v) ∷ m) h =
      ground
        (arith, map_find-erase_ne key k m h, str_eq_iff key j, str_eq_iff k j, str_eq_iff k key)

  map_erase-IsBelow :
      (j key : Bytes) (m : List (Bytes × V)) → IsBelow j m → IsBelow j (map_erase key m)
  unfolding map_erase
  map_erase-IsBelow j key [] b = tt
  map_erase-IsBelow j key ((k, v) ∷ m) b = let ih = map_erase-IsBelow j key m b.1 in ground arith

  pub map_erase-IsSorted :
      (key : Bytes) (m : List (Bytes × V)) → IsSorted m → IsSorted (map_erase key m)
  unfolding map_erase
  map_erase-IsSorted key [] s = tt
  map_erase-IsSorted key ((k, v) ∷ m) s = elim (Bool-cases (str_eq key k)) [
    | inl same ↦ rw same s.1
    | inr other ↦ rw other (map_erase-IsBelow k key m s.0, map_erase-IsSorted key m s.1)
  ]

  -- An erased key is not found, and every other key keeps its value.
  pub map_find-erase :
      (key k : Bytes) (m : List (Bytes × V))
      → IsSorted m
      → map_find k (map_erase key m) ≡ (if str_eq k key then none else map_find k m)
  unfolding map_erase map_find
  map_find-erase key k [] s = ground arith
  map_find-erase key k ((j, v) ∷ m) s = ground (
    arith,
    str_eq_iff key j,
    str_eq_iff k key,
    str_eq_iff k j,
    map_find_below j m s.0,
    map_find-erase key k m s.1,
  )
