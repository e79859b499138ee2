-- ===== src/Crates/Sample/Json.antt =====
-- A JSON crate whose printer takes objects of strings, numbers and such objects: an entry is a tag, then the key
-- and what is printed of the value, each behind its length.
use guyos.Prelude.{
  ℕ, zero, suc, ◌≤◌, ◌≡◌, refl, sym, ap, ◌∙◌, Bool, Option, none, some, [], ◌∷◌, ◌++◌,
  if◌then◌else◌, arith, length, take, drop, take-append_length, drop-append_length, length-append,
}
use guyos.Text.{Text, text_eq}
use guyos.Crates.Json.{
  Value, null, bool, number, string, array, object, JsonTypes, IsPlain, SerdeJson,
}

-- A map is its insertions, the last one in front.
pub data Entries : Type 0 where
  none_yet : Entries
  put_null : Text → Entries → Entries
  put_bool : Text → Bool → Entries → Entries
  put_number : Text → ℕ → Entries → Entries
  put_string : Text → Text → Entries → Entries
  put_array : Text → Unit {0} → Entries → Entries
  put_object : Text → Entries → Entries → Entries

abbrev SampleValue : Type 0
SampleValue = Value ℕ (Unit {0}) Entries

abbrev put : Entries → Text → SampleValue → Entries
put m k null = put_null k m
put m k (bool b) = put_bool k b m
put m k (number n) = put_number k n m
put m k (string s) = put_string k s m
put m k (array a) = put_array k a m
put m k (object o) = put_object k o m

abbrev find : Entries → Text → Option SampleValue
find none_yet j = none
find (put_null k m) j = let rest = find m j in if text_eq k j then some null else rest
find (put_bool k b m) j = let rest = find m j in if text_eq k j then some (bool b) else rest
find (put_number k n m) j = let rest = find m j in if text_eq k j then some (number n) else rest
find (put_string k s m) j = let rest = find m j in if text_eq k j then some (string s) else rest
find (put_array k a m) j = let rest = find m j in if text_eq k j then some (array a) else rest
find (put_object k o m) j = let rest = find m j in if text_eq k j then some (object o) else rest

pub find-put :
    (m : Entries) (k j : Text) (v : SampleValue)
    → find (put m k v) j ≡ (if text_eq k j then some v else find m j)
find-put m k j null = refl
find-put m k j (bool b) = refl
find-put m k j (number n) = refl
find-put m k j (string s) = refl
find-put m k j (array a) = refl
find-put m k j (object o) = refl

abbrev print : Entries → Option Text
print (put_string k s m) = elim (print m) [
  | none ↦ none
  | some r ↦ some (0 ∷ length k ∷ (k ++ (length s ∷ (s ++ r))))
]
print (put_object k o m) = elim (print o) [
  | none ↦ none
  | some s ↦ elim (print m) [
    | none ↦ none
    | some r ↦ some (1 ∷ length k ∷ (k ++ (length s ∷ (s ++ r))))
  ]
]
print (put_number k n m) = elim (print m) [
  | none ↦ none
  | some r ↦ some (2 ∷ length k ∷ (k ++ (1 ∷ n ∷ r)))
]
print none_yet = some []
print m = none

abbrev print_value : SampleValue → Option Text
print_value (object m) = print m
print_value v = none

-- One string from behind its length, and what follows.
abbrev next : Text → Option (Text × Text)
next [] = none
next (n ∷ t) = some (take n t, drop n t)

-- The entry of this tag, key and printed value; `o` is what the value is as an object.
abbrev entry : ℕ → Text → Text → Option Entries → Entries → Option Entries
entry zero k s o m = some (put_string k s m)
entry (suc zero) k s none m = none
entry (suc zero) k s (some o) m = some (put_object k o m)
entry (suc (suc tag)) k [] o m = none
entry (suc (suc tag)) k (n ∷ s) o m = some (put_number k n m)

unfoldable pub read : ℕ → Text → Option Entries
read fuel [] = some none_yet
read zero (b ∷ t) = none
read (suc fuel) (tag ∷ []) = none
read (suc fuel) (tag ∷ b ∷ t) = elim (next (drop b t)) [
  | none ↦ none
  | some (s, t') ↦ elim (read fuel t') [
    | none ↦ none
    | some m ↦ entry tag (take b t) s (read fuel s) m
  ]
]

abbrev read_value : Text → Option SampleValue
read_value t = elim (read (length t) t) [ none ↦ none | some m ↦ some (object m) ]

module _ (fuel : ℕ) (k s r : Text) (m : Entries) (h : read fuel r ≡ some m) where
  read-entry :
      (tag : ℕ)
      → read (suc fuel) (tag ∷ length k ∷ (k ++ (length s ∷ (s ++ r))))
        ≡ entry tag k s (read fuel s) m
  unfolding read
  read-entry tag = ground (
    arith,
    take-append_length k (length s ∷ (s ++ r)),
    drop-append_length k (length s ∷ (s ++ r)),
    take-append_length s r,
    drop-append_length s r,
    h,
  )

print_string_inv :
    (k s : Text) (m : Entries) (t : Text)
    → print (put_string k s m) ≡ some t
    → (r : Text) × (print m ≡ some r) × (0 ∷ length k ∷ (k ++ (length s ∷ (s ++ r))) ≡ t)
print_string_inv k s m t h = ground arith

print_object_inv :
    (k : Text) (o m : Entries) (t : Text)
    → print (put_object k o m) ≡ some t
    → (s : Text) × (r : Text) × (print o ≡ some s)
      × (print m ≡ some r)
      × (1 ∷ length k ∷ (k ++ (length s ∷ (s ++ r))) ≡ t)
print_object_inv k o m t h = ground arith

print_number_inv :
    (k : Text) (n : ℕ) (m : Entries) (t : Text)
    → print (put_number k n m) ≡ some t
    → (r : Text) × (print m ≡ some r) × (2 ∷ length k ∷ (k ++ (1 ∷ n ∷ r)) ≡ t)
print_number_inv k n m t h = ground arith

entry-shorter :
    (tag : ℕ) (k s r t : Text) (fuel : ℕ)
    → tag ∷ length k ∷ (k ++ (length s ∷ (s ++ r))) ≡ t
    → length t ≤ fuel
    → (n : ℕ) × (fuel ≡ suc n) × (length s ≤ n) × (length r ≤ n)
entry-shorter tag k s r t zero e h = absurd (omega (arith, ap length e))
entry-shorter tag k s r t (suc n) e h = (
  n,
  refl,
  omega (arith, ap length e, length-append {0} k (length s ∷ (s ++ r)), length-append {0} s r),
  omega (arith, ap length e, length-append {0} k (length s ∷ (s ++ r)), length-append {0} s r),
)

read-print :
    (m : Entries) (t : Text) (fuel : ℕ) → print m ≡ some t → length t ≤ fuel → read fuel t ≡ some m
read-print none_yet t fuel h left = rw (printed h) (unfold read in refl)
  where
    printed : print none_yet ≡ some t → t ≡ []
    printed h = ground arith
read-print (put_string k s m) t fuel h left =
    let (r, e, t_eq) = print_string_inv k s m t h in
    let (n, fuel_eq, value, rest) = entry-shorter 0 k s r t fuel t_eq left in
    ap (read fuel) (sym t_eq)
    ∙ ap (λ f. read f (0 ∷ length k ∷ (k ++ (length s ∷ (s ++ r))))) fuel_eq
    ∙ read-entry n k s r m (read-print m r n e rest) 0
read-print (put_object k o m) t fuel h left =
    let (s, r, o_eq, e, t_eq) = print_object_inv k o m t h in
    let (n, fuel_eq, value, rest) = entry-shorter 1 k s r t fuel t_eq left in
    ap (read fuel) (sym t_eq)
    ∙ ap (λ f. read f (1 ∷ length k ∷ (k ++ (length s ∷ (s ++ r))))) fuel_eq
    ∙ read-entry n k s r m (read-print m r n e rest) 1
    ∙ ap (λ x. entry 1 k s x m) (read-print o s n o_eq value)
read-print (put_null k m) t fuel h left = absurd (ground arith)
read-print (put_bool k b m) t fuel h left = absurd (ground arith)
read-print (put_number k v m) t fuel h left =
    let (r, e, t_eq) = print_number_inv k v m t h in
    let (n, fuel_eq, value, rest) = entry-shorter 2 k (v ∷ []) r t fuel t_eq left in
    ap (read fuel) (sym t_eq)
    ∙ ap (λ f. read f (2 ∷ length k ∷ (k ++ (1 ∷ v ∷ r)))) fuel_eq
    ∙ read-entry n k (v ∷ []) r m (read-print m r n e rest) 2
read-print (put_array k a m) t fuel h left = absurd (ground arith)

abbrev sample_types : JsonTypes
sample_types = record {
  Number = ℕ;
  Array = Unit;
  Map = Entries;
  from_u32 = λ n. n;
  as_u64 = λ n. some n;
  elements = λ a. [];
  new_map = none_yet;
  get = find;
  insert = put;
  to_string = print_value;
  from_str = read_value;
}

pub read_value-print :
    (v : SampleValue) (t : Text)
    → IsPlain sample_types 127 v
    → print_value v ≡ some t
    → read_value t ≡ some v
read_value-print (object m) t plain h =
    rw (read_value, read-print m t (length t) h (omega arith)) refl
read_value-print null t plain h = absurd (ground arith)
read_value-print (bool b) t plain h = absurd (ground arith)
read_value-print (number n) t plain h = absurd (ground arith)
read_value-print (string s) t plain h = absurd (ground arith)
read_value-print (array a) t plain h = absurd (ground arith)

abbrev pub sample_json : SerdeJson
sample_json = record {
  types = sample_types;
  as_u64-from_u32 = λ n h. refl;
  get-new_map = λ k. refl;
  get-insert = find-put;
  from_str-to_string = read_value-print;
}
