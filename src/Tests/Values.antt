-- ===== src/Tests/Values.antt =====
-- oci/casext/map.go: a manifest whose descriptors are replaced.
use umoci.Base.{
  ◌≡◌, refl, true, false, Bool, ◌&&◌, Option, none, some, String, List, [], ◌∷◌, str_eq, eq_iff,
  arith, map,
}
use umoci.Base.Int.{ℤ, pos, negsuc}
use umoci.Base.Result.{Returns}
use umoci.Image.{Descriptor}
use umoci.Hardening.Reader.{int_eq}
use umoci.Casext.Value.{Value, leaf, pointer, slice, struct, nil, cons, map_descriptors}
use umoci.Casext.ValueLaws.{descriptors_in, map_descriptors-descriptors_in}

abbrev is_nil {ℓ} : {A : Type ℓ} → List A → Bool
is_nil [] = true
is_nil (x ∷ xs) = false

abbrev is_none {ℓ} : {A : Type ℓ} → Option A → Bool
is_none none = true
is_none (some a) = false

is_nil-eq {ℓ} : {A : Type ℓ} (xs ys : List A) → is_nil xs ≡ true → is_nil ys ≡ true → xs ≡ ys
is_nil-eq [] [] h k = refl
is_nil-eq (x ∷ xs) ys h k = cc
is_nil-eq [] (y ∷ ys) h k = cc

is_none-eq {ℓ} : {A : Type ℓ} (x y : Option A) → is_none x ≡ true → is_none y ≡ true → x ≡ y
is_none-eq none none h k = refl
is_none-eq (some a) y h k = cc
is_none-eq none (some b) h k = cc

int_eq_sound : (x y : ℤ) → int_eq x y ≡ true → x ≡ y
int_eq_sound (pos m) (pos n) h = ground arith
int_eq_sound (negsuc m) (negsuc n) h = ground arith
int_eq_sound (pos m) (negsuc n) h = cc
int_eq_sound (negsuc m) (pos n) h = cc

-- No lists and no maps in the descriptor.
abbrev is_bare : Descriptor → Bool
is_bare d = is_nil d.urls && (is_none d.annotations && is_none d.platform)

-- Equality on such descriptors.
abbrev same : Descriptor → Descriptor → Bool
same a b =
    (is_bare a && is_bare b)
    && (str_eq a.media_type b.media_type && (str_eq a.digest b.digest && int_eq a.size b.size))

and_left : (x y : Bool) → (x && y) ≡ true → x ≡ true
and_left true y h = refl
and_left false y h = h

and_right : (x y : Bool) → (x && y) ≡ true → y ≡ true
and_right true y h = h
and_right false y h = cc

same_sound : (a b : Descriptor) → same a b ≡ true → a ≡ b
same_sound a b h =
    let bare =
      and_left (is_bare a && is_bare b)
        (str_eq a.media_type b.media_type && (str_eq a.digest b.digest && int_eq a.size b.size))
        h in
    let fields =
      and_right (is_bare a && is_bare b)
        (str_eq a.media_type b.media_type && (str_eq a.digest b.digest && int_eq a.size b.size))
        h in
    let l = and_left (is_bare a) (is_bare b) bare in
    let r = and_right (is_bare a) (is_bare b) bare in
    let l' = and_right (is_nil a.urls) (is_none a.annotations && is_none a.platform) l in
    let r' = and_right (is_nil b.urls) (is_none b.annotations && is_none b.platform) r in
    let media = (eq_iff a.media_type b.media_type).0 (
      and_left (str_eq a.media_type b.media_type) (str_eq a.digest b.digest && int_eq a.size b.size)
        fields) in
    let rest =
      and_right (str_eq a.media_type b.media_type)
        (str_eq a.digest b.digest && int_eq a.size b.size) fields in
    let digest =
      (eq_iff a.digest b.digest).0
        (and_left (str_eq a.digest b.digest) (int_eq a.size b.size) rest) in
    let size =
      int_eq_sound a.size b.size
        (and_right (str_eq a.digest b.digest) (int_eq a.size b.size) rest) in
    let urls =
      is_nil-eq a.urls b.urls
        (and_left (is_nil a.urls) (is_none a.annotations && is_none a.platform) l)
        (and_left (is_nil b.urls) (is_none b.annotations && is_none b.platform) r) in
    let notes =
      is_none-eq a.annotations b.annotations
        (and_left (is_none a.annotations) (is_none a.platform) l')
        (and_left (is_none b.annotations) (is_none b.platform) r') in
    let platform =
      is_none-eq a.platform b.platform (and_right (is_none a.annotations) (is_none a.platform) l')
        (and_right (is_none b.annotations) (is_none b.platform) r') in
    λ i. record {
      media_type = media i;
      digest = digest i;
      size = size i;
      urls = urls i;
      annotations = notes i;
      platform = platform i;
    }

abbrev layer : String → Descriptor
layer digest = record {
  media_type = "layer";
  digest = digest;
  size = pos 7;
  urls = [];
  annotations = none;
  platform = none;
}

-- A pointer to a manifest with two layers.
abbrev manifest : Value
manifest =
    pointer
      (struct "ispec" (cons (slice (cons (leaf (layer "a")) (cons (leaf (layer "b")) nil))) nil))

abbrev retype : Descriptor → Descriptor
retype d = record d { media_type = "layer+gzip" }

map_descriptors-descriptors_in_example :
    Returns
      (λ r. descriptors_in (λ p. true) r.0 ≡ map retype (descriptors_in (λ p. true) manifest))
      (map_descriptors same (λ p. true) (λ d s. (retype d, s)) manifest tt)
map_descriptors-descriptors_in_example =
    map_descriptors-descriptors_in same (λ p. true) same_sound retype manifest
