-- ===== src/Casext/Refname/Regex.antt =====
-- The regular expressions that the package regexp runs: a matcher by derivatives, and the language
-- that it decides.
use umoci.Base.{
  ℕ, ◌≡◌, refl, sym, ap, ◌∙◌, ◌↔◌, inl, inr, Bool, true, false, ◌&&◌, ◌||◌, [], ◌∷◌, ◌++◌, Text,
  arith, Bool-cases, if◌then◌else◌,
}

pub data Regex : Type 0 where
  nothing empty : Regex
  one_of : (ℕ → Bool) → Regex
  either both : Regex → Regex → Regex
  star : Regex → Regex

-- r+
abbrev pub plus : Regex → Regex
plus r = both r (star r)

-- Whether the empty text matches.
unfoldable pub nullable : Regex → Bool
nullable nothing = false
nullable empty = true
nullable (one_of p) = false
nullable (either a b) = nullable a || nullable b
nullable (both a b) = nullable a && nullable b
nullable (star a) = true

-- What has to match the rest of a text that begins with `c`.
unfoldable pub derivative : ℕ → Regex → Regex
derivative c nothing = nothing
derivative c empty = nothing
derivative c (one_of p) = if p c then empty else nothing
derivative c (either a b) = either (derivative c a) (derivative c b)
derivative c (both a b) =
    let first = both (derivative c a) b in
    let second = derivative c b in if nullable a then either first second else first
derivative c (star a) = both (derivative c a) (star a)

-- Whether the whole text matches, as under `^` and `$`.
unfoldable pub is_match : Regex → Text → Bool
unfolding nullable derivative
is_match r [] = nullable r
is_match r (c ∷ s) = is_match (derivative c r) s

-- The language of an expression.
pub data Matches : Regex → Text → Type 0 where
  m_empty : Matches empty []
  m_one : {p : ℕ → Bool} (c : ℕ) → p c ≡ true → Matches (one_of p) (c ∷ [])
  m_left : {a b : Regex} {s : Text} → Matches a s → Matches (either a b) s
  m_right : {a b : Regex} {s : Text} → Matches b s → Matches (either a b) s
  m_both :
      {a b : Regex} {u : Text} (s t : Text)
      → Matches a s
      → Matches b t
      → u ≡ s ++ t
      → Matches (both a b) u
  m_done : {a : Regex} → Matches (star a) []
  m_more :
      {a : Regex} {u : Text} (c : ℕ) (s t : Text)
      → Matches a (c ∷ s)
      → Matches (star a) t
      → u ≡ c ∷ (s ++ t)
      → Matches (star a) u

nullable-Matches : (r : Regex) → nullable r ≡ true → Matches r []
unfolding nullable
nullable-Matches nothing h = cc
nullable-Matches empty h = m_empty
nullable-Matches (one_of p) h = cc
nullable-Matches (either a b) h = elim (Bool-cases (nullable a)) [
  | inl e ↦ m_left (nullable-Matches a e)
  | inr e ↦ m_right (nullable-Matches b (ground arith))
]
nullable-Matches (both a b) h =
    m_both [] [] (nullable-Matches a (ground arith)) (nullable-Matches b (ground arith)) refl
nullable-Matches (star a) h = m_done

append-eq-nil : (s t : Text) → [] ≡ s ++ t → (s ≡ []) × (t ≡ [])
append-eq-nil [] t h = (refl, sym h)
append-eq-nil (x ∷ s) t h = cc

Matches-nullable : (r : Regex) (u : Text) → Matches r u → u ≡ [] → nullable r ≡ true
unfolding nullable
Matches-nullable r u (m_empty) e = refl
Matches-nullable r u (m_one c h) e = cc
Matches-nullable r u (m_left {a = a} {s = s} m) e = rw (Matches-nullable a s m e)
Matches-nullable r u (m_right {a = a} {b = b} {s = s} m) e =
    ground (arith, Matches-nullable b s m e)
Matches-nullable r u (m_both {a = a} {b = b} s t m n q) e =
    let (x, y) = append-eq-nil s t (sym e ∙ q) in
    rw (Matches-nullable a s m x, Matches-nullable b t n y)
Matches-nullable r u (m_done) e = refl
Matches-nullable r u (m_more c s t m n q) e = refl

-- A match of two parts, or of a repetition, taken apart.
both-split :
    {a b : Regex} {u : Text}
    → Matches (both a b) u
    → (s : Text) × (t : Text) × Matches a s × Matches b t × (u ≡ s ++ t)
both-split (m_both s t m n e) = (s, t, m, n, e)

none-nothing : {s : Text} → ¬ Matches nothing s
none-nothing m = elim m [ ]

empty-nil : {s : Text} → Matches empty s → s ≡ []
empty-nil m_empty = refl

-- A match of the derivative gives a match of the expression, form by form.
either-Extends :
    (c : ℕ) {a b d e : Regex} (s : Text)
    → ((t : Text) → Matches d t → Matches a (c ∷ t))
    → ((t : Text) → Matches e t → Matches b (c ∷ t))
    → Matches (either d e) s
    → Matches (either a b) (c ∷ s)
either-Extends c s f g (m_left m) = m_left (f _ m)
either-Extends c s f g (m_right m) = m_right (g _ m)

first-Extends :
    (c : ℕ) {a b d : Regex} (s : Text)
    → ((t : Text) → Matches d t → Matches a (c ∷ t))
    → Matches (both d b) s
    → Matches (both a b) (c ∷ s)
first-Extends c s f (m_both x y m n e) = m_both (c ∷ x) y (f x m) n (ap (λ (t : Text). c ∷ t) e)

star-Extends :
    (c : ℕ) {a d : Regex} (s : Text)
    → ((t : Text) → Matches d t → Matches a (c ∷ t))
    → Matches (both d (star a)) s
    → Matches (star a) (c ∷ s)
star-Extends c s f (m_both x y m n e) = m_more c x y (f x m) n (ap (λ (t : Text). c ∷ t) e)

second-Extends :
    (c : ℕ) {a b d e : Regex} (s : Text)
    → nullable a ≡ true
    → ((t : Text) → Matches d t → Matches a (c ∷ t))
    → ((t : Text) → Matches e t → Matches b (c ∷ t))
    → Matches (either (both d b) e) s
    → Matches (both a b) (c ∷ s)
second-Extends c s h f g (m_left m) = first-Extends c _ f m
second-Extends c {a} s h f g (m_right {s = t} m) =
    m_both [] (c ∷ t) (nullable-Matches a h) (g t m) refl

derivative_sound : (c : ℕ) (r : Regex) (s : Text) → Matches (derivative c r) s → Matches r (c ∷ s)
unfolding derivative
derivative_sound c nothing s m = absurd (none-nothing m)
derivative_sound c empty s m = absurd (none-nothing m)
derivative_sound c (one_of p) s m = elim (Bool-cases (p c)) [
  | inl e ↦ rw (empty-nil (rw e at m)) (m_one c e)
  | inr e ↦ absurd (none-nothing (rw e at m))
]
derivative_sound c (either a b) s m =
    either-Extends c s (derivative_sound c a) (derivative_sound c b) m
derivative_sound c (both a b) s m = elim (Bool-cases (nullable a)) [
  | inl e ↦ second-Extends c s e (derivative_sound c a) (derivative_sound c b) (rw e at m)
  | inr e ↦ first-Extends c s (derivative_sound c a) (rw e at m)
]
derivative_sound c (star a) s m = star-Extends c s (derivative_sound c a) m

cons-injective : {c d : ℕ} {s t : Text} → c ∷ s ≡ d ∷ t → (c ≡ d) × (s ≡ t)
cons-injective e = (cc, cc)

-- A match of two parts that begins with `c`, from the parts.
both-begin :
    (c : ℕ) (a b : Regex) (s x y : Text)
    → Matches a x
    → Matches b y
    → ((t : Text) → x ≡ c ∷ t → Matches (derivative c a) t)
    → ((t : Text) → y ≡ c ∷ t → Matches (derivative c b) t)
    → c ∷ s ≡ x ++ y
    → Matches (derivative c (both a b)) s
both-begin c a b s [] y m n f g e =
    unfold derivative in rw (Matches-nullable a [] m refl) (m_right (g s (sym e)))
both-begin c a b s (d ∷ x) y m n f g e =
    let (p, q) = cons-injective e in
    let begun = m_both x y (f x (ap (λ k. k ∷ x) (sym p))) n q in
    elim (Bool-cases (nullable a)) [
      | inl h ↦ unfold derivative in rw h (m_left begun)
      | inr h ↦ unfold derivative in rw h begun
    ]

derivative_complete :
    (c : ℕ) (r : Regex) (u s : Text) → Matches r u → u ≡ c ∷ s → Matches (derivative c r) s
unfolding derivative
derivative_complete c r u s m_empty e = cc
derivative_complete c r u s (m_one {p = p} d h) e =
    let (x, y) = cons-injective e in rw (← y) (rw (← x, h) m_empty)
derivative_complete c r u s (m_left m) e = m_left (derivative_complete c _ u s m e)
derivative_complete c r u s (m_right m) e = m_right (derivative_complete c _ u s m e)
derivative_complete c r u s (m_both {a = a} {b = b} x y m n q) e =
    both-begin c a b s x y m n (λ t. derivative_complete c a x t m)
      (λ t. derivative_complete c b y t n) (sym e ∙ q)
derivative_complete c r u s m_done e = cc
derivative_complete c r u s (m_more {a = a} d x y m n q) e =
    let (p, w) = cons-injective (sym e ∙ q) in
    let begun = derivative_complete c a (d ∷ x) x m (ap (λ k. k ∷ x) (sym p)) in
    m_both x y begun n w

-- The matcher accepts a text exactly when the text is in the language of the expression.
pub is_match_iff : (r : Regex) (s : Text) → (is_match r s ≡ true) ↔ Matches r s
unfolding is_match
is_match_iff r [] = (λ h. nullable-Matches r h, λ m. Matches-nullable r [] m refl)
is_match_iff r (c ∷ s) = (
  λ h. derivative_sound c r s ((is_match_iff (derivative c r) s).0 h),
  λ m. (is_match_iff (derivative c r) s).1 (derivative_complete c r (c ∷ s) s m refl),
)
