-- ===== src/Layer/PathLaws.antt =====
-- oci/layer: paths and the sets of them.
use umoci.Base.{
  ◌≡◌, refl, sym, ap, ◌∙◌, ◌⊎◌, inl, inr, Bool, true, false, ◌||◌, List, [], ◌∷◌, ◌++◌, Text,
  text_eq, text_eq_refl, text_eq_sound, Bool-cases, arith,
}
use umoci.FilePath.{turn, differ}
use umoci.Layer.Paths.{Components, same_path, is_member, climb_out, relative, rel_path}
use umoci.Layer.Entry.{ancestors}

pub same_path_refl : (p : Components) → same_path p p ≡ true
unfolding same_path
same_path_refl [] = refl
same_path_refl (c ∷ p) = rw (text_eq_refl c) (same_path_refl p)

pub same_path_sound : (p q : Components) → same_path p q ≡ true → p ≡ q
unfolding same_path
same_path_sound [] [] h = refl
same_path_sound [] (d ∷ q) h = cc
same_path_sound (c ∷ p) [] h = cc
same_path_sound (c ∷ p) (d ∷ q) h = elim (Bool-cases (text_eq c d)) [
  | inl e ↦ let tails = same_path_sound p q (rw e at h) in rw (text_eq_sound c d e, tails) refl
  | inr e ↦ ground (arith, e, h)
]

append_assoc : (p q r : Components) → (p ++ q) ++ r ≡ p ++ (q ++ r)
append_assoc [] q r = refl
append_assoc (c ∷ p) q r = ap (λ t. c ∷ t) (append_assoc p q r)

turn-append : (p q above : Components) → turn (p ++ q) above ≡ turn q (turn p above)
unfolding turn
turn-append [] q above = refl
turn-append (c ∷ p) q above = turn-append p q (c ∷ above)

turn_onto : (p above : Components) → turn p above ≡ turn p [] ++ above
unfolding turn
turn_onto [] above = refl
turn_onto (c ∷ p) above =
    turn_onto p (c ∷ above)
    ∙ sym (append_assoc (turn p []) (c ∷ []) above)
    ∙ ap (λ t. t ++ above) (sym (turn_onto p (c ∷ [])))

turn_back : (p above : Components) → turn (turn p above) [] ≡ turn above p
unfolding turn
turn_back [] above = refl
turn_back (c ∷ p) above = turn_back p (c ∷ above)

differ-append : (p q : Components) → differ p (p ++ q) ≡ ([], q)
unfolding differ
differ-append [] q = refl
differ-append (c ∷ p) q = rw (text_eq_refl c) (differ-append p q)

-- A path that stands above the root is the path relative to it.
pub rel_path-append : (root p : Components) → rel_path root (p ++ root) ≡ p
unfolding rel_path climb_out turn
rel_path-append root p =
    ap (λ t. relative (differ (turn root []) t))
      (turn-append p root [] ∙ turn_onto root (turn p []))
    ∙ ap relative (differ-append (turn root []) (turn p []))
    ∙ turn_back p []

pub append-inside : (p q root : Components) → (p ++ q) ++ root ≡ p ++ (q ++ root)
append-inside = append_assoc

-- What stands above the root is told by the path.
pub above_root : (root p q : Components) → p ++ root ≡ q ++ root → p ≡ q
above_root root p q e = sym (rel_path-append root p) ∙ ap (rel_path root) e ∙ rel_path-append root q

pub or_true : (b : Bool) → (b || true) ≡ true
or_true true = refl
or_true false = refl

pub is_member-append :
    (ps qs : List Components) (p : Components)
    → is_member (ps ++ qs) p ≡ (is_member ps p || is_member qs p)
unfolding is_member
is_member-append [] qs p = refl
is_member-append (r ∷ ps) qs p = elim (Bool-cases (same_path r p)) [
  | inl e ↦ rw e refl
  | inr e ↦ rw e (is_member-append ps qs p)
]

-- With a path, all of its ancestors are in the set, except for the root.
abbrev pub IsClosed : List Components → Type 0
IsClosed ps =
    (c : Text) (up : Components)
    → is_member ps (c ∷ up) ≡ true
    → (up ≡ []) ⊎ (is_member ps up ≡ true)

pub IsClosed-append : (ps qs : List Components) → IsClosed ps → IsClosed qs → IsClosed (ps ++ qs)
IsClosed-append ps qs hp hq c up h = elim (Bool-cases (is_member ps (c ∷ up))) [
  | inl e ↦ left (hp c up e)
  | inr e ↦ right (
      hq c up
        (sym (ap (λ b. b || is_member qs (c ∷ up)) e) ∙ sym (is_member-append ps qs (c ∷ up)) ∙ h))
]
  where
    left : (up ≡ []) ⊎ (is_member ps up ≡ true) → (up ≡ []) ⊎ (is_member (ps ++ qs) up ≡ true)
    left (inl e) = inl e
    left (inr e) = inr (rw (is_member-append ps qs up, e) refl)

    right : (up ≡ []) ⊎ (is_member qs up ≡ true) → (up ≡ []) ⊎ (is_member (ps ++ qs) up ≡ true)
    right (inl e) = inl e
    right (inr e) = inr (rw (is_member-append ps qs up, e) (or_true (is_member ps up)))

-- The suffixes of a path of a closed set are in it.
pub suffix-IsClosed :
    (ps : List Components)
    → IsClosed ps
    → (cs : Components) (c : Text) (up : Components) → is_member ps (cs ++ c ∷ up) ≡ true
    → is_member ps (c ∷ up) ≡ true
suffix-IsClosed ps h [] c up m = m
suffix-IsClosed ps h (d ∷ cs) c up m = elim (h d (cs ++ c ∷ up) m) [
  | inl e ↦ absurd (not_empty cs e)
  | inr e ↦ suffix-IsClosed ps h cs c up e
]
  where
    not_empty : (ds : Components) → ds ++ c ∷ up ≡ [] → ⊥
    not_empty [] e = cc
    not_empty (b ∷ ds) e = cc

pub ancestors-IsClosed : (p : Components) → IsClosed (ancestors p)
unfolding ancestors is_member
ancestors-IsClosed [] c up h = cc
ancestors-IsClosed (d ∷ p) c up h = elim (Bool-cases (same_path (d ∷ p) (c ∷ up))) [
  | inl e ↦ rw (same_path_tail d c p up e) (widen p (self p))
  | inr e ↦ widen up (ancestors-IsClosed p c up (rw e at h))
]
  where
    same_path_tail : (d c : Text) (p up : Components) → same_path (d ∷ p) (c ∷ up) ≡ true → up ≡ p
    same_path_tail d c p up e = elim (Bool-cases (text_eq d c)) [
      | inl f ↦ sym (same_path_sound p up (rw f at e))
      | inr f ↦ ground (arith, e, f)
    ]

    self : (q : Components) → (q ≡ []) ⊎ (is_member (ancestors q) q ≡ true)
    self [] = inl refl
    self (b ∷ q) = inr (rw (same_path_refl (b ∷ q)) refl)

    widen :
        (q : Components)
        → (q ≡ []) ⊎ (is_member (ancestors p) q ≡ true)
        → (q ≡ []) ⊎ (is_member (ancestors (d ∷ p)) q ≡ true)
    widen q (inl e) = inl e
    widen q (inr e) = inr (rw e (or_true (same_path (d ∷ p) q)))
