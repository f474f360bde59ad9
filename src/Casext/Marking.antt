-- ===== src/Casext/Marking.antt =====
-- oci/casext/walk.go: reachable finds the digests of the descriptors that paths lead to, and no other.
use umoci.Base.{
  ℕ, zero, suc, ◌≡◌, refl, ◌∙◌, sym, ◌⊎◌, inl, inr, Bool, String, List, [], ◌∷◌, All, Bool-cases,
}
use umoci.Base.Dict.{contains}
use umoci.Base.Errors.{GoError}
use umoci.Base.Result.{Result, ok, Result-cases}
use umoci.Image.{Descriptor}
use umoci.Casext.Value.{Value}
use umoci.Casext.Reach.{
  Marked, Listed, All-Listed, contains-cons, contains_self, contains_more, not-Marked-nil, Reach,
  here, next, children, mark, mark-new, mark-enter, reachable-mark,
}
use umoci.Casext.Walk.{Halt, walk_children, reachable}

module _ (same : Descriptor → Descriptor → Bool) (registered : String → Bool)
    (parseable : String → Bool) (fetch : Descriptor → Result GoError Value) where
  module _ (r : Descriptor) where
    -- The children of the descriptor are all in the set.
    abbrev pub Expanded : List String → Descriptor → Type 0
    Expanded t e =
        (cs : List Descriptor)
        → children same registered parseable fetch e ≡ ok cs
        → All (λ c. Marked t c.digest) cs

    -- What a walk from `s` to `t` has done, for the descriptors reachable from `r`.
    pub record Grows (s t : List String) : Type 0 where
      pub keeps : (x : String) → Marked s x → Marked t x
      pub closed :
          (e : Descriptor)
          → Reach same registered parseable fetch r e
          → Marked t e.digest
          → Marked s e.digest ⊎ Expanded t e
      pub sound :
          (x : String)
          → Marked t x
          → Marked s x
            ⊎ ((e : Descriptor) × Reach same registered parseable fetch r e × (e.digest ≡ x))

    Grows-refl : (s : List String) → Grows s s
    Grows-refl s = record { keeps = λ x m. m; closed = λ e v m. inl m; sound = λ x m. inl m }

    All-Marked :
        (cs : List Descriptor) {s t : List String}
        → Grows s t
        → All (λ c. Marked s c.digest) cs
        → All (λ c. Marked t c.digest) cs
    All-Marked [] g a = tt
    All-Marked (c ∷ cs) g a = (g.keeps c.digest a.0, All-Marked cs g a.1)

    Grows-trans : {s t u : List String} → Grows s t → Grows t u → Grows s u
    Grows-trans g h = record {
      keeps = λ x m. h.keeps x (g.keeps x m);
      closed = λ e v m. elim (h.closed e v m) [
        | inr done ↦ inr done
        | inl old ↦ elim (g.closed e v old) [
          | inl older ↦ inl older
          | inr done ↦ inr (λ cs q. All-Marked cs h (done cs q))
        ]
      ];
      sound = λ x m. elim (h.sound x m) [ inr found ↦ inr found | inl old ↦ g.sound x old ];
    }

    abbrev pub Step : Type 0
    Step = Descriptor → List String → Result Halt (List String)

    -- A step that marks its descriptor and all that it goes into.
    abbrev pub Marks : Step → Type 0
    Marks g =
        (c : Descriptor) (s t : List String)
        → Reach same registered parseable fetch r c
        → g c s ≡ ok t
        → Grows s t × Marked t c.digest

    walk_children-Marks :
        (g : Step)
        → Marks g
        → (cs : List Descriptor) (s t : List String)
        → All (Reach same registered parseable fetch r) cs
        → walk_children g cs s ≡ ok t
        → Grows s t × All (λ c. Marked t c.digest) cs
    unfolding walk_children
    walk_children-Marks g m [] s t v h = let e : s ≡ t = cc in (rw (← e) (Grows-refl s), tt)
    walk_children-Marks g m (c ∷ cs) s t v h = elim (Result-cases (g c s)) [
      | inl (u, e) ↦
          let first = m c s u v.0 e in
          let rest = walk_children-Marks g m cs u t v.1 (rw e at h) in
          (Grows-trans first.0 rest.0, (rest.0.keeps c.digest first.1, rest.1))
      | inr (x, e) ↦ cc
    ]

    -- Two descriptors of one digest, reached from `r`, have the same children.
    abbrev pub IsCoherent : Type 0
    IsCoherent =
        (d e : Descriptor)
        → Reach same registered parseable fetch r d
        → Reach same registered parseable fetch r e
        → d.digest ≡ e.digest
        → children same registered parseable fetch d ≡ children same registered parseable fetch e

    pub All-Reach :
        (d : Descriptor) (cs : List Descriptor)
        → Reach same registered parseable fetch r d
        → children same registered parseable fetch d ≡ ok cs
        → All (Reach same registered parseable fetch r) cs
    All-Reach d cs v e = go cs (λ c l. next cs v e l)
      where
        go :
            (ds : List Descriptor)
            → ((c : Descriptor) → Listed c ds → Reach same registered parseable fetch r c)
            → All (Reach same registered parseable fetch r) ds
        go [] f = tt
        go (c ∷ ds) f = (f c (inl refl), go ds (λ x l. f x (inr l)))

    -- A new descriptor whose children are gone into.
    Grows-new :
        IsCoherent
        → (d : Descriptor) (cs : List Descriptor) (s t : List String)
        → Reach same registered parseable fetch r d
        → children same registered parseable fetch d ≡ ok cs
        → Grows (d.digest ∷ s) t
        → All (λ c. Marked t c.digest) cs
        → Grows s t
    Grows-new coherent d cs s t v q g a = record {
      keeps = λ x m. g.keeps x (contains_more s d.digest x m);
      closed = λ e w m. elim (g.closed e w m) [
        | inr done ↦ inr done
        | inl old ↦ elim (contains-cons s d.digest e.digest old) [
          | inr older ↦ inl older
          | inl now ↦ inr (λ ds p.
              let same_children : cs ≡ ds = cc (coherent d e v w now) in rw (← same_children) a)
        ]
      ];
      sound = λ x m. elim (g.sound x m) [
        | inr found ↦ inr found
        | inl old ↦ elim (contains-cons s d.digest x old) [
          | inr older ↦ inl older
          | inl now ↦ inr (d, v, now)
        ]
      ];
    }

    pub mark-Marks : IsCoherent → (fuel : ℕ) → Marks (mark same registered parseable fetch fuel)
    mark-Marks coherent zero d s t v h = unfold mark in cc
    mark-Marks coherent (suc fuel) d s t v h = elim (Bool-cases (contains s d.digest)) [
      | inl old ↦ let e : s ≡ t = unfold mark in cc (old) in (rw (← e) (Grows-refl s), rw (← e) old)
      | inr new ↦ elim (Result-cases (children same registered parseable fetch d)) [
        | inr (x, e) ↦ cc (h, mark-new same registered parseable fetch fuel d s new, e)
        | inl (cs, e) ↦
            let below =
              walk_children-Marks (mark same registered parseable fetch fuel)
                (mark-Marks coherent fuel) cs (d.digest ∷ s) t (All-Reach d cs v e)
                (sym (mark-enter same registered parseable fetch fuel d cs s new e) ∙ h) in
            (
              Grows-new coherent d cs s t v e below.0 below.1,
              below.0.keeps d.digest (contains_self s d.digest),
            )
      ]
    ]

    -- In a coherent image, the digests that reachable returns for a root contain the digest of
    -- every descriptor that a descriptor path from the root leads to.
    pub reachable_complete :
        IsCoherent
        → (fuel : ℕ) (t : List String) (e : Descriptor)
        → reachable same registered parseable fetch fuel r ≡ ok t
        → Reach same registered parseable fetch r e
        → Marked t e.digest
    reachable_complete coherent fuel t e h v = follow v
      where
        done : Grows [] t × Marked t r.digest
        done =
            mark-Marks coherent fuel r [] t here
              (sym (reachable-mark same registered parseable fetch fuel r) ∙ h)

        expanded : (d : Descriptor) → Marked [] d.digest ⊎ Expanded t d → Expanded t d
        expanded d (inl m) = absurd (not-Marked-nil d.digest m)
        expanded d (inr x) = x

        follow : {d : Descriptor} → Reach same registered parseable fetch r d → Marked t d.digest
        follow here = done.1
        follow (next {e = x} {c = y} cs w q l) =
            All-Listed (λ c. Marked t c.digest) y cs
              (expanded x (done.0.closed x w (follow w)) cs q) l

    -- In a coherent image, each digest that reachable returns for a root is that of a descriptor
    -- that a descriptor path from the root leads to.
    pub reachable_sound :
        IsCoherent
        → (fuel : ℕ) (t : List String) (x : String)
        → reachable same registered parseable fetch fuel r ≡ ok t
        → Marked t x
        → (e : Descriptor) × Reach same registered parseable fetch r e × (e.digest ≡ x)
    reachable_sound coherent fuel t x h m =
        elim ((mark-Marks coherent fuel r [] t here
            (sym (reachable-mark same registered parseable fetch fuel r) ∙ h)).0.sound
          x m) [ inr found ↦ found | inl old ↦ absurd (not-Marked-nil x old) ]
