-- ===== src/Layer/Guarded.antt =====
-- oci/layer: what a program may do where the paths on the way are no symbolic links.
use umoci.Base.{◌≡◌, ◌⊎◌, inl, inr, ◌∷◌, Text}
use umoci.Base.Program.{Program, Respects, IsPreorder}
use umoci.Layer.Paths.{Components}
use umoci.Layer.Inside.{Near}

-- A relation of states, as that all outside of the root is the same, and `Real`: the path is in the root,
-- and neither it nor a path above it, as far as there is one, is a symbolic link.
module _ {S : Type 0} (R : S → S → Type 0) (Real : S → Components → Type 0) where
  -- The relation holds, and no path became a link or was led to one.
  abbrev pub Calm : S → S → Type 0
  Calm s t = R s t × ((p : Components) → Real s p → Real t p)

  -- The path is that of a real directory, or of something in one, which may be a link.
  abbrev pub At : Components → S → Type 0
  At p s = Real s p ⊎ ((c : Text) × (d : Components) × (p ≡ c ∷ d) × Real s d)

  pub near_At : (d p : Components) (s : S) → Near d p → Real s d → At p s
  near_At d p s (inl e) h = rw e (inl h)
  near_At d p s (inr (c, e)) h = inr (c, d, e, h)

  -- Where the condition holds before, the step is calm.
  abbrev pub Where : (S → Type 0) → S → S → Type 0
  Where Φ s t = Φ s → Calm s t

  -- Where the directory is real before, the relation holds and it is real behind the step.
  abbrev pub KeepsDir : Components → S → S → Type 0
  KeepsDir d s t = Real s d → R s t × Real t d

  module _ (Q : IsPreorder R) where
    pub Calm-IsPreorder : IsPreorder Calm
    Calm-IsPreorder = record {
      same = λ s. (Q.same s, λ p h. h);
      chain = λ f g. (Q.chain f.0 g.0, λ p h. g.1 p (f.1 p h));
    }

    pub Real-IsPreorder : (p : Components) → IsPreorder (Where (λ s. Real s p))
    Real-IsPreorder p = record {
      same = λ s h. Calm-IsPreorder.same s;
      chain = λ f g h. Calm-IsPreorder.chain (f h) (g ((f h).1 p h));
    }

    pub At-Calm : (p : Components) {s t : S} → Calm s t → At p s → At p t
    At-Calm p f (inl h) = inl (f.1 p h)
    At-Calm p f (inr (c, d, e, h)) = inr (c, d, e, f.1 d h)

    pub At-IsPreorder : (p : Components) → IsPreorder (Where (At p))
    At-IsPreorder p = record {
      same = λ s h. Calm-IsPreorder.same s;
      chain = λ f g h. Calm-IsPreorder.chain (f h) (g (At-Calm p (f h) h));
    }

    pub KeepsDir-IsPreorder : (d : Components) → IsPreorder (KeepsDir d)
    KeepsDir-IsPreorder d = record {
      same = λ s h. (Q.same s, h);
      chain = λ f g h. (Q.chain (f h).0 (g (f h).1).0, (g (f h).1).1);
    }

    -- A program that is calm where a directory is real keeps it.
    pub real_kept :
        {A : Type 0} (d : Components) (m : Program S A)
        → Respects (Where (λ s. Real s d)) m
        → Respects (KeepsDir d) m
    real_kept d m h s real = ((h s real).0, (h s real).1 d real)

    pub calm_kept :
        {A : Type 0} (d : Components) (m : Program S A) → Respects Calm m → Respects (KeepsDir d) m
    calm_kept d m h s real = ((h s).0, (h s).1 d real)
